-- ===== src/Convex/Complexity/LineIndex.antt =====
-- `buildLineIndex` and `lineOf`: the offsets at which lines start, and a binary search in them.
pub mod Search
use atdd_extensions.Base.{
  ℕ, zero, suc, ◌+◌, ◌-◌, ◌/◌, Bool, true, false, List, [], ◌∷◌, Option, none, some, ltb, leb, ◌==◌,
  if◌then◌else◌, Text, length, get_elem?,
}

-- `for (i …) if (text[i] === "\n") starts.push(i + 1)`
unfoldable pub newline_starts : ℕ → Text → List ℕ
newline_starts i [] = []
newline_starts i (c ∷ cs) =
    let rest = newline_starts (suc i) cs in if c == b'\n' then suc i ∷ rest else rest

unfoldable pub build_line_index : Text → List ℕ
unfolding newline_starts
build_line_index text = 0 ∷ newline_starts 0 text

-- `starts[mid] <= idx`, which is false where `starts[mid]` is `undefined`.
abbrev pub starts_by : List ℕ → ℕ → ℕ → Bool
starts_by starts mid idx = elim (get_elem? starts mid) [ none ↦ false | some s ↦ leb s idx ]

-- `while (lo < hi)`
unfoldable pub search : ℕ → List ℕ → ℕ → ℕ → ℕ → ℕ
search zero starts idx lo hi = lo
search (suc fuel) starts idx lo hi =
    let mid = (lo + hi + 1) / 2 in
    let right = search fuel starts idx mid hi in
    let left = search fuel starts idx lo (mid - 1) in
    if ltb lo hi then (if starts_by starts mid idx then right else left) else lo

unfoldable pub line_of : List ℕ → ℕ → ℕ
unfolding search
line_of starts idx = search (length starts) starts idx 0 (length starts - 1)

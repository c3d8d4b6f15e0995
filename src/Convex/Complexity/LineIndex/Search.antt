-- ===== src/Convex/Complexity/LineIndex/Search.antt =====
-- The binary search counts the newlines before an offset.
use atdd_extensions.Base.{
  ℕ, zero, suc, ◌+◌, ◌-◌, ◌/◌, ◌≤◌, ◌<◌, ◌≡◌, refl, false, List, [], ◌∷◌, arith, ltb, leb, ◌==◌,
  if◌then◌else◌, Text, length, take,
}
use atdd_extensions.Convex.Complexity.LineIndex.{
  newline_starts, build_line_index, starts_by, search, line_of,
}

abbrev pub newlines : Text → ℕ
newlines [] = 0
newlines (c ∷ cs) = (if c == b'\n' then 1 else 0) + newlines cs

length-newline_starts : (i : ℕ) (cs : Text) → length (newline_starts i cs) ≡ newlines cs
unfolding newline_starts
length-newline_starts i [] = refl
length-newline_starts i (c ∷ cs) = ground (arith, length-newline_starts (suc i) cs)

newlines-take : (n : ℕ) (cs : Text) → newlines (take n cs) ≤ newlines cs
newlines-take zero cs = omega arith
newlines-take (suc n) [] = omega arith
newlines-take (suc n) (c ∷ cs) = ground (arith, newlines-take n cs)

newline_starts-late :
    (i idx k : ℕ) (cs : Text) → idx ≤ i → starts_by (newline_starts i cs) k idx ≡ false
unfolding newline_starts
newline_starts-late i idx k [] h = refl
newline_starts-late i idx zero (c ∷ cs) h = ground (arith, newline_starts-late (suc i) idx zero cs)
newline_starts-late i idx (suc k) (c ∷ cs) h =
    ground (arith, newline_starts-late (suc i) idx k cs, newline_starts-late (suc i) idx (suc k) cs)

shift : (i j : ℕ) → i + suc j ≡ suc i + j
shift i j = omega arith

-- The k-th line break lies before an offset exactly if there are more than k before it.
starts_by-newline_starts :
    (i j k : ℕ) (cs : Text)
    → starts_by (newline_starts i cs) k (i + j) ≡ ltb k (newlines (take j cs))
unfolding newline_starts
starts_by-newline_starts i zero k [] = ground arith
starts_by-newline_starts i (suc j) k [] = ground arith
starts_by-newline_starts i zero k (c ∷ cs) =
    ground (arith, newline_starts-late i (i + 0) k (c ∷ cs))
starts_by-newline_starts i (suc j) zero (c ∷ cs) =
    ground (arith, starts_by-newline_starts (suc i) j zero cs, shift i j)
starts_by-newline_starts i (suc j) (suc k) (c ∷ cs) = ground (
  arith,
  starts_by-newline_starts (suc i) j k cs,
  starts_by-newline_starts (suc i) j (suc k) cs,
  shift i j,
)

search-eq :
    (fuel r : ℕ) (starts : List ℕ) (idx lo hi : ℕ)
    → ((k : ℕ) → starts_by starts k idx ≡ leb k r)
    → lo ≤ r
    → r ≤ hi
    → hi - lo < fuel
    → search fuel starts idx lo hi ≡ r
unfolding search
search-eq zero r starts idx lo hi tests l u f = absurd (omega arith)
search-eq (suc fuel) r starts idx lo hi tests l u f = ground (
  arith,
  tests ((lo + hi + 1) / 2),
  search-eq fuel r starts idx ((lo + hi + 1) / 2) hi tests,
  search-eq fuel r starts idx lo ((lo + hi + 1) / 2 - 1) tests,
)

-- `lineOf` on the index of a text gives the number of newlines before an offset, also past the end.
pub line_of-build_line_index :
    (text : Text) (idx : ℕ) → line_of (build_line_index text) idx ≡ newlines (take idx text)
unfolding line_of build_line_index
line_of-build_line_index text idx =
    search-eq (length (build_line_index text)) (newlines (take idx text)) (build_line_index text)
      idx 0 (length (build_line_index text) - 1) tests (omega arith)
      (omega (arith, length-newline_starts 0 text, newlines-take idx text)) (omega arith)
  where
    tests : (k : ℕ) → starts_by (build_line_index text) k idx ≡ leb k (newlines (take idx text))
    tests zero = ground arith
    tests (suc k) = ground (arith, starts_by-newline_starts 0 idx k text)

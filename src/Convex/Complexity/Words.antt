-- ===== src/Convex/Complexity/Words.antt =====
-- `prevWord`, `nameBefore` and `countParams`. An index that a backward loop leaves at `j`, which may
-- be -1, is here `j + 1`: the end of the text that is still to be read.
use atdd_extensions.Base.{
  ℕ, zero, suc, ◌-◌, Bool, true, false, not, ◌&&◌, ◌||◌, [], ◌∷◌, Option, none, ◌==◌, if◌then◌else◌,
  Text, codes, text_eq, one_of, is_space, is_ident, is_char, holds, get_elem?, slice, drop,
}
use atdd_extensions.Base.Int.{ℤ, pos, suc_ℤ, pred_ℤ, eq_ℤ}

-- `masked[end - 1]`
abbrev pub char_before : Text → ℕ → Option ℕ
char_before masked zero = none
char_before masked (suc k) = get_elem? masked k

-- `while (j >= 0 && p(masked[j])) j--`
unfoldable pub skip_back : (ℕ → Bool) → Text → ℕ → ℕ
skip_back p masked zero = zero
skip_back p masked (suc k) = elim (holds p (get_elem? masked k)) [
  | true ↦ skip_back p masked k
  | false ↦ suc k
]

unfoldable pub skip_run : (ℕ → Bool) → ℕ → Text → ℕ
skip_run p k [] = k
skip_run p k (c ∷ cs) = elim (p c) [ true ↦ skip_run p (suc k) cs | false ↦ k ]

-- `while (k < masked.length && p(masked[k])) k++`
unfoldable pub skip_forward : (ℕ → Bool) → Text → ℕ → ℕ
unfolding skip_run
skip_forward p masked k = skip_run p k (drop k masked)

pub record Word : Type 0 where
  pub word : Text
  pub start : ℕ

unfoldable pub prev_word : Text → ℕ → Word
unfolding skip_back
prev_word masked from_end =
    let end = skip_back is_space masked from_end in
    let start = skip_back is_ident masked end in
    record { word = slice masked start end; start = start }

-- The name that `= ` or `: ` in front of a signature gives it, past an `async`.
unfoldable pub name_before : Text → ℕ → Text
unfolding prev_word
name_before masked sig_start =
    let at_modifier = skip_back is_space masked sig_start in
    let mod_ = prev_word masked at_modifier in
    let j =
      if text_eq mod_.word (codes "async")
      then skip_back is_space masked mod_.start
      else at_modifier in
    let c = char_before masked j in
    if is_char b'=' c || is_char b':' c then (prev_word masked (j - 1)).word else []

-- `depth`, `count` and `seen` of `countParams`.
pub record Params : Type 0 where
  pub depth : ℤ
  pub count : ℕ
  pub seen : Bool

unfoldable pub params_step : Params → ℕ → Params
params_step s ch =
    if one_of (codes "([{") ch
    then record s { depth = suc_ℤ s.depth }
    else if one_of (codes ")]}") ch
    then record s { depth = pred_ℤ s.depth }
    else if ch == b',' && eq_ℤ s.depth (pos 0)
    then record s { count = suc s.count }
    else if not (is_space ch)
    then record s { seen = true }
    else s

unfoldable pub params_loop : Params → Text → Params
unfolding params_step
params_loop s [] = s
params_loop s (ch ∷ rest) = params_loop (params_step s ch) rest

unfoldable pub count_params : Text → ℕ
unfolding params_loop
count_params text =
    let s = params_loop (record { depth = pos 0; count = 0; seen = false }) text in
    if s.seen then suc s.count else 0

-- ===== src/Convex/Complexity/Brackets.antt =====
-- `matchBrace`, `matchParenFwd` and `matchParenBack`, which count a depth from a bracket on.
pub mod Balance
use atdd_extensions.Base.{
  ℕ, zero, suc, Bool, true, false, List, [], ◌∷◌, Option, none, some, ◌==◌, Text, length, take,
  drop,
}
use atdd_extensions.Base.Int.{ℤ, pos, suc_ℤ, pred_ℤ, eq_ℤ}
use mathlib.Core.List.{reverse}

-- The loop over `j`: `up` raises the depth, `down` lowers it and ends the loop at depth 0.
unfoldable pub match_from : ℕ → ℕ → ℤ → ℕ → Text → Option ℕ
match_from up down depth j [] = none
match_from up down depth j (ch ∷ rest) = elim (ch == up) [
  | true ↦ match_from up down (suc_ℤ depth) (suc j) rest
  | false ↦ elim (ch == down) [
    | true ↦ elim (eq_ℤ (pred_ℤ depth) (pos 0)) [
      | true ↦ some j
      | false ↦ match_from up down (pred_ℤ depth) (suc j) rest
    ]
    | false ↦ match_from up down depth (suc j) rest
  ]
]

unfoldable pub match_brace : Text → ℕ → Option ℕ
unfolding match_from
match_brace masked open_idx = match_from b'{' b'}' (pos 0) open_idx (drop open_idx masked)

unfoldable pub match_paren_fwd : Text → ℕ → Option ℕ
unfolding match_from
match_paren_fwd masked open_idx = match_from b'(' b')' (pos 0) open_idx (drop open_idx masked)

-- The loop downwards: `before` is the text up to and with `masked[j]`, its last character first.
unfoldable pub match_back : ℤ → Text → Option ℕ
match_back depth [] = none
match_back depth (ch ∷ before) = elim (ch == b')') [
  | true ↦ match_back (suc_ℤ depth) before
  | false ↦ elim (ch == b'(') [
    | true ↦ elim (eq_ℤ (pred_ℤ depth) (pos 0)) [
      | true ↦ some (length before)
      | false ↦ match_back (pred_ℤ depth) before
    ]
    | false ↦ match_back depth before
  ]
]

unfoldable pub match_paren_back : Text → ℕ → Option ℕ
unfolding match_back
match_paren_back masked close_idx = match_back (pos 0) (reverse (take (suc close_idx) masked))

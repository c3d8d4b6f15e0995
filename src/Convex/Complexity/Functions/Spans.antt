-- ===== src/Convex/Complexity/Functions/Spans.antt =====
-- The text between the braces that `matchBrace` pairs.
use mathlib.Core.Path.{subst₂, ap₂}
use atdd_extensions.Base.{
  ℕ, zero, suc, ◌+◌, ◌-◌, ◌≡◌, refl, sym, ap, subst, ◌∙◌, [], ◌∷◌, ◌++◌, some, arith, Text, length,
  length-append, get_elem?, drop, slice, append_assoc, take-append, drop-append,
}
use atdd_extensions.Convex.Complexity.Brackets.{match_brace}
use atdd_extensions.Convex.Complexity.Brackets.Balance.{Balanced, match_brace-some}

drop-past : (before : Text) (c : ℕ) (xs : Text) → drop (length before + 1) (before ++ c ∷ xs) ≡ xs
drop-past before c xs =
    let size : length before + 1 ≡ length (before ++ c ∷ []) =
      omega (arith, length-append before (c ∷ [])) in
    rw (size, ← append_assoc before (c ∷ []) xs) (drop-append (before ++ c ∷ []) xs)

slice-between :
    (before b after : Text) (c d : ℕ)
    → slice (before ++ c ∷ (b ++ d ∷ after)) (length before + 1) (length before + 1 + length b) ≡ b
slice-between before b after c d =
    let onwards = drop-past before c (b ++ d ∷ after) in
    let size : length before + 1 + length b - (length before + 1) ≡ length b = omega arith in
    rw (onwards, size) (take-append b (d ∷ after))

-- A text around one of its characters.
split-at :
    (t : Text) (i : ℕ) {c : ℕ}
    → get_elem? t i ≡ some c
    → (before rest : Text) × (t ≡ before ++ c ∷ rest) × (length before ≡ i)
split-at [] i h = cc
split-at (x ∷ t) zero h = ([], t, ground arith, refl)
split-at (x ∷ t) (suc i) h =
    let (before, rest, e, n) = split-at t i h in (x ∷ before, rest, ap (◌∷◌ x) e, ap suc n)

pub Balanced_between :
    (t : Text) (i j : ℕ)
    → get_elem? t i ≡ some b'{'
    → match_brace t i ≡ some j
    → Balanced b'{' b'}' (slice t (i + 1) j)
Balanced_between t i j o c =
    let (before, rest, e, n) = split-at t i o in
    let found = subst₂ (λ u k. match_brace u k ≡ some j) e (sym n) c in
    let (b, after, split, at_, balanced) = match_brace-some before rest j found in
    subst (Balanced b'{' b'}')
      (sym (slice-between before b after b'{' b'}')
        ∙ sym (
            ap₂ (λ u k. slice u (k + 1) j) (e ∙ ap (λ r. before ++ b'{' ∷ r) split) (sym n)
            ∙ ap (slice (before ++ b'{' ∷ (b ++ b'}' ∷ after)) (length before + 1)) at_))
      balanced

-- ===== src/Base/Sets.antt =====
-- Sets of texts as lists: membership by the Boolean test and as a proposition.
use Prim.Native.Nat.{◌≤◌}
use mathlib.Core.Path.{◌≡◌, refl, sym, ap, ◌∙◌}
use mathlib.Core.Logic.{◌↔◌, inl, inr}
use mathlib.Core.Bool.{Bool, true, false}
use mathlib.Core.List.{List, [], ◌∷◌}
use native.Mathlib.Omega.{arith}
use atdd_extensions.Base.Tests.{Bool-cases}
use atdd_extensions.Base.Lists.{In, keep, length}
use atdd_extensions.Base.Chars.{Text, text_eq, has_text}

pub text_eq_refl : (s : Text) → text_eq s s ≡ true
text_eq_refl [] = refl
text_eq_refl (x ∷ xs) = ground (arith, text_eq_refl xs)

pub text_eq-path : (s t : Text) → text_eq s t ≡ true → s ≡ t
text_eq-path [] [] h = refl
text_eq-path [] (y ∷ ys) h = cc
text_eq-path (x ∷ xs) [] h = cc
text_eq-path (x ∷ xs) (y ∷ ys) h = ground (arith, text_eq-path xs ys)

pub text_eq_iff : (s t : Text) → (text_eq s t ≡ true) ↔ (s ≡ t)
text_eq_iff s t = (text_eq-path s t, λ e. rw e (text_eq_refl t))

pub has_text_iff : (ws : List Text) (t : Text) → (has_text ws t ≡ true) ↔ In t ws
has_text_iff [] t = (λ h. cc, λ h. absurd h)
has_text_iff (w ∷ ws) t = (
  λ h. elim (Bool-cases (text_eq w t)) [
    | inl e ↦ inl (sym (text_eq-path w t e))
    | inr e ↦ inr ((has_text_iff ws t).0 (rw e at h))
  ],
  λ m. elim m [
    | inl e ↦ rw (e, text_eq_refl w)
    | inr r ↦ let later = (has_text_iff ws t).1 r in ground (arith, later)
  ],
)

keep-true :
    {A : Type 0} (p : A → Bool) (x : A) (xs : List A) → p x ≡ true → keep p (x ∷ xs) ≡ x ∷ keep p xs
keep-true p x xs h = rw (h, keep)

keep-false :
    {A : Type 0} (p : A → Bool) (x : A) (xs : List A) → p x ≡ false → keep p (x ∷ xs) ≡ keep p xs
keep-false p x xs h = rw (h, keep)

pub In-keep :
    {A : Type 0} (p : A → Bool) (xs : List A) (a : A) → In a (keep p xs) ↔ (In a xs × (p a ≡ true))
In-keep p [] a = (λ h. absurd h, λ h. h.0)
In-keep p (x ∷ xs) a = elim (Bool-cases (p x)) [
  | inl e ↦ rw (keep-true p x xs e) (
    λ h. elim h [
      | inl q ↦ (inl q, ap p q ∙ e)
      | inr m ↦ let r = (In-keep p xs a).0 m in (inr r.0, r.1)
    ],
    λ h. elim h.0 [ inl q ↦ inl q | inr m ↦ inr ((In-keep p xs a).1 (m, h.1)) ],
  )
  | inr e ↦ rw (keep-false p x xs e) (
    λ h. let r = (In-keep p xs a).0 h in (inr r.0, r.1),
    λ h. elim h.0 [ inl q ↦ let t = h.1 in cc (ap p q) | inr m ↦ (In-keep p xs a).1 (m, h.1) ],
  )
]

pub length-keep : {A : Type 0} (p : A → Bool) (xs : List A) → length (keep p xs) ≤ length xs
length-keep p [] = omega arith
length-keep p (x ∷ xs) = ground (arith, length-keep p xs)

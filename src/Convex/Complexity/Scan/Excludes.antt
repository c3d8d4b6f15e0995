-- ===== src/Convex/Complexity/Scan/Excludes.antt =====
-- What an exclusion excludes.
use atdd_extensions.Base.{
  ℕ, ◌≡◌, ◌⊎◌, inl, inr, refl, Bool, true, false, List, [], ◌∷◌, arith, Bool-cases, ◌==◌, Text,
  has_text, text_eq, any,
}
use atdd_extensions.Base.Paths.{split_on, grow_first, is_prefix, includes}
use atdd_extensions.Convex.Complexity.Scan.{is_excluded}

abbrev starts_segments : List Text → Text → Bool
starts_segments [] t = false
starts_segments (l ∷ ls) t = is_prefix t l

text_eq-prefix : (l t : Text) → text_eq l t ≡ true → is_prefix t l ≡ true
text_eq-prefix [] [] h = refl
text_eq-prefix [] (y ∷ ys) h = cc
text_eq-prefix (x ∷ xs) [] h = refl
text_eq-prefix (x ∷ xs) (y ∷ ys) h = ground (arith, text_eq-prefix xs ys)

grow_first-prefix :
    (rest : List Text) (c y : ℕ) (ys : Text)
    → starts_segments (grow_first c rest) (y ∷ ys) ≡ true
    → ((y == c) ≡ true) × ((starts_segments rest ys ≡ true) ⊎ (ys ≡ []))
unfolding grow_first
grow_first-prefix [] c y [] h = ground arith
grow_first-prefix [] c y (z ∷ ys) h = ground arith
grow_first-prefix (l ∷ ls) c y ys h = ground arith

-- The first segment of a text stands at its front.
prefix-first :
    (sep : ℕ) (path t : Text)
    → starts_segments (split_on sep path) t ≡ true
    → is_prefix t path ≡ true
unfolding split_on
prefix-first sep [] t h = h
prefix-first sep (c ∷ cs) [] h = refl
prefix-first sep (c ∷ cs) (y ∷ ys) h = elim (Bool-cases (c == sep)) [
  | inl e ↦ ground arith
  | inr e ↦
      let (same, tail) = grow_first-prefix (split_on sep cs) c y ys (ground arith) in
      elim tail [
        | inl first ↦ ground (arith, prefix-first sep cs ys first)
        | inr empty ↦ ground arith
      ]
]

grow_first-has :
    (rest : List Text) (c : ℕ) (t : Text)
    → has_text (grow_first c rest) t ≡ true
    → (starts_segments (grow_first c rest) t ≡ true) ⊎ (has_text rest t ≡ true)
unfolding grow_first
grow_first-has [] c t h = inl (text_eq-prefix (c ∷ []) t (ground arith))
grow_first-has (l ∷ ls) c t h = elim (Bool-cases (text_eq (c ∷ l) t)) [
  | inl e ↦ inl (text_eq-prefix (c ∷ l) t e)
  | inr e ↦ inr (ground arith)
]

includes-segment :
    (sep : ℕ) (path t : Text) → has_text (split_on sep path) t ≡ true → includes path t ≡ true
unfolding split_on
includes-segment sep [] [] h = refl
includes-segment sep [] (y ∷ ys) h = ground arith
includes-segment sep (c ∷ cs) [] h = refl
includes-segment sep (c ∷ cs) (y ∷ ys) h = elim (Bool-cases (c == sep)) [
  | inl e ↦ ground (arith, includes-segment sep cs (y ∷ ys))
  | inr e ↦ elim (grow_first-has (split_on sep cs) c (y ∷ ys) (ground arith)) [
    | inl first ↦ ground (arith, prefix-first sep (c ∷ cs) (y ∷ ys))
    | inr inside ↦ ground (arith, includes-segment sep cs (y ∷ ys) inside)
  ]
]

-- A path is excluded exactly if some fragment stands anywhere in it as a substring: that a whole
-- segment is one is the same test once more.
pub is_excluded-includes :
    (path : Text) (excludes : List Text)
    → is_excluded path excludes ≡ any (λ ex. includes path ex) excludes
unfolding is_excluded
is_excluded-includes path [] = refl
is_excluded-includes path (ex ∷ exs) =
    ground (arith, includes-segment b'/' path ex, is_excluded-includes path exs)

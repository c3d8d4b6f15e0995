-- ===== src/Base/Members.antt =====
-- What stands in the lists that loops build.
use mathlib.Core.Path.{◌≡◌, refl, sym, ap, subst, ◌∙◌}
use mathlib.Core.Logic.{◌↔◌, ◌⊎◌, inl, inr}
use mathlib.Core.Bool.{Bool, true, false}
use mathlib.Core.List.{List, [], ◌∷◌, map}
use atdd_extensions.Base.Tests.{Bool-cases}
use atdd_extensions.Base.Lists.{In, In-append, any}
use atdd_extensions.Base.Chars.{Text, has_text, text_eq}
use atdd_extensions.Base.Sets.{text_eq_iff}
use atdd_extensions.Base.Build.{concat_map, text_le, insert_text, sort_texts, unique_from, unique}

pub In-concat_map :
    {A B : Type 0} (f : A → List B) (xs : List A) (b : B)
    → In b (concat_map f xs) ↔ ((a : A) × In a xs × In b (f a))
In-concat_map f [] b = (λ h. absurd h, λ k. absurd k.1)
In-concat_map f (x ∷ xs) b = (
  λ h. elim ((In-append b (f x) (concat_map f xs)).0 h) [
    | inl m ↦ (x, inl refl, m)
    | inr m ↦ let (a, n, k) = (In-concat_map f xs b).0 m in (a, inr n, k)
  ],
  λ (a, n, k). (In-append b (f x) (concat_map f xs)).1 (elim n [
    | inl e ↦ inl (subst (λ y. In b (f y)) e k)
    | inr m ↦ inr ((In-concat_map f xs b).1 (a, m, k))
  ]),
)

pub any-true :
    {A : Type 0} (p : A → Bool) (xs : List A)
    → (any p xs ≡ true) ↔ ((a : A) × In a xs × (p a ≡ true))
any-true p [] = (λ h. cc, λ k. absurd k.1)
any-true p (x ∷ xs) =
    let rest = any-true p xs in
    elim (Bool-cases (p x)) [
      | inl e ↦ rw e (λ h. (x, inl refl, e), λ k. refl)
      | inr e ↦ rw e (
        λ h. let (a, m, k) = rest.0 h in (a, inr m, k),
        λ (a, m, k). elim m [ inl q ↦ let t = ap p q in cc | inr n ↦ rest.1 (a, n, k) ],
      )
    ]

In-insert_text : (t u : Text) (ts : List Text) → In u (insert_text t ts) ↔ ((u ≡ t) ⊎ In u ts)
unfolding insert_text
In-insert_text t u [] = (λ h. h, λ h. h)
In-insert_text t u (v ∷ vs) =
    let rest = In-insert_text t u vs in
    elim (Bool-cases (text_le t v)) [
      | inl e ↦ rw e (λ h. h, λ h. h)
      | inr e ↦ rw e (
        λ h. elim h [
          | inl q ↦ inr (inl q)
          | inr m ↦ elim (rest.0 m) [ inl q ↦ inl q | inr n ↦ inr (inr n) ]
        ],
        λ h. elim h [
          | inl q ↦ inr (rest.1 (inl q))
          | inr m ↦ elim m [ inl q ↦ inl q | inr n ↦ inr (rest.1 (inr n)) ]
        ],
      )
    ]

-- Sorting keeps what is in a list.
pub In-sort_texts : (u : Text) (ts : List Text) → In u (sort_texts ts) ↔ In u ts
unfolding sort_texts
In-sort_texts u [] = (λ h. h, λ h. h)
In-sort_texts u (t ∷ ts) =
    let here = In-insert_text t u (sort_texts ts) in
    let rest = In-sort_texts u ts in
    (
      λ h. elim (here.0 h) [ inl q ↦ inl q | inr m ↦ inr (rest.0 m) ],
      λ h. here.1 (elim h [ inl q ↦ inl q | inr m ↦ inr (rest.1 m) ]),
    )

In-unique_from :
    (seen : List Text) (u : Text) (ts : List Text)
    → has_text seen u ≡ false
    → In u (unique_from seen ts) ↔ In u ts
unfolding unique_from
In-unique_from seen u [] h = (λ m. m, λ m. m)
In-unique_from seen u (t ∷ ts) h = elim (Bool-cases (has_text seen t)) [
  | inl e ↦
      let rest = In-unique_from seen u ts h in
      rw e (
        λ m. inr (rest.0 m),
        λ k. elim k [ inl q ↦ let there = ap (has_text seen) q in cc | inr m ↦ rest.1 m ],
      )
  | inr e ↦ elim (Bool-cases (text_eq t u)) [
    | inl q ↦ let same : u ≡ t = sym ((text_eq_iff t u).0 q) in rw e (λ m. inl same, λ k. inl same)
    | inr q ↦
        let fresh : has_text (t ∷ seen) u ≡ false = rw (q, h) in
        let rest = In-unique_from (t ∷ seen) u ts fresh in
        rw e (
          λ m. elim m [ inl k ↦ inl k | inr n ↦ inr (rest.0 n) ],
          λ m. elim m [ inl k ↦ inl k | inr n ↦ inr (rest.1 n) ],
        )
  ]
]

-- So does dropping what was there before.
pub In-unique : (u : Text) (ts : List Text) → In u (unique ts) ↔ In u ts
In-unique u ts = In-unique_from [] u ts refl

pub In-map :
    {A B : Type 0} (f : A → B) (xs : List A) (b : B)
    → In b (map f xs) ↔ ((a : A) × In a xs × (b ≡ f a))
In-map f [] b = (λ h. absurd h, λ k. absurd k.1)
In-map f (x ∷ xs) b =
    let rest = In-map f xs b in
    (
      λ h. elim h [ inl e ↦ (x, inl refl, e) | inr m ↦ let (a, n, e) = rest.0 m in (a, inr n, e) ],
      λ (a, n, e). elim n [ inl q ↦ inl (e ∙ ap f q) | inr m ↦ inr (rest.1 (a, m, e)) ],
    )

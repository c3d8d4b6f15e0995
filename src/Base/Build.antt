-- ===== src/Base/Build.antt =====
-- Lists that loops build, and what stands in them.
use mathlib.Core.Path.{◌≡◌, refl, sym, ap, ◌∙◌}
use mathlib.Core.Logic.{◌↔◌, ◌⊎◌, inl, inr}
use mathlib.Core.Bool.{Bool, true, false, not}
use mathlib.Core.List.{List, [], ◌∷◌, ◌++◌, map}
use mathlib.Core.Option.{Option, none, some}
use atdd_extensions.Base.Tests.{ltb, ◌==◌, if◌then◌else◌, Bool-cases}
use atdd_extensions.Base.Lists.{In, keep}
use atdd_extensions.Base.Chars.{Text, has_text}

-- `for (const x of xs) out.push(...f(x))`
abbrev pub concat_map : {A B : Type 0} → (A → List B) → List A → List B
concat_map f [] = []
concat_map f (x ∷ xs) = f x ++ concat_map f xs

-- `xs.length ? … : …` on what two loops gave, where one may have thrown.
abbrev pub then_all : {A : Type 0} → Option (List A) → Option (List A) → Option (List A)
then_all none ys = none
then_all (some xs) none = none
then_all (some xs) (some ys) = some (xs ++ ys)

-- The text order of `sort()`, by code units.
abbrev pub text_le : Text → Text → Bool
text_le [] t = true
text_le (x ∷ xs) [] = false
text_le (x ∷ xs) (y ∷ ys) = if x == y then text_le xs ys else ltb x y

unfoldable pub insert_text : Text → List Text → List Text
insert_text t [] = t ∷ []
insert_text t (u ∷ us) =
    let later = insert_text t us in if text_le t u then t ∷ u ∷ us else u ∷ later

-- `texts.sort()`
unfoldable pub sort_texts : List Text → List Text
unfolding insert_text
sort_texts [] = []
sort_texts (t ∷ ts) = insert_text t (sort_texts ts)

-- `[...new Set(texts)]`, with the texts that were there before.
unfoldable pub unique_from : List Text → List Text → List Text
unique_from seen [] = []
unique_from seen (t ∷ ts) =
    let rest = unique_from seen ts in
    let more = unique_from (t ∷ seen) ts in if has_text seen t then rest else t ∷ more

abbrev pub unique : List Text → List Text
unique = unique_from []

pub append-eq-nil : {A : Type 0} (xs ys : List A) → ((xs ++ ys) ≡ []) ↔ ((xs ≡ []) × (ys ≡ []))
append-eq-nil [] ys = (λ h. (refl, h), λ h. h.1)
append-eq-nil (x ∷ xs) ys = (λ h. cc, λ h. cc (h.0))

-- A loop pushes nothing exactly if no round does.
pub concat_map-eq-nil :
    {A B : Type 0} (f : A → List B) (xs : List A)
    → (concat_map f xs ≡ []) ↔ ((a : A) → In a xs → f a ≡ [])
concat_map-eq-nil f [] = (λ h a m. absurd m, λ h. refl)
concat_map-eq-nil f (x ∷ xs) =
    let parts = append-eq-nil (f x) (concat_map f xs) in
    let rest = concat_map-eq-nil f xs in
    (
      λ h a m. elim m [ inl e ↦ ap f e ∙ (parts.0 h).0 | inr n ↦ rest.0 (parts.0 h).1 a n ],
      λ h. parts.1 (h x (inl refl), rest.1 (λ a m. h a (inr m))),
    )

infixl 5 ◌>>=◌
abbrev pub ◌>>=◌ : {A B : Type 0} → Option A → (A → Option B) → Option B
none >>= f = none
some a >>= f = f a

-- A loop that pushes what each round gives, where a round may throw.
abbrev pub collect : {A B : Type 0} → (A → Option (List B)) → List A → Option (List B)
collect f [] = some []
collect f (x ∷ xs) = then_all (f x) (collect f xs)

pub some-inj : {A : Type 0} {x y : A} → ◌≡◌ {A = Option A} (some x) (some y) → x ≡ y
some-inj h = cc

pub then_all-some :
    {B : Type 0} (v w : Option (List B)) {bs : List B}
    → then_all v w ≡ some bs
    → (xs ys : List B) × (v ≡ some xs) × (w ≡ some ys) × (bs ≡ xs ++ ys)
then_all-some none w h = cc
then_all-some (some xs) none h = cc
then_all-some (some xs) (some ys) h = (xs, ys, refl, refl, sym (some-inj h))

pub collect-nil :
    {A B : Type 0} (f : A → Option (List B)) (xs : List A) {bs : List B}
    → collect f xs ≡ some bs
    → (bs ≡ []) ↔ ((a : A) → In a xs → f a ≡ some [])
collect-nil f [] h = (λ e a m. absurd m, λ k. cc)
collect-nil f (x ∷ xs) h =
    let (here, later, e, e', all) = then_all-some (f x) (collect f xs) h in
    let parts = append-eq-nil here later in
    let rest = collect-nil f xs e' in
    (
      λ q a m. elim m [
        | inl same ↦ ap f same ∙ e ∙ ap some (parts.0 (sym all ∙ q)).0
        | inr n ↦ rest.0 (parts.0 (sym all ∙ q)).1 a n
      ],
      λ k. all ∙ parts.1 (some-inj (sym e ∙ k x (inl refl)), rest.1 (λ a m. k a (inr m))),
    )

pub collect-each :
    {A B : Type 0} (f : A → Option (List B)) (xs : List A) {bs : List B}
    → collect f xs ≡ some bs
    → (a : A) → In a xs
    → (cs : List B) × (f a ≡ some cs)
collect-each f [] h a m = absurd m
collect-each f (x ∷ xs) h a m =
    let (here, later, e, e', all) = then_all-some (f x) (collect f xs) h in
    elim m [ inl q ↦ (here, ap f q ∙ e) | inr n ↦ collect-each f xs e' a n ]

pub then_all-none :
    {B : Type 0} (v w : Option (List B)) → (then_all v w ≡ none) ↔ ((v ≡ none) ⊎ (w ≡ none))
then_all-none none w = (λ h. inl refl, λ h. refl)
then_all-none (some xs) none = (λ h. inr refl, λ h. refl)
then_all-none (some xs) (some ys) = (λ h. cc, λ h. elim h [ inl e ↦ cc | inr e ↦ cc ])

-- The loop throws exactly if some round does.
pub collect-none :
    {A B : Type 0} (f : A → Option (List B)) (xs : List A)
    → (collect f xs ≡ none) ↔ ((a : A) × In a xs × (f a ≡ none))
collect-none f [] = (λ h. cc, λ k. absurd k.1)
collect-none f (x ∷ xs) =
    let parts = then_all-none (f x) (collect f xs) in
    let rest = collect-none f xs in
    (
      λ h. elim (parts.0 h) [
        | inl e ↦ (x, inl refl, e)
        | inr e ↦ let (a, m, k) = rest.0 e in (a, inr m, k)
      ],
      λ (a, m, k).
          parts.1 (elim m [ inl q ↦ inl (ap f (sym q) ∙ k) | inr n ↦ inr (rest.1 (a, n, k)) ]),
    )

pub map-eq-nil : {A B : Type 0} (f : A → B) (xs : List A) → (map f xs ≡ []) ↔ (xs ≡ [])
map-eq-nil f [] = (λ h. refl, λ h. refl)
map-eq-nil f (x ∷ xs) = (λ h. cc, λ h. cc)

pub keep-nil :
    {A : Type 0} (p : A → Bool) (xs : List A) → (keep p xs ≡ []) ↔ ((a : A) → In a xs → p a ≡ false)
keep-nil p [] = (λ h a m. absurd m, λ h. refl)
keep-nil p (x ∷ xs) = elim (Bool-cases (p x)) [
  | inl e ↦ rw (e, keep) (λ h. cc, λ h. let no_ = h x (inl refl) in cc)
  | inr e ↦
      let rest = keep-nil p xs in
      rw (e, keep)
        (
          λ h a m. elim m [ inl q ↦ ap p q ∙ e | inr n ↦ rest.0 h a n ],
          λ h. rest.1 (λ a m. h a (inr m)),
        )
]

pub not-false : (b : Bool) → (not b ≡ false) ↔ (b ≡ true)
not-false true = (λ h. refl, λ h. refl)
not-false false = (λ h. cc, λ h. cc)

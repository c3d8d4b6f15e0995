-- ===== src/Regex/Words.antt =====
-- Counting `\bword\b` counts the maximal runs of word characters that are this word.
use atdd_extensions.Base.{
  ℕ, zero, suc, ◌+◌, ◌-◌, ◌≤◌, ◌≡◌, ◌≢◌, refl, ap, ◌∙◌, Bool, true, false, not, ◌&&◌, [], ◌∷◌,
  Option, none, some, arith, ◌==◌, if◌then◌else◌, Bool-cases, ==_iff, inl, inr, Text, text_eq,
  is_word, holds, head?, take, length,
}
use atdd_extensions.Regex.{
  Cursor, Capture, Found, step_over, at_boundary, Regex, match_class, match_re, Match, exec_at,
  matches_from, count_matches, literal, whole_word,
}

-- The word characters at the front of a text.
abbrev pub lead : Text → Text
lead [] = []
lead (c ∷ cs) = if is_word c then c ∷ lead cs else []

abbrev at_word : Text → Bool → ℕ → Text → Bool
at_word w inside c cs = not inside && (is_word c && text_eq (lead (c ∷ cs)) w)

-- The number of maximal runs of word characters that are the given word; the flag says whether a
-- word character stands in front of the text.
abbrev pub occurrences : Text → Bool → Text → ℕ
occurrences w inside [] = 0
occurrences w inside (c ∷ cs) =
    (if at_word w inside c cs then 1 else 0) + occurrences w (is_word c) cs

abbrev pub AllWord : Text → Type 0
AllWord [] = Unit
AllWord (c ∷ cs) = (is_word c ≡ true) × AllWord cs

-- The place behind a literal, where it stands at a place.
abbrev after : Text → Cursor → Text → Option Cursor
after [] u t = some u
after (c ∷ cs) u [] = none
after (c ∷ cs) u (x ∷ xs) = if x == c then after cs (step_over x xs u) xs else none

abbrev continue_at : Option Cursor → (Cursor → Found) → Found
continue_at none k = none
continue_at (some v) k = k v

match_class-literal :
    (p : ℕ → Bool) (t : Text) (u : Cursor) (k : Cursor → Found)
    → match_class p t u k
      ≡ elim t [ [] ↦ none | x ∷ xs ↦ if p x then k (step_over x xs u) else none ]
unfolding match_class
match_class-literal p [] u k = refl
match_class-literal p (x ∷ xs) u k = refl

literal_step :
    (c : ℕ) (cs : Text) (u : Cursor) (t : Text) (k tail : Cursor → Found)
    → ((x : ℕ) (xs : Text)
        → tail (step_over x xs u) ≡ continue_at (after cs (step_over x xs u) xs) k)
    → ◌≡◌ {A = Found}
        (elim t [ [] ↦ none | x ∷ xs ↦ if x == c then tail (step_over x xs u) else none ])
        (continue_at (after (c ∷ cs) u t) k)
literal_step c cs u [] k tail h = refl
literal_step c cs u (x ∷ xs) k tail h = elim (Bool-cases (x == c)) [
  | inl e ↦ rw e (h x xs)
  | inr e ↦ rw e
]

match_re-literal :
    (w : Text) (u : Cursor) (g : Capture) (k : Cursor → Capture → Found)
    → match_re (literal w) u g k ≡ continue_at (after w u u.rest) (λ v. k v g)
unfolding match_re literal
match_re-literal [] u g k = refl
match_re-literal (c ∷ cs) u g k =
    match_class-literal (λ x. x == c) u.rest u (λ v. match_re (literal cs) v g k)
    ∙ literal_step c cs u u.rest (λ v. k v g) (λ v. match_re (literal cs) v g k)
        (λ x xs. match_re-literal cs (step_over x xs u) g k)

-- A word stands at a place with no word character behind it exactly if it is the run there.
lead-after :
    (w : Text) (u : Cursor) (t : Text)
    → AllWord w
    → u.rest ≡ t
    → text_eq (lead t) w
      ≡ elim (after w u t) [ none ↦ false | some v ↦ not (holds is_word (head? v.rest)) ]
lead-after [] u [] h e = rw e
lead-after [] u (c ∷ cs) h e = rw e (ground arith)
lead-after (x ∷ w) u [] h e = refl
lead-after (x ∷ w) u (c ∷ cs) h e = ground (arith, lead-after w (step_over c cs u) cs h.1 refl)

after-end :
    (w : Text) (u : Cursor) (t : Text) {v : Cursor}
    → AllWord w
    → after w u t ≡ some v
    → (v.index ≡ u.index + length w) × ((w ≢ []) → holds is_word v.before ≡ true)
after-end [] u t h e = (ground arith, λ ne. absurd (ne refl))
after-end (x ∷ w) u [] h e = cc
after-end (x ∷ []) u (c ∷ cs) h e = (ground arith, λ _. ground arith)
after-end (x ∷ y ∷ w) u (c ∷ cs) h e = elim (Bool-cases (c == x)) [
  | inl same ↦
      let (size, word) = after-end (y ∷ w) (step_over c cs u) cs h.1 (rw same at e) in
      (omega arith, λ _. word (λ q. cc))
  | inr differ ↦ absurd (cc (rw differ at e))
]

abbrev bounded : Cursor → Found
bounded v = if at_boundary v then some (v, []) else none

whole_word-open :
    (w : Text) (u : Cursor)
    → match_re (whole_word w) u [] (λ v g. some (v, g)) ≡ (
        if at_boundary u
        then match_re (literal w) u [] (λ v g. if at_boundary v then some (v, g) else none)
        else none)
unfolding match_re whole_word
whole_word-open w u = refl

whole_word-found :
    (w : Text) (u : Cursor)
    → match_re (whole_word w) u [] (λ v g. some (v, g))
      ≡ (if at_boundary u then continue_at (after w u u.rest) bounded else none)
whole_word-found w u =
    whole_word-open w u
    ∙ ap (λ r. if at_boundary u then r else none)
        (match_re-literal w u [] (λ v g. if at_boundary v then some (v, g) else none)
          ∙ unchanged (after w u u.rest))
  where
    unchanged :
        (o : Option Cursor)
        → continue_at o (λ v. if at_boundary v then some (v, []) else none) ≡ continue_at o bounded
    unchanged none = refl
    unchanged (some v) = refl

-- The match of a word of `size` characters at offset `i`.
abbrev word_match : ℕ → ℕ → Match
word_match i size = record { index = i; size = size; capture = [] }

to_match : ℕ → Found → Option Match
to_match i none = none
to_match i (some (v, g)) = some (record { index = i; size = v.index - i; capture = g })

exec_at-to_match :
    (r : Regex) (u : Cursor) → exec_at r u ≡ to_match u.index (match_re r u [] (λ v g. some (v, g)))
unfolding exec_at to_match
exec_at-to_match r u = by_cases (match_re r u [] (λ v g. some (v, g)))
  where
    by_cases :
        (f : Found)
        → ◌≡◌ {A = Option Match}
            (elim f [
              | none ↦ none
              | some (v, g) ↦
                  some (record { index = u.index; size = v.index - u.index; capture = g })
            ])
            (to_match u.index f)
    by_cases none = refl
    by_cases (some (v, g)) = refl

starting :
    (inside : Bool) (c : ℕ) (cs w : Text)
    → at_word w inside c cs ≡ true
    → (is_word c ≡ true) × (text_eq (lead (c ∷ cs)) w ≡ true)
starting inside c cs w h = split_and (not inside) (is_word c) _ h
  where
    split_and : (a b d : Bool) → (a && (b && d)) ≡ true → (b ≡ true) × (d ≡ true)
    split_and a b d e = ground arith

one_of_true : {b : Bool} → b ≡ true → ◌≡◌ {A = ℕ} (if b then 1 else 0) 1
one_of_true h = rw h

if_true : {A : Type 0} {b : Bool} (x y : A) → b ≡ true → (if b then x else y) ≡ x
if_true x y h = rw h

if_false : {A : Type 0} {b : Bool} (x y : A) → b ≡ false → (if b then x else y) ≡ y
if_false x y h = rw h

-- A run that is the word gives the characters that a match goes over.
lead-prefix :
    (w cs : Text)
    → text_eq (lead cs) w ≡ true
    → AllWord (take (length w) cs) × (length w ≤ length cs)
lead-prefix [] cs h = (tt, omega arith)
lead-prefix (x ∷ w) [] h = cc
lead-prefix (x ∷ w) (c ∷ cs) h = elim (Bool-cases (is_word c)) [
  | inl wc ↦
      let same : ((c == x) && text_eq (lead cs) w) ≡ true = rw wc at h in
      let (words, fits) = lead-prefix w cs (ground arith) in ((wc, words), omega arith)
  | inr other ↦ absurd (cc (rw other at h))
]

judge_run :
    (o : Option Cursor) (i n : ℕ) (lone : Bool)
    → ((v : Cursor) → o ≡ some v → (v.index ≡ i + n) × (holds is_word v.before ≡ true))
    → lone ≡ elim o [ none ↦ false | some v ↦ not (holds is_word (head? v.rest)) ]
    → to_match i (continue_at o bounded) ≡ (if lone then some (word_match i n) else none)
unfolding to_match
judge_run none i n lone end h = rw h
judge_run (some v) i n lone end h =
    let (size, before) = end v refl in
    elim (Bool-cases (holds is_word (head? v.rest))) [
      | inl more ↦ rw (h, before, more)
      | inr last ↦
          let width : v.index - i ≡ n = omega arith in
          rw (h, before, last) (ap (λ k. some (word_match i k)) width)
    ]

both : (a b : Bool) → (not a && b) ≡ true → (a ≡ false) × (b ≡ true)
both a b h = ground arith

and_assoc : (a b c : Bool) → (a && (b && c)) ≡ ((a && b) && c)
and_assoc a b c = ground arith

outside_word :
    (c : ℕ) (u : Cursor)
    → (not (holds is_word u.before) && is_word c) ≡ false
    → holds is_word u.before ≡ false
    → is_word c ≡ false
outside_word c u h o = ground arith

module _ (x : ℕ) (w : Text) (all : AllWord (x ∷ w)) where
  no_start :
      (c : ℕ) (cs : Text) (u : Cursor)
      → is_word c ≡ false
      → continue_at (after (x ∷ w) u (c ∷ cs)) bounded ≡ none
  no_start c cs u h = elim (Bool-cases (c == x)) [
    | inl same ↦ cc (h, all.0, (==_iff c x).0 same)
    | inr differ ↦ rw differ
  ]

  -- Inside a run, and where no run begins, no match starts.
  no_word :
      (u : Cursor) (c : ℕ) (cs : Text)
      → u.rest ≡ c ∷ cs
      → (not (holds is_word u.before) && is_word c) ≡ false
      → (if at_boundary u then continue_at (after (x ∷ w) u (c ∷ cs)) bounded else none) ≡ none
  no_word u c cs e h = elim (Bool-cases (holds is_word u.before)) [
    | inl inside ↦ elim (Bool-cases (is_word c)) [
      | inl wc ↦ rw (e, inside, wc)
      | inr wc ↦ rw (e, inside, wc) (no_start c cs u wc)
    ]
    | inr outside ↦ rw (e, outside, outside_word c u h outside)
  ]

  -- A run matches exactly if it is the word.
  run_word :
      (u : Cursor) (c : ℕ) (cs : Text)
      → u.rest ≡ c ∷ cs
      → to_match u.index (continue_at (after (x ∷ w) u (c ∷ cs)) bounded) ≡ (
          if text_eq (lead (c ∷ cs)) (x ∷ w)
          then some (word_match u.index (length (x ∷ w)))
          else none)
  unfolding to_match
  run_word u c cs e =
      judge_run (after (x ∷ w) u (c ∷ cs)) u.index (length (x ∷ w))
        (text_eq (lead (c ∷ cs)) (x ∷ w))
        (λ v found.
          let (size, word) = after-end (x ∷ w) u (c ∷ cs) all found in (size, word (λ q. cc)))
        (lead-after (x ∷ w) u (c ∷ cs) all e)

  -- At a character, `\bword\b` matches exactly if the word is a run that begins there.
  exec_at-whole_word :
      (b : Option ℕ) (i c : ℕ) (cs : Text)
      → exec_at (whole_word (x ∷ w)) (record { before = b; index = i; rest = c ∷ cs }) ≡ (
          if at_word (x ∷ w) (holds is_word b) c cs
          then some (word_match i (length (x ∷ w)))
          else none)
  exec_at-whole_word b i c cs =
      let u : Cursor = record { before = b; index = i; rest = c ∷ cs } in
      exec_at-to_match (whole_word (x ∷ w)) u
      ∙ ap (to_match i) (whole_word-found (x ∷ w) u)
      ∙ elim (Bool-cases (not (holds is_word b) && is_word c)) [
        | inl start ↦
            let (outside, wc) = both (holds is_word b) (is_word c) start in
            rw (outside, wc) (rw wc at (run_word u c cs refl))
        | inr no_ ↦
            ap (to_match i) (no_word u c cs refl no_)
            ∙ rw (and_assoc (not (holds is_word b)) (is_word c) _, no_) (unfold to_match in refl)
      ]

  exec_at-end :
      (b : Option ℕ) (i : ℕ)
      → exec_at (whole_word (x ∷ w)) (record { before = b; index = i; rest = [] }) ≡ none
  exec_at-end b i =
      let u : Cursor = record { before = b; index = i; rest = [] } in
      exec_at-to_match (whole_word (x ∷ w)) u
      ∙ ap (to_match i) (whole_word-found (x ∷ w) u)
      ∙ elim (Bool-cases (holds is_word b)) [
        | inl inside ↦ rw inside (unfold to_match in refl)
        | inr outside ↦ rw outside (unfold to_match in refl)
      ]

  -- The characters that a match skips belong to the run, where no further one begins.
  matches_from-occurrences :
      (skip : ℕ) (b : Option ℕ) (i : ℕ) (t : Text)
      → AllWord (take skip t)
      → skip ≤ length t
      → (skip ≢ 0 → holds is_word b ≡ true)
      → length (matches_from (whole_word (x ∷ w)) skip b i t)
        ≡ occurrences (x ∷ w) (holds is_word b) t
  unfolding matches_from
  matches_from-occurrences zero b i [] a n h = rw (exec_at-end b i, matches_from)
  matches_from-occurrences (suc skip) b i [] a n h = refl
  matches_from-occurrences (suc skip) b i (c ∷ cs) a n h =
      rw (h (λ e. cc)) (
        matches_from-occurrences skip (some c) (suc i) cs a.1 (omega arith) (λ _. a.0)
        ∙ omega arith)
  matches_from-occurrences zero b i (c ∷ cs) a n h =
      elim (Bool-cases (at_word (x ∷ w) (holds is_word b) c cs)) [
        | inl starts ↦
            let (wc, same) = starting (holds is_word b) c cs (x ∷ w) starts in
            let (words, fits) = lead-prefix (x ∷ w) (c ∷ cs) same in
            let found =
              exec_at-whole_word b i c cs
              ∙ if_true (some (word_match i (length (x ∷ w)))) none starts in
            let width : suc (length w) - 1 ≡ length w = omega arith in
            rw (found, matches_from, width)
              (omega (
                arith,
                matches_from-occurrences (length w) (some c) (suc i) cs words.1 (omega arith)
                    (λ _. wc),
                one_of_true starts,
              ))
        | inr no_ ↦
            let missed =
              exec_at-whole_word b i c cs
              ∙ if_false (some (word_match i (length (x ∷ w)))) none no_ in
            rw (missed, matches_from, no_)
              (matches_from-occurrences zero (some c) (suc i) cs tt (omega arith)
                  (λ q. absurd (q refl))
                ∙ omega arith)
      ]

-- For a word of word characters, `(text.match(/\bword\b/g) || []).length` is the number of maximal
-- runs of word characters of the text that are the word.
pub count_matches-whole_word :
    (w : Text)
    → w ≢ []
    → AllWord w
    → (t : Text) → count_matches (whole_word w) t ≡ occurrences w false t
unfolding count_matches
count_matches-whole_word [] ne all t = absurd (ne refl)
count_matches-whole_word (x ∷ w) ne all t =
    matches_from-occurrences x w all zero none 0 t tt (omega arith) (λ q. absurd (q refl))

-- ===== src/Convex/Complexity/Brackets/Balance.antt =====
-- The bracket that a search finds closes a balanced text.
use atdd_extensions.Base.{
  ℕ, zero, suc, ◌+◌, ◌≡◌, ◌≢◌, refl, sym, ap, subst, ◌∙◌, [], ◌∷◌, ◌++◌, some, arith, append_assoc,
  ◌==◌, Bool-cases, ==_iff, inl, inr, Text, length, length-append, drop, drop-append,
}
use atdd_extensions.Base.Int.{ℤ, pos}
use atdd_extensions.Convex.Complexity.Brackets.{match_from, match_brace, match_paren_fwd}

-- Texts in which every bracket has its partner.
pub data Balanced (up down : ℕ) : Text → Type 0 where
  nil : Balanced up down []
  other : {c : ℕ} {t : Text} → c ≢ up → c ≢ down → Balanced up down t → Balanced up down (c ∷ t)
  nest :
      {inner t : Text}
      → Balanced up down inner
      → Balanced up down t
      → Balanced up down (up ∷ (inner ++ down ∷ t))

-- Balanced texts with one closing bracket between each two.
data Closing (up down : ℕ) : ℕ → Text → Type 0 where
  last : {t : Text} → Balanced up down t → Closing up down 0 t
  more :
      {n : ℕ} {b t : Text}
      → Balanced up down b
      → Closing up down n t
      → Closing up down (suc n) (b ++ down ∷ t)

module _ (up down : ℕ) (differ : up ≢ down) where
  match_from-up :
      (d j : ℕ) (rest : Text)
      → match_from up down (pos d) j (up ∷ rest) ≡ match_from up down (pos (suc d)) (suc j) rest
  unfolding match_from
  match_from-up d j rest = ground arith

  match_from-down :
      (n j : ℕ) (rest : Text)
      → match_from up down (pos (suc (suc n))) j (down ∷ rest)
        ≡ match_from up down (pos (suc n)) (suc j) rest
  unfolding match_from
  match_from-down n j rest = ground arith

  match_from-last : (j : ℕ) (rest : Text) → match_from up down (pos 1) j (down ∷ rest) ≡ some j
  unfolding match_from
  match_from-last j rest = ground arith

  match_from-other :
      (z : ℤ) (j c : ℕ) (rest : Text)
      → c ≢ up
      → c ≢ down
      → match_from up down z j (c ∷ rest) ≡ match_from up down z (suc j) rest
  unfolding match_from
  match_from-other z j c rest p q = ground arith

  -- A balanced text leaves the depth as it is.
  match_from-Balanced :
      {b : Text} (n j k : ℕ) (rest : Text)
      → Balanced up down b
      → k ≡ j + length b
      → match_from up down (pos (suc n)) j (b ++ rest) ≡ match_from up down (pos (suc n)) k rest
  match_from-Balanced n j k rest nil e =
      ap (λ i. match_from up down (pos (suc n)) i rest) (omega arith)
  match_from-Balanced n j k rest (other {c} {t} p q h) e =
      match_from-other (pos (suc n)) j c (t ++ rest) p q
      ∙ match_from-Balanced n (suc j) k rest h (omega arith)
  match_from-Balanced n j k rest (nest {inner} {t} h b) e =
      match_from-up (suc n) j _
      ∙ rw append_assoc (
          match_from-Balanced (suc n) (suc j) (suc j + length inner) (down ∷ (t ++ rest)) h refl
          ∙ match_from-down n (suc j + length inner) (t ++ rest)
          ∙ match_from-Balanced n (suc (suc j + length inner)) k rest b
              (omega (arith, length-append inner (down ∷ t))))

  Closing-other :
      {n c : ℕ} {t : Text} → c ≢ up → c ≢ down → Closing up down n t → Closing up down n (c ∷ t)
  Closing-other p q (last b) = last (other p q b)
  Closing-other p q (more b t) = more (other p q b) t

  Closing-nest :
      {n : ℕ} {b t : Text}
      → Balanced up down b
      → Closing up down n t
      → Closing up down n (up ∷ (b ++ down ∷ t))
  Closing-nest h (last k) = last (nest h k)
  Closing-nest {b} h (more {b = b'} {t} k r) =
      subst (Closing up down _) (ap (◌∷◌ up) (append_assoc b (down ∷ b') (down ∷ t)))
        (more (nest h k) r)

  Closing-inv :
      {n : ℕ} {t : Text}
      → Closing up down (suc n) t
      → (b r : Text) × (t ≡ b ++ down ∷ r) × Balanced up down b × Closing up down n r
  Closing-inv (more {b} {t} h r) = (b, t, refl, h, r)

  -- The text up to the bracket that ends a search, from depth n + 1.
  abbrev Through : ℕ → ℕ → ℕ → Text → Type 0
  Through n j k t =
      (inside after : Text) × (t ≡ inside ++ down ∷ after)
      × (k ≡ j + length inside)
      × Closing up down n inside

  Through-down :
      {c : ℕ} {cs : Text} (n j k : ℕ)
      → c ≡ down
      → ((m : ℕ) → match_from up down (pos (suc m)) (suc j) cs ≡ some k → Through m (suc j) k cs)
      → match_from up down (pos (suc n)) j (c ∷ cs) ≡ some k
      → Through n j k (c ∷ cs)
  Through-down {cs} zero j k e later h =
      let found = sym (match_from-last j cs) ∙ (rw e at h) in ([], cs, rw e, ground arith, last nil)
  Through-down {cs} (suc n) j k e later h =
      let (inside, after, split, at_, closing) =
        later n (sym (match_from-down n j cs) ∙ (rw e at h)) in
      (down ∷ inside, after, cc, omega arith, more nil closing)

  match_from-Closing :
      (n j k : ℕ) (t : Text) → match_from up down (pos (suc n)) j t ≡ some k → Through n j k t
  match_from-Closing n j k [] h = unfold match_from in cc
  match_from-Closing n j k (c ∷ cs) h = elim (Bool-cases (c == up)) [
    | inl e ↦
        let same : c ≡ up = (==_iff c up).0 e in
        let deeper = sym (match_from-up (suc n) j cs) ∙ (rw same at h) in
        let (inside, after, split, at_, closing) = match_from-Closing (suc n) (suc j) k cs deeper in
        let (b, t, inner, balanced, outer) = Closing-inv closing in
        (up ∷ inside, after, cc, omega arith, rw inner (Closing-nest balanced outer))
    | inr e ↦
        let other_up : c ≢ up = λ q. cc ((==_iff c up).1 q) in
        elim (Bool-cases (c == down)) [
          | inl g ↦
              Through-down n j k ((==_iff c down).0 g) (λ m. match_from-Closing m (suc j) k cs) h
          | inr g ↦
              let other_down : c ≢ down = λ q. cc ((==_iff c down).1 q) in
              let onwards = sym (match_from-other (pos (suc n)) j c cs other_up other_down) ∙ h in
              let (inside, after, split, at_, closing) =
                match_from-Closing n (suc j) k cs onwards in
              (
                c ∷ inside,
                after,
                ap (◌∷◌ c) split,
                omega arith,
                Closing-other other_up other_down closing,
              )
        ]
  ]

-- From a `{` on, `matchBrace` gives the place of the `}` behind a balanced text.
pub match_brace-Balanced :
    {b : Text} (before after : Text)
    → Balanced b'{' b'}' b
    → match_brace (before ++ b'{' ∷ (b ++ b'}' ∷ after)) (length before)
      ≡ some (length before + 1 + length b)
unfolding match_brace
match_brace-Balanced {b} before after h = rw (drop-append before (b'{' ∷ (b ++ b'}' ∷ after))) (
    match_from-up b'{' b'}' (omega arith) 0 (length before) (b ++ b'}' ∷ after)
    ∙ match_from-Balanced b'{' b'}' (omega arith) 0 (suc (length before))
        (length before + 1 + length b) (b'}' ∷ after) h (omega arith)
    ∙ match_from-last b'{' b'}' (omega arith) (length before + 1 + length b) after)

Through-zero :
    (up down j k : ℕ) (t : Text)
    → (inside after : Text) × (t ≡ inside ++ down ∷ after)
      × (k ≡ j + length inside)
      × Closing up down 0 inside
    → (b after : Text) × (t ≡ b ++ down ∷ after) × (k ≡ j + length b) × Balanced up down b
Through-zero up down j k t (inside, after, split, at_, last h) = (inside, after, split, at_, h)

match_brace-from :
    (masked : Text) (i : ℕ) {k : ℕ}
    → match_brace masked i ≡ some k
    → match_from b'{' b'}' (pos 0) i (drop i masked) ≡ some k
unfolding match_brace
match_brace-from masked i h = h

-- What `matchBrace` finds from a `{` on is a `}`, and the text between the two is balanced.
pub match_brace-some :
    (before rest : Text) (k : ℕ)
    → match_brace (before ++ b'{' ∷ rest) (length before) ≡ some k
    → (b after : Text) × (rest ≡ b ++ b'}' ∷ after)
      × (k ≡ length before + 1 + length b)
      × Balanced b'{' b'}' b
match_brace-some before rest k h =
    let found =
      sym (match_from-up b'{' b'}' (omega arith) 0 (length before) rest)
      ∙ (rw (drop-append before (b'{' ∷ rest)) at (match_brace-from (before ++ b'{' ∷ rest) _ h)) in
    let (b, after, split, at_, balanced) =
      Through-zero b'{' b'}' (suc (length before)) k rest
        (match_from-Closing b'{' b'}' (omega arith) 0 (suc (length before)) k rest found) in
    (b, after, split, omega arith, balanced)

-- From a `(` on, `matchParenFwd` gives the place of the `)` behind a text whose parentheses are
-- balanced.
pub match_paren_fwd-Balanced :
    {b : Text} (before after : Text)
    → Balanced b'(' b')' b
    → match_paren_fwd (before ++ b'(' ∷ (b ++ b')' ∷ after)) (length before)
      ≡ some (length before + 1 + length b)
unfolding match_paren_fwd
match_paren_fwd-Balanced {b} before after h = rw (drop-append before (b'(' ∷ (b ++ b')' ∷ after))) (
    match_from-up b'(' b')' (omega arith) 0 (length before) (b ++ b')' ∷ after)
    ∙ match_from-Balanced b'(' b')' (omega arith) 0 (suc (length before))
        (length before + 1 + length b) (b')' ∷ after) h (omega arith)
    ∙ match_from-last b'(' b')' (omega arith) (length before + 1 + length b) after)

-- ===== src/Bun/Tags/Enclose.antt =====
-- What `enclosingTag` finds encloses the offset.
use atdd_extensions.Base.{
  ℕ, zero, suc, ◌+◌, ◌-◌, ◌≤◌, ◌<◌, ◌≡◌, ◌≢◌, ◌⊎◌, inl, inr, refl, sym, ap, ◌∙◌, true, false, ◌||◌,
  [], ◌∷◌, Option, none, some, arith, ◌==◌, Bool-cases, Option-cases, Text, is_char, get_elem?,
  drop, slice,
}
use atdd_extensions.Bun.Tags.{tag_open, tag_close, Tag, tag_from, enclosing_tag}

is_char-some : (x : ℕ) (o : Option ℕ) → is_char x o ≡ true → o ≡ some x
is_char-some x none h = cc
is_char-some x (some c) h = ground arith

is_char-other : (x : ℕ) (o : Option ℕ) → is_char x o ≡ false → o ≢ some x
is_char-other x none h e = cc
is_char-other x (some c) h e = ground arith

get_elem?-drop : (s p : ℕ) (t : Text) → get_elem? (drop s t) p ≡ get_elem? t (s + p)
get_elem?-drop zero p t = ap (get_elem? t) (omega arith)
get_elem?-drop (suc s) p [] = refl
get_elem?-drop (suc s) p (c ∷ t) =
    let here : suc s + p ≡ suc (s + p) = omega arith in rw here (get_elem?-drop s p t)

-- The start is a `<`, and no `>` stands between it and the offset.
abbrev Opens : Text → ℕ → ℕ → Type 0
Opens text n s =
    (s < n)
    × (get_elem? text s ≡ some b'<')
    × ((k : ℕ) → s ≤ k → k < n → get_elem? text k ≢ some b'>')

tag_open-Opens : (text : Text) (n s : ℕ) → tag_open text n ≡ some s → Opens text n s
unfolding tag_open
tag_open-Opens text zero s h = cc
tag_open-Opens text (suc i) s h = elim (Bool-cases (is_char b'<' (get_elem? text i))) [
  | inl e ↦
      let same : some i ≡ some s = rw e at h in
      let at_ : i ≡ s = cc in
      let open_ = is_char-some b'<' (get_elem? text i) e in
      (
        omega arith,
        cc,
        λ k a b q.
            let here : k ≡ i = omega arith in
            is_char-other b'>' (some b'<') refl (sym open_ ∙ ap (get_elem? text) (sym here) ∙ q),
      )
  | inr e ↦ elim (Bool-cases (is_char b'>' (get_elem? text i))) [
    | inl f ↦ cc (rw (e, f) at h)
    | inr f ↦
        let rest = tag_open-Opens text i s (rw (e, f) at h) in
        let plain = is_char-other b'>' (get_elem? text i) f in
        (
          omega (arith, rest.0),
          rest.1,
          λ k a b q. elim (last k i b) [
            | inl before ↦ rest.2 k a before q
            | inr here ↦ plain (sym (ap (get_elem? text) here) ∙ q)
          ],
        )
  ]
]
  where
    last : (k i : ℕ) → k < suc i → (k < i) ⊎ (k ≡ i)
    last k i h = ground arith

tag_close-get :
    (quote : Option ℕ) (i e : ℕ) (t : Text)
    → tag_close quote i t ≡ some e
    → (p : ℕ) × (e ≡ suc (i + p)) × (get_elem? t p ≡ some b'>')
unfolding tag_close
tag_close-get quote i e [] h = cc
tag_close-get (some q) i e (c ∷ t) h = elim (Bool-cases (c == q)) [
  | inl f ↦
      let (p, a, b) = tag_close-get none (suc i) e t (rw (f, tag_close) at h) in
      (suc p, omega arith, b)
  | inr f ↦
      let (p, a, b) = tag_close-get (some q) (suc i) e t (rw (f, tag_close) at h) in
      (suc p, omega arith, b)
]
tag_close-get none i e (c ∷ t) h = elim (Bool-cases (c == b'"' || c == b'\'')) [
  | inl f ↦
      let (p, a, b) = tag_close-get (some c) (suc i) e t (rw (f, tag_close) at h) in
      (suc p, omega arith, b)
  | inr f ↦ elim (Bool-cases (c == b'>')) [
    | inl g ↦
        let found : some (suc i) ≡ some e = rw (f, g, tag_close) at h in
        (0, ground arith, ground arith)
    | inr g ↦
        let (p, a, b) = tag_close-get none (suc i) e t (rw (f, g, tag_close) at h) in
        (suc p, omega arith, b)
  ]
]

tag_from-some :
    (text : Text) (start : ℕ) (o : Option ℕ) (tag : Tag)
    → tag_from text start o ≡ some tag
    → (e : ℕ) × (o ≡ some e) × (tag ≡ record { start = start; stop = e; text = slice text start e })
tag_from-some text start none tag h = cc
tag_from-some text start (some e) tag h = (e, refl, cc)

-- A tag that `enclosingTag` finds begins with a `<` at or before the offset, ends with a `>` behind
-- it, and its text is what stands between its two ends in the source.
pub enclosing_tag-some :
    (text : Text) (offset : ℕ) (tag : Tag)
    → enclosing_tag text offset ≡ some tag
    → (tag.start ≤ offset)
      × (offset + 1 < tag.stop)
      × (get_elem? text tag.start ≡ some b'<')
      × (get_elem? text (tag.stop - 1) ≡ some b'>')
      × (tag.text ≡ slice text tag.start tag.stop)
unfolding enclosing_tag
enclosing_tag-some text offset tag h = elim (Option-cases (tag_open text (suc offset))) [
  | inl e ↦ cc (rw (e, enclosing_tag) at h)
  | inr (start, e) ↦
      let found = tag_from-some text start _ tag (rw (e, enclosing_tag) at h) in
      let (stop, closes, made) = found in
      let opens = tag_open-Opens text (suc offset) start e in
      let (p, size, close_) = tag_close-get none start stop (drop start text) closes in
      let place : stop - 1 ≡ start + p = omega arith in
      let end = sym (get_elem?-drop start p text) ∙ close_ in
      let behind : offset < start + p = elim (before_or offset (start + p)) [
        | inl l ↦ l
        | inr l ↦ absurd (opens.2 (start + p) (omega arith) (omega arith) end)
      ] in
      rw made (omega (arith, opens.0), omega arith, opens.1, ap (get_elem? text) place ∙ end, refl)
]
  where
    before_or : (a b : ℕ) → (a < b) ⊎ (b ≤ a)
    before_or a b = ground arith

-- ===== src/Convex/Interlocking/Text/Laws.antt =====
-- What `maskComments` keeps.
use atdd_extensions.Base.{
  ℕ, ◌≡◌, ◌≢◌, inl, inr, refl, sym, ap, ◌∙◌, true, false, ◌&&◌, [], ◌∷◌, arith, ◌==◌, Bool-cases,
  ==_iff, Text,
}
use atdd_extensions.Convex.Complexity.Mask.Laws.{Kept, Blanks}
use atdd_extensions.Convex.Interlocking.Text.{
  Reading, code, line_comment, block_comment, literal_of, is_quote_char, blank_char, mask_reading,
  mask_comments,
}

pair-Kept :
    (c d x y : ℕ) → (c == x && d == y) ≡ true → x ≢ b'\n' → y ≢ b'\n' → Kept c b' ' × Kept d b' '
pair-Kept c d x y h n k = ground arith

blank_char-Kept : (c : ℕ) → Kept c (blank_char c)
blank_char-Kept c = ground arith

space-Kept : (c : ℕ) → (c == b'\n') ≡ false → Kept c b' '
space-Kept c h = ground arith

mask_reading-Blanks : (state : Reading) (t : Text) → Blanks t (mask_reading state t)
unfolding mask_reading
mask_reading-Blanks state [] = tt
mask_reading-Blanks code (c ∷ []) = (inl refl, tt)
mask_reading-Blanks code (c ∷ d ∷ cs) = elim (Bool-cases (c == b'/' && d == b'/')) [
  | inl e ↦
      let kept = pair-Kept c d b'/' b'/' e (omega arith) (omega arith) in
      rw (e, mask_reading) (kept.0, (kept.1, mask_reading-Blanks line_comment cs))
  | inr e ↦ elim (Bool-cases (c == b'/' && d == b'*')) [
    | inl f ↦
        let kept = pair-Kept c d b'/' b'*' f (omega arith) (omega arith) in
        rw (e, f, mask_reading) (kept.0, (kept.1, mask_reading-Blanks block_comment cs))
    | inr f ↦ elim (Bool-cases (is_quote_char c)) [
      | inl q ↦ rw (e, f, q, mask_reading) (inl refl, mask_reading-Blanks (literal_of c) (d ∷ cs))
      | inr q ↦ rw (e, f, q, mask_reading) (inl refl, mask_reading-Blanks code (d ∷ cs))
    ]
  ]
]
mask_reading-Blanks line_comment (c ∷ cs) = elim (Bool-cases (c == b'\n')) [
  | inl e ↦ rw (e, mask_reading) (inl refl, mask_reading-Blanks code cs)
  | inr e ↦ rw (e, mask_reading) (space-Kept c e, mask_reading-Blanks line_comment cs)
]
mask_reading-Blanks block_comment (c ∷ []) = (blank_char-Kept c, tt)
mask_reading-Blanks block_comment (c ∷ d ∷ cs) = elim (Bool-cases (c == b'*' && d == b'/')) [
  | inl e ↦
      let kept = pair-Kept c d b'*' b'/' e (omega arith) (omega arith) in
      rw (e, mask_reading) (kept.0, (kept.1, mask_reading-Blanks code cs))
  | inr e ↦ rw (e, mask_reading) (blank_char-Kept c, mask_reading-Blanks block_comment (d ∷ cs))
]
mask_reading-Blanks (literal_of q) (c ∷ []) = (inl refl, tt)
mask_reading-Blanks (literal_of q) (c ∷ d ∷ cs) = elim (Bool-cases (c == b'\\')) [
  | inl e ↦ rw (e, mask_reading) (inl refl, (inl refl, mask_reading-Blanks (literal_of q) cs))
  | inr e ↦ elim (Bool-cases (c == q)) [
    | inl f ↦ rw (e, f, mask_reading) (inl refl, mask_reading-Blanks code (d ∷ cs))
    | inr f ↦ rw (e, f, mask_reading) (inl refl, mask_reading-Blanks (literal_of q) (d ∷ cs))
  ]
]

-- `maskComments` keeps the length of a text, and each character of it, or makes it a space if it is
-- no newline.
mask_comments-Blanks : (text : Text) → Blanks text (mask_comments text)
unfolding mask_comments
mask_comments-Blanks text = mask_reading-Blanks code text

no_comment : (c d x : ℕ) → (c == b'/') ≡ false → (c == b'/' && d == x) ≡ false
no_comment c d x s = ground arith

-- A character that opens neither a literal nor a comment.
mask_reading-plain :
    (c : ℕ) (t : Text)
    → (c == b'/') ≡ false
    → is_quote_char c ≡ false
    → mask_reading code (c ∷ t) ≡ c ∷ mask_reading code t
unfolding mask_reading
mask_reading-plain c [] s q = refl
mask_reading-plain c (d ∷ t) s q =
    rw (no_comment c d b'/' s, no_comment c d b'*' s, q, mask_reading)

mask_reading-quote :
    (c : ℕ) (t : Text)
    → (c == b'/') ≡ false
    → is_quote_char c ≡ true
    → mask_reading code (c ∷ t) ≡ c ∷ mask_reading (literal_of c) t
unfolding mask_reading
mask_reading-quote c [] s q = refl
mask_reading-quote c (d ∷ t) s q =
    rw (no_comment c d b'/' s, no_comment c d b'*' s, q, mask_reading)

mask_reading-close :
    (q c : ℕ) (t : Text)
    → (c == b'\\') ≡ false
    → (c == q) ≡ true
    → mask_reading (literal_of q) (c ∷ t) ≡ c ∷ mask_reading code t
unfolding mask_reading
mask_reading-close q c [] s e = refl
mask_reading-close q c (d ∷ t) s e = rw (s, e, mask_reading)

mask_reading-inside :
    (q c : ℕ) (t : Text)
    → (c == b'\\') ≡ false
    → (c == q) ≡ false
    → mask_reading (literal_of q) (c ∷ t) ≡ c ∷ mask_reading (literal_of q) t
unfolding mask_reading
mask_reading-inside q c [] s e = refl
mask_reading-inside q c (d ∷ t) s e = rw (s, e, mask_reading)

mask_reading-escape :
    (q c d : ℕ) (t : Text)
    → (c == b'\\') ≡ true
    → mask_reading (literal_of q) (c ∷ d ∷ t) ≡ c ∷ d ∷ mask_reading (literal_of q) t
unfolding mask_reading
mask_reading-escape q c d t h = rw (h, mask_reading)

-- In code the first character stays, unless a comment begins.
head_stays :
    (d : ℕ) (cs : Text) → (d == b'/') ≡ false → (r : Text) × (mask_reading code (d ∷ cs) ≡ d ∷ r)
head_stays d cs s = elim (Bool-cases (is_quote_char d)) [
  | inl q ↦ (mask_reading (literal_of d) cs, mask_reading-quote d cs s q)
  | inr q ↦ (mask_reading code cs, mask_reading-plain d cs s q)
]

-- A slash that opens no comment.
mask_reading-slash :
    (c d : ℕ) (t : Text)
    → (c == b'/') ≡ true
    → (d == b'/') ≡ false
    → (d == b'*') ≡ false
    → mask_reading code (c ∷ d ∷ t) ≡ c ∷ mask_reading code (d ∷ t)
unfolding mask_reading
mask_reading-slash c d t h s b =
    let is_ : c ≡ b'/' = (==_iff c b'/').0 h in
    let plain : is_quote_char c ≡ false = rw is_ in
    let no_line : (c == b'/' && d == b'/') ≡ false = ground arith in
    let no_block : (c == b'/' && d == b'*') ≡ false = ground arith in
    rw (no_line, no_block, plain, mask_reading)

-- The state in which the masked text is read again.
abbrev again : Reading → Reading
again code = code
again line_comment = code
again block_comment = code
again (literal_of q) = literal_of q

space_again : (t u : Text) → mask_reading code t ≡ u → mask_reading code (b' ' ∷ t) ≡ b' ' ∷ u
space_again t u h = mask_reading-plain b' ' t refl refl ∙ ap (◌∷◌ b' ') h

spaces_again :
    (t : Text) → mask_reading code t ≡ t → mask_reading code (b' ' ∷ b' ' ∷ t) ≡ b' ' ∷ b' ' ∷ t
spaces_again t h = space_again (b' ' ∷ t) (b' ' ∷ t) (space_again t t h)

blank_again :
    (c : ℕ) (t u : Text)
    → mask_reading code t ≡ u
    → mask_reading code (blank_char c ∷ t) ≡ blank_char c ∷ u
blank_again c t u h =
    mask_reading-plain (blank_char c) t (ground arith) (ground arith) ∙ ap (◌∷◌ (blank_char c)) h

slash_again :
    (c d : ℕ) (cs : Text)
    → (c == b'/') ≡ true
    → (c == b'/' && d == b'/') ≡ false
    → (c == b'/' && d == b'*') ≡ false
    → mask_reading code (mask_reading code (d ∷ cs)) ≡ mask_reading code (d ∷ cs)
    → mask_reading code (c ∷ mask_reading code (d ∷ cs)) ≡ c ∷ mask_reading code (d ∷ cs)
slash_again c d cs h e f ih =
    let no_slash : (d == b'/') ≡ false = ground arith in
    let no_star : (d == b'*') ≡ false = ground arith in
    let (r, same) = head_stays d cs no_slash in
    ap (λ x. mask_reading code (c ∷ x)) same
    ∙ mask_reading-slash c d r h no_slash no_star
    ∙ ap (◌∷◌ c) (ap (mask_reading code) (sym same) ∙ ih)

mask_reading-again :
    (state : Reading) (t : Text)
    → mask_reading (again state) (mask_reading state t) ≡ mask_reading state t
unfolding mask_reading
mask_reading-again state [] = refl
mask_reading-again code (c ∷ []) = refl
mask_reading-again code (c ∷ d ∷ cs) = elim (Bool-cases (c == b'/' && d == b'/')) [
  | inl e ↦
      rw (e, mask_reading)
        (spaces_again (mask_reading line_comment cs) (mask_reading-again line_comment cs))
  | inr e ↦ elim (Bool-cases (c == b'/' && d == b'*')) [
    | inl f ↦
        rw (e, f, mask_reading)
          (spaces_again (mask_reading block_comment cs) (mask_reading-again block_comment cs))
    | inr f ↦ elim (Bool-cases (is_quote_char c)) [
      | inl q ↦
          let other : (c == b'/') ≡ false = ground arith in
          rw (e, f, q, mask_reading)
            (mask_reading-quote c _ other q
              ∙ ap (◌∷◌ c) (mask_reading-again (literal_of c) (d ∷ cs)))
      | inr q ↦ elim (Bool-cases (c == b'/')) [
        | inl s ↦
            rw (e, f, q, mask_reading) (slash_again c d cs s e f (mask_reading-again code (d ∷ cs)))
        | inr s ↦
            rw (e, f, q, mask_reading)
              (mask_reading-plain c _ s q ∙ ap (◌∷◌ c) (mask_reading-again code (d ∷ cs)))
      ]
    ]
  ]
]
mask_reading-again line_comment (c ∷ cs) = elim (Bool-cases (c == b'\n')) [
  | inl e ↦
      rw (e, mask_reading)
        (mask_reading-plain c _ (ground arith) (ground arith)
          ∙ ap (◌∷◌ c) (mask_reading-again code cs))
  | inr e ↦
      rw (e, mask_reading)
        (space_again (mask_reading line_comment cs) _ (mask_reading-again line_comment cs))
]
mask_reading-again block_comment (c ∷ []) = blank_again c [] [] refl
mask_reading-again block_comment (c ∷ d ∷ cs) = elim (Bool-cases (c == b'*' && d == b'/')) [
  | inl e ↦ rw (e, mask_reading) (spaces_again (mask_reading code cs) (mask_reading-again code cs))
  | inr e ↦
      rw (e, mask_reading)
        (blank_again c (mask_reading block_comment (d ∷ cs)) _
          (mask_reading-again block_comment (d ∷ cs)))
]
mask_reading-again (literal_of q) (c ∷ []) = refl
mask_reading-again (literal_of q) (c ∷ d ∷ cs) = elim (Bool-cases (c == b'\\')) [
  | inl e ↦
      rw (e, mask_reading)
        (mask_reading-escape q c d _ e ∙ ap (λ t. c ∷ d ∷ t) (mask_reading-again (literal_of q) cs))
  | inr e ↦ elim (Bool-cases (c == q)) [
    | inl f ↦
        rw (e, f, mask_reading)
          (mask_reading-close q c _ e f ∙ ap (◌∷◌ c) (mask_reading-again code (d ∷ cs)))
    | inr f ↦
        rw (e, f, mask_reading)
          (mask_reading-inside q c _ e f ∙ ap (◌∷◌ c) (mask_reading-again (literal_of q) (d ∷ cs)))
  ]
]

-- For every text, `maskComments` of the masked text is the masked text.
pub mask_comments_idempotent :
    (text : Text) → mask_comments (mask_comments text) ≡ mask_comments text
unfolding mask_comments
mask_comments_idempotent text = mask_reading-again code text

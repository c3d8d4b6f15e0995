-- ===== src/Convex/Complexity/Mask/Laws.antt =====
-- What `maskSource` does to a text: it keeps every offset and line, and leaves nothing to mask.
use atdd_extensions.Base.{
  ℕ, ◌≡◌, ◌≢◌, ◌⊎◌, inl, inr, refl, ap, ◌∙◌, Bool, true, false, ◌&&◌, ◌||◌, [], ◌∷◌, Option, none,
  some, arith, ◌==◌, Bool-cases, Text, head?, is_char,
}
use atdd_extensions.Convex.Complexity.Mask.{code, Scanner, action, mask_mode, at_start, mask_source}
use atdd_extensions.Convex.Complexity.Mask.Scan.{
  blanked, masked, masked-one, masked-two, IsBmp, mask_source-eq-masked,
}

-- A character is kept, or is no newline and becomes a space.
abbrev pub Kept : ℕ → ℕ → Type 0
Kept c m = (m ≡ c) ⊎ (m ≡ b' ') × (c ≢ b'\n')

-- The second text is the first with some characters other than newlines made spaces.
abbrev pub Blanks : Text → Text → Type 0
Blanks [] [] = Unit
Blanks [] (m ∷ ms) = ⊥
Blanks (c ∷ cs) [] = ⊥
Blanks (c ∷ cs) (m ∷ ms) = Kept c m × Blanks cs ms

-- A character that leaves the code: a quote, or the first of a comment's two.
abbrev pub opens : ℕ → Option ℕ → Bool
opens c d = c == b'\'' || c == b'"' || c == b'`' || c == b'/' && (is_char b'/' d || is_char b'*' d)

abbrev pub IsPlain : Text → Type 0
IsPlain [] = Unit
IsPlain (c ∷ cs) = (opens c (head? cs) ≡ false) × IsPlain cs

blank-Kept : (c : ℕ) (d : Option ℕ) (s : Scanner) → Kept c (blanked (action (some c) d s).blank c)
unfolding mask_mode
blank-Kept c d s = ground arith

blank_next-Kept :
    (c d : ℕ) (s : Scanner) → Kept d (blanked (action (some c) (some d) s).blank_next d)
unfolding mask_mode
blank_next-Kept c d s = ground arith

masked-Blanks : (s : Scanner) (t : Text) → Blanks t (masked s t)
masked-Blanks s [] = unfold masked in tt
masked-Blanks s (c ∷ []) = unfold masked in (blank-Kept c none s, tt)
masked-Blanks s (c ∷ d ∷ cs) = elim (Bool-cases (action (some c) (some d) s).two) [
  | inl two ↦ rw (masked-two s c d cs two) (
    blank-Kept c (some d) s,
    (blank_next-Kept c d s, masked-Blanks (action (some c) (some d) s).next cs),
  )
  | inr one ↦
      rw (masked-one s c d cs one)
        (blank-Kept c (some d) s, masked-Blanks (action (some c) (some d) s).next (d ∷ cs))
]

-- What one round emits opens nothing, whatever kept character follows.
blank-opens :
    (c d m : ℕ) (s : Scanner)
    → Kept d m
    → opens (blanked (action (some c) (some d) s).blank c) (some m) ≡ false
unfolding mask_mode
blank-opens c d m s k = ground arith

blank-opens-end :
    (c : ℕ) (s : Scanner) → opens (blanked (action (some c) none s).blank c) none ≡ false
unfolding mask_mode
blank-opens-end c s = ground arith

two-blanks :
    (c d : ℕ) (s : Scanner)
    → (action (some c) (some d) s).two ≡ true
    → (blanked (action (some c) (some d) s).blank c ≡ b' ')
      × ((blanked (action (some c) (some d) s).blank_next d ≡ b' ')
          ⊎ (blanked (action (some c) (some d) s).blank_next d ≡ b'\n'))
unfolding mask_mode
two-blanks c d s h = ground arith

-- A blank or a newline opens nothing.
opens-blank : (c : ℕ) (m : Option ℕ) → (c ≡ b' ') ⊎ (c ≡ b'\n') → opens c m ≡ false
opens-blank c m (inl e) = rw e
opens-blank c m (inr e) = rw e

head-Blanks : (d : ℕ) (cs ms : Text) → Blanks (d ∷ cs) ms → (m : ℕ) × (head? ms ≡ some m) × Kept d m
head-Blanks d cs [] h = absurd h
head-Blanks d cs (m ∷ ms) h = (m, refl, h.0)

masked-IsPlain : (s : Scanner) (t : Text) → IsPlain (masked s t)
masked-IsPlain s [] = unfold masked in tt
masked-IsPlain s (c ∷ []) = unfold masked in (blank-opens-end c s, tt)
masked-IsPlain s (c ∷ d ∷ cs) = elim (Bool-cases (action (some c) (some d) s).two) [
  | inl two ↦
      let (first, second) = two-blanks c d s two in
      rw (masked-two s c d cs two) (
        opens-blank _ (some (blanked (action (some c) (some d) s).blank_next d)) (inl first),
        (
          opens-blank _ (head? (masked (action (some c) (some d) s).next cs)) second,
          masked-IsPlain (action (some c) (some d) s).next cs,
        ),
      )
  | inr one ↦
      let s' = (action (some c) (some d) s).next in
      let (m, first, kept) = head-Blanks d cs (masked s' (d ∷ cs)) (masked-Blanks s' (d ∷ cs)) in
      rw (masked-one s c d cs one) (rw first (blank-opens c d m s kept), masked-IsPlain s' (d ∷ cs))
]

-- In plain code nothing is masked: a round leaves the character, and stays in code.
plain-action :
    (c : ℕ) (d : Option ℕ) (s : Scanner)
    → s.mode ≡ code
    → s.interp_return ≡ []
    → opens c d ≡ false
    → ((action (some c) d s).blank ≡ false)
      × ((action (some c) d s).two ≡ false)
      × ((action (some c) d s).next.mode ≡ code)
      × ((action (some c) d s).next.interp_return ≡ [])
unfolding mask_mode
plain-action c d s m i h = ground arith

masked-plain :
    (s : Scanner) (t : Text) → s.mode ≡ code → s.interp_return ≡ [] → IsPlain t → masked s t ≡ t
masked-plain s [] m i h = unfold masked in refl
masked-plain s (c ∷ []) m i h =
    let (kept, _, _, _) = plain-action c none s m i h.0 in unfold masked in rw kept
masked-plain s (c ∷ d ∷ cs) m i h =
    let (kept, one, m', i') = plain-action c (some d) s m i h.0 in
    rw (masked-one s c d cs one, kept)
      (ap (◌∷◌ c) (masked-plain (action (some c) (some d) s).next (d ∷ cs) m' i' h.1))

IsBmp-Blanks : (t m : Text) → Blanks t m → IsBmp t → IsBmp m
IsBmp-Blanks [] [] h b = tt
IsBmp-Blanks [] (m ∷ ms) h b = absurd h
IsBmp-Blanks (c ∷ cs) [] h b = absurd h
IsBmp-Blanks (c ∷ cs) (m ∷ ms) h b = (ground arith, IsBmp-Blanks cs ms h.1 b.1)

-- With no high surrogate in the text, masking keeps the length, every newline and every character
-- that it does not turn into a space.
pub mask_source-Blanks : (t : Text) → IsBmp t → Blanks t (mask_source t)
mask_source-Blanks t h = rw (mask_source-eq-masked t h) (masked-Blanks at_start t)

-- With no high surrogate in the text, a masked text holds no quote, no backquote and no comment's
-- opening.
pub mask_source-IsPlain : (t : Text) → IsBmp t → IsPlain (mask_source t)
mask_source-IsPlain t h = rw (mask_source-eq-masked t h) (masked-IsPlain at_start t)

-- With no high surrogate in the text, masking a masked text changes nothing.
pub mask_source_idempotent : (t : Text) → IsBmp t → mask_source (mask_source t) ≡ mask_source t
mask_source_idempotent t h =
    mask_source-eq-masked (mask_source t)
      (IsBmp-Blanks t (mask_source t) (mask_source-Blanks t h) h)
    ∙ masked-plain at_start (mask_source t) refl refl (mask_source-IsPlain t h)

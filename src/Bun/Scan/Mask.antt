-- ===== src/Bun/Scan/Mask.antt =====
-- What masking keeps, and that its loop ends.
use atdd_extensions.Base.{
  ℕ, zero, suc, ◌-◌, ◌≡◌, inl, inr, refl, ◌&&◌, [], ◌∷◌, Option, arith, ltb, ◌==◌, if◌then◌else◌,
  Bool-cases, Option-cases, Text, is_char, length, get_elem?,
}
use atdd_extensions.Convex.Complexity.Mask.Laws.{Kept, Blanks}
use atdd_extensions.Bun.Scan.{
  blank_range, comment_line_end, block_end, literal_end, Masking, blank_to, blank_literal, skip_one,
  is_quote, mask_step, mask_rounds, mask_literals_and_comments,
}

Blanks-refl : (t : Text) → Blanks t t
Blanks-refl [] = tt
Blanks-refl (c ∷ t) = (inl refl, Blanks-refl t)

blank_newline-Kept : (c m : ℕ) → Kept c m → Kept c (if m == b'\n' then m else b' ')
blank_newline-Kept c m k = ground arith

blank_range-Blanks :
    (from to : ℕ) (t out : Text) → Blanks t out → Blanks t (blank_range from to out)
unfolding blank_range
blank_range-Blanks from to [] [] h = tt
blank_range-Blanks from to [] (m ∷ out) h = absurd h
blank_range-Blanks from to (c ∷ t) [] h = absurd h
blank_range-Blanks zero zero (c ∷ t) (m ∷ out) h = h
blank_range-Blanks zero (suc to) (c ∷ t) (m ∷ out) h =
    (blank_newline-Kept c m h.0, blank_range-Blanks zero to t out h.1)
blank_range-Blanks (suc from) zero (c ∷ t) (m ∷ out) h = h
blank_range-Blanks (suc from) (suc to) (c ∷ t) (m ∷ out) h =
    (h.0, blank_range-Blanks from to t out h.1)

-- What holds after each kind of round holds after a round.
mask_step_cases :
    (P : Masking → Type 0) (text : Text) (ch : ℕ) (next : Option ℕ) (m : Masking)
    → (ch ≡ b'/' → P (blank_to m.i (comment_line_end text m.i) (comment_line_end text m.i) m))
    → P (blank_to m.i (block_end text m.i) (block_end text m.i) m)
    → P (blank_literal text ch m)
    → P (skip_one m)
    → P (mask_step text ch next m)
unfolding mask_step
mask_step_cases P text ch next m line block lit plain =
    elim (Bool-cases (ch == b'/' && is_char b'/' next)) [
      | inl e ↦ rw (e, mask_step) (line (ground arith))
      | inr e ↦ elim (Bool-cases (ch == b'/' && is_char b'*' next)) [
        | inl f ↦ rw (e, f, mask_step) block
        | inr f ↦ elim (Bool-cases (is_quote ch)) [
          | inl q ↦ rw (e, f, q, mask_step) lit
          | inr q ↦ rw (e, f, q, mask_step) plain
        ]
      ]
    ]

mask_step-Blanks :
    (text : Text) (ch : ℕ) (next : Option ℕ) (m : Masking)
    → Blanks text m.out
    → Blanks text (mask_step text ch next m).out
mask_step-Blanks text ch next m h =
    mask_step_cases (λ n. Blanks text n.out) text ch next m
      (λ e. blank_range-Blanks m.i (comment_line_end text m.i) text m.out h)
      (blank_range-Blanks m.i (block_end text m.i) text m.out h)
      (blank_range-Blanks (suc m.i)
        (if ltb (literal_end ch text m.i - 1) (suc m.i)
          then suc m.i
          else literal_end ch text m.i - 1)
        text m.out h)
      h

mask_rounds-Blanks :
    (fuel : ℕ) (text : Text) (m : Masking)
    → Blanks text m.out
    → Blanks text (mask_rounds fuel text m)
unfolding mask_rounds
mask_rounds-Blanks zero text m h = h
mask_rounds-Blanks (suc fuel) text m h = elim (Option-cases (get_elem? text m.i)) [
  | inl e ↦ rw (e, mask_rounds) h
  | inr (ch, e) ↦
      rw (e, mask_rounds)
        (mask_rounds-Blanks fuel text (mask_step text ch (get_elem? text (suc m.i)) m)
          (mask_step-Blanks text ch (get_elem? text (suc m.i)) m h))
]

-- Masking keeps the length, and turns each character into itself or, if it is no newline, into a
-- space.
pub mask_literals_and_comments-Blanks :
    (text : Text) → Blanks text (mask_literals_and_comments text)
unfolding mask_literals_and_comments
mask_literals_and_comments-Blanks text =
    mask_rounds-Blanks (length text) text (record { i = 0; out = text }) (Blanks-refl text)

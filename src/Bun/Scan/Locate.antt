-- ===== src/Bun/Scan/Locate.antt =====
-- Where an offset lies, by lines.
use atdd_extensions.Base.{
  ℕ, suc, ◌+◌, ◌-◌, ◌≡◌, ◌⊎◌, inl, inr, refl, ap, ◌∙◌, false, List, [], ◌∷◌, ◌++◌, append_assoc,
  arith, ◌==◌, if◌then◌else◌, Bool-cases, Text, length, drop, slice, trim, length-append,
  drop-append, take-append,
}
use atdd_extensions.Base.Paths.{split_on, grow_first}
use atdd_extensions.Convex.Complexity.LineIndex.Search.{newlines}
use atdd_extensions.Bun.Scan.{line_start, newline_from, or_length, Location, locate}

-- No newline in a text.
abbrev pub OneLine : Text → Type 0
OneLine [] = Unit
OneLine (c ∷ t) = ((c == b'\n') ≡ false) × OneLine t

-- A text that ends with a line's end, if it is not empty.
abbrev pub WholeLines : Text → Type 0
WholeLines t = (t ≡ []) ⊎ ((u : Text) × (t ≡ u ++ b'\n' ∷ []))

-- A text that is empty or begins with a newline.
abbrev pub AtLineEnd : Text → Type 0
AtLineEnd [] = Unit
AtLineEnd (c ∷ t) = c ≡ b'\n'

length-grow_first :
    (c : ℕ) (l : Text) (ls : List Text) → length (grow_first c (l ∷ ls)) ≡ length (l ∷ ls)
unfolding grow_first
length-grow_first c l ls = refl

length-grow_first-some :
    (c n : ℕ) (ls : List Text) → length ls ≡ suc n → length (grow_first c ls) ≡ suc n
unfolding grow_first
length-grow_first-some c n [] h = absurd (omega arith)
length-grow_first-some c n (l ∷ ls) h = h

length-split_on : (t : Text) → length (split_on b'\n' t) ≡ newlines t + 1
unfolding split_on
length-split_on [] = refl
length-split_on (c ∷ t) = elim (Bool-cases (c == b'\n')) [
  | inl e ↦ rw e (omega (arith, length-split_on t))
  | inr e ↦
      let rest =
        length-grow_first-some c (newlines t) (split_on b'\n' t)
          (omega (arith, length-split_on t)) in
      rw e (omega arith)
]

newlines-append : (t u : Text) → newlines (t ++ u) ≡ newlines t + newlines u
newlines-append [] u = omega arith
newlines-append (c ∷ t) u = omega (arith, newlines-append t u)

newlines-OneLine : (t : Text) → OneLine t → newlines t ≡ 0
newlines-OneLine [] h = refl
newlines-OneLine (c ∷ t) h = rw h.0 (omega (arith, newlines-OneLine t h.1))

line_start-OneLine : (start i : ℕ) (t : Text) → OneLine t → line_start start i t ≡ start
unfolding line_start
line_start-OneLine start i [] h = refl
line_start-OneLine start i (c ∷ t) h = rw h.0 (line_start-OneLine start (suc i) t h.1)

line_start-newline :
    (start i k : ℕ) (u t : Text)
    → OneLine t
    → k ≡ i + length u + 1
    → line_start start i (u ++ b'\n' ∷ t) ≡ k
unfolding line_start
line_start-newline start i k [] t h e = line_start-OneLine (suc i) (suc i) t h ∙ omega arith
line_start-newline start i k (c ∷ u) t h e =
    line_start-newline (if c == b'\n' then suc i else start) (suc i) k u t h (omega arith)

line_start-WholeLines : (a t : Text) → WholeLines a → OneLine t → line_start 0 0 (a ++ t) ≡ length a
line_start-WholeLines a t (inl e) h = rw e (line_start-OneLine 0 0 t h)
line_start-WholeLines a t (inr (u, e)) h =
    rw (e, append_assoc u (b'\n' ∷ []) t)
      (line_start-newline 0 0 (length (u ++ b'\n' ∷ [])) u t h
        (omega (arith, length-append u (b'\n' ∷ []))))

newline_from-skip :
    (j c : ℕ) (t : Text) → (c == b'\n') ≡ false → newline_from j (c ∷ t) ≡ newline_from (suc j) t
unfolding newline_from
newline_from-skip j c t h = rw (h, newline_from)

newline_from-OneLine :
    (text : Text) (j : ℕ) (t rest : Text)
    → OneLine t
    → AtLineEnd rest
    → length text ≡ j + length t + length rest
    → or_length text (newline_from j (t ++ rest)) ≡ j + length t
unfolding newline_from
newline_from-OneLine text j [] [] h r e = omega arith
newline_from-OneLine text j [] (c ∷ rest) h r e = rw r (omega arith)
newline_from-OneLine text j (c ∷ t) rest h r e =
    ap (or_length text) (newline_from-skip j c (t ++ rest) h.0)
    ∙ newline_from-OneLine text (suc j) t rest h.1 r (omega arith)
    ∙ omega arith

OneLine-append : (t u : Text) → OneLine t → OneLine u → OneLine (t ++ u)
OneLine-append [] u h k = k
OneLine-append (c ∷ t) u h k = (h.0, OneLine-append t u h.1 k)

same_location :
    {m n c d : ℕ} {s t : Text}
    → m ≡ n
    → c ≡ d
    → s ≡ t
    → ◌≡◌ {A = Location}
        (record { line = m; col = c; source_line = s })
        (record { line = n; col = d; source_line = t })
same_location p q r = rw (p, q, r)

slice-line :
    (a l l' rest : Text) (j : ℕ)
    → j ≡ length (a ++ l) + length l'
    → slice ((a ++ l) ++ (l' ++ rest)) (length a) j ≡ l ++ l'
slice-line a l l' rest j e =
    let size : j - length a ≡ length (l ++ l') =
      omega (arith, length-append a l, length-append l l') in
    rw
      (
        size,
        append_assoc a l (l' ++ rest),
        drop-append a (l ++ (l' ++ rest)),
        ← append_assoc l l' rest,
      )
      (take-append (l ++ l') rest)

-- An offset inside a line, whose characters before it are `l` and from it on are `l'`, behind the
-- lines `a`: the line's number is one more than the newlines of `a`, the column one more than the
-- length of `l`, and the line is given trimmed.
pub locate_lem :
    (a l l' rest : Text)
    → WholeLines a
    → OneLine l
    → OneLine l'
    → AtLineEnd rest
    → locate ((a ++ l) ++ (l' ++ rest)) (length (a ++ l))
      ≡ record { line = newlines a + 1; col = length l + 1; source_line = trim (l ++ l') }
unfolding locate
locate_lem a l l' rest whole h k r =
    let text = (a ++ l) ++ (l' ++ rest) in
    let offset = length (a ++ l) in
    let before = take-append (a ++ l) (l' ++ rest) in
    let start = ap (line_start 0 0) before ∙ line_start-WholeLines a l whole h in
    let end : or_length text (newline_from offset (drop offset text)) ≡ offset + length l' =
      ap (λ t. or_length text (newline_from offset t)) (drop-append (a ++ l) (l' ++ rest))
      ∙ newline_from-OneLine text offset l' rest k r
          (omega (arith, length-append (a ++ l) (l' ++ rest), length-append l' rest)) in
    let stop = or_length text (newline_from offset (drop offset text)) in
    same_location
      (ap (λ t. length (split_on b'\n' t)) before
        ∙ length-split_on (a ++ l)
        ∙ omega (arith, newlines-append a l, newlines-OneLine l h))
      (ap (λ n. offset - n + 1) start ∙ omega (arith, length-append a l))
      (ap trim (ap (λ n. slice text n stop) start ∙ slice-line a l l' rest stop end))

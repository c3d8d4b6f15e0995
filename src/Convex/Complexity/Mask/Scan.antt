-- ===== src/Convex/Complexity/Mask/Scan.antt =====
-- The loop of `maskSource` as one pass that produces each character in turn, with no array.
use atdd_extensions.Base.{
  ℕ, zero, suc, ◌+◌, ◌≤◌, ◌<◌, ◌≡◌, refl, ap, ◌∙◌, Bool, true, false, List, [], ◌∷◌, ◌++◌, Option,
  none, some, arith, append_assoc, if◌then◌else◌, Bool-cases, inl, inr, le→not-ltb, lt→ltb, Text,
  within, map, length, length-append, get_elem?, get_elem?-append,
}
use atdd_extensions.Convex.Complexity.Mask.{
  Scanner, action, mask_mode, array_from, put_space, put_if, join, mask_loop, at_start, mask_source,
}

abbrev pub blanked : Bool → ℕ → ℕ
blanked true c = b' '
blanked false c = c

unfoldable pub masked : Scanner → Text → Text
masked s [] = []
masked s (c ∷ []) = blanked (action (some c) none s).blank c ∷ []
masked s (c ∷ d ∷ cs) =
    let a = action (some c) (some d) s in
    elim a.two [
      | true ↦ blanked a.blank c ∷ blanked a.blank_next d ∷ masked a.next cs
      | false ↦ blanked a.blank c ∷ masked a.next (d ∷ cs)
    ]

-- No code unit opens a surrogate pair, so code points and code units agree.
abbrev pub IsBmp : Text → Type 0
IsBmp [] = Unit
IsBmp (c ∷ cs) = (within 0xd800 0xdbff c ≡ false) × IsBmp cs

abbrev singles : Text → List Text
singles = map (λ c. c ∷ [])

array_from-singles : (t : Text) → IsBmp t → array_from t ≡ singles t
unfolding array_from
array_from-singles [] h = refl
array_from-singles (c ∷ []) h = refl
array_from-singles (c ∷ d ∷ cs) h = ground (arith, array_from-singles (d ∷ cs) h.1)

join-singles : (t : Text) → join (singles t) ≡ t
unfolding join
join-singles [] = refl
join-singles (c ∷ cs) = ap (◌∷◌ c) (join-singles cs)

put_space-singles :
    (done : Text) (c : ℕ) (cs : Text)
    → put_space (length done) (singles (done ++ c ∷ cs)) ≡ singles (done ++ b' ' ∷ cs)
unfolding put_space
put_space-singles [] c cs = refl
put_space-singles (x ∷ done) c cs = ap (◌∷◌ (x ∷ [])) (put_space-singles done c cs)

put_if-singles :
    (b : Bool) (done : Text) (c : ℕ) (cs : Text)
    → put_if b (length done) (singles (done ++ c ∷ cs)) ≡ singles (done ++ blanked b c ∷ cs)
put_if-singles true done c cs = put_space-singles done c cs
put_if-singles false done c cs = refl

-- A round never blanks behind the end of the text.
blank_next-end : (c : ℕ) (s : Scanner) → (action (some c) none s).blank_next ≡ false
unfolding mask_mode
blank_next-end c s = ground arith

blank_next-one :
    (c : ℕ) (d : Option ℕ) (s : Scanner)
    → (action (some c) d s).two ≡ false
    → (action (some c) d s).blank_next ≡ false
unfolding mask_mode
blank_next-one c d s h = ground arith

put_if-cons :
    (b : Bool) (i : ℕ) (x : Text) (xs : List Text) → put_if b (suc i) (x ∷ xs) ≡ x ∷ put_if b i xs
unfolding put_space
put_if-cons true i x xs = refl
put_if-cons false i x xs = refl

put_two :
    (b b' : Bool) (done : Text) (c d : ℕ) (cs : Text)
    → put_if b' (suc (length done)) (put_if b (length done) (singles (done ++ c ∷ d ∷ cs)))
      ≡ singles (done ++ blanked b c ∷ blanked b' d ∷ cs)
put_two b b' [] c d cs =
    ap (put_if b' 1) (put_if-singles b [] c (d ∷ cs))
    ∙ put_if-cons b' 0 (blanked b c ∷ []) (singles (d ∷ cs))
    ∙ ap (◌∷◌ (blanked b c ∷ [])) (put_if-singles b' [] d cs)
put_two b b' (x ∷ done) c d cs =
    ap (put_if b' (suc (suc (length done)))) (put_if-cons b (length done) (x ∷ []) _)
    ∙ put_if-cons b' (suc (length done)) (x ∷ []) _
    ∙ ap (◌∷◌ (x ∷ [])) (put_two b b' done c d cs)

mask_loop-end :
    (fuel i : ℕ) (text : Text) (s : Scanner) (out : List Text)
    → length text ≤ i
    → mask_loop fuel text i s out ≡ out
unfolding mask_loop
mask_loop-end zero i text s out h = refl
mask_loop-end (suc fuel) i text s out h = rw (le→not-ltb (length text) i h)

mask_loop-step :
    (fuel i : ℕ) (text : Text) (s : Scanner) (out : List Text) (c d : Option ℕ)
    → i < length text
    → get_elem? text i ≡ c
    → get_elem? text (suc i) ≡ d
    → mask_loop (suc fuel) text i s out
      ≡ mask_loop fuel text
          (if (action c d s).two then i + 2 else i + 1)
          (action c d s).next
          (put_if (action c d s).blank_next (suc i) (put_if (action c d s).blank i out))
unfolding mask_loop
mask_loop-step fuel i text s out c d h p q = rw (p, q, lt→ltb i (length text) h)

past_end :
    (two : Bool) (i : ℕ) (text : Text)
    → length text ≡ i + 1
    → length text ≤ (if two then i + 2 else i + 1)
past_end true i text h = omega arith
past_end false i text h = omega arith

pub masked-two :
    (s : Scanner) (c d : ℕ) (cs : Text)
    → (action (some c) (some d) s).two ≡ true
    → masked s (c ∷ d ∷ cs)
      ≡ blanked (action (some c) (some d) s).blank c
        ∷ blanked (action (some c) (some d) s).blank_next d
        ∷ masked (action (some c) (some d) s).next cs
unfolding masked
masked-two s c d cs h = rw (h, masked)

pub masked-one :
    (s : Scanner) (c d : ℕ) (cs : Text)
    → (action (some c) (some d) s).two ≡ false
    → masked s (c ∷ d ∷ cs)
      ≡ blanked (action (some c) (some d) s).blank c
        ∷ masked (action (some c) (some d) s).next (d ∷ cs)
unfolding masked
masked-one s c d cs h = rw (h, masked)

-- The same state with what is read and written split off in front.
regroup :
    (fuel i : ℕ) (before done pre pre' cs : Text) (s : Scanner)
    → i ≡ length (done ++ pre')
    → mask_loop fuel
        ((before ++ pre) ++ cs)
        (length (done ++ pre'))
        s
        (singles ((done ++ pre') ++ cs))
      ≡ singles ((done ++ pre') ++ masked s cs)
    → mask_loop fuel (before ++ (pre ++ cs)) i s (singles (done ++ (pre' ++ cs)))
      ≡ singles (done ++ (pre' ++ masked s cs))
regroup fuel i before done pre pre' cs s e h =
    rw
      (
        e,
        ← append_assoc before pre cs,
        ← append_assoc done pre' cs,
        ← append_assoc done pre' (masked s cs),
      )
      h

-- The array holds what is blanked so far, then the rest of the text.
mask_loop-masked :
    (fuel : ℕ) (before done suf : Text) (s : Scanner)
    → length before ≡ length done
    → length suf ≤ fuel
    → mask_loop fuel (before ++ suf) (length done) s (singles (done ++ suf))
      ≡ singles (done ++ masked s suf)
mask_loop-masked fuel before done [] s e h =
    mask_loop-end fuel (length done) (before ++ []) s _ (omega (arith, length-append before []))
    ∙ unfold masked in refl
mask_loop-masked zero before done (c ∷ _) s e h = elim h [ ]
mask_loop-masked (suc fuel) before done (c ∷ []) s e h =
    mask_loop-step fuel (length done) (before ++ c ∷ []) s _ (some c) none
      (omega (arith, length-append before (c ∷ [])))
      (get_elem?-append before (c ∷ []) 0 (length done) (omega arith))
      (get_elem?-append before (c ∷ []) 1 (suc (length done)) (omega arith))
    ∙ mask_loop-end fuel _ _ _ _ (
        past_end (action (some c) none s).two (length done) (before ++ c ∷ [])
          (omega (arith, length-append before (c ∷ []))))
    ∙ rw (blank_next-end c s)
        (unfold masked in put_if-singles (action (some c) none s).blank done c [])
mask_loop-masked (suc fuel) before done (c ∷ d ∷ cs) s e h =
    let a = action (some c) (some d) s in
    let i = length done in
    let two_read = length-append before (c ∷ d ∷ cs) in
    let here = get_elem?-append before (c ∷ d ∷ cs) 0 i (omega arith) in
    let there = get_elem?-append before (c ∷ d ∷ cs) 1 (suc i) (omega arith) in
    mask_loop-step fuel i (before ++ c ∷ d ∷ cs) s _ (some c) (some d) (omega arith) here there
    ∙ ap (mask_loop fuel (before ++ c ∷ d ∷ cs) (if a.two then i + 2 else i + 1) a.next)
        (put_two a.blank a.blank_next done c d cs)
    ∙ elim (Bool-cases a.two) [
      | inl two ↦
          let done' = blanked a.blank c ∷ blanked a.blank_next d ∷ [] in
          rw (two, masked-two s c d cs two)
            (regroup fuel (i + 2) before done (c ∷ d ∷ []) done' cs a.next
              (omega (arith, length-append done done'))
              (mask_loop-masked fuel (before ++ c ∷ d ∷ []) (done ++ done') cs a.next
                (omega (arith, length-append done done', length-append before (c ∷ d ∷ [])))
                (omega arith)))
      | inr one ↦
          let done' = blanked a.blank c ∷ [] in
          rw (one, masked-one s c d cs one, blank_next-one c (some d) s one)
            (regroup fuel (i + 1) before done (c ∷ []) done' (d ∷ cs) a.next
              (omega (arith, length-append done done'))
              (mask_loop-masked fuel (before ++ c ∷ []) (done ++ done') (d ∷ cs) a.next
                (omega (arith, length-append done done', length-append before (c ∷ [])))
                (omega arith)))
    ]

-- In a text with no high surrogate the in-place loop computes the same as the one pass.
pub mask_source-eq-masked : (t : Text) → IsBmp t → mask_source t ≡ masked at_start t
unfolding mask_source
mask_source-eq-masked t h =
    ap (λ out. join (mask_loop (length t) t 0 at_start out)) (array_from-singles t h)
    ∙ ap join (mask_loop-masked (length t) [] [] t at_start refl (omega arith))
    ∙ join-singles (masked at_start t)

-- ===== src/Convex/Complexity/Functions/Loops.antt =====
-- What the loops of `extractFunctions` keep of the functions that they find.
use atdd_extensions.Base.{
  ℕ, ◌+◌, ◌-◌, ◌≡◌, refl, Bool, true, false, List, [], ◌∷◌, ◌++◌, Option, none, some, arith, ◌==◌,
  if◌then◌else◌, Bool-cases, Option-cases, inl, inr, Text, In, slice, get_elem?, any, is_char,
  is_space, All, All-concat,
}
use atdd_extensions.Regex.{Match, match_all}
use atdd_extensions.Convex.Complexity.Brackets.{match_brace, match_paren_fwd, match_paren_back}
use atdd_extensions.Convex.Complexity.Words.{
  char_before, prev_word, name_before, skip_back, skip_forward,
}
use atdd_extensions.Convex.Complexity.Functions.{
  Fn, Source, Found, new_function, record_function, declaration_step, arrow_params, arrow_step,
  each_match, find_functions, func_decl, arrow, ident_before, capture_text, skip_return_type,
}

-- The signatures of a source: where one starts, its name, the text of its parameters, and the place
-- where its body's brace is looked for. It is a match of the declaration's expression, whose
-- parameters go up to the `)` that belongs to its last character; or the parameters before an
-- arrow, from the `(` that belongs to their `)` on; or the single word before an arrow.
pub data IsSignature (src : Source) : ℕ → Text → Text → ℕ → Type 0 where
  declared :
      (m : Match) (close : ℕ)
      → In m (match_all func_decl src.masked)
      → match_paren_fwd src.masked (m.index + m.size - 1) ≡ some close
      → IsSignature src m.index
          (capture_text m.capture)
          (slice src.masked (m.index + m.size - 1 + 1) close)
          (skip_return_type src.masked (skip_forward is_space src.masked (close + 1)))
  arrow_list :
      (m : Match) (p_end open_ : ℕ)
      → In m (match_all arrow src.masked)
      → p_end ≡ skip_back is_space src.masked m.index
      → char_before src.masked p_end ≡ some b')'
      → match_paren_back src.masked (p_end - 1) ≡ some open_
      → IsSignature src open_
          (name_before src.masked open_)
          (slice src.masked (open_ + 1) (p_end - 1))
          (skip_forward is_space src.masked (m.index + 2))
  arrow_word :
      (m : Match) (p_end : ℕ)
      → In m (match_all arrow src.masked)
      → p_end ≡ skip_back is_space src.masked m.index
      → is_char b')' (char_before src.masked p_end) ≡ false
      → ident_before src.masked p_end ≡ true
      → IsSignature src
          (prev_word src.masked p_end).start
          (name_before src.masked (prev_word src.masked p_end).start)
          (prev_word src.masked p_end).word
          (skip_forward is_space src.masked (m.index + 2))

-- A function that was read off a source: its signature, and where its body's braces stand.
pub record IsRead (src : Source) (f : Fn) : Type 0 where
  pub sig_idx : ℕ
  pub name : Text
  pub param_text : Text
  pub body_open : ℕ
  pub body_close : ℕ
  pub signature : IsSignature src sig_idx name param_text body_open
  pub made : f ≡ new_function src sig_idx name param_text body_open body_close
  pub opens : get_elem? src.masked body_open ≡ some b'{'
  pub closes : match_brace src.masked body_open ≡ some body_close

abbrev pub Distinct : List ℕ → Type 0
Distinct [] = Unit
Distinct (b ∷ bs) = (any (λ x. x == b) bs ≡ false) × Distinct bs

-- Each function with the brace of its body. A function is added at the end, and its brace in front.
pub data Paired (src : Source) : List Fn → List ℕ → Type 0 where
  no_pair : Paired src [] []
  pair :
      {fs : List Fn} {ks : List ℕ} {f : Fn}
      → Paired src fs ks
      → (r : IsRead src f) → Paired src (fs ++ f ∷ []) (r.body_open ∷ ks)

pub record IsSound (src : Source) (found : Found) : Type 0 where
  pub read : All (IsRead src) found.funcs
  pub bodies : Paired src found.funcs found.seen_bodies
  pub once : Distinct found.seen_bodies

add_function :
    (src : Source) (f : Fn) (found : Found)
    → IsSound src found
    → (r : IsRead src f)
    → IsSound src (
        if any (λ b. b == r.body_open) found.seen_bodies then found else record {
          funcs = found.funcs ++ f ∷ [];
          seen_bodies = r.body_open ∷ found.seen_bodies;
        })
add_function src f found h r = elim (Bool-cases (any (λ b. b == r.body_open) found.seen_bodies)) [
  | inl seen ↦ rw seen h
  | inr new ↦ rw new (record {
    read = All-concat (IsRead src) found.funcs f h.read r;
    bodies = pair h.bodies r;
    once = (new, h.once);
  })
]

record_function-IsSound :
    (src : Source) (sig : ℕ) (name params : Text) (k : ℕ) (found : Found)
    → get_elem? src.masked k ≡ some b'{'
    → IsSignature src sig name params k
    → IsSound src found
    → IsSound src (record_function src sig name params k found)
unfolding record_function
record_function-IsSound src sig name params k found o s h =
    elim (Option-cases (match_brace src.masked k)) [
      | inl e ↦ rw (e, record_function) h
      | inr (close, e) ↦
          let f = new_function src sig name params k close in
          rw (e, record_function)
            (add_function src f found h (record {
              sig_idx = sig;
              name = name;
              param_text = params;
              body_open = k;
              body_close = close;
              signature = s;
              made = refl;
              opens = o;
              closes = e;
            }))
    ]

is_char-true : (x : ℕ) (c : Option ℕ) → is_char x c ≡ true → c ≡ some x
is_char-true x none h = ground arith
is_char-true x (some c) h = ground arith

if-IsSound :
    (src : Source) (b : Bool) {changed found : Found}
    → (b ≡ true → IsSound src changed)
    → IsSound src found
    → IsSound src (if b then changed else found)
if-IsSound src true h k = h refl
if-IsSound src false h k = k

at_brace-IsSound :
    (src : Source) (sig : ℕ) (name params : Text) (k : ℕ) (found : Found)
    → IsSignature src sig name params k
    → IsSound src found
    → IsSound src (
        if is_char b'{' (get_elem? src.masked k)
        then record_function src sig name params k found
        else found)
at_brace-IsSound src sig name params k found s h =
    if-IsSound src _
      (λ e. record_function-IsSound src sig name params k found (is_char-true b'{' _ e) s h) h

declaration_step-IsSound :
    (src : Source) (m : Match) (found : Found)
    → In m (match_all func_decl src.masked)
    → IsSound src found
    → IsSound src (declaration_step src m found)
unfolding declaration_step
declaration_step-IsSound src m found n h =
    elim (Option-cases (match_paren_fwd src.masked (m.index + m.size - 1))) [
      | inl e ↦ rw (e, declaration_step) h
      | inr (close, e) ↦
          rw (e, declaration_step) (at_brace-IsSound src _ _ _ _ found (declared m close n e) h)
    ]

arrow_params-IsSound :
    (src : Source) (m : Match) (found : Found)
    → In m (match_all arrow src.masked)
    → get_elem? src.masked (skip_forward is_space src.masked (m.index + 2)) ≡ some b'{'
    → IsSound src found
    → IsSound src (
        arrow_params src
          (skip_back is_space src.masked m.index)
          (skip_forward is_space src.masked (m.index + 2))
          found)
unfolding arrow_params
arrow_params-IsSound src m found n o h =
    let p_end = skip_back is_space src.masked m.index in
    let k = skip_forward is_space src.masked (m.index + 2) in
    elim (Bool-cases (is_char b')' (char_before src.masked p_end))) [
      | inl paren ↦ rw paren (elim (Option-cases (match_paren_back src.masked (p_end - 1))) [
        | inl e ↦ rw (e, arrow_params) h
        | inr (open_, e) ↦
            rw (e, arrow_params)
              (record_function-IsSound src _ _ _ k found o
                (arrow_list m p_end open_ n refl (is_char-true b')' _ paren) e) h)
      ])
      | inr bare ↦
          let pw = prev_word src.masked p_end in
          rw bare (
            if-IsSound src (ident_before src.masked p_end)
              {changed = record_function src pw.start (name_before src.masked pw.start) pw.word k
                found}
              (λ i.
                record_function-IsSound src pw.start _ pw.word k found o
                  (arrow_word m p_end n refl bare i) h)
              h)
    ]

arrow_step-IsSound :
    (src : Source) (m : Match) (found : Found)
    → In m (match_all arrow src.masked)
    → IsSound src found
    → IsSound src (arrow_step src m found)
unfolding arrow_step
arrow_step-IsSound src m found n h =
    let k = skip_forward is_space src.masked (m.index + 2) in
    let p_end = skip_back is_space src.masked m.index in
    if-IsSound src (is_char b'{' (get_elem? src.masked k))
      {changed = arrow_params src p_end k found}
      (λ e. arrow_params-IsSound src m found n (is_char-true b'{' _ e) h) h

each_match-IsSound :
    (src : Source) (step : Match → Found → Found) (ms : List Match) (found : Found)
    → ((m : Match) (g : Found) → In m ms → IsSound src g → IsSound src (step m g))
    → IsSound src found
    → IsSound src (each_match step ms found)
unfolding each_match
each_match-IsSound src step [] found keep h = h
each_match-IsSound src step (m ∷ ms) found keep h =
    each_match-IsSound src step ms (step m found) (λ x g n. keep x g (inr n))
      (keep m found (inl refl) h)

pub find_functions-IsSound : (src : Source) → IsSound src (find_functions src)
unfolding find_functions
find_functions-IsSound src =
    let nothing : Found = record { funcs = []; seen_bodies = [] } in
    let declared = match_all func_decl src.masked in
    each_match-IsSound src (arrow_step src) (match_all arrow src.masked)
      (each_match (declaration_step src) declared nothing) (arrow_step-IsSound src)
      (each_match-IsSound src (declaration_step src) declared nothing (declaration_step-IsSound src)
        (record { read = tt; bodies = no_pair; once = tt }))

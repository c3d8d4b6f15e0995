-- ===== src/Regex.antt =====
-- JavaScript regular expressions, as far as the detectors use them: a backtracking matcher over a
-- text of UTF-16 code units, `exec` at a place, and all the matches of a global expression.
pub mod Words
use atdd_extensions.Base.{
  ℕ, zero, suc, ◌+◌, ◌-◌, drop, Bool, true, false, not, ◌&&◌, ◌||◌, List, [], ◌∷◌, ◌++◌, Option,
  none, some, ◌==◌, if◌then◌else◌, Text, length, head?, get_or, take, is_word, holds, is_char,
}

-- A place in the text: the code unit before it, its index, and the text from there on.
pub record Cursor : Type 0 where
  pub before : Option ℕ
  pub index : ℕ
  pub rest : Text

-- `star` repeats one class greedily and `lazy` as little as it can; the detectors repeat nothing
-- else. `line_start` and `line_end` are `^` and `$` under the flag `m`.
pub data Regex : Type 0 where
  empty boundary start_of_text end_of_text line_start line_end : Regex
  class star lazy not_ahead not_behind : (ℕ → Bool) → Regex
  seq alt : Regex → Regex → Regex
  option group : Regex → Regex

-- The texts of the capturing groups that took part in the match, in their order. Of the groups of
-- an alternation one takes part.
abbrev pub Capture : Type 0
Capture = List Text

abbrev pub Found : Type 0
Found = Option (Cursor × Capture)

abbrev pub step_over : ℕ → Text → Cursor → Cursor
step_over c cs p = record { before = some c; index = suc p.index; rest = cs }

-- `\b`: one side is a word character and the other is not.
abbrev pub at_boundary : Cursor → Bool
at_boundary p =
    let right = holds is_word (head? p.rest) in if holds is_word p.before then not right else right

-- Greedy repetition: the longest run first, then one character less each time.
unfoldable pub star_run : (ℕ → Bool) → Text → Option ℕ → ℕ → (Cursor → Found) → Found
star_run p [] b i k = k (record { before = b; index = i; rest = [] })
star_run p (c ∷ cs) b i k = elim (p c) [
  | true ↦ elim (star_run p cs (some c) (suc i) k) [
    | some r ↦ some r
    | none ↦ k (record { before = b; index = i; rest = c ∷ cs })
  ]
  | false ↦ k (record { before = b; index = i; rest = c ∷ cs })
]

-- Lazy repetition: no character first, then one more each time.
unfoldable pub lazy_run : (ℕ → Bool) → Text → Option ℕ → ℕ → (Cursor → Found) → Found
lazy_run p [] b i k = k (record { before = b; index = i; rest = [] })
lazy_run p (c ∷ cs) b i k = elim (k (record { before = b; index = i; rest = c ∷ cs })) [
  | some r ↦ some r
  | none ↦ if p c then lazy_run p cs (some c) (suc i) k else none
]

-- A character that ends a line.
unfoldable pub is_line_end : ℕ → Bool
is_line_end c = c == b'\n' || c == b'\r' || c == 0x2028 || c == 0x2029

-- The place is at an end of the text, or next to a character that ends a line.
abbrev pub at_line_end : Option ℕ → Bool
at_line_end none = true
at_line_end (some c) = is_line_end c

unfoldable pub match_class : (ℕ → Bool) → Text → Cursor → (Cursor → Found) → Found
match_class p [] at_ k = none
match_class p (c ∷ cs) at_ k = if p c then k (step_over c cs at_) else none

-- The matcher, with what follows as a continuation.
unfoldable pub match_re : Regex → Cursor → Capture → (Cursor → Capture → Found) → Found
unfolding star_run lazy_run match_class is_line_end
match_re empty u g k = k u g
match_re boundary u g k = if at_boundary u then k u g else none
match_re end_of_text u g k = elim u.rest [ [] ↦ k u g | _ ∷ _ ↦ none ]
match_re start_of_text u g k = elim u.before [ none ↦ k u g | some _ ↦ none ]
match_re line_start u g k = if at_line_end u.before then k u g else none
match_re line_end u g k = if at_line_end (head? u.rest) then k u g else none
match_re (class p) u g k = match_class p u.rest u (λ v. k v g)
match_re (star p) u g k = star_run p u.rest u.before u.index (λ v. k v g)
match_re (lazy p) u g k = lazy_run p u.rest u.before u.index (λ v. k v g)
match_re (not_behind p) u g k = if holds p u.before then none else k u g
match_re (not_ahead p) u g k = if holds p (head? u.rest) then none else k u g
match_re (seq r s) u g k = match_re r u g (λ v h. match_re s v h k)
match_re (alt r s) u g k = elim (match_re r u g k) [ some f ↦ some f | none ↦ match_re s u g k ]
match_re (option r) u g k = elim (match_re r u g k) [ some f ↦ some f | none ↦ k u g ]
match_re (group r) u g k = match_re r u g (λ v h. k v (h ++ take (v.index - u.index) u.rest ∷ []))

-- A match of a whole expression: `m.index`, `m[0].length` and the captures.
pub record Match : Type 0 where
  pub index : ℕ
  pub size : ℕ
  pub capture : Capture

unfoldable pub exec_at : Regex → Cursor → Option Match
unfolding match_re
exec_at r u = elim (match_re r u [] (λ v g. some (v, g))) [
  | none ↦ none
  | some (v, g) ↦ some (record { index = u.index; size = v.index - u.index; capture = g })
]

-- All the matches from a place on, left to right; `skip` characters belong to the last one.
unfoldable pub matches_from : Regex → ℕ → Option ℕ → ℕ → Text → List Match
matches_from r (suc skip) b i [] = []
matches_from r zero b i [] = elim (exec_at r (record { before = b; index = i; rest = [] })) [
  | none ↦ []
  | some m ↦ m ∷ []
]
matches_from r (suc skip) b i (c ∷ cs) = matches_from r skip (some c) (suc i) cs
matches_from r zero b i (c ∷ cs) =
    elim (exec_at r (record { before = b; index = i; rest = c ∷ cs })) [
      | none ↦ matches_from r zero (some c) (suc i) cs
      | some m ↦ m ∷ matches_from r (m.size - 1) (some c) (suc i) cs
    ]

-- The matches of a global expression in a text.
unfoldable pub match_all : Regex → Text → List Match
unfolding matches_from exec_at
match_all r t = matches_from r zero none 0 t

-- `(text.match(re) || []).length`
unfoldable pub count_matches : Regex → Text → ℕ
unfolding match_all
count_matches r t = length (match_all r t)

-- `re.test(text)`
unfoldable pub test : Regex → Text → Bool
unfolding match_all
test r t = elim (match_all r t) [ [] ↦ false | _ ∷ _ ↦ true ]

-- `re.exec(text)` from the start, or `text.match(re)` without the flag `g`.
unfoldable pub first_match : Regex → Text → Option Match
unfolding match_all
first_match r t = head? (match_all r t)

-- The text of a capturing group, by its place among those that took part.
unfoldable pub captured : Match → ℕ → Text
captured m i = get_or m.capture i []

-- `text.replace(re, f)` under the flag `g`, given the matches; `skip` characters belong to the last
-- match, and the text begins at index `i`.
unfoldable pub replace_from : (Match → Text) → List Match → ℕ → ℕ → Text → Text
replace_from f ms skip i [] = elim ms [ [] ↦ [] | m ∷ _ ↦ f m ]
replace_from f ms (suc skip) i (c ∷ cs) = replace_from f ms skip (suc i) cs
replace_from f [] zero i (c ∷ cs) = c ∷ replace_from f [] zero (suc i) cs
replace_from f (m ∷ ms) zero i (c ∷ cs) = elim (m.index == i) [
  | true ↦ f m ++ replace_from f ms (m.size - 1) (suc i) cs
  | false ↦ c ∷ replace_from f (m ∷ ms) zero (suc i) cs
]

-- `text.replace(re, f)` under the flag `g`, for an expression that matches no empty text.
unfoldable pub replace_all : Regex → (Match → Text) → Text → Text
unfolding replace_from match_all
replace_all r f t = replace_from f (match_all r t) zero 0 t

-- `text.replace(re, "")` without it.
unfoldable pub remove_first : Regex → Text → Text
unfolding first_match
remove_first r t = elim (first_match r t) [
  | none ↦ t
  | some m ↦ take m.index t ++ drop (m.index + m.size) t
]

-- The expression for a literal text.
unfoldable pub literal : Text → Regex
literal [] = empty
literal (c ∷ cs) = seq (class (λ x. x == c)) (literal cs)

-- `\bword\b`
unfoldable pub whole_word : Text → Regex
unfolding literal
whole_word w = seq boundary (seq (literal w) boundary)

cons_to_first : ℕ → List Text → List Text
cons_to_first c [] = (c ∷ []) ∷ []
cons_to_first c (l ∷ ls) = (c ∷ l) ∷ ls

-- `text.split(/\r?\n/)`
unfoldable pub split_lines : Text → List Text
unfolding cons_to_first
split_lines [] = [] ∷ []
split_lines (c ∷ cs) =
    let rest = split_lines cs in
    if c == b'\n'
    then [] ∷ rest
    else if c == b'\r' && is_char b'\n' (head? cs)
    then rest
    else cons_to_first c rest

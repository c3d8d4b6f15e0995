-- ===== src/Convex/Complexity/Metrics/Counts.antt =====
-- `cyclomatic` in terms of the words and operators of the body.
use atdd_extensions.Base.{
  ℕ, zero, suc, ◌+◌, ◌-◌, ◌≡◌, ◌≢◌, refl, sym, ap, ◌∙◌, true, false, not, ◌&&◌, ◌||◌, [], ◌∷◌,
  Option, none, some, arith, ◌==◌, if◌then◌else◌, Bool-cases, inl, inr, String, Text, codes, length,
  is_word, holds, head?, one_of,
}
use atdd_extensions.Regex.{
  exec_at, match_re, match_class, matches_from, count_matches, literal, whole_word,
}
use atdd_extensions.Regex.Words.{occurrences, AllWord, count_matches-whole_word}
use atdd_extensions.Convex.Complexity.Metrics.{cyclomatic, question, replace_nullish}

-- The pairs of a character, taken from the left without overlap.
abbrev pub pairs : ℕ → Text → ℕ
pairs x [] = 0
pairs x (c ∷ []) = 0
pairs x (c ∷ d ∷ cs) = elim (c == x && d == x) [
  | true ↦ suc (pairs x cs)
  | false ↦ pairs x (d ∷ cs)
]

abbrev doubled : ℕ → Text
doubled x = x ∷ x ∷ []

exec_at-doubled :
    (x : ℕ) (b : Option ℕ) (i c d : ℕ) (cs : Text)
    → exec_at (literal (doubled x)) (record { before = b; index = i; rest = c ∷ d ∷ cs }) ≡ (
        if c == x && d == x
        then some (record { index = i; size = suc (suc i) - i; capture = [] })
        else none)
unfolding exec_at match_re literal
exec_at-doubled x b i c d cs = ground arith

exec_at-single :
    (x : ℕ) (b : Option ℕ) (i c : ℕ)
    → exec_at (literal (doubled x)) (record { before = b; index = i; rest = c ∷ [] }) ≡ none
unfolding exec_at match_re literal
exec_at-single x b i c = ground arith

exec_at-none :
    (x : ℕ) (b : Option ℕ) (i : ℕ)
    → exec_at (literal (doubled x)) (record { before = b; index = i; rest = [] }) ≡ none
unfolding exec_at match_re literal
exec_at-none x b i = refl

pairs-both :
    (x c d : ℕ) (cs : Text) → (c == x && d == x) ≡ true → pairs x (c ∷ d ∷ cs) ≡ suc (pairs x cs)
pairs-both x c d cs h = ground arith

pairs-other :
    (x c d : ℕ) (cs : Text) → (c == x && d == x) ≡ false → pairs x (c ∷ d ∷ cs) ≡ pairs x (d ∷ cs)
pairs-other x c d cs h = ground arith

matches_from-pairs :
    (x : ℕ) (b : Option ℕ) (i : ℕ) (t : Text)
    → length (matches_from (literal (doubled x)) zero b i t) ≡ pairs x t
unfolding matches_from
matches_from-pairs x b i [] = rw (exec_at-none x b i, matches_from)
matches_from-pairs x b i (c ∷ []) =
    rw (exec_at-single x b i c, matches_from) (matches_from-pairs x (some c) (suc i) [])
matches_from-pairs x b i (c ∷ d ∷ cs) = elim (Bool-cases (c == x && d == x)) [
  | inl both ↦
      let width : suc (suc i) - i - 1 ≡ 1 = omega arith in
      let stepped : length (matches_from (literal (doubled x)) zero b i (c ∷ d ∷ cs))
          ≡ suc (pairs x cs) =
        rw (exec_at-doubled x b i c d cs, both, matches_from, width)
          (ap suc (matches_from-pairs x (some d) (suc (suc i)) cs)) in
      stepped ∙ sym (pairs-both x c d cs both)
  | inr no_ ↦
      let stepped : length (matches_from (literal (doubled x)) zero b i (c ∷ d ∷ cs))
          ≡ pairs x (d ∷ cs) =
        rw (exec_at-doubled x b i c d cs, no_, matches_from)
          (matches_from-pairs x (some c) (suc i) (d ∷ cs)) in
      stepped ∙ sym (pairs-other x c d cs no_)
]

count_matches-doubled : (x : ℕ) (t : Text) → count_matches (literal (doubled x)) t ≡ pairs x t
unfolding count_matches
count_matches-doubled x t = matches_from-pairs x none 0 t

-- The question marks that stand alone: of the pairs, taken from the left without overlap, none
-- holds them, and neither `.` nor `:` comes next.
abbrev pub lone : Text → ℕ
lone [] = 0
lone (c ∷ []) = if c == b'?' then 1 else 0
lone (c ∷ d ∷ cs) = elim (c == b'?') [
  | false ↦ lone (d ∷ cs)
  | true ↦ elim (d == b'?') [
    | true ↦ lone cs
    | false ↦ elim (d == b'.' || d == b':') [ true ↦ lone (d ∷ cs) | false ↦ suc (lone (d ∷ cs)) ]
  ]
]

lone-plain : (c d : ℕ) (cs : Text) → (c == b'?') ≡ false → lone (c ∷ d ∷ cs) ≡ lone (d ∷ cs)
lone-plain c d cs h = ground arith

lone-pair :
    (c d : ℕ) (cs : Text) → (c == b'?') ≡ true → (d == b'?') ≡ true → lone (c ∷ d ∷ cs) ≡ lone cs
lone-pair c d cs h k = ground arith

module _ (c d : ℕ) (cs : Text) (h : (c == b'?') ≡ true) (k : (d == b'?') ≡ false) where
  lone-bound : (d == b'.' || d == b':') ≡ true → lone (c ∷ d ∷ cs) ≡ lone (d ∷ cs)
  lone-bound b = ground arith

  lone-free : (d == b'.' || d == b':') ≡ false → lone (c ∷ d ∷ cs) ≡ suc (lone (d ∷ cs))
  lone-free b = ground arith

exec_at-question :
    (b : Option ℕ) (i c : ℕ) (t : Text)
    → exec_at question (record { before = b; index = i; rest = c ∷ t }) ≡ (
        if c == b'?' && not (holds (one_of (codes ".:?")) (head? t))
        then some (record { index = i; size = suc i - i; capture = [] })
        else none)
unfolding exec_at match_re match_class question
exec_at-question b i c t = ground arith

exec_at-question_end :
    (b : Option ℕ) (i : ℕ) → exec_at question (record { before = b; index = i; rest = [] }) ≡ none
unfolding exec_at match_re match_class question
exec_at-question_end b i = refl

-- How many matches of `question` there are from a place on.
abbrev questions : Option ℕ → ℕ → Text → ℕ
questions b i t = length (matches_from question zero b i t)

questions-hit :
    (b : Option ℕ) (i c : ℕ) (t : Text)
    → (c == b'?' && not (holds (one_of (codes ".:?")) (head? t))) ≡ true
    → questions b i (c ∷ t) ≡ suc (questions (some c) (suc i) t)
unfolding matches_from
questions-hit b i c t h =
    let width : suc i - i - 1 ≡ 0 = omega arith in
    rw (exec_at-question b i c t, h, matches_from, width)

questions-miss :
    (b : Option ℕ) (i c : ℕ) (t : Text)
    → (c == b'?' && not (holds (one_of (codes ".:?")) (head? t))) ≡ false
    → questions b i (c ∷ t) ≡ questions (some c) (suc i) t
unfolding matches_from
questions-miss b i c t h = rw (exec_at-question b i c t, h, matches_from)

questions-nothing : (b : Option ℕ) (i : ℕ) → questions b i [] ≡ 0
unfolding matches_from
questions-nothing b i = rw (exec_at-question_end b i, matches_from)

replace_nullish-pair :
    (c d : ℕ) (cs : Text)
    → (c == b'?') ≡ true
    → (d == b'?') ≡ true
    → replace_nullish (c ∷ d ∷ cs) ≡ b' ' ∷ b' ' ∷ replace_nullish cs
unfolding replace_nullish
replace_nullish-pair c d cs h k = rw (h, k, replace_nullish)

replace_nullish-other :
    (c d : ℕ) (cs : Text)
    → (c == b'?' && d == b'?') ≡ false
    → replace_nullish (c ∷ d ∷ cs) ≡ c ∷ replace_nullish (d ∷ cs)
unfolding replace_nullish
replace_nullish-other c d cs h = rw (h, replace_nullish)

replace_nullish-cons :
    (d : ℕ) (cs : Text) → (d == b'?') ≡ false → (ds : Text) × (replace_nullish (d ∷ cs) ≡ d ∷ ds)
unfolding replace_nullish
replace_nullish-cons d [] h = ([], refl)
replace_nullish-cons d (e ∷ es) h =
    (replace_nullish (e ∷ es), replace_nullish-other d e es (rw h refl))

-- What follows a question mark that stands alone.
one_of-follower : (d : ℕ) → (d == b'?') ≡ false → one_of (codes ".:?") d ≡ (d == b'.' || d == b':')
one_of-follower d h = ground arith

questions-lone : (b : Option ℕ) (i : ℕ) (t : Text) → questions b i (replace_nullish t) ≡ lone t
unfolding replace_nullish
questions-lone b i [] = questions-nothing b i
questions-lone b i (c ∷ []) = elim (Bool-cases (c == b'?')) [
  | inr plain ↦
      rw plain (questions-miss b i c [] (rw plain refl) ∙ questions-nothing (some c) (suc i))
  | inl mark ↦
      rw mark (questions-hit b i c [] (rw mark refl) ∙ ap suc (questions-nothing (some c) (suc i)))
]
questions-lone b i (c ∷ d ∷ cs) = elim (Bool-cases (c == b'?')) [
  | inr plain ↦
      rw (replace_nullish-other c d cs (rw plain refl), lone-plain c d cs plain)
        (questions-miss b i c (replace_nullish (d ∷ cs)) (rw plain refl)
          ∙ questions-lone (some c) (suc i) (d ∷ cs))
  | inl mark ↦ elim (Bool-cases (d == b'?')) [
    | inl both ↦
        rw (replace_nullish-pair c d cs mark both, lone-pair c d cs mark both)
          (questions-miss b i b' ' _ refl
            ∙ questions-miss (some b' ') (suc i) b' ' _ refl
            ∙ questions-lone (some b' ') (suc (suc i)) cs)
    | inr single ↦
        let (ds, split) = replace_nullish-cons d cs single in
        let later = questions-lone (some c) (suc i) (d ∷ cs) in
        elim (Bool-cases (d == b'.' || d == b':')) [
          | inl bound ↦
              rw
                (
                  replace_nullish-other c d cs (rw (mark, single) refl),
                  lone-bound c d cs mark single bound,
                )
                (questions-miss b i c (replace_nullish (d ∷ cs))
                    (rw (split, mark, one_of-follower d single, bound) refl)
                  ∙ later)
          | inr free ↦
              rw
                (
                  replace_nullish-other c d cs (rw (mark, single) refl),
                  lone-free c d cs mark single free,
                )
                (questions-hit b i c (replace_nullish (d ∷ cs))
                    (rw (split, mark, one_of-follower d single, free) refl)
                  ∙ ap suc later)
        ]
  ]
]

abbrev pub keyword : String → Text → ℕ
keyword w t = occurrences (codes w) false t

count_word-keyword :
    (w : String)
    → codes w ≢ []
    → AllWord (codes w)
    → (t : Text) → count_matches (whole_word (codes w)) t ≡ keyword w t
count_word-keyword w = count_matches-whole_word (codes w)

count_matches-question : (t : Text) → count_matches question (replace_nullish t) ≡ lone t
unfolding count_matches
count_matches-question t = questions-lone none 0 t

-- The score is one more than the number of the six decision keywords, as whole words, the pairs of
-- `&`, of `|` and of `?`, and the question marks outside of those pairs that no `.` or `:` follows.
pub cyclomatic_lem :
    (b : Text)
    → cyclomatic b
      ≡ 1
        + keyword "if" b
        + keyword "for" b
        + keyword "while" b
        + keyword "do" b
        + keyword "catch" b
        + keyword "case" b
        + (pairs b'&' b + pairs b'|' b + pairs b'?' b)
        + lone b
unfolding cyclomatic
cyclomatic_lem b = rw (
  count_word-keyword "if" (λ e. cc) (unfold is_word in (refl, (refl, tt))) b,
  count_word-keyword "for" (λ e. cc) (unfold is_word in (refl, (refl, (refl, tt)))) b,
  count_word-keyword "while" (λ e. cc)
      (unfold is_word in (refl, (refl, (refl, (refl, (refl, tt)))))) b,
  count_word-keyword "do" (λ e. cc) (unfold is_word in (refl, (refl, tt))) b,
  count_word-keyword "catch" (λ e. cc)
      (unfold is_word in (refl, (refl, (refl, (refl, (refl, tt)))))) b,
  count_word-keyword "case" (λ e. cc) (unfold is_word in (refl, (refl, (refl, (refl, tt))))) b,
  count_matches-doubled b'&' b,
  count_matches-doubled b'|' b,
  count_matches-doubled b'?' b,
  count_matches-question b,
)

-- ===== src/Bun/Tags.antt =====
-- lib/scan.mjs: `enclosingTag` and `templateLiterals`.
pub mod Enclose
use atdd_extensions.Base.{
  ℕ, zero, suc, ◌+◌, ◌-◌, Bool, true, false, ◌&&◌, ◌||◌, List, [], ◌∷◌, Option, none, some, ltb,
  ◌==◌, if◌then◌else◌, Text, is_char, length, get_elem?, drop, slice,
}

-- `for (let i = offset; i >= 0; i--)`, where `i` is one less than the number.
unfoldable pub tag_open : Text → ℕ → Option ℕ
tag_open text zero = none
tag_open text (suc i) =
    let earlier = tag_open text i in
    if is_char b'<' (get_elem? text i)
    then some i
    else if is_char b'>' (get_elem? text i)
    then none
    else earlier

-- The loop from the tag's start on, with the quote that is open; it gives `i + 1`.
unfoldable pub tag_close : Option ℕ → ℕ → Text → Option ℕ
tag_close quote i [] = none
tag_close (some q) i (ch ∷ rest) = elim (ch == q) [
  | true ↦ tag_close none (suc i) rest
  | false ↦ tag_close (some q) (suc i) rest
]
tag_close none i (ch ∷ rest) = elim (ch == b'"' || ch == b'\'') [
  | true ↦ tag_close (some ch) (suc i) rest
  | false ↦ elim (ch == b'>') [ true ↦ some (suc i) | false ↦ tag_close none (suc i) rest ]
]

pub record Tag : Type 0 where
  pub start : ℕ
  pub stop : ℕ
  pub text : Text

abbrev pub tag_from : Text → ℕ → Option ℕ → Option Tag
tag_from text start none = none
tag_from text start (some stop) =
    some (record { start = start; stop = stop; text = slice text start stop })

unfoldable pub enclosing_tag : Text → ℕ → Option Tag
unfolding tag_open tag_close
enclosing_tag text offset = elim (tag_open text (suc offset)) [
  | none ↦ none
  | some start ↦ tag_from text start (tag_close none start (drop start text))
]

-- The inner loop of `templateLiterals` at offset `j`: where it leaves `j`.
unfoldable pub template_from : ℕ → ℕ → Text → ℕ
template_from depth j [] = j
template_from depth j (c ∷ []) =
    if c == b'\\' then j + 2 else if c == b'`' && depth == 0 then j else j + 1
template_from depth j (c ∷ d ∷ cs) = elim (c == b'\\') [
  | true ↦ template_from depth (j + 2) cs
  | false ↦ elim (c == b'$' && d == b'{') [
    | true ↦ template_from (suc depth) (j + 2) cs
    | false ↦ elim (c == b'}' && ltb 0 depth) [
      | true ↦ template_from (depth - 1) (suc j) (d ∷ cs)
      | false ↦ elim (c == b'`' && depth == 0) [
        | true ↦ j
        | false ↦ template_from depth (suc j) (d ∷ cs)
      ]
    ]
  ]
]

pub record Template : Type 0 where
  pub start : ℕ
  pub text : Text

-- `while (i < text.length)`, with the rounds that are left.
unfoldable pub templates_loop : ℕ → Text → ℕ → List Template
unfolding template_from
templates_loop zero text i = []
templates_loop (suc rounds) text i =
    let j = template_from 0 (suc i) (drop (suc i) text) in
    let stop = if ltb (length text) (j + 1) then length text else j + 1 in
    let behind = templates_loop rounds text (j + 1) in
    let onwards = templates_loop rounds text (suc i) in
    elim (get_elem? text i) [
      | none ↦ []
      | some c ↦
          if c == b'`' then record { start = i; text = slice text i stop } ∷ behind else onwards
    ]

unfoldable pub template_literals : Text → List Template
unfolding templates_loop
template_literals text = templates_loop (length text) text 0

-- ===== src/Bun/Braces.antt =====
-- implementations/bun_ts_metrics_detector/ts_metrics.mjs: `findOpeningBrace`, `matchBraces` and
-- `countCodeLines`.
pub mod Agree
use atdd_extensions.Base.{
  ℕ, suc, ◌+◌, Bool, true, false, not, ◌&&◌, ◌||◌, List, [], ◌∷◌, Option, none, some, ◌==◌,
  if◌then◌else◌, Text, codes, slice, drop, trim,
}
use atdd_extensions.Base.Int.{ℤ, pos, suc_ℤ, pred_ℤ, eq_ℤ}
use atdd_extensions.Base.Paths.{split_on, is_prefix, includes}
use atdd_extensions.Bun.Scan.{is_quote}

-- The loop of `findOpeningBrace`, which began at `start` and is at offset `i`.
unfoldable pub opening_from : Text → ℕ → ℤ → ℕ → Text → Option ℕ
opening_from content start depth i [] = none
opening_from content start depth i (ch ∷ rest) =
    let segment = slice content start i in
    elim (ch == b'(') [
      | true ↦ opening_from content start (suc_ℤ depth) (suc i) rest
      | false ↦ elim (ch == b')') [
        | true ↦ opening_from content start (pred_ℤ depth) (suc i) rest
        | false ↦ elim (ch == b'{' && eq_ℤ depth (pos 0)) [
          | true ↦ some i
          | false ↦
              elim (ch == b'\n'
                && eq_ℤ depth (pos 0)
                && includes segment (codes "=>")
                && not (includes segment (codes "{"))) [
                  | true ↦ none
                  | false ↦ opening_from content start depth (suc i) rest
                ]
        ]
      ]
    ]

unfoldable pub find_opening_brace : Text → ℕ → Option ℕ
unfolding opening_from
find_opening_brace content start = opening_from content start (pos 0) start (drop start content)

-- `inLineComment`, `inBlockComment` and `inString`, of which one holds at most.
pub data Lexed : Type 0 where
  in_code in_line in_block : Lexed
  in_string : ℕ → Lexed

-- The loop of `matchBraces` at offset `i`.
unfoldable pub braces_from : Lexed → ℤ → ℕ → Text → Option ℕ
braces_from mode depth i [] = none
braces_from in_line depth i (ch ∷ rest) = elim (ch == b'\n') [
  | true ↦ braces_from in_code depth (suc i) rest
  | false ↦ braces_from in_line depth (suc i) rest
]
braces_from in_block depth i (ch ∷ []) = none
braces_from in_block depth i (ch ∷ next ∷ rest) = elim (ch == b'*' && next == b'/') [
  | true ↦ braces_from in_code depth (i + 2) rest
  | false ↦ braces_from in_block depth (suc i) (next ∷ rest)
]
braces_from (in_string quote) depth i (ch ∷ []) = none
braces_from (in_string quote) depth i (ch ∷ next ∷ rest) = elim (ch == b'\\') [
  | true ↦ braces_from (in_string quote) depth (i + 2) rest
  | false ↦ elim (ch == quote) [
    | true ↦ braces_from in_code depth (suc i) (next ∷ rest)
    | false ↦ braces_from (in_string quote) depth (suc i) (next ∷ rest)
  ]
]
braces_from in_code depth i (ch ∷ []) =
    if ch == b'}' && eq_ℤ (pred_ℤ depth) (pos 0) then some i else none
braces_from in_code depth i (ch ∷ next ∷ rest) = elim (ch == b'/' && next == b'/') [
  | true ↦ braces_from in_line depth (i + 2) rest
  | false ↦ elim (ch == b'/' && next == b'*') [
    | true ↦ braces_from in_block depth (i + 2) rest
    | false ↦ elim (is_quote ch) [
      | true ↦ braces_from (in_string ch) depth (suc i) (next ∷ rest)
      | false ↦ elim (ch == b'{') [
        | true ↦ braces_from in_code (suc_ℤ depth) (suc i) (next ∷ rest)
        | false ↦ elim (ch == b'}') [
          | true ↦ elim (eq_ℤ (pred_ℤ depth) (pos 0)) [
            | true ↦ some i
            | false ↦ braces_from in_code (pred_ℤ depth) (suc i) (next ∷ rest)
          ]
          | false ↦ braces_from in_code depth (suc i) (next ∷ rest)
        ]
      ]
    ]
  ]
]

unfoldable pub match_braces : Text → ℕ → Option ℕ
unfolding braces_from
match_braces content open_pos = braces_from in_code (pos 0) open_pos (drop open_pos content)

-- The loop of `countCodeLines`.
unfoldable pub code_lines : Bool → List Text → ℕ
code_lines in_block_ [] = 0
code_lines true (line ∷ lines) = elim (includes (trim line) (codes "*/")) [
  | true ↦ code_lines false lines
  | false ↦ code_lines true lines
]
code_lines false (line ∷ lines) =
    let s = trim line in
    elim (is_prefix (codes "/*") s) [
      | true ↦ elim (includes s (codes "*/")) [
        | true ↦ code_lines false lines
        | false ↦ code_lines true lines
      ]
      | false ↦
          let rest = code_lines false lines in
          elim s [ [] ↦ rest | c ∷ cs ↦ if is_prefix (codes "//") (c ∷ cs) then rest else suc rest ]
    ]

unfoldable pub count_code_lines : Text → ℕ
unfolding code_lines split_on
count_code_lines body = code_lines false (split_on b'\n' body)

-- ===== src/Convex/Interlocking/Patterns.antt =====
-- The regular expressions of the detector.
use atdd_extensions.Base.{
  ℕ, Bool, not, ◌||◌, List, [], ◌∷◌, String, Text, codes, one_of, within, is_space, is_ident, ◌==◌,
}
use atdd_extensions.Regex.{
  Regex, empty, class, star, lazy, seq, alt, option, group, boundary, start_of_text, end_of_text,
  line_start, line_end, literal, whole_word,
}

-- Expressions one behind the other.
abbrev pub chain : List Regex → Regex
chain [] = empty
chain (r ∷ rs) = seq r (chain rs)

abbrev pub any_of : String → Regex
any_of s = class (one_of (codes s))

-- `["']?`
abbrev pub maybe_quote : Regex
maybe_quote = option (class (λ c. c == b'"' || c == b'\''))

abbrev pub spaces : Regex
spaces = star is_space

-- `.`
unfoldable pub is_dot : ℕ → Bool
is_dot c = not (c == b'\n' || c == b'\r' || c == 0x2028 || c == 0x2029)

-- `\s*(?:#.*)?` and an end of line.
unfoldable pub comment_to : Regex → Regex
unfolding is_dot
comment_to end =
    chain (spaces ∷ option (chain (class (λ c. c == b'#') ∷ star is_dot ∷ [])) ∷ end ∷ [])

-- `[^"'#\n]`
abbrev pub is_plain : ℕ → Bool
is_plain c = not (c == b'"' || c == b'\'' || c == b'#' || c == b'\n')

-- `["']?([^"'#\n]+?)["']?\s*(?:#.*)?$`
unfoldable pub value_to : Regex → Regex
unfolding comment_to
value_to end =
    chain (
      maybe_quote
      ∷ group (seq (class is_plain) (lazy is_plain))
      ∷ maybe_quote
      ∷ comment_to end
      ∷ [])

unfoldable pub lit : String → Regex
unfolding literal
lit s = literal (codes s)

-- `/^interlocking_id:\s*["']?([^"'#\n]+?)["']?\s*(?:#.*)?$/m`
unfoldable pub interlocking_id_re : Regex
unfolding value_to lit
interlocking_id_re = chain (line_start ∷ lit "interlocking_id:" ∷ spaces ∷ value_to line_end ∷ [])

-- A top-level key with nothing but a comment behind it.
unfoldable pub block_key_re : String → Regex
unfolding comment_to lit
block_key_re key = chain (start_of_text ∷ lit key ∷ comment_to end_of_text ∷ [])

-- `/^\S/`
unfoldable pub dedent_re : Regex
dedent_re = chain (start_of_text ∷ class (λ c. not (is_space c)) ∷ [])

-- `/^\s*-\s*route_id:\s*…$/`
unfoldable pub route_id_re : Regex
unfolding value_to lit
route_id_re = chain (
    start_of_text
    ∷ spaces
    ∷ lit "-"
    ∷ spaces
    ∷ lit "route_id:"
    ∷ spaces
    ∷ value_to end_of_text
    ∷ [])

-- `/^\s*train_id:\s*…$/` and the like
unfoldable pub field_re : String → Regex
unfolding value_to lit
field_re key = chain (start_of_text ∷ spaces ∷ lit key ∷ spaces ∷ value_to end_of_text ∷ [])

-- `/^\s*exposed:\s*true\b/`
unfoldable pub exposed_re : Regex
unfolding lit
exposed_re = chain (start_of_text ∷ spaces ∷ lit "exposed:" ∷ spaces ∷ lit "true" ∷ boundary ∷ [])

-- `/^\s*actions:\s*\[([^\]]*)\]\s*(?:#.*)?$/`
unfoldable pub flow_actions_re : Regex
unfolding comment_to lit
flow_actions_re = chain (
    start_of_text
    ∷ spaces
    ∷ lit "actions:"
    ∷ spaces
    ∷ lit "["
    ∷ group (star (λ c. not (c == b']')))
    ∷ lit "]"
    ∷ comment_to end_of_text
    ∷ [])

-- `/^\s*actions:\s*(?:#.*)?$/`
unfoldable pub block_actions_re : Regex
unfolding comment_to lit
block_actions_re = chain (start_of_text ∷ spaces ∷ lit "actions:" ∷ comment_to end_of_text ∷ [])

-- `/^\s*-\s*["']?…$/`
unfoldable pub item_re : Regex
unfolding value_to lit
item_re = chain (start_of_text ∷ spaces ∷ lit "-" ∷ spaces ∷ value_to end_of_text ∷ [])

-- `new RegExp("^\\s*" + f + "\\s*:", "m")`
unfoldable pub parallel_re : Text → Regex
unfolding literal lit
parallel_re f = chain (line_start ∷ spaces ∷ literal f ∷ spaces ∷ lit ":" ∷ [])

-- `new RegExp("^\\s*" + field + "\\s*:.*$", "m")`
unfoldable pub parallel_line_re : Text → Regex
unfolding literal lit is_dot
parallel_line_re f =
    chain (line_start ∷ spaces ∷ literal f ∷ spaces ∷ lit ":" ∷ star is_dot ∷ line_end ∷ [])

-- `/^\s*exposed:\s*true\b.*$/m`
unfoldable pub exposed_line_re : Regex
unfolding lit is_dot
exposed_line_re = chain (
    line_start
    ∷ spaces
    ∷ lit "exposed:"
    ∷ spaces
    ∷ lit "true"
    ∷ boundary
    ∷ star is_dot
    ∷ line_end
    ∷ [])

-- `/\bJOURNEY_MAP\b[^=]*=\s*\{/`
unfoldable pub journey_map_re : Regex
unfolding whole_word lit
journey_map_re = chain (
    whole_word (codes "JOURNEY_MAP")
    ∷ star (λ c. not (c == b'='))
    ∷ lit "="
    ∷ spaces
    ∷ lit "{"
    ∷ [])

abbrev pub is_start : ℕ → Bool
is_start c = within b'A' b'Z' c || within b'a' b'z' c || c == b'_' || c == b'$'

-- One character or more.
abbrev pub plus : (ℕ → Bool) → Regex
plus p = seq (class p) (star p)

-- `(?:([A-Za-z_$][\w$]*)|"([^"]+)"|'([^']+)')`
unfoldable pub key_re : Regex
unfolding lit
key_re = alt (group (seq (class is_start) (star is_ident))) (
    alt (chain (lit "\"" ∷ group (plus (λ c. not (c == b'"'))) ∷ lit "\"" ∷ []))
      (chain (lit "'" ∷ group (plus (λ c. not (c == b'\''))) ∷ lit "'" ∷ [])))

-- `["']([^"']+)["']`
unfoldable pub quoted_re : Regex
quoted_re = chain (
    class (λ c. c == b'"' || c == b'\'')
    ∷ group (plus (λ c. not (c == b'"' || c == b'\'')))
    ∷ class (λ c. c == b'"' || c == b'\'')
    ∷ [])

-- A key with an object of no further braces.
unfoldable pub object_entry_re : Regex
unfolding key_re lit
object_entry_re = chain (
    key_re
    ∷ spaces
    ∷ lit ":"
    ∷ spaces
    ∷ lit "{"
    ∷ group (star (λ c. not (c == b'{' || c == b'}')))
    ∷ lit "}"
    ∷ [])

-- `interlockingId\s*:\s*["']([^"']+)["']` and the like
unfoldable pub property_re : String → Regex
unfolding quoted_re lit
property_re key = chain (lit key ∷ spaces ∷ lit ":" ∷ spaces ∷ quoted_re ∷ [])

-- A key with a quoted text, before a comma or the end of the object.
unfoldable pub direct_entry_re : Regex
unfolding key_re quoted_re lit
direct_entry_re = chain (
    key_re
    ∷ spaces
    ∷ lit ":"
    ∷ spaces
    ∷ quoted_re
    ∷ spaces
    ∷ class (λ c. c == b',' || c == b'}')
    ∷ [])

-- `/\brouteId\s*:\s*["']([^"']+)["']/g`
unfoldable pub route_literal_re : Regex
unfolding property_re
route_literal_re = seq boundary (property_re "routeId")

-- `/\b(?:trainId|selectedTrainId)\s*:\s*["']([^"']+)["']/g`
unfoldable pub train_literal_re : Regex
unfolding quoted_re lit
train_literal_re = chain (
    boundary
    ∷ alt (lit "trainId") (lit "selectedTrainId")
    ∷ spaces
    ∷ lit ":"
    ∷ spaces
    ∷ quoted_re
    ∷ [])

-- `/\btrace\b/`
unfoldable pub trace_re : Regex
unfolding whole_word
trace_re = whole_word (codes "trace")

unfoldable pub trace_field : Regex
unfolding lit
trace_field = group (alt (lit "routeId") (lit "interlockingId"))

-- `TRACE_ASSERT`
unfoldable pub trace_assert_re : Regex
unfolding trace_field quoted_re lit
trace_assert_re = chain (
    lit "trace"
    ∷ spaces
    ∷ alt (chain (lit "." ∷ spaces ∷ trace_field ∷ [])) (
        chain (
          lit "["
          ∷ spaces
          ∷ class (λ c. c == b'"' || c == b'\'')
          ∷ trace_field
          ∷ class (λ c. c == b'"' || c == b'\'')
          ∷ spaces
          ∷ lit "]"
          ∷ []))
    ∷ spaces
    ∷ alt (chain (lit "==" ∷ option (lit "=") ∷ spaces ∷ [])) (
        chain (
          lit ")"
          ∷ spaces
          ∷ lit "."
          ∷ spaces
          ∷ lit "to"
          ∷ alt (lit "Be") (alt (lit "Equal") (lit "StrictEqual"))
          ∷ spaces
          ∷ lit "("
          ∷ spaces
          ∷ []))
    ∷ quoted_re
    ∷ [])

-- ===== src/Convex/Interlocking/Journey.antt =====
-- `parseJourneyMap` and `runtimeResolutionLiterals`.
pub mod Laws
use atdd_extensions.Base.{
  ℕ, ◌+◌, ◌-◌, Bool, true, false, List, [], ◌∷◌, ◌++◌, Option, none, some, if◌then◌else◌, Text,
  text_eq, slice, length, map,
}
use atdd_extensions.Regex.{Match, first_match, captured, match_all}
use atdd_extensions.Convex.Complexity.Brackets.{match_brace}
use atdd_extensions.Convex.Interlocking.Text.{mask_comments, line_of_index}
use atdd_extensions.Convex.Interlocking.Patterns.{
  journey_map_re, object_entry_re, property_re, direct_entry_re, route_literal_re, train_literal_re,
}

-- What an action is mapped to.
pub data Mapping : Type 0 where
  interlocking : (id : Option Text) (path : Option Text) (line : ℕ) → Mapping
  direct : (train_id : Text) (line : ℕ) → Mapping

pub record Entry : Type 0 where
  pub action : Text
  pub mapping : Mapping

-- The object `out`, its keys in the order in which they were set.
abbrev pub Journey : Type 0
Journey = List Entry

-- `journey[action]`
unfoldable pub lookup : Journey → Text → Option Mapping
lookup [] action = none
lookup (e ∷ out) action =
    let rest = lookup out action in if text_eq e.action action then some e.mapping else rest

-- `out[action] = mapping`
unfoldable pub assign : Text → Mapping → Journey → Journey
assign action m [] = record { action = action; mapping = m } ∷ []
assign action m (e ∷ out) =
    let rest = assign action m out in
    if text_eq e.action action then record e { mapping = m } ∷ out else e ∷ rest

-- `idm ? idm[1] : null`
abbrev pub value_of : Option Match → Option Text
value_of none = none
value_of (some m) = some (captured m 0)

abbrev pub add_interlocking : Text → Option Text → Option Text → ℕ → Journey → Journey
add_interlocking action none none line out = out
add_interlocking action (some id) path line out =
    assign action (interlocking (some id) path line) out
add_interlocking action none (some path) line out =
    assign action (interlocking none (some path) line) out

-- The first loop. `body_start` is where the body stands in the text.
unfoldable pub object_entries : Text → ℕ → List Match → Journey → Journey
unfolding assign captured first_match property_re line_of_index
object_entries raw body_start [] out = out
object_entries raw body_start (m ∷ ms) out = object_entries raw body_start ms (
    add_interlocking (captured m 0)
      (value_of (first_match (property_re "interlockingId") (captured m 1)))
      (value_of (first_match (property_re "path") (captured m 1)))
      (line_of_index raw (body_start + m.index)) out)

abbrev pub add_direct : Text → Text → ℕ → Journey → Journey
add_direct action train_id line out = elim (lookup out action) [
  | some m ↦ out
  | none ↦ assign action (direct train_id line) out
]

-- The second loop.
unfoldable pub direct_entries : Text → ℕ → List Match → Journey → Journey
unfolding assign lookup captured line_of_index
direct_entries raw body_start [] out = out
direct_entries raw body_start (m ∷ ms) out =
    direct_entries raw body_start ms
      (add_direct (captured m 0) (captured m 1) (line_of_index raw (body_start + m.index)) out)

abbrev pub close_or_end : Text → Option ℕ → ℕ
close_or_end text none = length text
close_or_end text (some close) = close

unfoldable pub journey_body : Text → ℕ → Text
unfolding match_brace
journey_body text open_ = slice text (open_ + 1) (close_or_end text (match_brace text open_))

unfoldable pub journey_from : Text → Text → Option Match → Journey
unfolding journey_body object_entries direct_entries match_all object_entry_re direct_entry_re
journey_from raw text none = []
journey_from raw text (some m) =
    let open_ = m.index + m.size - 1 in
    let body = journey_body text open_ in
    direct_entries raw (open_ + 1) (match_all direct_entry_re body)
      (object_entries raw (open_ + 1) (match_all object_entry_re body) [])

-- `parseJourneyMap(rawText)`
unfoldable pub parse_journey_map : Text → Journey
unfolding mask_comments first_match journey_map_re journey_from
parse_journey_map raw =
    let text = mask_comments raw in journey_from raw text (first_match journey_map_re text)

-- A value that the runtime resolves to: of a route, or of a train.
pub record Resolved : Type 0 where
  pub is_route : Bool
  pub value : Text
  pub line : ℕ

abbrev pub resolved_at : Bool → Text → Match → Resolved
resolved_at is_route raw m = record {
  is_route = is_route;
  value = captured m 0;
  line = line_of_index raw m.index;
}

-- `runtimeResolutionLiterals(rawText)`
unfoldable pub runtime_resolution_literals : Text → List Resolved
unfolding mask_comments match_all captured line_of_index route_literal_re train_literal_re
runtime_resolution_literals raw =
    let text = mask_comments raw in
    map (resolved_at true raw) (match_all route_literal_re text)
    ++ map (resolved_at false raw) (match_all train_literal_re text)

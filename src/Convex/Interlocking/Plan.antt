-- ===== src/Convex/Interlocking/Plan.antt =====
-- `parseInterlocking`: the declaration of an interlocking, line by line.
pub mod Lines
use atdd_extensions.Base.{
  ℕ, suc, Bool, true, false, List, [], ◌∷◌, ◌++◌, Option, none, some, if◌then◌else◌, Text, codes,
  trim, keep, ◌||◌, ◌==◌,
}
use atdd_extensions.Base.Paths.{split_on}
use atdd_extensions.Regex.{Match, first_match, captured, test, split_lines}
use atdd_extensions.Convex.Interlocking.Patterns.{
  interlocking_id_re, block_key_re, dedent_re, route_id_re, field_re, exposed_re, flow_actions_re,
  block_actions_re, item_re, parallel_re,
}
use mathlib.Core.List.{reverse}

pub record Route : Type 0 where
  pub route_id : Text
  pub line : ℕ
  pub source_line : Text
  pub train_id : Option Text
  pub train_path : Option Text

pub record Plan : Type 0 where
  pub interlocking_id : Text
  pub routes : List Route
  pub exposed : Bool
  pub actions : List Text
  pub parallel_fields : List Text
  pub raw_text : Text

-- `if (tm) cur.trainId = tm[1].trim()`
abbrev pub or_match : Option Match → Option Text → Option Text
or_match none old = old
or_match (some m) old = some (trim (captured m 0))

-- A line that may give the current route its train.
unfoldable pub read_train : Text → Route → Route
unfolding first_match captured field_re
read_train l cur = record cur {
  train_id = or_match (first_match (field_re "train_id:") l) cur.train_id;
  train_path = or_match (first_match (field_re "train_path:") l) cur.train_path;
}

abbrev pub read_last_train : Text → List Route → List Route
read_last_train l [] = []
read_last_train l (cur ∷ routes) = read_train l cur ∷ routes

abbrev pub new_route : Text → ℕ → Text → Route
new_route id line l = record {
  route_id = id;
  line = line;
  source_line = l;
  train_id = none;
  train_path = none;
}

-- The loop over the lines of the block, of which the first is line `i + 1`. The routes have their
-- last one first.
unfoldable pub read_routes : ℕ → List Text → List Route → List Route
unfolding first_match captured test dedent_re route_id_re read_train
read_routes i [] routes = routes
read_routes i (l ∷ lines) routes = elim (test dedent_re l) [
  | true ↦ routes
  | false ↦ elim (first_match route_id_re l) [
    | some m ↦ read_routes (suc i) lines (new_route (trim (captured m 0)) (suc i) l ∷ routes)
    | none ↦ read_routes (suc i) lines (read_last_train l routes)
  ]
]

-- The lines behind the first that `re` matches, with the index of the first of them.
unfoldable pub behind_key : (Text → Bool) → ℕ → List Text → Option (ℕ × List Text)
behind_key is_key i [] = none
behind_key is_key i (l ∷ lines) = elim (is_key l) [
  | true ↦ some (suc i, lines)
  | false ↦ behind_key is_key (suc i) lines
]

abbrev pub routes_behind : Option (ℕ × List Text) → List Route
routes_behind none = []
routes_behind (some (i, lines)) = reverse (read_routes i lines [])

unfoldable pub plan_routes : List Text → List Route
unfolding behind_key read_routes test block_key_re
plan_routes lines = routes_behind (behind_key (test (block_key_re "routes:")) 0 lines)

-- `raw.trim().replace(/^["']|["']$/g, "")`
abbrev pub is_quote_mark : ℕ → Bool
is_quote_mark c = c == b'"' || c == b'\''

abbrev pub drop_quote : Text → Text
drop_quote [] = []
drop_quote (c ∷ cs) = if is_quote_mark c then cs else c ∷ cs

unfoldable pub unquote : Text → Text
unquote raw = reverse (drop_quote (reverse (drop_quote (trim raw))))

abbrev pub has_some : Text → Bool
has_some [] = false
has_some (c ∷ cs) = true

-- `flow[1].split(",")`
abbrev pub flow_items : List Text → List Text
flow_items [] = []
flow_items (raw ∷ raws) =
    let rest = flow_items raws in if has_some (unquote raw) then unquote raw ∷ rest else rest

-- The inner loop, over the items of a block sequence.
unfoldable pub block_items : List Text → List Text
unfolding first_match captured item_re
block_items [] = []
block_items (l ∷ lines) = elim (first_match item_re l) [
  | none ↦ []
  | some m ↦ trim (captured m 0) ∷ block_items lines
]

-- `exposed` and `actions`.
pub record Entrypoint : Type 0 where
  pub exposed : Bool
  pub actions : List Text

-- What a line, with the lines behind it, adds to the actions.
unfoldable pub line_actions : Text → List Text → List Text
unfolding first_match captured test flow_actions_re block_actions_re block_items unquote split_on
line_actions l lines = elim (first_match flow_actions_re l) [
  | some m ↦ flow_items (split_on b',' (captured m 0))
  | none ↦ if test block_actions_re l then block_items lines else []
]

unfoldable pub read_entrypoint : List Text → Entrypoint → Entrypoint
unfolding test dedent_re exposed_re line_actions
read_entrypoint [] e = e
read_entrypoint (l ∷ lines) e = elim (test dedent_re l) [
  | true ↦ e
  | false ↦ read_entrypoint lines (record {
    exposed = test exposed_re l || e.exposed;
    actions = e.actions ++ line_actions l lines;
  })
]

abbrev pub hidden : Entrypoint
hidden = record { exposed = false; actions = [] }

abbrev pub entrypoint_behind : Option (ℕ × List Text) → Entrypoint
entrypoint_behind none = hidden
entrypoint_behind (some (i, lines)) = read_entrypoint lines hidden

unfoldable pub plan_entrypoint : List Text → Entrypoint
unfolding behind_key read_entrypoint test block_key_re
plan_entrypoint lines = entrypoint_behind (behind_key (test (block_key_re "entrypoint:")) 0 lines)

abbrev pub all_parallel_fields : List Text
all_parallel_fields =
    codes "entrypoints"
    ∷ codes "runtime_exposure"
    ∷ codes "station_actions"
    ∷ codes "exposed_actions"
    ∷ codes "reachability"
    ∷ []

unfoldable pub parallel_of : Text → List Text
unfolding test parallel_re
parallel_of text = keep (λ f. test (parallel_re f) text) all_parallel_fields

abbrev pub plan_with : Text → Text → List Route → Option Plan
plan_with text id [] = none
plan_with text id (r ∷ routes) =
    let e = plan_entrypoint (split_lines text) in
    some (record {
      interlocking_id = id;
      routes = r ∷ routes;
      exposed = e.exposed;
      actions = e.actions;
      parallel_fields = parallel_of text;
      raw_text = text;
    })

-- `parseInterlocking(text)`
unfoldable pub parse_interlocking : Text → Option Plan
unfolding first_match captured interlocking_id_re plan_routes plan_entrypoint parallel_of
    split_lines
parse_interlocking text = elim (first_match interlocking_id_re text) [
  | none ↦ none
  | some m ↦ plan_with text (trim (captured m 0)) (plan_routes (split_lines text))
]

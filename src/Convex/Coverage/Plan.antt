-- ===== src/Convex/Coverage/Plan.antt =====
-- `parseInterlocking`, which reads a route's category here, and what the checks read of a consumer
-- tree. The discovery of files and `maskComments` have the text that they have in the binding
-- detector, or do the same in fewer lines, and share its definitions.
use atdd_extensions.Base.{
  ℕ, suc, Bool, true, false, List, [], ◌∷◌, Option, none, some, Text, trim, map,
}
use atdd_extensions.Base.Build.{concat_map, ◌>>=◌}
use atdd_extensions.Regex.{first_match, captured, test, split_lines}
use atdd_extensions.Convex.Interlocking.Tree.{Files, read_text, interlocking_files, e2e_files}
use atdd_extensions.Convex.Interlocking.Patterns.{
  interlocking_id_re, block_key_re, dedent_re, route_id_re, field_re,
}
use atdd_extensions.Convex.Interlocking.Plan.{or_match, behind_key, plan_entrypoint}
use atdd_extensions.Convex.Interlocking.Space.{Module, module_at}
use mathlib.Core.List.{reverse}

pub record GuardedRoute : Type 0 where
  pub route_id : Text
  pub line : ℕ
  pub source_line : Text
  pub train_id : Option Text
  pub category : Option Text

pub record RouteSpace : Type 0 where
  pub interlocking_id : Text
  pub routes : List GuardedRoute
  pub exposed : Bool
  pub actions : List Text
  pub raw_text : Text

-- A line that may give the current route its train or its category.
unfoldable pub read_field : Text → GuardedRoute → GuardedRoute
unfolding first_match captured field_re
read_field l cur = record cur {
  train_id = or_match (first_match (field_re "train_id:") l) cur.train_id;
  category = or_match (first_match (field_re "category:") l) cur.category;
}

abbrev pub read_last_field : Text → List GuardedRoute → List GuardedRoute
read_last_field l [] = []
read_last_field l (cur ∷ routes) = read_field l cur ∷ routes

abbrev pub guarded_route : Text → ℕ → Text → GuardedRoute
guarded_route id line l = record {
  route_id = id;
  line = line;
  source_line = l;
  train_id = none;
  category = none;
}

-- The loop over the lines of the block, of which the first is line `i + 1`. The routes have their
-- last one first.
unfoldable pub read_guarded : ℕ → List Text → List GuardedRoute → List GuardedRoute
unfolding first_match captured test dedent_re route_id_re read_field
read_guarded i [] routes = routes
read_guarded i (l ∷ lines) routes = elim (test dedent_re l) [
  | true ↦ routes
  | false ↦ elim (first_match route_id_re l) [
    | some m ↦ read_guarded (suc i) lines (guarded_route (trim (captured m 0)) (suc i) l ∷ routes)
    | none ↦ read_guarded (suc i) lines (read_last_field l routes)
  ]
]

abbrev pub guarded_behind : Option (ℕ × List Text) → List GuardedRoute
guarded_behind none = []
guarded_behind (some (i, lines)) = reverse (read_guarded i lines [])

unfoldable pub guarded_routes : List Text → List GuardedRoute
unfolding behind_key read_guarded test block_key_re
guarded_routes lines = guarded_behind (behind_key (test (block_key_re "routes:")) 0 lines)

abbrev pub space_with : Text → Text → List GuardedRoute → Option RouteSpace
space_with text id [] = none
space_with text id (r ∷ routes) =
    let e = plan_entrypoint (split_lines text) in
    some (record {
      interlocking_id = id;
      routes = r ∷ routes;
      exposed = e.exposed;
      actions = e.actions;
      raw_text = text;
    })

unfoldable pub parse_route_space : Text → Option RouteSpace
unfolding first_match captured interlocking_id_re guarded_routes plan_entrypoint split_lines
parse_route_space text = elim (first_match interlocking_id_re text) [
  | none ↦ none
  | some m ↦ space_with text (trim (captured m 0)) (guarded_routes (split_lines text))
]

-- `{ file, rec }`
pub record Planned : Type 0 where
  pub file : Text
  pub space : RouteSpace

abbrev pub planned : Text → Option RouteSpace → List Planned
planned f none = []
planned f (some space) = record { file = f; space = space } ∷ []

-- What a check reads of a consumer tree.
pub record Suite : Type 0 where
  pub croot : Text
  pub plans : List Planned
  pub tests : List Module

unfoldable pub read_suite : Files → Text → Option Suite
unfolding interlocking_files e2e_files read_text parse_route_space
read_suite fs croot = do
  ils ← interlocking_files fs croot
  tests ← e2e_files fs croot
  some (record {
    croot = croot;
    plans = concat_map (λ f. planned f (parse_route_space (read_text fs f))) ils;
    tests = map (module_at fs) tests;
  })

-- ===== src/Convex/Interlocking/Space.antt =====
-- What `scanConsumerRoot` reads of a consumer tree.
use atdd_extensions.Base.{Bool, true, List, [], ◌∷◌, Option, none, some, Text, any, map}
use atdd_extensions.Base.Build.{concat_map, ◌>>=◌}
use atdd_extensions.Regex.{alt, test}
use atdd_extensions.Convex.Interlocking.Tree.{
  Files, read_text, interlocking_files, runtime_files, e2e_files, app_file,
}
use atdd_extensions.Convex.Interlocking.Patterns.{lit}
use atdd_extensions.Convex.Interlocking.Plan.{Plan, parse_interlocking}
use atdd_extensions.Convex.Interlocking.Journey.{Journey, parse_journey_map}

-- `{ file, ...rec }`
pub record Declared : Type 0 where
  pub file : Text
  pub plan : Plan

-- `{ file, text }`
pub record Module : Type 0 where
  pub file : Text
  pub text : Text

-- What `scanConsumerRoot` reads before it checks.
pub record Space : Type 0 where
  pub croot : Text
  pub records : List Declared
  pub runtime : List Module
  pub app : Option Text
  pub app_text : Text
  pub journey : Journey
  pub e2e : List Module

-- A text that counts as true.
abbrev pub truthy : Option Text → Option Text
truthy none = none
truthy (some []) = none
truthy (some (c ∷ cs)) = some (c ∷ cs)

unfoldable pub declared_routes : Space → List Text
declared_routes s = concat_map (λ r. map (λ x. x.route_id) r.plan.routes) s.records

abbrev pub listed : Option Text → List Text
listed none = []
listed (some t) = t ∷ []

unfoldable pub declared_trains : Space → List Text
declared_trains s =
    concat_map (λ r. concat_map (λ x. listed (truthy x.train_id)) r.plan.routes) s.records

unfoldable pub declared_ids : Space → List Text
declared_ids s = map (λ r. r.plan.interlocking_id) s.records

-- `/InterlockingRunner|InterlockingResolution/`
unfoldable pub runs_interlocking : Text → Bool
unfolding test lit
runs_interlocking text = test (alt (lit "InterlockingRunner") (lit "InterlockingResolution")) text

unfoldable pub is_enabled : Space → Bool
unfolding runs_interlocking
is_enabled s = elim s.records [ [] ↦ any (λ m. runs_interlocking m.text) s.runtime | _ ∷ _ ↦ true ]

abbrev pub declare : Text → Option Plan → List Declared
declare f none = []
declare f (some plan) = record { file = f; plan = plan } ∷ []

abbrev pub module_at : Files → Text → Module
module_at fs f = record { file = f; text = read_text fs f }

abbrev pub text_at : Files → Option Text → Text
text_at fs none = []
text_at fs (some app) = read_text fs app

abbrev pub journey_at : Files → Option Text → Journey
journey_at fs none = []
journey_at fs (some app) = parse_journey_map (read_text fs app)

-- `scanConsumerRoot(croot)`, or none if reading a directory throws.
unfoldable pub read_space : Files → Text → Option Space
unfolding interlocking_files runtime_files e2e_files app_file read_text parse_interlocking
    parse_journey_map
read_space fs croot = do
  let app = app_file fs croot
  ils ← interlocking_files fs croot
  rts ← runtime_files fs croot
  tests ← e2e_files fs croot
  some (record {
    croot = croot;
    records = concat_map (λ f. declare f (parse_interlocking (read_text fs f))) ils;
    runtime = map (module_at fs) rts;
    app = app;
    app_text = text_at fs app;
    journey = journey_at fs app;
    e2e = map (module_at fs) tests;
  })

-- ===== src/Convex/Coverage/Tokens.antt =====
-- The words and patterns that a test must or must not have.
use atdd_extensions.Base.{
  ℕ, suc, Bool, true, false, not, ◌||◌, ◌==◌, List, [], ◌∷◌, Option, none, some, String, Text,
  codes, keep, any, is_space, is_word, within,
}
use atdd_extensions.Base.Paths.{includes}
use atdd_extensions.Base.Build.{concat_map, unique}
use atdd_extensions.Regex.{
  Regex, class, star, alt, option, boundary, start_of_text, end_of_text, line_start, not_ahead,
  not_behind, literal, whole_word, test, split_lines,
}
use atdd_extensions.Convex.Interlocking.Patterns.{chain, lit, plus, spaces, maybe_quote}
use atdd_extensions.Convex.Interlocking.Executes.{is_id_char}
use atdd_extensions.Convex.Coverage.Plan.{GuardedRoute, RouteSpace}

-- `[label, pattern]`
pub record Labelled : Type 0 where
  pub label : Text
  pub pattern : Regex

abbrev pub prod_interlocking : Text
prod_interlocking = codes "InterlockingRunner"

abbrev pub prod_train : Text
prod_train = codes "TrainRunner"

unfoldable pub field_word : String → Labelled
unfolding whole_word
field_word name = record { label = codes name; pattern = whole_word (codes name) }

unfoldable pub required_trace_fields : List Labelled
unfolding field_word
required_trace_fields =
    field_word "interlockingId"
    ∷ field_word "routeId"
    ∷ field_word "selectedTrainId"
    ∷ field_word "routeCategory"
    ∷ field_word "guardId"
    ∷ field_word "resolutionStrategy"
    ∷ field_word "resolutionReason"
    ∷ []

-- One of some words.
unfoldable pub one_word : List String → Regex
unfolding lit
one_word [] = class (λ c. false)
one_word (w ∷ ws) = alt (lit w) (one_word ws)

-- `\b(?:vi|jest)\.…\s*\(\s*[^)]*(?:…)`
unfoldable pub replaces_re : String → List String → Regex
unfolding lit one_word
replaces_re method words = chain (
    boundary
    ∷ one_word ("vi" ∷ "jest" ∷ [])
    ∷ lit "."
    ∷ lit method
    ∷ spaces
    ∷ lit "("
    ∷ spaces
    ∷ star (λ c. not (c == b')'))
    ∷ one_word words
    ∷ [])

-- `/(?:^|\n)\s*(?:(?:async\s+)?function\s+resolveTrain|class\s+\w*Resolver)\b/`
unfoldable pub resolver_re : Regex
unfolding lit
resolver_re = chain (
    alt start_of_text (lit "\n")
    ∷ spaces
    ∷ alt
        (chain (
          option (chain (lit "async" ∷ plus is_space ∷ []))
          ∷ lit "function"
          ∷ plus is_space
          ∷ lit "resolveTrain"
          ∷ []))
        (chain (lit "class" ∷ plus is_space ∷ star is_word ∷ lit "Resolver" ∷ []))
    ∷ boundary
    ∷ [])

unfoldable pub forbidden_patterns : List Labelled
unfolding field_word replaces_re resolver_re
forbidden_patterns =
    field_word "MockInterlockingRunner"
    ∷ field_word "MockTrainRunner"
    ∷ record {
      label = codes "vi.mock()/jest.mock() around a runner module";
      pattern =
          replaces_re "mock"
            ("interlocking" ∷ "InterlockingRunner" ∷ "TrainRunner" ∷ "runner" ∷ []);
    }
    ∷ record {
      label = codes "vi.spyOn()/jest.spyOn() replacing runner behavior";
      pattern =
          replaces_re "spyOn"
            ("InterlockingRunner" ∷ "TrainRunner" ∷ "resolveTrain" ∷ "execute" ∷ []);
    }
    ∷ record {
      label = codes "hand-built route resolver replacing InterlockingRunner";
      pattern = resolver_re;
    }
    ∷ []

abbrev pub is_letter : ℕ → Bool
is_letter c = within b'A' b'Z' c || within b'a' b'z' c || c == b'_'

-- `STATION_MASTER`
unfoldable pub station_master_re : Regex
unfolding lit one_word whole_word
station_master_re =
    alt
      (chain (
        boundary
        ∷ one_word ("StationMaster" ∷ "station_master" ∷ "stationMaster" ∷ [])
        ∷ boundary
        ∷ []))
      (alt (whole_word (codes "JOURNEY_MAP")) (
        alt
          (chain (
            line_start
            ∷ spaces
            ∷ lit "import"
            ∷ boundary
            ∷ star (λ c. not (c == b'\n'))
            ∷ whole_word (codes "app")
            ∷ []))
          (chain (boundary ∷ lit "app." ∷ class is_letter ∷ []))))

-- `TRACE_OBJECT`
unfoldable pub trace_object_re : Regex
unfolding whole_word
trace_object_re = whole_word (codes "trace")

-- `tokenCovered(token, text)`
unfoldable pub token_re : Text → Regex
unfolding literal
token_re token = chain (not_behind is_id_char ∷ literal token ∷ not_ahead is_id_char ∷ [])

unfoldable pub token_covered : Text → Text → Bool
unfolding test token_re
token_covered [] text = false
token_covered (c ∷ cs) text = test (token_re (c ∷ cs)) text

abbrev pub train_covered : Option Text → Text → Bool
train_covered none text = false
train_covered (some id) text = token_covered id text

abbrev pub mentions : GuardedRoute → Text → Bool
mentions route text = token_covered route.route_id text || train_covered route.train_id text

-- `isRouteCovered(route, e2eTexts)`
unfoldable pub is_route_covered : GuardedRoute → List Text → Bool
unfolding token_covered
is_route_covered route texts = any (mentions route) texts

abbrev pub is_token : Text → Bool
is_token [] = false
is_token (c ∷ cs) = true

abbrev pub token_if : Option Text → List Text
token_if none = []
token_if (some t) = t ∷ []

abbrev pub space_tokens : RouteSpace → List Text
space_tokens space =
    space.interlocking_id ∷ concat_map (λ r. r.route_id ∷ token_if r.train_id) space.routes

-- `interlockingTokenSet(records)`
unfoldable pub interlocking_token_set : List RouteSpace → List Text
interlocking_token_set records = keep is_token (unique (concat_map space_tokens records))

-- `isInterlockingTest(text, tokens)`
unfoldable pub is_interlocking_test : Text → List Text → Bool
unfolding token_covered
is_interlocking_test text tokens =
    includes text prod_interlocking
    || includes text prod_train
    || includes text (codes "resolveTrain")
    || any (λ t. token_covered t text) tokens

-- What `lineOf` gives.
pub record Located : Type 0 where
  pub line : ℕ
  pub src : Text

unfoldable pub line_from : ℕ → Regex → List Text → Located
unfolding test
line_from i pattern [] = record { line = 1; src = [] }
line_from i pattern (l ∷ lines) = elim (test pattern l) [
  | true ↦ record { line = suc i; src = l }
  | false ↦ line_from (suc i) pattern lines
]

-- `lineOf(text, pattern)`
unfoldable pub line_matching : Text → Regex → Located
unfolding line_from split_lines
line_matching text pattern = line_from 0 pattern (split_lines text)

-- The item of an action, for an action without characters that have a meaning in a pattern.
unfoldable pub action_re : Text → Regex
unfolding lit literal
action_re action = chain (
    start_of_text
    ∷ spaces
    ∷ lit "-"
    ∷ spaces
    ∷ maybe_quote
    ∷ literal action
    ∷ maybe_quote
    ∷ spaces
    ∷ end_of_text
    ∷ [])

-- ===== src/Convex/Infrastructure/Runner.antt =====
-- What a text says of the InterlockingRunner, of its resolutions and of the JOURNEY_MAP.
use atdd_extensions.Base.{
  ℕ, ◌+◌, ◌-◌, Bool, true, false, not, ◌==◌, List, [], ◌∷◌, Option, none, some, Text, codes, slice,
  drop, map, one_of, is_space, is_ident,
}
use atdd_extensions.Regex.{
  Regex, Match, class, star, alt, option, group, boundary, start_of_text, first_match, captured,
  match_all, test, whole_word,
}
use atdd_extensions.Convex.Complexity.Brackets.{match_brace}
use atdd_extensions.Convex.Interlocking.Text.{mask_comments, line_of_index}
use atdd_extensions.Convex.Interlocking.Patterns.{
  chain, lit, plus, spaces, any_of, is_start, journey_map_re,
}

abbrev pub required_resolution_fields : List Text
required_resolution_fields =
    codes "interlockingId"
    ∷ codes "routeId"
    ∷ codes "trainId"
    ∷ codes "trainPath"
    ∷ codes "category"
    ∷ codes "guardId"
    ∷ codes "resolutionStrategy"
    ∷ codes "reason"
    ∷ []

-- `/\bclass\s+InterlockingRunner\b/`
unfoldable pub runner_class_re : Regex
unfolding lit
runner_class_re =
    chain (boundary ∷ lit "class" ∷ plus is_space ∷ lit "InterlockingRunner" ∷ boundary ∷ [])

unfoldable pub has_runner_class : Text → Bool
unfolding mask_comments test runner_class_re
has_runner_class text = test runner_class_re (mask_comments text)

-- `m ? lineOfIndex(text, m.index) : 1`
abbrev pub line_or_one : Text → Option Match → ℕ
line_or_one text none = 1
line_or_one text (some m) = line_of_index text m.index

unfoldable pub runner_class_line : Text → ℕ
unfolding mask_comments first_match runner_class_re line_of_index
runner_class_line text = line_or_one text (first_match runner_class_re (mask_comments text))

-- `/\bresolveTrain\s*\(/`
unfoldable pub resolve_train_re : Regex
unfolding lit
resolve_train_re = chain (boundary ∷ lit "resolveTrain" ∷ spaces ∷ lit "(" ∷ [])

unfoldable pub has_resolve_train : Text → Bool
unfolding mask_comments test resolve_train_re
has_resolve_train text = test resolve_train_re (mask_comments text)

-- What stands between the brace at `open_` and the one that closes it, or behind it.
unfoldable pub braces_body : Text → ℕ → Text
unfolding match_brace
braces_body text open_ = elim (match_brace text open_) [
  | some close ↦ slice text (open_ + 1) close
  | none ↦ drop (open_ + 1) text
]

-- `/\b(?:interface|class|type)\s+InterlockingResolution\b[^{]*\{/`
unfoldable pub resolution_re : Regex
unfolding lit
resolution_re = chain (
    boundary
    ∷ alt (lit "interface") (alt (lit "class") (lit "type"))
    ∷ plus is_space
    ∷ lit "InterlockingResolution"
    ∷ boundary
    ∷ star (λ c. not (c == b'{'))
    ∷ lit "{"
    ∷ [])

-- `/(?:^|[;{,\n])\s*(?:readonly\s+)?([A-Za-z_$][\w$]*)\s*[?!]?\s*:/g`
unfoldable pub field_name_re : Regex
unfolding lit
field_name_re = chain (
    alt start_of_text (any_of ";{,\n")
    ∷ spaces
    ∷ option (chain (lit "readonly" ∷ plus is_space ∷ []))
    ∷ group (chain (class is_start ∷ star is_ident ∷ []))
    ∷ spaces
    ∷ option (any_of "?!")
    ∷ spaces
    ∷ lit ":"
    ∷ [])

abbrev pub fields_behind : Text → Option Match → Option (List Text)
fields_behind text none = none
fields_behind text (some decl) = some (
    map (λ m. captured m 0)
      (match_all field_name_re (braces_body text (decl.index + decl.size - 1))))

-- `resolutionModelFields(rawText)`, with the set in the order in which it was filled.
unfoldable pub resolution_model_fields : Text → Option (List Text)
unfolding mask_comments first_match match_all captured resolution_re field_name_re braces_body
resolution_model_fields raw =
    let text = mask_comments raw in fields_behind text (first_match resolution_re text)

-- What `journeyMap` gives.
pub record JourneyShape : Type 0 where
  pub has_interlocking : Bool
  pub has_direct : Bool
  pub interlocking_line : ℕ

-- `/\binterlocking(?:Id|_id)\b/`
unfoldable pub interlocking_key_re : Regex
unfolding lit
interlocking_key_re =
    chain (boundary ∷ lit "interlocking" ∷ alt (lit "Id") (lit "_id") ∷ boundary ∷ [])

-- `/:\s*["'][^"']+["']\s*[,}]/`
unfoldable pub direct_route_re : Regex
unfolding lit
direct_route_re = chain (
    lit ":"
    ∷ spaces
    ∷ any_of "\"'"
    ∷ plus (λ c. not (one_of (codes "\"'") c))
    ∷ any_of "\"'"
    ∷ spaces
    ∷ any_of ",}"
    ∷ [])

abbrev pub is_found : Option Match → Bool
is_found none = false
is_found (some m) = true

abbrev pub key_line : Text → ℕ → Option Match → ℕ
key_line text open_ none = line_of_index text open_
key_line text open_ (some im) = line_of_index text (open_ + 1 + im.index)

abbrev pub shape_behind : Text → Option Match → JourneyShape
shape_behind text none = record {
  has_interlocking = false;
  has_direct = false;
  interlocking_line = 0;
}
shape_behind text (some m) =
    let open_ = m.index + m.size - 1 in
    let body = braces_body text open_ in
    let im = first_match interlocking_key_re body in
    record {
      has_interlocking = is_found im;
      has_direct = test direct_route_re body;
      interlocking_line = key_line text open_ im;
    }

-- `journeyMap(rawText)`
unfoldable pub journey_map : Text → JourneyShape
unfolding mask_comments first_match journey_map_re braces_body test line_of_index
    interlocking_key_re direct_route_re
journey_map raw =
    let text = mask_comments raw in shape_behind text (first_match journey_map_re text)

-- `referencesToken(text, tok)`, for a token of letters.
unfoldable pub references_token : Text → Text → Bool
unfolding mask_comments test whole_word
references_token text tok = test (whole_word tok) (mask_comments text)

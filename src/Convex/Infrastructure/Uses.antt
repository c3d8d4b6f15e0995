-- ===== src/Convex/Infrastructure/Uses.antt =====
-- Where a text imports or calls what it must not.
use atdd_extensions.Base.{
  ℕ, ◌+◌, Bool, not, ◌||◌, ◌==◌, List, [], ◌∷◌, ◌++◌, String, Text, codes, has_text, any, map, keep,
  one_of, is_space, is_word,
}
use atdd_extensions.Base.Paths.{split_on}
use atdd_extensions.Regex.{
  Regex, Match, seq, class, star, lazy, alt, group, boundary, line_start, line_end, end_of_text,
  not_ahead, captured, match_all, test, whole_word, remove_first,
}
use atdd_extensions.Convex.Interlocking.Text.{mask_comments, line_of_index, line_at}
use atdd_extensions.Convex.Interlocking.Patterns.{chain, lit, plus, spaces, any_of}

-- `{ line, src }`
pub record Hit : Type 0 where
  pub line : ℕ
  pub src : Text

abbrev pub hit_at : Text → Match → Hit
hit_at raw m =
    let line = line_of_index (mask_comments raw) m.index in
    record { line = line; src = line_at raw line }

-- The loop of `exec` over the masked text.
unfoldable pub hits : Regex → Text → List Hit
unfolding mask_comments match_all line_of_index line_at
hits re raw = map (hit_at raw) (match_all re (mask_comments raw))

abbrev pub not_newline : ℕ → Bool
not_newline c = not (c == b'\n')

-- `["']([^"']+)["'][^\n]*$`
unfoldable pub specifier_re : Regex
specifier_re = chain (
    any_of "\"'"
    ∷ group (plus (λ c. not (one_of (codes "\"'") c)))
    ∷ any_of "\"'"
    ∷ star not_newline
    ∷ line_end
    ∷ [])

-- `/^\s*import\b[^\n]*?from\s*["']([^"']+)["'][^\n]*$/gm`
unfoldable pub import_from_re : Regex
unfolding lit specifier_re
import_from_re = chain (
    line_start
    ∷ spaces
    ∷ lit "import"
    ∷ boundary
    ∷ lazy not_newline
    ∷ lit "from"
    ∷ spaces
    ∷ specifier_re
    ∷ [])

-- `/\.(ts|tsx|js|mjs)$/`
unfoldable pub segment_ext_re : Regex
unfolding lit
segment_ext_re =
    chain
      (lit "." ∷ alt (lit "ts") (alt (lit "tsx") (alt (lit "js") (lit "mjs"))) ∷ end_of_text ∷ [])

-- `segs.includes("wagon")`
unfoldable pub leads_to_wagon : Match → Bool
unfolding captured split_on remove_first segment_ext_re
leads_to_wagon m =
    has_text (map (remove_first segment_ext_re) (split_on b'/' (captured m 0))) (codes "wagon")

unfoldable pub imports_wagon : Text → List Hit
unfolding mask_comments match_all import_from_re leads_to_wagon line_of_index line_at
imports_wagon raw =
    map (hit_at raw) (keep leads_to_wagon (match_all import_from_re (mask_comments raw)))

-- `/\brunTrain\s*\(/g`
unfoldable pub run_train_re : Regex
unfolding lit
run_train_re = chain (boundary ∷ lit "runTrain" ∷ spaces ∷ lit "(" ∷ [])

unfoldable pub run_train_calls : Text → List Hit
unfolding hits run_train_re
run_train_calls raw = hits run_train_re raw

-- `/\bfor\s*\([^)]*\bof\s+[\w.$]+\.sequence\b/g`
unfoldable pub sequence_re : Regex
unfolding lit
sequence_re = chain (
    boundary
    ∷ lit "for"
    ∷ spaces
    ∷ lit "("
    ∷ star (λ c. not (c == b')'))
    ∷ boundary
    ∷ lit "of"
    ∷ plus is_space
    ∷ plus (λ c. is_word c || c == b'.' || c == b'$')
    ∷ lit ".sequence"
    ∷ boundary
    ∷ [])

unfoldable pub sequence_loops : Text → List Hit
unfolding hits sequence_re
sequence_loops raw = hits sequence_re raw

-- `{ line, detail, src }`
pub record Use : Type 0 where
  pub hit : Hit
  pub detail : Text

-- `/\bCargo\b/g`
unfoldable pub cargo_re : Regex
unfolding whole_word
cargo_re = whole_word (codes "Cargo")

-- `/\bcargo\s*\[[^\]]*\]\s*=(?!=)/g`
unfoldable pub cargo_write_re : Regex
unfolding lit
cargo_write_re = chain (
    boundary
    ∷ lit "cargo"
    ∷ spaces
    ∷ lit "["
    ∷ star (λ c. not (c == b']'))
    ∷ lit "]"
    ∷ spaces
    ∷ lit "="
    ∷ not_ahead (λ c. c == b'=')
    ∷ [])

-- `/\bartifact_urn\b|\bartifactUrn\b/g`
unfoldable pub artifact_re : Regex
unfolding whole_word
artifact_re = alt (whole_word (codes "artifact_urn")) (whole_word (codes "artifactUrn"))

abbrev pub used : String → Hit → Use
used detail h = record { hit = h; detail = codes detail }

unfoldable pub cargo_uses : Text → List Use
unfolding hits cargo_re cargo_write_re artifact_re
cargo_uses raw =
    map (used "references the Cargo symbol") (hits cargo_re raw)
    ++ map (used "mutates a cargo mapping") (hits cargo_write_re raw)
    ++ map (used "stores an artifact_urn value") (hits artifact_re raw)

-- `/^\s*import\b([^\n]*?)from\s*["']([^"']+)["'][^\n]*$/gm`
unfoldable pub import_names_re : Regex
unfolding lit specifier_re
import_names_re = chain (
    line_start
    ∷ spaces
    ∷ lit "import"
    ∷ boundary
    ∷ group (lazy not_newline)
    ∷ lit "from"
    ∷ spaces
    ∷ specifier_re
    ∷ [])

-- A small letter, or its capital.
abbrev pub letters : Text → Regex
letters [] = chain []
letters (c ∷ cs) = seq (class (λ x. x == c || x + 32 == c)) (letters cs)

-- `/interlocking/i`
abbrev pub interlocking_word_re : Regex
interlocking_word_re = letters (codes "interlocking")

unfoldable pub leads_to_interlocking : Match → Bool
unfolding captured split_on test whole_word
leads_to_interlocking m =
    any (test interlocking_word_re) (split_on b'/' (captured m 1))
    || test (whole_word (codes "InterlockingRunner")) (captured m 0)

unfoldable pub imports_interlocking : Text → List Hit
unfolding mask_comments match_all import_names_re leads_to_interlocking line_of_index line_at
imports_interlocking raw =
    map (hit_at raw) (keep leads_to_interlocking (match_all import_names_re (mask_comments raw)))

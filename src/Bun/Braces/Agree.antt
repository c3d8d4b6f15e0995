-- ===== src/Bun/Braces/Agree.antt =====
-- The Bun and the Convex matcher of braces.
use atdd_extensions.Base.{ℕ, zero, suc, ◌≡◌, refl, false, ◌||◌, [], ◌∷◌, arith, ◌==◌, Text, drop}
use atdd_extensions.Base.Int.{ℤ, pos, suc_ℤ, pred_ℤ}
use atdd_extensions.Convex.Complexity.Brackets.{match_from, match_brace}
use atdd_extensions.Bun.Scan.{is_quote}
use atdd_extensions.Bun.Braces.{in_code, braces_from, match_braces}

-- No quote and no slash, so no literal and no comment begins.
abbrev pub IsBare : Text → Type 0
IsBare [] = Unit
IsBare (c ∷ cs) = (is_quote c || c == b'/') ≡ false × IsBare cs

braces_from-match_from :
    (depth : ℤ) (i : ℕ) (t : Text)
    → IsBare t
    → braces_from in_code depth i t ≡ match_from b'{' b'}' depth i t
unfolding braces_from match_from
braces_from-match_from depth i [] h = refl
braces_from-match_from depth i (c ∷ []) h = ground arith
braces_from-match_from depth i (c ∷ d ∷ cs) h = ground (
  arith,
  braces_from-match_from (suc_ℤ depth) (suc i) (d ∷ cs) h.1,
  braces_from-match_from (pred_ℤ depth) (suc i) (d ∷ cs) h.1,
  braces_from-match_from depth (suc i) (d ∷ cs) h.1,
)

IsBare-drop : (n : ℕ) (t : Text) → IsBare t → IsBare (drop n t)
IsBare-drop zero t h = h
IsBare-drop (suc n) [] h = tt
IsBare-drop (suc n) (c ∷ t) h = IsBare-drop n t h.1

-- On a text with no quote and no slash `matchBraces` of the Bun provider finds what `matchBrace` of
-- the Convex provider finds.
pub match_braces-eq-match_brace : (t : Text) (i : ℕ) → IsBare t → match_braces t i ≡ match_brace t i
unfolding match_braces match_brace
match_braces-eq-match_brace t i h = braces_from-match_from (pos 0) i (drop i t) (IsBare-drop i t h)

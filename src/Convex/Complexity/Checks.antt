-- ===== src/Convex/Complexity/Checks.antt =====
-- `evaluate` of the five checks: the evidence against a function, or none.
pub mod Verdicts
use atdd_extensions.Base.{
  ℕ, Bool, true, List, [], ◌∷◌, ◌++◌, Option, none, some, ltb, leb, if◌then◌else◌, Text, codes,
  decimal,
}
use atdd_extensions.Convex.Complexity.Functions.{Fn}
use atdd_extensions.Convex.Complexity.Metrics.{body_loc, cyclomatic, analyze_blocks}

abbrev pub cyclomatic_threshold : ℕ
cyclomatic_threshold = 10

abbrev pub cognitive_threshold : ℕ
cognitive_threshold = 15

abbrev pub length_threshold : ℕ
length_threshold = 50

abbrev pub nesting_threshold : ℕ
nesting_threshold = 4

abbrev pub params_limit : ℕ
params_limit = 5

-- `'function "' + fn.name + '"' + middle + n + end`
unfoldable pub evidence : Fn → Text → ℕ → Text → Text
evidence fn middle n end = codes "function \"" ++ (fn.name ++ (middle ++ (decimal n ++ end)))

unfoldable pub evaluate_cyclomatic : Fn → Option Text
unfolding evidence
evaluate_cyclomatic fn =
    if ltb (body_loc fn) 3
    then none
    else if leb (cyclomatic fn.masked_body) cyclomatic_threshold
    then none
    else some (
        evidence fn (codes "\" has cyclomatic complexity ") (cyclomatic fn.masked_body)
          (codes " (threshold 10)"))

unfoldable pub evaluate_cognitive : Fn → Option Text
unfolding evidence
evaluate_cognitive fn =
    let score = (analyze_blocks fn.masked_body).cognitive in
    if leb score cognitive_threshold
    then none
    else some (evidence fn (codes "\" has cognitive complexity ") score (codes " (threshold 15)"))

unfoldable pub evaluate_length : Fn → Option Text
unfolding evidence
evaluate_length fn =
    let loc = body_loc fn in
    if leb loc length_threshold
    then none
    else some (evidence fn (codes "\" body is ") loc (codes " lines of code (threshold 50)"))

unfoldable pub evaluate_nesting : Fn → Option Text
unfolding evidence
evaluate_nesting fn =
    let depth = (analyze_blocks fn.masked_body).max_nesting in
    if leb depth nesting_threshold
    then none
    else some (evidence fn (codes "\" nests control blocks ") depth (codes " deep (threshold 4)"))

unfoldable pub evaluate_params : Fn → Option Text
unfolding evidence
evaluate_params fn =
    if leb fn.param_count params_limit
    then none
    else some (
        evidence fn (codes "\" declares ") fn.param_count
          (codes " parameters (limit 5, must be < 6)"))

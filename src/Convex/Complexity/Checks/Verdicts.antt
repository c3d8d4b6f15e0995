-- ===== src/Convex/Complexity/Checks/Verdicts.antt =====
-- When each check holds something against a function.
use atdd_extensions.Base.{◌+◌, ◌≤◌, ◌<◌, ◌≢◌, ◌↔◌, none, arith, Text, All, All-weaken}
use atdd_extensions.Convex.Complexity.Functions.{Fn, extract_functions}
use atdd_extensions.Convex.Complexity.Functions.Bodies.{extract_functions-IsRead}
use atdd_extensions.Convex.Complexity.Metrics.{
  body_loc, cyclomatic, classify_brace, count_operators,
}
use atdd_extensions.Convex.Complexity.Metrics.Nesting.{Body, height, total, analyze_blocks-Body}
use atdd_extensions.Convex.Complexity.Checks.{
  evaluate_cyclomatic, evaluate_cognitive, evaluate_length, evaluate_nesting, evaluate_params,
}

-- A function is flagged for its cyclomatic score exactly if its body has three code lines or more
-- and the score is above 10; for length above 50 code lines; for 6 parameters or more.
pub evaluate_iff :
    (fn : Fn)
    → ((evaluate_cyclomatic fn ≢ none) ↔ ((3 ≤ body_loc fn) × (10 < cyclomatic fn.masked_body)))
      × ((evaluate_length fn ≢ none) ↔ (50 < body_loc fn))
      × ((evaluate_params fn ≢ none) ↔ (6 ≤ fn.param_count))
unfolding evaluate_cyclomatic evaluate_length evaluate_params
evaluate_iff fn = ground arith

-- What the two block checks say of a function whose body is the given tree of blocks.
abbrev pub BlockVerdicts : Fn → Type 0
BlockVerdicts fn =
    (tree : Body fn.masked_body) × ((evaluate_nesting fn ≢ none)
      ↔ (4 < height (classify_brace fn.masked_body) 0 tree))
    × ((evaluate_cognitive fn ≢ none)
        ↔ (15 < total (classify_brace fn.masked_body) 0 0 tree + count_operators fn.masked_body))

evaluate_blocks_iff : (fn : Fn) → Body fn.masked_body → BlockVerdicts fn
unfolding evaluate_nesting evaluate_cognitive
evaluate_blocks_iff fn tree =
    (tree, ground (arith, analyze_blocks-Body tree), ground (arith, analyze_blocks-Body tree))

-- Of every function of a text the nesting check flags exactly those whose tree of blocks is more
-- than 4 control blocks deep, and the cognitive check those whose sum over it is above 15.
pub extract_functions-verdicts : (text : Text) → All BlockVerdicts (extract_functions text)
extract_functions-verdicts text =
    All-weaken _ BlockVerdicts (extract_functions text) (λ fn r. evaluate_blocks_iff fn r.1)
      (extract_functions-IsRead text)

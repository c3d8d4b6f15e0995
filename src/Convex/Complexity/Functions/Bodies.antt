-- ===== src/Convex/Complexity/Functions/Bodies.antt =====
-- What `extractFunctions` returns: each function's body is what stands between two braces that
-- belong together, no body comes twice, and the functions come in the order of their lines.
use mathlib.Core.List.{Perm}
use atdd_extensions.Base.{Text, All, All-weaken}
use atdd_extensions.Convex.Complexity.Brackets.Balance.{Balanced}
use atdd_extensions.Convex.Complexity.Functions.{
  Fn, Source, read_source, new_function, find_functions, extract_functions,
}
use atdd_extensions.Convex.Complexity.Functions.Loops.{
  IsRead, Distinct, Paired, find_functions-IsSound,
}
use atdd_extensions.Convex.Complexity.Functions.Order.{
  InOrder, All-sort_by_line, sort_by_line-InOrder, sort_by_line-perm,
}
use atdd_extensions.Convex.Complexity.Functions.Spans.{Balanced_between}

IsRead-Balanced : (src : Source) (f : Fn) → IsRead src f → Balanced b'{' b'}' f.masked_body
IsRead-Balanced src f r =
    rw r.made
      (unfold new_function in Balanced_between src.masked r.body_open r.body_close r.opens r.closes)

-- Every function that `extractFunctions` returns was read at a signature of the text, which is a
-- declaration or stands before an arrow, and has its place, its name and its parameters; its body
-- is what stands between the `{` behind that and the `}` that belongs to it, and is balanced.
pub extract_functions-IsRead :
    (text : Text)
    → All
        (λ f. IsRead (read_source text) f × Balanced b'{' b'}' f.masked_body)
        (extract_functions text)
unfolding extract_functions
extract_functions-IsRead text =
    let src = read_source text in
    let funcs = (find_functions src).funcs in
    All-sort_by_line _ funcs (
      All-weaken (IsRead src) _ funcs (λ f r. (r, IsRead-Balanced src f r))
        (find_functions-IsSound src).read)

-- The result of `extractFunctions` is in the order of the header lines, and holds what the two
-- loops found, as often.
pub extract_functions-sorted :
    (text : Text)
    → InOrder (extract_functions text)
      × Perm (extract_functions text) (find_functions (read_source text)).funcs
unfolding extract_functions
extract_functions-sorted text =
    let funcs = (find_functions (read_source text)).funcs in
    (sort_by_line-InOrder funcs, sort_by_line-perm funcs)

-- No two functions that the loops find share a body: the braces that they note are those at which
-- the functions' bodies open, one for each function, and no brace is noted twice.
pub find_functions-Distinct :
    (src : Source)
    → Paired src (find_functions src).funcs (find_functions src).seen_bodies
      × Distinct (find_functions src).seen_bodies
find_functions-Distinct src = let sound = find_functions-IsSound src in (sound.bodies, sound.once)

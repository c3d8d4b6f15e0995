-- ===== src/Base/Join.antt =====
-- `normalize`, `join` and `resolve` of node:path, for POSIX paths.
use mathlib.Core.Bool.{Bool, true, false, not, ◌||◌}
use mathlib.Core.List.{List, [], ◌∷◌, ◌++◌, reverse}
use atdd_extensions.Base.Tests.{if◌then◌else◌}
use atdd_extensions.Base.Chars.{Text, codes, text_eq}
use atdd_extensions.Base.Paths.{split_on, is_prefix, last_of}

abbrev is_empty : Text → Bool
is_empty [] = true
is_empty (c ∷ cs) = false

-- A `..` drops the segment before it; what is kept has its last segment first.
step_up : Bool → List Text → List Text
step_up above [] = if above then codes ".." ∷ [] else []
step_up above (s ∷ kept) = if text_eq s (codes "..") then codes ".." ∷ s ∷ kept else kept

keep_segments : Bool → List Text → List Text → List Text
unfolding step_up
keep_segments above kept [] = kept
keep_segments above kept (s ∷ segments) =
    keep_segments above
      (if is_empty s || text_eq s (codes ".")
        then kept
        else if text_eq s (codes "..")
        then step_up above kept
        else s ∷ kept)
      segments

abbrev pub join_with : Text → List Text → Text
join_with sep [] = []
join_with sep (t ∷ []) = t
join_with sep (t ∷ u ∷ ts) = t ++ (sep ++ join_with sep (u ∷ ts))

abbrev is_absolute : Text → Bool
is_absolute path = is_prefix (codes "/") path

normal_body : Bool → Text → Text
unfolding keep_segments split_on
normal_body above path =
    join_with (codes "/") (reverse (keep_segments above [] (split_on b'/' path)))

unfoldable pub normalize : Text → Text
unfolding normal_body
normalize path =
    let body = normal_body (not (is_absolute path)) path in
    let slash = if is_empty (last_of (split_on b'/' path)) then codes "/" else [] in
    if is_empty path
    then codes "."
    else if is_absolute path
    then (if is_empty body then codes "/" else b'/' ∷ (body ++ slash))
    else if is_empty body
    then b'.' ∷ slash
    else body ++ slash

-- `join(root, name)`
unfoldable pub join : Text → Text → Text
unfolding normalize
join root name =
    if is_empty root
    then normalize name
    else if is_empty name
    then normalize root
    else normalize (root ++ (b'/' ∷ name))

-- `resolve(path)`, from an absolute working directory.
unfoldable pub resolve : Text → Text → Text
unfolding normal_body
resolve cwd path =
    b'/' ∷ normal_body false (if is_absolute path then path else cwd ++ (b'/' ∷ path))

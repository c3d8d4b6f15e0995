-- ===== src/Base/Paths.antt =====
-- File paths as texts, the file tree that a detector reads, and its environment variables. Names of
-- a directory come in the order in which `readdirSync` gives them; the tree stays as it is.
use Prim.Native.Nat.{ℕ}
use mathlib.Core.Bool.{Bool, true, false, ◌&&◌, ◌||◌}
use mathlib.Core.List.{List, [], ◌∷◌}
use mathlib.Core.Option.{Option, none, some}
use atdd_extensions.Base.Tests.{◌==◌, if◌then◌else◌}
use atdd_extensions.Base.Chars.{Text, codes, text_eq}

unfoldable pub grow_first : ℕ → List Text → List Text
grow_first c [] = (c ∷ []) ∷ []
grow_first c (l ∷ ls) = (c ∷ l) ∷ ls

-- `text.split(c)`
unfoldable pub split_on : ℕ → Text → List Text
unfolding grow_first
split_on sep [] = [] ∷ []
split_on sep (c ∷ cs) =
    let rest = split_on sep cs in if c == sep then [] ∷ rest else grow_first c rest

-- `text.startsWith(t)`
abbrev pub is_prefix : Text → Text → Bool
is_prefix [] text = true
is_prefix (x ∷ xs) [] = false
is_prefix (x ∷ xs) (y ∷ ys) = x == y && is_prefix xs ys

-- `text.includes(t)`
abbrev pub includes : Text → Text → Bool
includes [] t = is_prefix t []
includes (c ∷ cs) t = is_prefix t (c ∷ cs) || includes cs t

abbrev pub last_of : List Text → Text
last_of [] = []
last_of (l ∷ []) = l
last_of (l ∷ m ∷ ls) = last_of (m ∷ ls)

-- `basename(path)`, for a path that does not end in a separator.
unfoldable pub basename : Text → Text
unfolding split_on
basename path = last_of (split_on b'/' path)

-- A text from its last dot on.
last_dot_suffix : Text → Option Text
last_dot_suffix [] = none
last_dot_suffix (c ∷ cs) = elim (last_dot_suffix cs) [
  | some s ↦ some s
  | none ↦ if c == b'.' then some (c ∷ cs) else none
]

ext_of : Text → Text
ext_of [] = []
ext_of (c ∷ cs) =
    if text_eq (c ∷ cs) (codes "..")
    then []
    else elim (last_dot_suffix cs) [ none ↦ [] | some s ↦ s ]

-- `extname(path)`: from the last dot of the base name, unless that is its first character.
unfoldable pub extname : Text → Text
unfolding basename last_dot_suffix ext_of
extname path = ext_of (basename path)

-- What stands at a path. A file may be unreadable, `missing` fails `statSync`, `closed` is a
-- directory that fails `readdirSync`, and `other` is neither file nor directory.
mutual
  pub data Node : Type 0 where
    file : Option Text → Node
    dir : Entries → Node
    missing closed other : Node

  pub data Entries : Type 0 where
    no_entry : Entries
    entry : Text → Node → Entries → Entries

-- An environment variable that is to hold a JSON array of texts.
pub data EnvVar : Type 0 where
  unset malformed not_array : EnvVar
  array : List Text → EnvVar

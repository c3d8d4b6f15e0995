-- ===== src/Convex/Interlocking/Tree.antt =====
-- The discovery of consumer trees and of their files.
pub mod Blocked
use atdd_extensions.Base.{
  ◌-◌, Bool, true, false, ◌||◌, List, [], ◌∷◌, ◌++◌, Option, none, some, if◌then◌else◌, Text, codes,
  has_text, any, length, drop, ltb, text_eq,
}
use atdd_extensions.Base.Paths.{
  Node, file, dir, missing, closed, other, Entries, no_entry, entry, split_on, is_prefix,
}
use atdd_extensions.Base.Join.{join}
use atdd_extensions.Base.Build.{then_all, sort_texts, unique}

-- What stands at each path.
abbrev pub Files : Type 0
Files = Text → Node

abbrev pub excluded_names : List Text
excluded_names =
    codes "_generated" ∷ codes "node_modules" ∷ codes "dist" ∷ codes "build" ∷ codes ".next" ∷ []

-- `readFileSync(p, "utf8")`, or "" if that fails.
abbrev pub text_of : Node → Text
text_of (file (some t)) = t
text_of (file none) = []
text_of (dir es) = []
text_of missing = []
text_of closed = []
text_of other = []

unfoldable pub read_text : Files → Text → Text
read_text fs p = text_of (fs p)

abbrev pub is_directory : Node → Bool
is_directory (dir es) = true
is_directory closed = true
is_directory (file t) = false
is_directory missing = false
is_directory other = false

abbrev pub is_file : Node → Bool
is_file (file t) = true
is_file (dir es) = false
is_file missing = false
is_file closed = false
is_file other = false

-- `isExcluded(path)`: a whole segment is one of the names.
unfoldable pub has_excluded : Text → Bool
unfolding split_on
has_excluded path = any (has_text excluded_names) (split_on b'/' path)

unfoldable pub has_child_dir : Files → Text → Text → Bool
unfolding join
has_child_dir fs d name = is_directory (fs (join d name))

-- `walkDirs` below a directory, and at a child. None is an exception, as `readdirSync` throws one.
unfoldable mutual
  unfolding has_excluded join

  pub dirs_below : Text → Entries → Option (List Text)
  dirs_below root no_entry = some []
  dirs_below root (entry name node rest) =
      let later = dirs_below root rest in
      let here = dirs_at (join root name) node in
      if has_excluded (join root name) then later else then_all here later

  pub dirs_at : Text → Node → Option (List Text)
  dirs_at full (dir es) = then_all (some (full ∷ [])) (dirs_below full es)
  dirs_at full closed = none
  dirs_at full (file t) = some []
  dirs_at full missing = some []
  dirs_at full other = some []

unfoldable pub walk_dirs : Files → Text → Option (List Text)
unfolding dirs_at
walk_dirs fs root = dirs_at root (fs root)

-- Whether a directory is a consumer root.
unfoldable pub is_consumer : Files → Text → Bool
unfolding has_child_dir
is_consumer fs d =
    has_child_dir fs d (codes "convex")
    || has_child_dir fs d (codes "plan")
    || has_child_dir fs d (codes "e2e")

abbrev pub consumers_of : Files → List Text → List Text
consumers_of fs [] = []
consumers_of fs (d ∷ ds) =
    let rest = consumers_of fs ds in if is_consumer fs d then d ∷ rest else rest

unfoldable pub find_consumer_roots : Files → Text → Option (List Text)
unfolding walk_dirs is_consumer
find_consumer_roots fs scan_root = elim (walk_dirs fs scan_root) [
  | none ↦ none
  | some ds ↦ some (unique (consumers_of fs ds))
]

abbrev pub yield_path : Bool → Text → Option (List Text)
yield_path want path = some (if want then path ∷ [] else [])

-- `walkFiles`, likewise.
unfoldable mutual
  unfolding has_excluded join

  pub files_below : (Text → Bool) → Text → Entries → Option (List Text)
  files_below pred root no_entry = some []
  files_below pred root (entry name node rest) =
      let later = files_below pred root rest in
      let here = files_at pred (join root name) node in
      if has_excluded (join root name) then later else then_all here later

  pub files_at : (Text → Bool) → Text → Node → Option (List Text)
  files_at pred full (dir es) = files_below pred full es
  files_at pred full closed = none
  files_at pred full (file t) = yield_path (pred full) full
  files_at pred full other = yield_path (pred full) full
  files_at pred full missing = some []

-- At its root `walkFiles` reads whatever is no file as a directory.
unfoldable pub walk_paths : Files → Text → (Text → Bool) → Option (List Text)
unfolding files_at
walk_paths fs root pred = elim (fs root) [
  | missing ↦ some []
  | file t ↦ yield_path (pred root) root
  | dir es ↦ files_below pred root es
  | closed ↦ none
  | other ↦ none
]

-- `path.endsWith(t)`
abbrev pub ends_with : Text → Text → Bool
ends_with t path =
    if ltb (length path) (length t) then false else text_eq (drop (length path - length t) path) t

abbrev pub is_yaml : Text → Bool
is_yaml f = ends_with (codes ".yaml") f || ends_with (codes ".yml") f

abbrev pub is_ts : Text → Bool
is_ts f = ends_with (codes ".ts") f || ends_with (codes ".tsx") f

abbrev pub trains_dir : Text → Text
trains_dir croot = join (join croot (codes "plan")) (codes "_trains")

abbrev pub sorted_unique : Option (List Text) → Option (List Text)
sorted_unique none = none
sorted_unique (some fs) = some (sort_texts (unique fs))

abbrev pub sorted : Option (List Text) → Option (List Text)
sorted none = none
sorted (some fs) = some (sort_texts fs)

unfoldable pub interlocking_files : Files → Text → Option (List Text)
unfolding join walk_paths
interlocking_files fs croot =
    let base = join (trains_dir croot) (codes "_interlockings") in
    let idx = join (trains_dir croot) (codes "_interlockings.yaml") in
    sorted_unique (then_all (walk_paths fs base is_yaml) (yield_path (is_file (fs idx)) idx))

unfoldable pub runtime_files : Files → Text → Option (List Text)
unfolding join walk_paths
runtime_files fs croot =
    sorted (walk_paths fs (join (join croot (codes "convex")) (codes "trains")) is_ts)

unfoldable pub e2e_files : Files → Text → Option (List Text)
unfolding join walk_paths
e2e_files fs croot = sorted (walk_paths fs (join croot (codes "e2e")) is_ts)

unfoldable pub app_file : Files → Text → Option Text
unfolding join
app_file fs croot =
    let p = join (join croot (codes "convex")) (codes "app.ts") in
    if is_file (fs p) then some p else none

unfoldable pub rel : Text → Text → Text
rel path root =
    let r = if ends_with (codes "/") root then root else root ++ codes "/" in
    if is_prefix r path then drop (length r) path else path

-- ===== src/Bun/Walk.antt =====
-- lib/scan.mjs, the part on files: `walk` and `walkByName`, over a tree of directories.
pub mod Yields
use atdd_extensions.Base.{
  Bool, true, false, not, ◌&&◌, ◌||◌, List, [], ◌∷◌, ◌++◌, if◌then◌else◌, Text, codes, has_text,
}
use atdd_extensions.Base.Paths.{
  Node, file, dir, missing, closed, other, Entries, no_entry, entry, extname, EnvVar,
}
use atdd_extensions.Base.Join.{join}
use atdd_extensions.Regex.{test}
use atdd_extensions.Convex.Complexity.Scan.{is_excluded, parse_json_env, test_re}

abbrev pub bun_excludes : List Text
bun_excludes =
    codes "node_modules"
    ∷ codes "dist"
    ∷ codes "build"
    ∷ codes ".next"
    ∷ codes ".git"
    ∷ codes "_generated"
    ∷ []

-- `exts.has(extname(path)) && (includeTests || !TEST_RE.test(path))`
unfoldable pub is_wanted : List Text → Bool → Text → Bool
unfolding extname test test_re
is_wanted exts include_tests path =
    has_text exts (extname path) && (include_tests || not (test test_re path))

abbrev pub yield_if : Bool → Text → List Text
yield_if want path = if want then path ∷ [] else []

-- The loop over a directory's names. Which of its files are yielded is given for their names and
-- paths. What cannot be stat'ed or read is passed over.
unfoldable mutual
  unfolding is_excluded join

  pub yield_entries : (Text → Text → Bool) → List Text → Text → Entries → List Text
  yield_entries want excludes root no_entry = []
  yield_entries want excludes root (entry name node rest) =
      let later = yield_entries want excludes root rest in
      let here = yield_child want excludes name (join root name) node in
      if is_excluded (join root name) excludes then later else here ++ later

  pub yield_child : (Text → Text → Bool) → List Text → Text → Text → Node → List Text
  yield_child want excludes name full missing = []
  yield_child want excludes name full (file content) = yield_if (want name full) full
  yield_child want excludes name full other = yield_if (want name full) full
  yield_child want excludes name full (dir entries) = yield_entries want excludes full entries
  yield_child want excludes name full closed = []

-- `walk(root, excludes, exts, includeTests)`
unfoldable pub walk_files : Text → List Text → List Text → Bool → Node → List Text
unfolding yield_entries is_wanted
walk_files root excludes exts include_tests missing = []
walk_files root excludes exts include_tests (file content) =
    yield_if (is_wanted exts include_tests root) root
walk_files root excludes exts include_tests (dir entries) =
    yield_entries (λ name full. is_wanted exts include_tests full) excludes root entries
walk_files root excludes exts include_tests closed = []
walk_files root excludes exts include_tests other = []

-- `walkByName(root, excludes, names)`
unfoldable pub walk_by_name : Text → List Text → List Text → Node → List Text
unfolding yield_entries
walk_by_name root excludes names missing = []
walk_by_name root excludes names (file content) = []
walk_by_name root excludes names (dir entries) =
    yield_entries (λ name full. has_text names name) excludes root entries
walk_by_name root excludes names closed = []
walk_by_name root excludes names other = []

-- `readRoots()` and `readExcludes()`
unfoldable pub read_roots : EnvVar → List Text
unfolding parse_json_env
read_roots scan_roots = parse_json_env scan_roots []

unfoldable pub read_excludes : EnvVar → List Text
unfolding parse_json_env
read_excludes scan_excludes = bun_excludes ++ parse_json_env scan_excludes []

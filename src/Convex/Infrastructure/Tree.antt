-- ===== src/Convex/Infrastructure/Tree.antt =====
-- The files of a consumer tree. `readText`, `findConsumerRoots`, `appFile` and what they call have
-- the text that they have in the binding detector, and share its definitions.
use atdd_extensions.Base.{
  Bool, not, ◌&&◌, List, [], ◌++◌, Option, none, some, if◌then◌else◌, Text, codes, text_eq, keep,
}
use atdd_extensions.Base.Paths.{
  Node, file, dir, missing, closed, other, Entries, no_entry, entry, is_prefix, basename,
}
use atdd_extensions.Base.Join.{join}
use atdd_extensions.Base.Build.{then_all}
use atdd_extensions.Convex.Interlocking.Tree.{Files, has_excluded, is_ts, sorted, yield_path}

-- `walkTsFiles` below a directory, and at a child. None is an exception.
unfoldable mutual
  unfolding has_excluded join

  pub ts_below : Text → Entries → Option (List Text)
  ts_below root no_entry = some []
  ts_below root (entry name node rest) =
      let later = ts_below root rest in
      let here = ts_at name (join root name) node in
      if has_excluded (join root name) then later else then_all here later

  pub ts_at : Text → Text → Node → Option (List Text)
  ts_at name full (dir es) = ts_below full es
  ts_at name full closed = none
  ts_at name full (file t) = yield_path (is_ts name) full
  ts_at name full other = yield_path (is_ts name) full
  ts_at name full missing = some []

-- At its root the walk reads whatever is no file as a directory.
unfoldable pub walk_ts_files : Files → Text → Option (List Text)
unfolding ts_below
walk_ts_files fs root = elim (fs root) [
  | missing ↦ some []
  | file t ↦ yield_path (is_ts root) root
  | dir es ↦ ts_below root es
  | closed ↦ none
  | other ↦ none
]

-- `runtimeFiles(croot)`
unfoldable pub trains_files : Files → Text → Option (List Text)
unfolding join walk_ts_files
trains_files fs croot =
    sorted (walk_ts_files fs (join (join croot (codes "convex")) (codes "trains")))

abbrev pub is_wagon : Text → Text → Bool
is_wagon trains f = text_eq (basename f) (codes "wagon.ts") && not (is_prefix trains f)

abbrev pub wagons_of : Text → Option (List Text) → Option (List Text)
wagons_of trains none = none
wagons_of trains (some files) = some (keep (is_wagon trains) files)

unfoldable pub wagon_files : Files → Text → Option (List Text)
unfolding join walk_ts_files basename
wagon_files fs croot =
    let trains = join (join croot (codes "convex")) (codes "trains") ++ codes "/" in
    sorted (wagons_of trains (walk_ts_files fs (join croot (codes "convex"))))

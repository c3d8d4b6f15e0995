-- ===== src/Convex/Interlocking/Modules.antt =====
-- `walk` and `findConsumerRoots` of the execution check.
use atdd_extensions.Base.{Bool, ◌||◌, List, [], ◌∷◌, ◌++◌, if◌then◌else◌, Text, codes, has_text}
use atdd_extensions.Base.Paths.{Node, file, dir, missing, closed, other, Entries, no_entry, entry}
use atdd_extensions.Base.Join.{join}
use atdd_extensions.Base.Build.{concat_map, unique, text_le}
use atdd_extensions.Convex.Interlocking.Tree.{Files, is_directory}

abbrev pub executes_excludes : List Text
executes_excludes =
    codes "node_modules" ∷ codes "dist" ∷ codes "build" ∷ codes ".next" ∷ codes "_generated" ∷ []

-- What the walk finds at a name of a directory.
pub record Below : Type 0 where
  pub name : Text
  pub paths : List Text

unfoldable pub insert_name : Below → List Below → List Below
insert_name b [] = b ∷ []
insert_name b (c ∷ cs) =
    let later = insert_name b cs in if text_le b.name c.name then b ∷ c ∷ cs else c ∷ later

-- `readdirSync(d).sort()`, of what is found at the names.
unfoldable pub in_name_order : List Below → List Text
unfolding insert_name
in_name_order found = concat_map (λ b. b.paths) (sort_names found)
  where
    sort_names : List Below → List Below
    sort_names [] = []
    sort_names (b ∷ bs) = insert_name b (sort_names bs)

-- `walk(dir, pred)`: what cannot be read or stat'ed is passed over.
unfoldable mutual
  unfolding join in_name_order

  pub modules_below : (Text → Bool) → Text → Entries → List Below
  modules_below pred d no_entry = []
  modules_below pred d (entry name node rest) =
      let later = modules_below pred d rest in
      let here = modules_at pred (join d name) node in
      if has_text executes_excludes name
      then later
      else record { name = name; paths = here } ∷ later

  pub modules_at : (Text → Bool) → Text → Node → List Text
  modules_at pred full (dir es) = in_name_order (modules_below pred full es)
  modules_at pred full (file t) = if pred full then full ∷ [] else []
  modules_at pred full other = if pred full then full ∷ [] else []
  modules_at pred full missing = []
  modules_at pred full closed = []

unfoldable pub walk_modules : Files → Text → (Text → Bool) → List Text
unfolding modules_below in_name_order
walk_modules fs d pred = elim (fs d) [
  | dir es ↦ in_name_order (modules_below pred d es)
  | file t ↦ []
  | missing ↦ []
  | closed ↦ []
  | other ↦ []
]

-- Whether a directory has one of the markers below it.
unfoldable pub is_marked : Files → Text → Bool
unfolding join
is_marked fs d =
    is_directory (fs (join d (codes "convex")))
    || is_directory (fs (join d (codes "plan")))
    || is_directory (fs (join d (codes "e2e")))

abbrev pub if_marked : Files → Text → List Text
if_marked fs d = if is_marked fs d then d ∷ [] else []

-- `findConsumerRoots(scanRoot)` of this check.
unfoldable mutual
  unfolding join in_name_order is_marked

  pub marked_below : Files → Text → Entries → List Below
  marked_below fs d no_entry = []
  marked_below fs d (entry name node rest) =
      let later = marked_below fs d rest in
      let here = marked_at fs (join d name) node in
      if has_text executes_excludes name
      then later
      else record { name = name; paths = here } ∷ later

  pub marked_at : Files → Text → Node → List Text
  marked_at fs full (dir es) = if_marked fs full ++ in_name_order (marked_below fs full es)
  marked_at fs full closed = if_marked fs full
  marked_at fs full (file t) = []
  marked_at fs full missing = []
  marked_at fs full other = []

unfoldable pub marked_roots : Files → Text → List Text
unfolding marked_at
marked_roots fs scan_root = unique (marked_at fs scan_root (fs scan_root))

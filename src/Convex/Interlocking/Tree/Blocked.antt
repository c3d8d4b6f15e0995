-- ===== src/Convex/Interlocking/Tree/Blocked.antt =====
-- When the walks of a file tree throw.
use atdd_extensions.Base.{
  ◌≡◌, ◌↔◌, ◌⊎◌, inl, inr, refl, Bool, false, List, [], ◌∷◌, Option, none, some, Bool-cases,
  Option-cases, if◌then◌else◌, Text,
}
use atdd_extensions.Base.Paths.{Node, file, dir, missing, closed, other, Entries, no_entry, entry}
use atdd_extensions.Base.Join.{join}
use atdd_extensions.Base.Build.{then_all, then_all-none}
use atdd_extensions.Convex.Interlocking.Tree.{
  Files, has_excluded, dirs_below, dirs_at, walk_dirs, files_below, files_at, walk_paths,
  find_consumer_roots, yield_path,
}

-- A directory that cannot be read, at a node or below it, to which names that are not excluded
-- lead.
mutual
  pub data Blocked : Text → Node → Type 0 where
    at_closed : {full : Text} → Blocked full closed
    into : {full : Text} {es : Entries} → BlockedBelow full es → Blocked full (dir es)

  pub data BlockedBelow : Text → Entries → Type 0 where
    first :
        {root name : Text} {node : Node} {rest : Entries}
        → has_excluded (join root name) ≡ false
        → Blocked (join root name) node
        → BlockedBelow root (entry name node rest)
    later :
        {root name : Text} {node : Node} {rest : Entries}
        → BlockedBelow root rest
        → BlockedBelow root (entry name node rest)

Blocked-dir : {full : Text} {es : Entries} → Blocked full (dir es) → BlockedBelow full es
Blocked-dir (into b) = b

Blocked-file : {full : Text} {content : Option Text} → ¬ Blocked full (file content)
Blocked-file h = elim h [ ]

Blocked-missing : {full : Text} → ¬ Blocked full missing
Blocked-missing h = elim h [ ]

Blocked-other : {full : Text} → ¬ Blocked full other
Blocked-other h = elim h [ ]

BlockedBelow-nothing : {root : Text} → ¬ BlockedBelow root no_entry
BlockedBelow-nothing h = elim h [ ]

BlockedBelow-entry :
    {root name : Text} {node : Node} {rest : Entries}
    → BlockedBelow root (entry name node rest)
    → (has_excluded (join root name) ≡ false) × Blocked (join root name) node
      ⊎ BlockedBelow root rest
BlockedBelow-entry (first e b) = inl (e, b)
BlockedBelow-entry (later b) = inr b

-- One round of a walk's loop, of what it gave for the child and for the names behind it.
entry-none :
    (root name : Text) (node : Node) (rest : Entries) (here others : Option (List Text))
    → (here ≡ none) ↔ Blocked (join root name) node
    → (others ≡ none) ↔ BlockedBelow root rest
    → ((if has_excluded (join root name) then others else then_all here others) ≡ none)
      ↔ BlockedBelow root (entry name node rest)
entry-none root name node rest here others p q = elim (Bool-cases (has_excluded (join root name))) [
  | inl out ↦ rw out (
    λ h. later (q.0 h),
    λ b. elim (BlockedBelow-entry b) [ inl k ↦ cc (k.0, out) | inr l ↦ q.1 l ],
  )
  | inr in_ ↦
      let either = then_all-none here others in
      rw in_ (
        λ h. elim (either.0 h) [ inl a ↦ first in_ (p.0 a) | inr b ↦ later (q.0 b) ],
        λ b. either.1 (elim (BlockedBelow-entry b) [ inl k ↦ inl (p.1 k.1) | inr l ↦ inr (q.1 l) ]),
      )
]

mutual
  unfolding dirs_below

  dirs_below-none :
      (root : Text) (es : Entries) → (dirs_below root es ≡ none) ↔ BlockedBelow root es
  dirs_below-none root no_entry = (λ h. cc, λ b. absurd (BlockedBelow-nothing b))
  dirs_below-none root (entry name node rest) =
      entry-none root name node rest (dirs_at (join root name) node) (dirs_below root rest)
        (dirs_at-none (join root name) node) (dirs_below-none root rest)

  dirs_at-none : (full : Text) (node : Node) → (dirs_at full node ≡ none) ↔ Blocked full node
  dirs_at-none full (dir es) =
      let either = then_all-none (some (full ∷ [])) (dirs_below full es) in
      let below = dirs_below-none full es in
      (
        λ h. elim (either.0 h) [ inl no_ ↦ cc | inr b ↦ into (below.0 b) ],
        λ b. either.1 (inr (below.1 (Blocked-dir b))),
      )
  dirs_at-none full closed = (λ h. at_closed, λ b. refl)
  dirs_at-none full (file t) = (λ h. cc, λ b. absurd (Blocked-file b))
  dirs_at-none full missing = (λ h. cc, λ b. absurd (Blocked-missing b))
  dirs_at-none full other = (λ h. cc, λ b. absurd (Blocked-other b))

module _ (pred : Text → Bool) where
  mutual
    unfolding files_below

    files_below-none :
        (root : Text) (es : Entries) → (files_below pred root es ≡ none) ↔ BlockedBelow root es
    files_below-none root no_entry = (λ h. cc, λ b. absurd (BlockedBelow-nothing b))
    files_below-none root (entry name node rest) =
        entry-none root name node rest (files_at pred (join root name) node)
          (files_below pred root rest) (files_at-none (join root name) node)
          (files_below-none root rest)

    files_at-none :
        (full : Text) (node : Node) → (files_at pred full node ≡ none) ↔ Blocked full node
    files_at-none full (dir es) =
        let below = files_below-none full es in
        (λ h. into (below.0 h), λ b. below.1 (Blocked-dir b))
    files_at-none full closed = (λ h. at_closed, λ b. refl)
    files_at-none full (file t) = (λ h. cc, λ b. absurd (Blocked-file b))
    files_at-none full missing = (λ h. cc, λ b. absurd (Blocked-missing b))
    files_at-none full other = (λ h. cc, λ b. absurd (Blocked-other b))

-- A directory that `walkFiles` cannot go through: it also reads what is neither file nor directory.
abbrev pub BlockedRoot : Text → Node → Type 0
BlockedRoot root node = (node ≡ other) ⊎ Blocked root node

pub walk_paths-none :
    (fs : Files) (root : Text) (pred : Text → Bool)
    → (walk_paths fs root pred ≡ none) ↔ BlockedRoot root (fs root)
unfolding walk_paths
walk_paths-none fs root pred = at_node (fs root)
  where
    at_node :
        (node : Node)
        → ((elim node [
          | missing ↦ some []
          | file t ↦ yield_path (pred root) root
          | dir es ↦ files_below pred root es
          | closed ↦ none
          | other ↦ none
        ])
            ≡ none)
          ↔ BlockedRoot root node
    at_node missing = (λ h. cc, λ b. elim b [ inl e ↦ cc | inr k ↦ absurd (Blocked-missing k) ])
    at_node (file t) = (λ h. cc, λ b. elim b [ inl e ↦ cc | inr k ↦ absurd (Blocked-file k) ])
    at_node (dir es) =
        let below = files_below-none pred root es in
        (λ h. inr (into (below.0 h)), λ b. elim b [ inl e ↦ cc | inr k ↦ below.1 (Blocked-dir k) ])
    at_node closed = (λ h. inr at_closed, λ b. refl)
    at_node other = (λ h. inl refl, λ b. refl)

pub find_consumer_roots-none :
    (fs : Files) (root : Text) → (find_consumer_roots fs root ≡ none) ↔ Blocked root (fs root)
unfolding find_consumer_roots walk_dirs
find_consumer_roots-none fs root =
    let walked = dirs_at-none root (fs root) in
    elim (Option-cases (dirs_at root (fs root))) [
      | inl e ↦ rw (e, find_consumer_roots) (λ h. walked.0 e, λ b. refl)
      | inr (ds, e) ↦
          rw (e, find_consumer_roots) (λ h. cc, λ b. let no_ = walked.1 b in cc (no_, e))
    ]

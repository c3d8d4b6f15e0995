-- ===== src/Bun/Walk/Yields.antt =====
-- Which paths the walks yield.
use atdd_extensions.Base.{
  ◌≡◌, ◌↔◌, ◌⊎◌, inl, inr, refl, sym, subst, Bool, true, false, List, Bool-cases, Option, Text,
  has_text, In, In-append,
}
use atdd_extensions.Base.Paths.{Node, file, dir, missing, closed, other, Entries, no_entry, entry}
use atdd_extensions.Base.Join.{join}
use atdd_extensions.Convex.Complexity.Scan.{is_excluded}
use atdd_extensions.Bun.Walk.{
  is_wanted, yield_if, yield_entries, yield_child, walk_files, walk_by_name,
}

-- A file at or below a directory's entry that is wanted, with nothing excluded on the way.
mutual
  pub data Holds (want : Text → Text → Bool) (excludes : List Text)
      : Text → Text → Node → Text → Type 0 where
    here :
        {name full : Text} {node : Node}
        → (node ≡ other) ⊎ ((content : Option Text) × (node ≡ file content))
        → want name full ≡ true
        → Holds want excludes name full node full
    inside :
        {name full : Text} {es : Entries} {f : Text}
        → Within want excludes full es f
        → Holds want excludes name full (dir es) f

  pub data Within (want : Text → Text → Bool) (excludes : List Text)
      : Text → Entries → Text → Type 0 where
    first :
        {root name : Text} {node : Node} {rest : Entries} {f : Text}
        → is_excluded (join root name) excludes ≡ false
        → Holds want excludes name (join root name) node f
        → Within want excludes root (entry name node rest) f
    later :
        {root name : Text} {node : Node} {rest : Entries} {f : Text}
        → Within want excludes root rest f
        → Within want excludes root (entry name node rest) f

In-yield_if : (b : Bool) (full f : Text) → In f (yield_if b full) ↔ ((f ≡ full) × (b ≡ true))
In-yield_if true full f = (λ h. elim h [ inl e ↦ (e, refl) | inr n ↦ absurd n ], λ k. inl k.0)
In-yield_if false full f = (λ h. absurd h, λ k. cc (k.1))

module _ (want : Text → Text → Bool) (excludes : List Text) where
  Holds-here :
      {name full f : Text} {node : Node}
      → (node ≡ other) ⊎ ((content : Option Text) × (node ≡ file content))
      → (f ≡ full) × (want name full ≡ true)
      → Holds want excludes name full node f
  Holds-here {name} {full} {node = node} kind (e, w) =
      subst (Holds want excludes name full node) (sym e) (here kind w)

  Holds-file :
      {name full f : Text} {content : Option Text}
      → Holds want excludes name full (file content) f
      → (f ≡ full) × (want name full ≡ true)
  Holds-file (here kind w) = (refl, w)

  Holds-other :
      {name full f : Text}
      → Holds want excludes name full other f
      → (f ≡ full) × (want name full ≡ true)
  Holds-other (here kind w) = (refl, w)

  Holds-missing : {name full f : Text} → ¬ Holds want excludes name full missing f
  Holds-missing (here kind w) = elim kind [ inl e ↦ cc | inr k ↦ let (c, e) = k in cc ]

  Holds-closed : {name full f : Text} → ¬ Holds want excludes name full closed f
  Holds-closed (here kind w) = elim kind [ inl e ↦ cc | inr k ↦ let (c, e) = k in cc ]

  Holds-dir :
      {name full f : Text} {es : Entries}
      → Holds want excludes name full (dir es) f
      → Within want excludes full es f
  Holds-dir (inside w) = w
  Holds-dir (here kind w) = elim kind [ inl e ↦ cc | inr k ↦ let (c, e) = k in cc ]

  Within-nothing : {root f : Text} → ¬ Within want excludes root no_entry f
  Within-nothing h = elim h [ ]

  Within-entry :
      {root name f : Text} {node : Node} {rest : Entries}
      → Within want excludes root (entry name node rest) f
      → (is_excluded (join root name) excludes ≡ false)
          × Holds want excludes name (join root name) node f
        ⊎ Within want excludes root rest f
  Within-entry (first e h) = inl (e, h)
  Within-entry (later w) = inr w

  entry-Within :
      (root name : Text) (node : Node) (rest : Entries) (f : Text)
      → In f (yield_entries want excludes root rest) ↔ Within want excludes root rest f
      → In f (yield_child want excludes name (join root name) node)
        ↔ Holds want excludes name (join root name) node f
      → In f (yield_entries want excludes root (entry name node rest))
        ↔ Within want excludes root (entry name node rest) f
  unfolding yield_entries
  entry-Within root name node rest f p q =
      let child = yield_child want excludes name (join root name) node in
      let others = yield_entries want excludes root rest in
      elim (Bool-cases (is_excluded (join root name) excludes)) [
        | inl out ↦ rw out (
          λ m. later (p.0 m),
          λ w. elim (Within-entry w) [ inl k ↦ let t = k.0 in cc | inr l ↦ p.1 l ],
        )
        | inr in_ ↦ rw in_ (
          λ m. elim ((In-append f child others).0 m) [
            | inl l ↦ first in_ (q.0 l)
            | inr r ↦ later (p.0 r)
          ],
          λ w.
              (In-append f child others).1
                (elim (Within-entry w) [ inl k ↦ inl (q.1 k.1) | inr l ↦ inr (p.1 l) ]),
        )
      ]

  mutual
    unfolding yield_entries

    yield_entries-Within :
        (root : Text) (es : Entries) (f : Text)
        → In f (yield_entries want excludes root es) ↔ Within want excludes root es f
    yield_entries-Within root no_entry f = (λ m. absurd m, λ w. absurd (Within-nothing w))
    yield_entries-Within root (entry name node rest) f =
        entry-Within root name node rest f (yield_entries-Within root rest f)
          (yield_child-Holds name (join root name) node f)

    yield_child-Holds :
        (name full : Text) (node : Node) (f : Text)
        → In f (yield_child want excludes name full node) ↔ Holds want excludes name full node f
    yield_child-Holds name full missing f = (λ m. absurd m, λ h. absurd (Holds-missing h))
    yield_child-Holds name full (file content) f = (
      λ m. Holds-here (inr (content, refl)) ((In-yield_if (want name full) full f).0 m),
      λ h. (In-yield_if (want name full) full f).1 (Holds-file h),
    )
    yield_child-Holds name full other f = (
      λ m. Holds-here (inl refl) ((In-yield_if (want name full) full f).0 m),
      λ h. (In-yield_if (want name full) full f).1 (Holds-other h),
    )
    yield_child-Holds name full (dir entries) f = (
      λ m. inside ((yield_entries-Within full entries f).0 m),
      λ h. (yield_entries-Within full entries f).1 (Holds-dir h),
    )
    yield_child-Holds name full closed f = (λ m. absurd m, λ h. absurd (Holds-closed h))

-- On a directory `walk` yields exactly the files of the wanted extensions, tests only if they are
-- asked for, to which names that are not excluded lead; `walkByName` those of the wanted names.
pub walks-Within :
    (root : Text) (excludes exts names : List Text) (include_tests : Bool) (entries : Entries)
    (f : Text)
    → (In f (walk_files root excludes exts include_tests (dir entries))
        ↔ Within (λ name full. is_wanted exts include_tests full) excludes root entries f)
      × (In f (walk_by_name root excludes names (dir entries))
          ↔ Within (λ name full. has_text names name) excludes root entries f)
unfolding walk_files walk_by_name
walks-Within root excludes exts names include_tests entries f = (
  yield_entries-Within (λ name full. is_wanted exts include_tests full) excludes root entries f,
  yield_entries-Within (λ name full. has_text names name) excludes root entries f,
)

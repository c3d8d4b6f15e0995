-- ===== src/Convex/Complexity/Scan/Walk.antt =====
-- Which files `walk` yields.
use atdd_extensions.Base.{
  ◌≡◌, ◌↔◌, ◌⊎◌, inl, inr, refl, sym, ap, subst, ◌∙◌, true, false, List, [], Option, none, some,
  Bool-cases, Text, In, In-append,
}
use atdd_extensions.Base.Paths.{Node, file, dir, missing, closed, other, Entries, no_entry, entry}
use atdd_extensions.Base.Join.{join}
use atdd_extensions.Convex.Complexity.Scan.{
  is_excluded, is_source, Yielded, Walk, then_walk, yield_file, walk_entries, walk_child, walk,
}

-- A file that can be reached from a node through names that are not excluded, with its content.
mutual
  pub data Leads (excludes : List Text) : Text → Node → Yielded → Type 0 where
    at_file :
        {full : Text} {content : Option Text}
        → Leads excludes full (file content) (record { path = full; content = content })
    at_other : {full : Text} → Leads excludes full other (record { path = full; content = none })
    into :
        {full : Text} {es : Entries} {f : Yielded}
        → Below excludes full es f
        → Leads excludes full (dir es) f

  pub data Below (excludes : List Text) : Text → Entries → Yielded → Type 0 where
    first :
        {root name : Text} {node : Node} {rest : Entries} {f : Yielded}
        → is_excluded (join root name) excludes ≡ false
        → Leads excludes (join root name) node f
        → Below excludes root (entry name node rest) f
    later :
        {root name : Text} {node : Node} {rest : Entries} {f : Yielded}
        → Below excludes root rest f
        → Below excludes root (entry name node rest) f

-- Whether a walk yields exactly the source files among those of a predicate.
abbrev Yields : (Yielded → Type 0) → Walk → Type 0
Yields P none = Unit
Yields P (some fs) = (f : Yielded) → In f fs ↔ (P f × (is_source f.path ≡ true))

yield_file-Yields :
    (full : Text) (content : Option Text)
    → Yields (λ f. f ≡ record { path = full; content = content }) (yield_file full content)
yield_file-Yields full content = elim (Bool-cases (is_source full)) [
  | inl is ↦ rw is (λ f. (
    λ m. elim m [
      | inl e ↦ (e, ap (λ (g : Yielded). is_source g.path) e ∙ is)
      | inr none_ ↦ absurd none_
    ],
    λ k. inl k.0,
  ))
  | inr isnt ↦
      rw isnt (λ f.
        (λ m. absurd m, λ k. cc (sym (ap (λ (g : Yielded). is_source g.path) k.0), k.1, isnt)))
]

Yields-change :
    (P Q : Yielded → Type 0) (w : Walk) → ((f : Yielded) → P f ↔ Q f) → Yields P w → Yields Q w
Yields-change P Q none e y = tt
Yields-change P Q (some fs) e y =
    λ f. (λ m. ((e f).0 ((y f).0 m).0, ((y f).0 m).1), λ k. (y f).1 ((e f).1 k.0, k.1))

then_walk-Yields :
    (P Q : Yielded → Type 0) (v w : Walk)
    → Yields P v
    → Yields Q w
    → Yields (λ f. P f ⊎ Q f) (then_walk v w)
then_walk-Yields P Q none w p q = tt
then_walk-Yields P Q (some fs) none p q = tt
then_walk-Yields P Q (some fs) (some gs) p q = λ f. (
  λ m. elim ((In-append f fs gs).0 m) [
    | inl l ↦ (inl ((p f).0 l).0, ((p f).0 l).1)
    | inr r ↦ (inr ((q f).0 r).0, ((q f).0 r).1)
  ],
  λ k. elim k.0 [
    | inl l ↦ (In-append f fs gs).1 (inl ((p f).1 (l, k.1)))
    | inr r ↦ (In-append f fs gs).1 (inr ((q f).1 (r, k.1)))
  ],
)

module _ {excludes : List Text} where
  Leads-file :
      {full : Text} {content : Option Text} {f : Yielded}
      → Leads excludes full (file content) f
      → f ≡ record { path = full; content = content }
  Leads-file at_file = refl

  Leads-other :
      {full : Text} {f : Yielded}
      → Leads excludes full other f
      → f ≡ record { path = full; content = none }
  Leads-other at_other = refl

  Leads-dir :
      {full : Text} {es : Entries} {f : Yielded}
      → Leads excludes full (dir es) f
      → Below excludes full es f
  Leads-dir (into b) = b

  Leads-missing : {full : Text} {f : Yielded} → ¬ Leads excludes full missing f
  Leads-missing h = elim h [ ]

  Below-nothing : {root : Text} {f : Yielded} → ¬ Below excludes root no_entry f
  Below-nothing h = elim h [ ]

  Below-entry :
      {root name : Text} {node : Node} {rest : Entries} {f : Yielded}
      → Below excludes root (entry name node rest) f
      → (is_excluded (join root name) excludes ≡ false) × Leads excludes (join root name) node f
        ⊎ Below excludes root rest f
  Below-entry (first e l) = inl (e, l)
  Below-entry (later b) = inr b

Yields-nothing : (P : Yielded → Type 0) → ((f : Yielded) → ¬ P f) → Yields P (some [])
Yields-nothing P no_ = λ f. (λ m. absurd m, λ k. absurd (no_ f k.0))

entry-Yields :
    (excludes : List Text) (root name : Text) (node : Node) (rest : Entries)
    → Yields (Below excludes root rest) (walk_entries root excludes rest)
    → Yields (Leads excludes (join root name) node) (walk_child (join root name) excludes node)
    → Yields
        (Below excludes root (entry name node rest))
        (walk_entries root excludes (entry name node rest))
unfolding walk_entries
entry-Yields excludes root name node rest p q =
    elim (Bool-cases (is_excluded (join root name) excludes)) [
      | inl out ↦ rw out (
          Yields-change _ _ (walk_entries root excludes rest)
            (λ f. (later, λ b. elim (Below-entry b) [ inl k ↦ cc (k.0, out) | inr l ↦ l ])) p)
      | inr in_ ↦ rw in_ (
          Yields-change _ _ _
            (λ f. (
              λ b. elim b [ inl l ↦ first in_ l | inr l ↦ later l ],
              λ b. elim (Below-entry b) [ inl k ↦ inl k.1 | inr l ↦ inr l ],
            ))
            (then_walk-Yields _ _ (walk_child (join root name) excludes node)
              (walk_entries root excludes rest) q p))
    ]

mutual
  unfolding walk_entries

  walk_entries-Yields :
      (excludes : List Text) (root : Text) (es : Entries)
      → Yields (Below excludes root es) (walk_entries root excludes es)
  walk_entries-Yields excludes root no_entry = Yields-nothing _ (λ f h. Below-nothing h)
  walk_entries-Yields excludes root (entry name node rest) =
      entry-Yields excludes root name node rest (walk_entries-Yields excludes root rest)
        (walk_child-Yields excludes (join root name) node)

  walk_child-Yields :
      (excludes : List Text) (full : Text) (node : Node)
      → Yields (Leads excludes full node) (walk_child full excludes node)
  walk_child-Yields excludes full missing = Yields-nothing _ (λ f h. Leads-missing h)
  walk_child-Yields excludes full (file content) =
      Yields-change _ _ (yield_file full content) (λ f. (λ e. rw e at_file, Leads-file))
        (yield_file-Yields full content)
  walk_child-Yields excludes full other =
      Yields-change _ _ (yield_file full none) (λ f. (λ e. rw e at_other, Leads-other))
        (yield_file-Yields full none)
  walk_child-Yields excludes full (dir entries) =
      Yields-change _ _ (walk_entries full excludes entries) (λ f. (into, Leads-dir))
        (walk_entries-Yields excludes full entries)
  walk_child-Yields excludes full closed = tt

-- If `walk` does not throw, it yields exactly the source files that names which are not excluded
-- lead to from the root; a root that is a file itself is subject to no exclusion.
pub walk-yields :
    (root : Text) (excludes : List Text) (node : Node) {fs : List Yielded}
    → walk root excludes node ≡ some fs
    → (f : Yielded) → In f fs ↔ (Leads excludes root node f × (is_source f.path ≡ true))
unfolding walk
walk-yields root excludes missing h = subst (Yields _) h (walk_child-Yields excludes root missing)
walk-yields root excludes (file content) h =
    subst (Yields _) h (walk_child-Yields excludes root (file content))
walk-yields root excludes (dir es) h = subst (Yields _) h (walk_child-Yields excludes root (dir es))
walk-yields root excludes closed h = λ f. cc
walk-yields root excludes other h = λ f. cc

-- ===== src/Bun/Graph/Reverse.antt =====
-- The reverse graph has the edges turned around, between the files of the graph.
use atdd_extensions.Base.{
  ◌≡◌, ◌↔◌, ◌⊎◌, inl, inr, refl, sym, subst, ◌∙◌, true, false, List, [], ◌∷◌, Bool-cases, Text,
  text_eq, has_text, In, In-append, text_eq_iff, has_text_iff, map, ap,
}
use atdd_extensions.Bun.Graph.{
  Vertex, Graph, targets_of, add_to, add_edge, add_edges, add_vertices, no_edges, reverse_graph,
}
use atdd_extensions.Bun.Graph.Reach.{Reach, root, step}

abbrev pub files_of : Graph → List Text
files_of = map (λ v. v.file)

-- An entry of the map says that one file imports another.
abbrev pub Edge : Graph → Text → Text → Type 0
Edge g a b = (v : Vertex) × In v g × (v.file ≡ a) × In b v.targets

pub In-add_to : (s a : Text) (set : List Text) → In a (add_to s set) ↔ (In a set ⊎ (a ≡ s))
In-add_to s a set = elim (Bool-cases (has_text set s)) [
  | inl e ↦ rw e (
    inl,
    λ h. elim h [ inl m ↦ m | inr q ↦ subst (λ x. In x set) (sym q) ((has_text_iff set s).0 e) ],
  )
  | inr e ↦ rw e (
    λ h. elim ((In-append a set (s ∷ [])).0 h) [
      | inl m ↦ inl m
      | inr (inl q) ↦ inr q
      | inr (inr n) ↦ absurd n
    ],
    λ h. elim h [
      | inl m ↦ (In-append a set (s ∷ [])).1 (inl m)
      | inr q ↦ (In-append a set (s ∷ [])).1 (inr (inl q))
    ],
  )
]

-- Where a graph maps a file to, by its first entry.
targets_of-first :
    (v : Vertex) (g : Graph) (b : Text) → text_eq v.file b ≡ true → targets_of (v ∷ g) b ≡ v.targets
unfolding targets_of
targets_of-first v g b h = rw h

targets_of-later :
    (v : Vertex) (g : Graph) (b : Text)
    → text_eq v.file b ≡ false
    → targets_of (v ∷ g) b ≡ targets_of g b
unfolding targets_of
targets_of-later v g b h = rw h

other_file : (s t : Text) → text_eq s t ≡ false → ¬ (s ≡ t)
other_file s t h e = let same = (text_eq_iff s t).1 e in cc

files_of-add_edge : (s t : Text) (g : Graph) → files_of (add_edge s t g) ≡ files_of g
unfolding add_edge
files_of-add_edge s t [] = refl
files_of-add_edge s t (v ∷ g) = elim (Bool-cases (text_eq v.file t)) [
  | inl e ↦ rw e (ap (◌∷◌ v.file) (files_of-add_edge s t g))
  | inr e ↦ rw e (ap (◌∷◌ v.file) (files_of-add_edge s t g))
]

-- What a target gains: the source, if the target is a file of the graph.
abbrev Gains : Text → Text → Graph → Text → Text → Type 0
Gains s t g a b = In a (targets_of g b) ⊎ (a ≡ s) × (b ≡ t) × In b (files_of g)

-- At a file that is not the first entry's, the gain is that of the other entries.
Gains-later :
    (s t : Text) (v : Vertex) (g : Graph) (a b : Text) {now : Type 0}
    → text_eq v.file b ≡ false
    → now ↔ (In a (targets_of g b) ⊎ (a ≡ s) × (b ≡ t) × In b (files_of g))
    → now ↔ (In a (targets_of g b) ⊎ (a ≡ s) × (b ≡ t) × In b (files_of (v ∷ g)))
Gains-later s t v g a b f rest = (
  λ h. elim (rest.0 h) [ inl m ↦ inl m | inr k ↦ inr (k.0, k.1, inr k.2) ],
  λ h. rest.1 (elim h [
    | inl m ↦ inl m
    | inr k ↦ elim k.2 [
      | inl q ↦ absurd (other_file v.file b f (sym q))
      | inr m ↦ inr (k.0, k.1, m)
    ]
  ]),
)

targets_of-add_edge :
    (s t : Text) (g : Graph) (a b : Text) → In a (targets_of (add_edge s t g) b) ↔ Gains s t g a b
unfolding add_edge
targets_of-add_edge s t [] a b =
    unfold targets_of in (λ h. absurd h, λ h. elim h [ inl m ↦ absurd m | inr k ↦ k.2 ])
targets_of-add_edge s t (v ∷ g) a b =
    let rest = targets_of-add_edge s t g a b in
    let grown : Vertex = record v { targets = add_to s v.targets } in
    elim (Bool-cases (text_eq v.file t)) [
      | inl e ↦ rw e (elim (Bool-cases (text_eq v.file b)) [
        | inl f ↦
            let here = sym ((text_eq_iff v.file b).0 f) in
            rw (targets_of-first grown (add_edge s t g) b f, targets_of-first v g b f)
              (
                λ h. elim ((In-add_to s a v.targets).0 h) [
                  | inl m ↦ inl m
                  | inr q ↦ inr (q, here ∙ (text_eq_iff v.file t).0 e, inl here)
                ],
                λ h. (In-add_to s a v.targets).1 (elim h [ inl m ↦ inl m | inr k ↦ inr k.0 ]),
              )
        | inr f ↦
            rw (targets_of-later grown (add_edge s t g) b f, targets_of-later v g b f)
              (Gains-later s t v g a b f rest)
      ])
      | inr e ↦ rw e (elim (Bool-cases (text_eq v.file b)) [
        | inl f ↦
            rw (targets_of-first v (add_edge s t g) b f, targets_of-first v g b f)
              (
                inl,
                λ h. elim h [
                  | inl m ↦ m
                  | inr k ↦ absurd (other_file v.file t e ((text_eq_iff v.file b).0 f ∙ k.1))
                ],
              )
        | inr f ↦
            rw (targets_of-later v (add_edge s t g) b f, targets_of-later v g b f)
              (Gains-later s t v g a b f rest)
      ])
    ]

files_of-add_edges :
    (s : Text) (ts : List Text) (g : Graph) → files_of (add_edges s ts g) ≡ files_of g
unfolding add_edges
files_of-add_edges s [] g = refl
files_of-add_edges s (t ∷ ts) g = files_of-add_edges s ts (add_edge s t g) ∙ files_of-add_edge s t g

targets_of-add_edges :
    (s : Text) (ts : List Text) (g : Graph) (a b : Text)
    → In a (targets_of (add_edges s ts g) b)
      ↔ (In a (targets_of g b) ⊎ (a ≡ s) × In b ts × In b (files_of g))
unfolding add_edges
targets_of-add_edges s [] g a b = (inl, λ h. elim h [ inl m ↦ m | inr k ↦ absurd k.1 ])
targets_of-add_edges s (t ∷ ts) g a b =
    let first = targets_of-add_edge s t g a b in
    let rest = targets_of-add_edges s ts (add_edge s t g) a b in
    let files = files_of-add_edge s t g in
    (
      λ h. elim (rest.0 h) [
        | inl m ↦ elim (first.0 m) [ inl n ↦ inl n | inr k ↦ inr (k.0, inl k.1, k.2) ]
        | inr k ↦ inr (k.0, inr k.1, subst (In b) files k.2)
      ],
      λ h. rest.1 (elim h [
        | inl m ↦ inl (first.1 (inl m))
        | inr k ↦ elim k.1 [
          | inl q ↦ inl (first.1 (inr (k.0, q, k.2)))
          | inr m ↦ inr (k.0, m, subst (In b) (sym files) k.2)
        ]
      ]),
    )

targets_of-add_vertices :
    (g rev : Graph) (a b : Text)
    → In a (targets_of (add_vertices g rev) b)
      ↔ (In a (targets_of rev b) ⊎ Edge g a b × In b (files_of rev))
unfolding add_vertices
targets_of-add_vertices [] rev a b =
    (inl, λ h. elim h [ inl m ↦ m | inr k ↦ let (v, m, q, t) = k.0 in absurd m ])
targets_of-add_vertices (v ∷ g) rev a b =
    let first = targets_of-add_edges v.file v.targets rev a b in
    let rest = targets_of-add_vertices g (add_edges v.file v.targets rev) a b in
    let files = files_of-add_edges v.file v.targets rev in
    (
      λ h. elim (rest.0 h) [
        | inl m ↦ elim (first.0 m) [
          | inl n ↦ inl n
          | inr k ↦ inr ((v, inl refl, sym k.0, k.1), k.2)
        ]
        | inr k ↦ let (w, m, q, t) = k.0 in inr ((w, inr m, q, t), subst (In b) files k.1)
      ],
      λ h. rest.1 (elim h [
        | inl m ↦ inl (first.1 (inl m))
        | inr k ↦
            let (w, m, q, t) = k.0 in
            elim m [
              | inl e ↦ inl (
                  first.1 (
                    inr (
                      sym q ∙ ap (λ (x : Vertex). x.file) e,
                      subst (λ (x : Vertex). In b x.targets) e t,
                      k.1,
                    )))
              | inr n ↦ inr ((w, n, q, t), subst (In b) (sym files) k.1)
            ]
      ]),
    )

files_of-no_edges : (g : Graph) → files_of (no_edges g) ≡ files_of g
unfolding no_edges
files_of-no_edges [] = refl
files_of-no_edges (v ∷ g) = ap (◌∷◌ v.file) (files_of-no_edges g)

targets_of-no_edges : (g : Graph) (b : Text) → targets_of (no_edges g) b ≡ []
unfolding no_edges targets_of
targets_of-no_edges [] b = refl
targets_of-no_edges (v ∷ g) b = elim (Bool-cases (text_eq v.file b)) [
  | inl e ↦ rw e
  | inr e ↦ rw e (targets_of-no_edges g b)
]

-- `reverseGraph` maps a file to those that import it, and no other: a target that is no file of the
-- graph is left out.
pub reverse_graph_lem :
    (g : Graph) (a b : Text)
    → In a (targets_of (reverse_graph g) b) ↔ (Edge g a b × In b (files_of g))
unfolding reverse_graph
reverse_graph_lem g a b =
    let all = targets_of-add_vertices g (no_edges g) a b in
    let none_ = targets_of-no_edges g b in
    let files = files_of-no_edges g in
    (
      λ h. elim (all.0 h) [
        | inl m ↦ absurd (subst (In a) none_ m)
        | inr k ↦ (k.0, subst (In b) files k.1)
      ],
      λ k. all.1 (inr (k.0, subst (In b) (sym files) k.1)),
    )

-- Imports lead from a file to a root.
pub data LeadsTo (g : Graph) (roots : List Text) : Text → Type 0 where
  at : {f : Text} → In f roots → LeadsTo g roots f
  via : {m n : Text} → Edge g n m → In m (files_of g) → LeadsTo g roots m → LeadsTo g roots n

Reach-LeadsTo :
    (g : Graph) (roots : List Text) {f : Text} → Reach (reverse_graph g) roots f → LeadsTo g roots f
Reach-LeadsTo g roots (root r) = at r
Reach-LeadsTo g roots (step {m} {n} r t) =
    let k = (reverse_graph_lem g n m).0 t in via k.0 k.1 (Reach-LeadsTo g roots r)

LeadsTo-Reach :
    (g : Graph) (roots : List Text) {f : Text} → LeadsTo g roots f → Reach (reverse_graph g) roots f
LeadsTo-Reach g roots (at r) = root r
LeadsTo-Reach g roots (via {m} {n} e k r) =
    step (LeadsTo-Reach g roots r) ((reverse_graph_lem g n m).1 (e, k))

-- What the roots reach in the reverse graph are the files from which imports lead to a root.
pub Reach-reverse_graph :
    (g : Graph) (roots : List Text) (f : Text) → Reach (reverse_graph g) roots f ↔ LeadsTo g roots f
Reach-reverse_graph g roots f = (Reach-LeadsTo g roots, LeadsTo-Reach g roots)

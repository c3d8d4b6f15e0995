-- ===== src/Bun/Graph/Reach.antt =====
-- The search visits exactly what the roots reach.
use atdd_extensions.Base.{
  ℕ, zero, suc, ◌+◌, ◌≤◌, ◌≡◌, ◌↔◌, ◌⊎◌, inl, inr, refl, sym, ap, subst, true, false, not, List, [],
  ◌∷◌, ◌++◌, Option, some, if◌then◌else◌, arith, Bool-cases, Text, text_eq, has_text, length, keep,
  In, In-append, In-keep, length-keep, length-append, text_eq_iff, has_text_iff,
}
use atdd_extensions.Bun.Graph.{Graph, targets_of, reach_loop, edges, reachable_from}

-- A file that imports lead to from a root.
pub data Reach (g : Graph) (roots : List Text) : Text → Type 0 where
  root : {f : Text} → In f roots → Reach g roots f
  step : {m n : Text} → Reach g roots m → In n (targets_of g m) → Reach g roots n

-- The edges of the files that are not visited yet.
budget : List Text → Graph → ℕ
budget visited [] = 0
budget visited (v ∷ g) =
    (if has_text visited v.file then 0 else length v.targets) + budget visited g

budget-more :
    (c : Text) (visited : List Text) (g : Graph) → budget (c ∷ visited) g ≤ budget visited g
unfolding budget
budget-more c visited [] = omega arith
budget-more c visited (v ∷ g) = ground (arith, budget-more c visited g)

budget-none : (g : Graph) → budget [] g ≡ edges g
unfolding budget
budget-none [] = refl
budget-none (v ∷ g) = omega (arith, budget-none g)

text_eq_sym : (s t : Text) → text_eq s t ≡ true → text_eq t s ≡ true
text_eq_sym s t h = (text_eq_iff t s).1 (sym ((text_eq_iff s t).0 h))

-- A visit pays for the targets that it pushes.
budget-visit :
    (c : Text) (visited : List Text) (g : Graph)
    → has_text visited c ≡ false
    → length (targets_of g c) + budget (c ∷ visited) g ≤ budget visited g
unfolding budget targets_of
budget-visit c visited [] h = omega arith
budget-visit c visited (v ∷ g) h = elim (Bool-cases (text_eq v.file c)) [
  | inl e ↦
      let same : v.file ≡ c = (text_eq_iff v.file c).0 e in
      let new : has_text visited v.file ≡ false = rw same h in
      let seen : text_eq c v.file ≡ true = text_eq_sym v.file c e in
      rw (e, new, seen) (omega (arith, budget-more c visited g))
  | inr e ↦ rw e (ground (arith, budget-visit c visited g h))
]

module _ (g : Graph) (roots : List Text) where
  -- What the loop keeps: all that it holds is reached, and what is visited leads to what it holds.
  record Inv (visited queue : List Text) : Type 0 where
    sound : (f : Text) → In f visited ⊎ In f queue → Reach g roots f
    start : (f : Text) → In f roots → In f visited ⊎ In f queue
    closed : (m n : Text) → In m visited → In n (targets_of g m) → In n visited ⊎ In n queue

  -- A file at the front of the queue that is visited already.
  again :
      (visited queue : List Text) (cur : Text)
      → In cur visited
      → Inv visited (cur ∷ queue)
      → Inv visited queue
  again visited queue cur seen inv =
      let move : (f : Text) → In f visited ⊎ In f (cur ∷ queue) → In f visited ⊎ In f queue = λ f h.
        elim h [
          | inl v ↦ inl v
          | inr (inl e) ↦ inl (subst (λ x. In x visited) (sym e) seen)
          | inr (inr q) ↦ inr q
        ] in
      record {
        sound = λ f h. inv.sound f (elim h [ inl v ↦ inl v | inr q ↦ inr (inr q) ]);
        start = λ f r. move f (inv.start f r);
        closed = λ m n v t. move n (inv.closed m n v t);
      }

  abbrev pushed : List Text → List Text → Text → List Text
  pushed visited queue cur =
      queue ++ keep (λ n. not (has_text (cur ∷ visited) n)) (targets_of g cur)

  visit :
      (visited queue : List Text) (cur : Text)
      → Inv visited (cur ∷ queue)
      → Inv (cur ∷ visited) (pushed visited queue cur)
  visit visited queue cur inv =
      let new = keep (λ n. not (has_text (cur ∷ visited) n)) (targets_of g cur) in
      let move : (f : Text)
          → In f visited ⊎ In f (cur ∷ queue)
          → In f (cur ∷ visited) ⊎ In f (pushed visited queue cur) =
        λ f h. elim h [
          | inl v ↦ inl (inr v)
          | inr (inl e) ↦ inl (inl e)
          | inr (inr q) ↦ inr ((In-append f queue new).1 (inl q))
        ] in
      record {
        sound = λ f h. elim h [
          | inl (inl e) ↦ inv.sound f (inr (inl e))
          | inl (inr v) ↦ inv.sound f (inl v)
          | inr m ↦ elim ((In-append f queue new).0 m) [
            | inl q ↦ inv.sound f (inr (inr q))
            | inr k ↦ step (inv.sound cur (inr (inl refl))) ((In-keep _ (targets_of g cur) f).0 k).0
          ]
        ];
        start = λ f r. move f (inv.start f r);
        closed = λ m n v t. elim v [
          | inl e ↦
              let here = subst (λ x. In n (targets_of g x)) e t in
              elim (Bool-cases (has_text (cur ∷ visited) n)) [
                | inl seen ↦ inl ((has_text_iff (cur ∷ visited) n).0 seen)
                | inr fresh ↦ inr (
                    (In-append n queue new).1
                      (inr ((In-keep _ (targets_of g cur) n).1 (here, ap not fresh))))
              ]
          | inr old ↦ move n (inv.closed m n old t)
        ];
      }

  abbrev Visits : Option (List Text) → Type 0
  Visits found = (vs : List Text) × (found ≡ some vs) × ((f : Text) → In f vs ↔ Reach g roots f)

  at_end-Reach :
      (visited : List Text) → Inv visited [] → {f : Text} → Reach g roots f → In f visited
  at_end-Reach visited inv (root {f} r) = elim (inv.start f r) [ inl v ↦ v | inr q ↦ absurd q ]
  at_end-Reach visited inv (step {m} {n} r t) =
      elim (inv.closed m n (at_end-Reach visited inv r) t) [ inl v ↦ v | inr q ↦ absurd q ]

  at_end : (visited : List Text) → Inv visited [] → Visits (some visited)
  at_end visited inv =
      (visited, refl, λ f. (λ v. inv.sound f (inl v), λ r. at_end-Reach visited inv r))

  reach_loop-Visits :
      (fuel : ℕ) (visited queue : List Text)
      → length queue + budget visited g ≤ fuel
      → Inv visited queue
      → Visits (reach_loop fuel g visited queue)
  unfolding reach_loop
  reach_loop-Visits zero visited [] h inv = at_end visited inv
  reach_loop-Visits zero visited (cur ∷ queue) h inv = absurd (omega arith)
  reach_loop-Visits (suc fuel) visited [] h inv = at_end visited inv
  reach_loop-Visits (suc fuel) visited (cur ∷ queue) h inv =
      elim (Bool-cases (has_text visited cur)) [
        | inl seen ↦
            rw (seen, reach_loop)
              (reach_loop-Visits fuel visited queue (omega arith)
                (again visited queue cur ((has_text_iff visited cur).0 seen) inv))
        | inr new ↦
            let fewer = length-keep (λ n. not (has_text (cur ∷ visited) n)) (targets_of g cur) in
            rw (new, reach_loop)
              (reach_loop-Visits fuel (cur ∷ visited) (pushed visited queue cur)
                (omega (
                  arith,
                  budget-visit cur visited g new,
                  fewer,
                  length-append queue
                      (keep (λ n. not (has_text (cur ∷ visited) n)) (targets_of g cur)),
                ))
                (visit visited queue cur inv))
      ]

-- `reachableFrom` ends, and the set that it returns is that of the files that imports lead to from
-- a root.
pub reachable_from-Reach :
    (roots : List Text) (g : Graph)
    → (vs : List Text) × (reachable_from roots g ≡ some vs)
      × ((f : Text) → In f vs ↔ Reach g roots f)
unfolding reachable_from
reachable_from-Reach roots g =
    reach_loop-Visits g roots (length roots + edges g) [] roots (omega (arith, budget-none g))
      (record {
        sound = λ f h. elim h [ inl v ↦ absurd v | inr r ↦ root r ];
        start = λ f r. inr r;
        closed = λ m n v t. absurd v;
      })

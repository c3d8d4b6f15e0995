-- ===== src/Convex/Interlocking/Plan/Lines.antt =====
-- Where the routes of a plan stand.
use atdd_extensions.Base.{
  ℕ, suc, ◌+◌, ◌-◌, ◌≤◌, ◌≡◌, ◌≢◌, inl, inr, refl, sym, ap, ◌∙◌, Bool, List, [], ◌∷◌, Option, none,
  some, arith, Bool-cases, Option-cases, Text, get_elem?, All, subst,
}
use atdd_extensions.Base.Build.{some-inj}
use atdd_extensions.Regex.{test, first_match, split_lines}
use atdd_extensions.Convex.Interlocking.Patterns.{
  dedent_re, route_id_re, block_key_re, interlocking_id_re,
}
use atdd_extensions.Convex.Interlocking.Plan.{
  Route, Plan, read_train, read_last_train, new_route, read_routes, behind_key, routes_behind,
  plan_routes, plan_with, parse_interlocking,
}
use mathlib.Core.List.{reverse_aux}

-- A route's line is one of the lines, with the text that the route has from it.
pub record Stands (lines : List Text) (r : Route) : Type 0 where
  pub positive : 1 ≤ r.line
  pub at_line : get_elem? lines (r.line - 1) ≡ some r.source_line

-- `ls` is what the lines have from the `i`th on.
abbrev From : List Text → ℕ → List Text → Type 0
From lines i ls = (k : ℕ) → get_elem? lines (i + k) ≡ get_elem? ls k

From-tail :
    (lines : List Text) (i : ℕ) (l : Text) (ls : List Text)
    → From lines i (l ∷ ls)
    → From lines (suc i) ls
From-tail lines i l ls h k =
    let same : suc i + k ≡ i + suc k = omega arith in ap (get_elem? lines) same ∙ h (suc k)

behind_key-From :
    (p : Text → Bool) (lines : List Text) (i : ℕ) (ls : List Text) {j : ℕ} {ms : List Text}
    → From lines i ls
    → behind_key p i ls ≡ some (j, ms)
    → From lines j ms
unfolding behind_key
behind_key-From p lines i [] h e = cc
behind_key-From p lines i (l ∷ ls) {j} {ms} h e = elim (Bool-cases (p l)) [
  | inl q ↦
      let found : some (suc i, ls) ≡ some (j, ms) = rw (q, behind_key) at e in
      let same = some-inj found in
      subst (λ (x : ℕ × List Text). From lines x.0 x.1) same (From-tail lines i l ls h)
  | inr q ↦ behind_key-From p lines (suc i) ls (From-tail lines i l ls h) (rw (q, behind_key) at e)
]

read_last_train-Stands :
    (lines : List Text) (l : Text) (rs : List Route)
    → All (Stands lines) rs
    → All (Stands lines) (read_last_train l rs)
unfolding read_train
read_last_train-Stands lines l [] h = tt
read_last_train-Stands lines l (r ∷ rs) h =
    (record { positive = h.0.positive; at_line = h.0.at_line }, h.1)

new_route-Stands :
    (lines : List Text) (i : ℕ) (l id : Text) (ls : List Text)
    → From lines i (l ∷ ls)
    → Stands lines (new_route id (suc i) l)
new_route-Stands lines i l id ls h = record {
  positive = omega arith;
  at_line = let same : suc i - 1 ≡ i + 0 = omega arith in ap (get_elem? lines) same ∙ h 0;
}

read_routes-Stands :
    (lines : List Text) (i : ℕ) (ls : List Text) (rs : List Route)
    → From lines i ls
    → All (Stands lines) rs
    → All (Stands lines) (read_routes i ls rs)
unfolding read_routes
read_routes-Stands lines i [] rs h k = k
read_routes-Stands lines i (l ∷ ls) rs h k =
    let tail = From-tail lines i l ls h in
    elim (Bool-cases (test dedent_re l)) [
      | inl e ↦ rw (e, read_routes) k
      | inr e ↦ elim (Option-cases (first_match route_id_re l)) [
        | inl f ↦
            rw (e, f, read_routes)
              (read_routes-Stands lines (suc i) ls _ tail (read_last_train-Stands lines l rs k))
        | inr (m, f) ↦
            rw (e, f, read_routes)
              (read_routes-Stands lines (suc i) ls _ tail (new_route-Stands lines i l _ ls h, k))
      ]
    ]

All-reverse_aux :
    {A : Type 0} (P : A → Type 0) (xs acc : List A)
    → All P xs
    → All P acc
    → All P (reverse_aux xs acc)
All-reverse_aux P [] acc h k = k
All-reverse_aux P (x ∷ xs) acc h k = All-reverse_aux P xs (x ∷ acc) h.1 (h.0, k)

routes_behind-Stands :
    (lines : List Text) (o : Option (ℕ × List Text))
    → ((j : ℕ) (ms : List Text) → o ≡ some (j, ms) → From lines j ms)
    → All (Stands lines) (routes_behind o)
routes_behind-Stands lines none h = tt
routes_behind-Stands lines (some (j, ms)) h =
    All-reverse_aux (Stands lines) _ [] (read_routes-Stands lines j ms [] (h j ms refl) tt) tt

plan_routes-Stands : (lines : List Text) → All (Stands lines) (plan_routes lines)
unfolding plan_routes
plan_routes-Stands lines =
    let is_key = test (block_key_re "routes:") in
    routes_behind-Stands lines (behind_key is_key 0 lines)
      (λ j ms e. behind_key-From is_key lines 0 lines (λ k. ap (get_elem? lines) (omega arith)) e)

plan_with-routes :
    (text id : Text) (rs : List Route) {p : Plan}
    → plan_with text id rs ≡ some p
    → (p.routes ≡ rs) × (rs ≢ [])
plan_with-routes text id [] h = cc
plan_with-routes text id (r ∷ rs) h = (sym (ap (λ q. q.routes) (some-inj h)), λ e. cc)

-- A plan that is read has a route, and each of its routes says where it stands: its line is a line
-- of the text, numbered from one, and its source line is what this line holds.
pub parse_interlocking-Stands :
    (text : Text) {p : Plan}
    → parse_interlocking text ≡ some p
    → (p.routes ≢ []) × All (Stands (split_lines text)) p.routes
unfolding parse_interlocking
parse_interlocking-Stands text {p} h = elim (Option-cases (first_match interlocking_id_re text)) [
  | inl e ↦ cc (rw (e, parse_interlocking) at h)
  | inr (m, e) ↦
      let (same, any_) = plan_with-routes text _ _ (rw (e, parse_interlocking) at h) in
      (
        λ k. any_ (sym same ∙ k),
        subst (All (Stands (split_lines text))) (sym same) (plan_routes-Stands (split_lines text)),
      )
]

-- ===== src/Convex/Complexity/Functions/Order.antt =====
-- The sort by header lines.
use mathlib.Core.List.{Perm}
use mathlib.Core.List.Perm
use atdd_extensions.Base.{◌≤◌, List, [], ◌∷◌, arith, leb, Bool-cases, inl, inr, All, All-weaken}
use atdd_extensions.Convex.Complexity.Functions.{Fn, insert_by_line, sort_by_line}

-- The functions come in the order of their header lines.
abbrev pub InOrder : List Fn → Type 0
InOrder [] = Unit
InOrder (f ∷ fs) = All (λ g. f.header_line_no ≤ g.header_line_no) fs × InOrder fs

All-insert_by_line {κ} :
    (P : Fn → Type κ) (f : Fn) (fs : List Fn) → P f → All P fs → All P (insert_by_line f fs)
unfolding insert_by_line
All-insert_by_line P f [] p h = (p, tt)
All-insert_by_line P f (g ∷ gs) p h = elim (Bool-cases (leb f.header_line_no g.header_line_no)) [
  | inl le ↦ rw le (p, h)
  | inr gt ↦ rw gt (h.0, All-insert_by_line P f gs p h.1)
]

pub All-sort_by_line {κ} : (P : Fn → Type κ) (fs : List Fn) → All P fs → All P (sort_by_line fs)
unfolding sort_by_line
All-sort_by_line P [] h = tt
All-sort_by_line P (f ∷ fs) h =
    All-insert_by_line P f (sort_by_line fs) h.0 (All-sort_by_line P fs h.1)

insert_by_line-InOrder : (f : Fn) (fs : List Fn) → InOrder fs → InOrder (insert_by_line f fs)
unfolding insert_by_line
insert_by_line-InOrder f [] h = (tt, tt)
insert_by_line-InOrder f (g ∷ gs) h = elim (Bool-cases (leb f.header_line_no g.header_line_no)) [
  | inl le ↦ rw le (
    (
      ground arith,
      All-weaken _ _ gs (λ (x : Fn) (p : g.header_line_no ≤ x.header_line_no). ground arith) h.0,
    ),
    h,
  )
  | inr gt ↦ rw gt (All-insert_by_line _ f gs (ground arith) h.0, insert_by_line-InOrder f gs h.1)
]

pub sort_by_line-InOrder : (fs : List Fn) → InOrder (sort_by_line fs)
unfolding sort_by_line
sort_by_line-InOrder [] = tt
sort_by_line-InOrder (f ∷ fs) = insert_by_line-InOrder f (sort_by_line fs) (sort_by_line-InOrder fs)

insert_by_line-perm : (f : Fn) (fs : List Fn) → Perm (insert_by_line f fs) (f ∷ fs)
unfolding insert_by_line
insert_by_line-perm f [] = Perm.refl (f ∷ [])
insert_by_line-perm f (g ∷ gs) = elim (Bool-cases (leb f.header_line_no g.header_line_no)) [
  | inl le ↦ rw le (Perm.refl (f ∷ g ∷ gs))
  | inr gt ↦ rw gt (Perm.trans (Perm.cons g (insert_by_line-perm f gs)) (Perm.swap f g gs))
]

pub sort_by_line-perm : (fs : List Fn) → Perm (sort_by_line fs) fs
unfolding sort_by_line
sort_by_line-perm [] = Perm.refl []
sort_by_line-perm (f ∷ fs) =
    Perm.trans (insert_by_line-perm f (sort_by_line fs)) (Perm.cons f (sort_by_line-perm fs))

-- ===== src/Convex/Interlocking/Journey/Laws.antt =====
-- The object that `parseJourneyMap` fills.
use atdd_extensions.Base.{
  ℕ, ◌+◌, ◌≡◌, ◌≢◌, inl, inr, ap, ◌∙◌, false, List, [], ◌∷◌, none, some, Bool-cases, Option-cases,
  Text, text_eq, text_eq_iff, if◌then◌else◌,
}
use atdd_extensions.Regex.{Match, captured}
use atdd_extensions.Convex.Interlocking.Text.{line_of_index}
use atdd_extensions.Convex.Interlocking.Journey.{
  Mapping, Journey, lookup, assign, add_direct, direct, direct_entries,
}

text_eq-false : (k j : Text) → k ≢ j → text_eq k j ≡ false
text_eq-false k j n = elim (Bool-cases (text_eq k j)) [
  | inl h ↦ absurd (n ((text_eq_iff k j).0 h))
  | inr h ↦ h
]

lookup-assign_other :
    (j k : Text) (m : Mapping) (out : Journey) → k ≢ j → lookup (assign k m out) j ≡ lookup out j
unfolding lookup assign
lookup-assign_other j k m [] n = let other = text_eq-false k j n in rw other
lookup-assign_other j k m (e ∷ out) n = elim (Bool-cases (text_eq e.action k)) [
  | inl h ↦
      let same : e.action ≡ k = (text_eq_iff e.action k).0 h in
      let other : text_eq e.action j ≡ false = ap (λ a. text_eq a j) same ∙ text_eq-false k j n in
      rw (h, assign) (rw (other, lookup))
  | inr h ↦
      rw (h, assign)
        (ap (λ o. if text_eq e.action j then some e.mapping else o)
          (lookup-assign_other j k m out n))
]

-- A direct mapping takes no key that has a mapping.
add_direct-keeps :
    (a k id : Text) (line : ℕ) (out : Journey) {m : Mapping}
    → lookup out a ≡ some m
    → lookup (add_direct k id line out) a ≡ some m
add_direct-keeps a k id line out h = elim (Option-cases (lookup out k)) [
  | inl e ↦ rw (e, add_direct) (lookup-assign_other a k (direct id line) out (apart e) ∙ h)
  | inr (n, e) ↦ rw (e, add_direct) h
]
  where
    apart : lookup out k ≡ none → k ≢ a
    apart e same = let there = ap (lookup out) same in cc

-- The second loop of `parseJourneyMap` changes no mapping that the first has set: a literal train
-- never replaces an interlocking.
lookup-direct_entries :
    (raw : Text) (start : ℕ) (ms : List Match) (out : Journey) (a : Text) {m : Mapping}
    → lookup out a ≡ some m
    → lookup (direct_entries raw start ms out) a ≡ some m
unfolding direct_entries
lookup-direct_entries raw start [] out a h = h
lookup-direct_entries raw start (n ∷ ms) out a h =
    lookup-direct_entries raw start ms _ a
      (add_direct-keeps a (captured n 0) (captured n 1) (line_of_index raw (start + n.index)) out h)

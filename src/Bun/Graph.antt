-- ===== src/Bun/Graph.antt =====
-- implementations/bun_ts_metrics_detector/ts_metrics.mjs, `reachableFrom` and `reverseGraph`: the
-- import graph of the dead code check.
pub mod Reach
pub mod Reverse
use atdd_extensions.Base.{
  ℕ, zero, suc, ◌+◌, Bool, true, false, not, List, [], ◌∷◌, ◌++◌, Option, none, some, if◌then◌else◌,
  Text, text_eq, has_text, length, keep,
}

-- An entry of the map of files to the sets of the files that they import.
pub record Vertex : Type 0 where
  pub file : Text
  pub targets : List Text

abbrev pub Graph : Type 0
Graph = List Vertex

-- `graph.get(cur) || []`
unfoldable pub targets_of : Graph → Text → List Text
targets_of [] f = []
targets_of (v ∷ g) f = if text_eq v.file f then v.targets else targets_of g f

-- `while (queue.length)`, where each visit of a file that is new pushes its targets that are not
-- visited. The set `visited` has its last element first.
unfoldable pub reach_loop : ℕ → Graph → List Text → List Text → Option (List Text)
unfolding targets_of
reach_loop zero graph visited [] = some visited
reach_loop zero graph visited (cur ∷ queue) = none
reach_loop (suc fuel) graph visited [] = some visited
reach_loop (suc fuel) graph visited (cur ∷ queue) = elim (has_text visited cur) [
  | true ↦ reach_loop fuel graph visited queue
  | false ↦
      let new = keep (λ n. not (has_text (cur ∷ visited) n)) (targets_of graph cur) in
      reach_loop fuel graph (cur ∷ visited) (queue ++ new)
]

abbrev pub edges : Graph → ℕ
edges [] = 0
edges (v ∷ g) = length v.targets + edges g

-- `reachableFrom(roots, graph)`
unfoldable pub reachable_from : List Text → Graph → Option (List Text)
unfolding reach_loop
reachable_from roots graph = reach_loop (length roots + edges graph) graph [] roots

-- `rev.get(t).add(src)`
abbrev pub add_to : Text → List Text → List Text
add_to src set = if has_text set src then set else set ++ src ∷ []

-- `if (rev.has(t)) rev.get(t).add(src)`
unfoldable pub add_edge : Text → Text → Graph → Graph
add_edge src t [] = []
add_edge src t (v ∷ rev) =
    (if text_eq v.file t then record v { targets = add_to src v.targets } else v)
    ∷ add_edge src t rev

unfoldable pub add_edges : Text → List Text → Graph → Graph
unfolding add_edge
add_edges src [] rev = rev
add_edges src (t ∷ ts) rev = add_edges src ts (add_edge src t rev)

unfoldable pub add_vertices : Graph → Graph → Graph
unfolding add_edges
add_vertices [] rev = rev
add_vertices (v ∷ g) rev = add_vertices g (add_edges v.file v.targets rev)

unfoldable pub no_edges : Graph → Graph
no_edges [] = []
no_edges (v ∷ g) = record { file = v.file; targets = [] } ∷ no_edges g

-- `reverseGraph(graph)`
unfoldable pub reverse_graph : Graph → Graph
unfolding add_vertices no_edges
reverse_graph graph = add_vertices graph (no_edges graph)

-- ===== src/Graph/Iam/Paths.antt =====
-- What `find_paths` finds in a graph that was built by `add_node` and `add_edge`.
use mathlib.Core.List.Memᴰ
use cloud_native_threat_guar.Prelude.{
  ℕ, ◌≤◌, String, true, false, List, [], ◌∷◌, ◌++◌, ◌≡◌, ◌↔◌, refl, ◌==◌, eq_iff, is_empty, filter,
  length, Memᴰ, append-nil, arith, Bool-cases, inl, inr,
}
use cloud_native_threat_guar.Prelude.Dict
use cloud_native_threat_guar.Prelude.Dict.{get-put}
use cloud_native_threat_guar.Graph.Simple.{IsSimplePath, Indexes, search_correct, filter-append}
use cloud_native_threat_guar.Graph.Iam.{
  GraphNode, GraphEdge, IamDirectedGraph, is_key, add_node, add_edge, adjacent, find_paths, empty,
}

-- A change of the graph: a call of `add_node` or of `add_edge`.
pub data Change : Type 0 where
  node : GraphNode → Change
  edge : GraphEdge → Change

unfoldable pub build : IamDirectedGraph → List Change → IamDirectedGraph
unfolding add_node add_edge
build g [] = g
build g (node n ∷ rest) = build (add_node n g) rest
build g (edge e ∷ rest) = build (add_edge e g) rest

abbrev pub IsIndexed : IamDirectedGraph → Type 0
IsIndexed g = Indexes (λ e. e.source) g.edges (adjacent g)

add_node-IsIndexed : (n : GraphNode) (g : IamDirectedGraph) → IsIndexed g → IsIndexed (add_node n g)
unfolding add_node
add_node-IsIndexed n g index u =
    ground (arith, index u, get-put g.adjacency n.id u [], eq_iff n.id u)

add_edge-IsIndexed : (e : GraphEdge) (g : IamDirectedGraph) → IsIndexed g → IsIndexed (add_edge e g)
unfolding add_edge
add_edge-IsIndexed e g index u = rw (filter-append (λ x. x.source == u) g.edges (e ∷ [])) (
    ground (
      arith,
      get-put g.adjacency e.source u (adjacent g e.source ++ e ∷ []),
      eq_iff e.source u,
      index u,
      append-nil g.edges,
      append-nil (filter (λ (x : GraphEdge). x.source == u) g.edges),
    ))

build-IsIndexed :
    (g : IamDirectedGraph) (changes : List Change) → IsIndexed g → IsIndexed (build g changes)
unfolding build
build-IsIndexed g [] index = index
build-IsIndexed g (node n ∷ rest) index =
    build-IsIndexed (add_node n g) rest (add_node-IsIndexed n g index)
build-IsIndexed g (edge e ∷ rest) index =
    build-IsIndexed (add_edge e g) rest (add_edge-IsIndexed e g index)

IsIndexed-empty : IsIndexed empty
unfolding Dict.get
IsIndexed-empty u = refl

-- After any calls of `add_node` and `add_edge` on a new graph, the search returns exactly the simple paths
-- over the edges with at least one edge and at most `max_depth`, if both ends are nodes; else nothing.
pub find_paths_lem :
    (changes : List Change) (start goal : String) (max_depth : ℕ) (p : List GraphEdge)
    → Memᴰ p (find_paths (build empty changes) start goal max_depth) ↔ (
        (is_key (build empty changes).nodes start ≡ true)
        × (is_key (build empty changes).nodes goal ≡ true)
        × IsSimplePath (λ e. e.source) (λ e. e.target) (build empty changes).edges goal [] start p
        × (length p ≤ max_depth)
        × (is_empty p ≡ false))
unfolding find_paths
find_paths_lem changes start goal max_depth p =
    let g : IamDirectedGraph = build empty changes in
    elim (Bool-cases (is_key g.nodes start)) [
      | inr off ↦ rw off (λ m. absurd (Memᴰ.not-nil m), λ h. cc (h.0))
      | inl on ↦ elim (Bool-cases (is_key g.nodes goal)) [
        | inr off ↦ rw (on, off) (λ m. absurd (Memᴰ.not-nil m), λ h. cc (h.1))
        | inl at ↦
            let both =
              search_correct (λ (e : GraphEdge). e.source) (λ (e : GraphEdge). e.target) g.edges
                (adjacent g) (build-IsIndexed empty changes IsIndexed-empty) goal max_depth start
                p in
            rw (on, at)
              (
                λ m. let (path, short, full) = both.0 m in (refl, refl, path, short, full),
                λ (_, _, path, short, full). both.1 (path, short, full),
              )
      ]
    ]

-- ===== src/Graph/Unified/Paths.antt =====
-- The invariant of the graph's three fields, and what `find_attack_paths` finds in a consistent graph.
use mathlib.Core.List.Memᴰ
use cloud_native_threat_guar.Prelude.{
  ℕ, ◌≤◌, String, true, false, some, List, [], ◌∷◌, ◌++◌, ◌≡◌, ◌↔◌, ◌⊎◌, refl, ◌==◌, eq_iff,
  is_empty, filter, length, Memᴰ, All, All-append, append-nil, arith, Bool-cases, Option-cases, inl,
  inr,
}
use cloud_native_threat_guar.Prelude.Dict
use cloud_native_threat_guar.Prelude.Dict.{get-put}
use cloud_native_threat_guar.Prelude.Result.{ok, err}
use cloud_native_threat_guar.Graph.Simple.{IsSimplePath, search_correct, filter-append}
use cloud_native_threat_guar.Graph.Unified.{
  UnifiedNode, UnifiedEdge, UnifiedSecurityGraph, value_error, is_key, add_node, add_edge, adjacent,
  find_attack_paths, empty,
}

pub record IsConsistent (g : UnifiedSecurityGraph) : Type 0 where
  pub index : (u : String) → adjacent g u ≡ filter (λ e. e.source == u) g.edges
  pub keys : (u : String) → is_key g.adjacency u ≡ is_key g.nodes u
  pub ends : All (λ e. (is_key g.nodes e.source ≡ true) × (is_key g.nodes e.target ≡ true)) g.edges

pub IsConsistent-empty : IsConsistent empty
unfolding Dict.get
IsConsistent-empty = record { index = λ u. refl; keys = λ u. refl; ends = tt }

All-known :
    (g : UnifiedSecurityGraph) (node : UnifiedNode) (es : List UnifiedEdge)
    → All (λ e. (is_key g.nodes e.source ≡ true) × (is_key g.nodes e.target ≡ true)) es
    → All
        (λ e.
          (is_key (Dict.put g.nodes node.id node) e.source ≡ true)
          × (is_key (Dict.put g.nodes node.id node) e.target ≡ true))
        es
All-known g node [] h = tt
All-known g node (e ∷ es) h = (
  (
    ground (arith, get-put g.nodes node.id e.source node, h.0),
    ground (arith, get-put g.nodes node.id e.target node, h.0),
  ),
  All-known g node es h.1,
)

-- Adding a node, new or known, keeps the graph consistent.
pub add_node-IsConsistent :
    (node : UnifiedNode) (g : UnifiedSecurityGraph)
    → IsConsistent g
    → IsConsistent (add_node node g)
unfolding add_node
add_node-IsConsistent node g c = record {
  index = λ u. ground (arith, c.index u, get-put g.adjacency node.id u [], eq_iff node.id u);
  keys = λ u. ground (
    arith,
    c.keys u,
    get-put g.adjacency node.id u [],
    get-put g.nodes node.id u node,
    eq_iff node.id u,
  );
  ends = All-known g node g.edges c.ends;
}

abbrev pub with_edge : UnifiedEdge → UnifiedSecurityGraph → List UnifiedEdge → UnifiedSecurityGraph
with_edge edge g es = record g {
  edges = g.edges ++ edge ∷ [];
  adjacency = Dict.put g.adjacency edge.source (es ++ edge ∷ []);
}

module _ (edge : UnifiedEdge) (g : UnifiedSecurityGraph) (es : List UnifiedEdge)
    (c : IsConsistent g) (at : Dict.get g.adjacency edge.source ≡ some es)
    (source : is_key g.nodes edge.source ≡ true) (target : is_key g.nodes edge.target ≡ true) where
  with_edge-index :
      (u : String)
      → adjacent (with_edge edge g es) u ≡ filter (λ e. e.source == u) (with_edge edge g es).edges
  with_edge-index u = rw (filter-append (λ e. e.source == u) g.edges (edge ∷ [])) (
      ground (
        arith,
        get-put g.adjacency edge.source u (es ++ edge ∷ []),
        eq_iff edge.source u,
        c.index u,
        append-nil g.edges,
        append-nil (filter (λ e. e.source == u) g.edges),
      ))

  pub with_edge-IsConsistent : IsConsistent (with_edge edge g es)
  with_edge-IsConsistent = record {
    index = with_edge-index;
    keys = λ u. ground (
      arith,
      get-put g.adjacency edge.source u (es ++ edge ∷ []),
      c.keys u,
      c.keys edge.source,
      eq_iff edge.source u,
    );
    ends = All-append _ g.edges (edge ∷ []) c.ends ((source, target), tt);
  }

-- On a consistent graph `add_edge` either raises ValueError, and then an end of the edge is no node,
-- or returns a consistent graph with the same nodes and the edge added at the end of the edges; it
-- never meets a missing key of the adjacency index.
pub add_edge_lem :
    (edge : UnifiedEdge) (g : UnifiedSecurityGraph)
    → IsConsistent g
    → ((add_edge edge g ≡ err value_error)
        × ((is_key g.nodes edge.source ≡ false) ⊎ (is_key g.nodes edge.target ≡ false)))
      ⊎ ((g' : UnifiedSecurityGraph) × (add_edge edge g ≡ ok g')
          × IsConsistent g'
          × (g'.edges ≡ g.edges ++ edge ∷ [])
          × (g'.nodes ≡ g.nodes))
unfolding add_edge
add_edge_lem edge g c = elim (Bool-cases (is_key g.nodes edge.source)) [
  | inr no_source ↦ inl (ground arith, inl no_source)
  | inl source ↦ elim (Bool-cases (is_key g.nodes edge.target)) [
    | inr no_target ↦ inl (ground arith, inr no_target)
    | inl target ↦ elim (Option-cases (Dict.get g.adjacency edge.source)) [
      | inl missing ↦ absurd (ground (arith, c.keys edge.source))
      | inr (es, at) ↦ inr (
        with_edge edge g es,
        rw (source, target) (rw at),
        with_edge-IsConsistent edge g es c at source target,
        refl,
        refl,
      )
    ]
  ]
]

-- The search of a consistent graph between two of its nodes returns exactly the simple paths over the
-- graph's edges with at least one edge and at most `max_depth`; if an end is no node, it returns nothing.
pub find_attack_paths_lem :
    (g : UnifiedSecurityGraph) (start goal : String) (max_depth : ℕ) (p : List UnifiedEdge)
    → IsConsistent g
    → Memᴰ p (find_attack_paths g start goal max_depth) ↔ (
        (is_key g.nodes start ≡ true)
        × (is_key g.nodes goal ≡ true)
        × IsSimplePath (λ e. e.source) (λ e. e.target) g.edges goal [] start p
        × (length p ≤ max_depth)
        × (is_empty p ≡ false))
unfolding find_attack_paths
find_attack_paths_lem g start goal max_depth p c = elim (Bool-cases (is_key g.nodes start)) [
  | inr off ↦ rw off (λ m. absurd (Memᴰ.not-nil m), λ h. cc (h.0))
  | inl on ↦ elim (Bool-cases (is_key g.nodes goal)) [
    | inr off ↦ rw (on, off) (λ m. absurd (Memᴰ.not-nil m), λ h. cc (h.1))
    | inl at ↦
        let both =
          search_correct (λ (e : UnifiedEdge). e.source) (λ (e : UnifiedEdge). e.target) g.edges
            (adjacent g) c.index goal max_depth start p in
        rw (on, at)
          (
            λ m. let (path, short, full) = both.0 m in (refl, refl, path, short, full),
            λ (_, _, path, short, full). both.1 (path, short, full),
          )
  ]
]

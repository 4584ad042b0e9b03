-- ===== src/Graph/Iam.antt =====
-- src/cloudnative_threatguard/cloudgraphguard/graph/iam_graph.py: the directed graph of IAM principals
-- and resources. Unlike the unified graph it takes edges whose ends are no nodes.
pub mod Paths
use cloud_native_threat_guar.Prelude.{
  ℕ, String, Bool, true, false, not, ◌||◌, none, some, List, [], ◌∷◌, ◌++◌, if◌then◌else◌,
}
use cloud_native_threat_guar.Prelude.Dict
use cloud_native_threat_guar.Prelude.Dict.{Dict}
use cloud_native_threat_guar.Prelude.Json.{Fields}
use cloud_native_threat_guar.Graph.{search}

pub record GraphNode : Type 0 where
  pub id : String
  pub label : String
  pub node_type : String
  pub arn : String
  pub metadata : Fields

-- `weight` is in hundredths; no operation of the graph reads it.
pub record GraphEdge : Type 0 where
  pub source : String
  pub target : String
  pub relationship : String
  pub weight : ℕ
  pub evidence : Fields

pub record IamDirectedGraph : Type 0 where
  pub nodes : Dict GraphNode
  pub edges : List GraphEdge
  pub adjacency : Dict (List GraphEdge)

abbrev pub empty : IamDirectedGraph
empty = record { nodes = []; edges = []; adjacency = [] }

abbrev pub is_key {ℓ} : {V : Type ℓ} → Dict V → String → Bool
is_key d k = elim (Dict.get d k) [ none ↦ false | some _ ↦ true ]

unfoldable pub add_node : GraphNode → IamDirectedGraph → IamDirectedGraph
add_node node g = record g {
  nodes = Dict.put g.nodes node.id node;
  adjacency = if is_key g.adjacency node.id then g.adjacency else Dict.put g.adjacency node.id [];
}

-- `self._adjacency.get(current, [])`
abbrev pub adjacent : IamDirectedGraph → String → List GraphEdge
adjacent g u = elim (Dict.get g.adjacency u) [ none ↦ [] | some es ↦ es ]

-- A missing list is created and then gets the edge.
unfoldable pub add_edge : GraphEdge → IamDirectedGraph → IamDirectedGraph
add_edge edge g = record g {
  edges = g.edges ++ edge ∷ [];
  adjacency = Dict.put g.adjacency edge.source (adjacent g edge.source ++ edge ∷ []);
}

unfoldable pub find_paths : IamDirectedGraph → String → String → ℕ → List (List GraphEdge)
unfolding search
find_paths g start_id target_id max_depth =
    if not (is_key g.nodes start_id) || not (is_key g.nodes target_id)
    then []
    else search (λ e. e.target) (adjacent g) max_depth start_id target_id

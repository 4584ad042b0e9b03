-- ===== src/Graph/Unified.antt =====
-- src/cloudnative_threatguard/correlation/cross_domain/graph/unified_graph.py: the heterogeneous graph
-- of cloud identities and Kubernetes resources, and its attack paths.
pub mod Paths
use cloud_native_threat_guar.Prelude.{
  ℕ, String, Bool, true, false, not, ◌||◌, Option, none, some, List, [], ◌∷◌, ◌++◌, if◌then◌else◌,
}
use cloud_native_threat_guar.Prelude.Dict
use cloud_native_threat_guar.Prelude.Dict.{Dict}
use cloud_native_threat_guar.Prelude.Json.{Fields}
use cloud_native_threat_guar.Prelude.Result.{Result, ok, err}
use cloud_native_threat_guar.Graph.{search}

pub data UnifiedNodeType : Type 0 where
  iam_user iam_role iam_group aws_account eks_cluster k8s_service_account k8s_namespace
        k8s_deployment k8s_pod container process secret s3 database resource security_event
        incident :
      UnifiedNodeType

pub data UnifiedRelationship : Type 0 where
  assume_role has_permission can_access can_assume eks_access mapped_to runs contains executed
        triggered accessed detected_by correlated_with :
      UnifiedRelationship

-- `risk_score` is in the units of Prelude/Points, and an edge's `weight` in hundredths: no operation of the
-- graph reads either.
pub record UnifiedNode : Type 0 where
  pub id : String
  pub label : String
  pub node_type : UnifiedNodeType
  pub source_system : String
  pub arn_or_uri : Option String
  pub severity : Option String
  pub risk_score : Option ℕ
  pub metadata : Fields

pub record UnifiedEdge : Type 0 where
  pub source : String
  pub target : String
  pub relationship : UnifiedRelationship
  pub provenance : String
  pub evidence : Fields
  pub weight : ℕ

pub record UnifiedSecurityGraph : Type 0 where
  pub nodes : Dict UnifiedNode
  pub edges : List UnifiedEdge
  pub adjacency : Dict (List UnifiedEdge)

abbrev pub empty : UnifiedSecurityGraph
empty = record { nodes = []; edges = []; adjacency = [] }

abbrev pub is_key {ℓ} : {V : Type ℓ} → Dict V → String → Bool
is_key d k = elim (Dict.get d k) [ none ↦ false | some _ ↦ true ]

unfoldable pub add_node : UnifiedNode → UnifiedSecurityGraph → UnifiedSecurityGraph
add_node node g = record g {
  nodes = Dict.put g.nodes node.id node;
  adjacency = if is_key g.adjacency node.id then g.adjacency else Dict.put g.adjacency node.id [];
}

pub data Error : Type 0 where
  value_error key_error : Error

-- `self._adjacency[edge.source].append(edge)` raises KeyError on a missing key.
append_adjacent :
    UnifiedEdge
    → UnifiedSecurityGraph
    → Option (List UnifiedEdge)
    → Result Error UnifiedSecurityGraph
append_adjacent edge g none = err key_error
append_adjacent edge g (some es) =
    ok (record g { adjacency = Dict.put g.adjacency edge.source (es ++ edge ∷ []) })

unfoldable pub add_edge : UnifiedEdge → UnifiedSecurityGraph → Result Error UnifiedSecurityGraph
unfolding append_adjacent
add_edge edge g =
    if not (is_key g.nodes edge.source) || not (is_key g.nodes edge.target)
    then err value_error
    else append_adjacent edge (record g { edges = g.edges ++ edge ∷ [] })
        (Dict.get g.adjacency edge.source)

-- `self._adjacency.get(curr, [])`
abbrev pub adjacent : UnifiedSecurityGraph → String → List UnifiedEdge
adjacent g u = elim (Dict.get g.adjacency u) [ none ↦ [] | some es ↦ es ]

unfoldable pub find_attack_paths :
    UnifiedSecurityGraph → String → String → ℕ → List (List UnifiedEdge)
unfolding search
find_attack_paths g start_id target_id max_depth =
    if not (is_key g.nodes start_id) || not (is_key g.nodes target_id)
    then []
    else search (λ e. e.target) (adjacent g) max_depth start_id target_id

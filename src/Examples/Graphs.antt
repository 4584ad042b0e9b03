-- ===== src/Examples/Graphs.antt =====
-- The searches of both graphs on a route from a user over a role to a bucket.
use cloud_native_threat_guar.Prelude.{
  ◌≤◌, String, true, false, none, List, [], ◌∷◌, ◌++◌, ◌≡◌, ◌↔◌, ◌⊎◌, refl, is_empty, length, Memᴰ,
}
use cloud_native_threat_guar.Prelude.Dict
use cloud_native_threat_guar.Prelude.Json.{end}
use cloud_native_threat_guar.Prelude.Result.{ok, err}
use cloud_native_threat_guar.Graph.Simple.{IsSimplePath}
use cloud_native_threat_guar.Graph.Unified.{
  UnifiedNode, iam_user, UnifiedEdge, assume_role, UnifiedSecurityGraph, value_error, empty, is_key,
  add_node, add_edge, find_attack_paths,
}
use cloud_native_threat_guar.Graph.Unified.Paths.{
  IsConsistent, IsConsistent-empty, add_node-IsConsistent, with_edge, with_edge-IsConsistent,
  add_edge_lem, find_attack_paths_lem,
}
use cloud_native_threat_guar.Graph.Iam
use cloud_native_threat_guar.Graph.Iam.{GraphNode, GraphEdge}
use cloud_native_threat_guar.Graph.Iam.Paths.{Change, node, edge, build, find_paths_lem}

abbrev node_of : String → UnifiedNode
node_of id = record {
  id = id;
  label = id;
  node_type = iam_user;
  source_system = "aws";
  arn_or_uri = none;
  severity = none;
  risk_score = none;
  metadata = end;
}

abbrev edge_of : String → String → UnifiedEdge
edge_of source target = record {
  source = source;
  target = target;
  relationship = assume_role;
  provenance = "iam";
  evidence = end;
  weight = 100;
}

abbrev nodes_only : UnifiedSecurityGraph
nodes_only = add_node (node_of "role") (add_node (node_of "user") empty)

abbrev linked : UnifiedSecurityGraph
linked = with_edge (edge_of "user" "role") nodes_only []

nodes_only-IsConsistent : IsConsistent nodes_only
nodes_only-IsConsistent =
    add_node-IsConsistent (node_of "role") (add_node (node_of "user") empty)
      (add_node-IsConsistent (node_of "user") empty IsConsistent-empty)

linked-IsConsistent : IsConsistent linked
unfolding add_node Dict.put Dict.get
linked-IsConsistent =
    with_edge-IsConsistent (edge_of "user" "role") nodes_only [] nodes_only-IsConsistent refl refl
      refl

abbrev hop : List UnifiedEdge
hop = edge_of "user" "role" ∷ []

find_attack_paths_example : Memᴰ hop (find_attack_paths linked "user" "role" 5) ↔ (
    (is_key linked.nodes "user" ≡ true)
    × (is_key linked.nodes "role" ≡ true)
    × IsSimplePath (λ e. e.source) (λ e. e.target) linked.edges "role" [] "user" hop
    × (length hop ≤ 5)
    × (is_empty hop ≡ false))
find_attack_paths_example = find_attack_paths_lem linked "user" "role" 5 hop linked-IsConsistent

add_edge_example :
    ((add_edge (edge_of "user" "role") nodes_only ≡ err value_error)
      × ((is_key nodes_only.nodes "user" ≡ false) ⊎ (is_key nodes_only.nodes "role" ≡ false)))
    ⊎ ((g : UnifiedSecurityGraph) × (add_edge (edge_of "user" "role") nodes_only ≡ ok g)
        × IsConsistent g
        × (g.edges ≡ nodes_only.edges ++ edge_of "user" "role" ∷ [])
        × (g.nodes ≡ nodes_only.nodes))
add_edge_example = add_edge_lem (edge_of "user" "role") nodes_only nodes_only-IsConsistent

abbrev iam_node_of : String → GraphNode
iam_node_of id = record { id = id; label = id; node_type = "role"; arn = id; metadata = end }

abbrev iam_hop : GraphEdge
iam_hop = record {
  source = "user";
  target = "role";
  relationship = "can_assume";
  weight = 100;
  evidence = end;
}

abbrev changes : List Change
changes = node (iam_node_of "user") ∷ node (iam_node_of "role") ∷ edge iam_hop ∷ []

find_paths_example :
    Memᴰ (iam_hop ∷ []) (Iam.find_paths (build Iam.empty changes) "user" "role" 5) ↔ (
      (Iam.is_key (build Iam.empty changes).nodes "user" ≡ true)
      × (Iam.is_key (build Iam.empty changes).nodes "role" ≡ true)
      × IsSimplePath
          (λ e. e.source)
          (λ e. e.target)
          (build Iam.empty changes).edges
          "role"
          []
          "user"
          (iam_hop ∷ [])
      × (length (iam_hop ∷ []) ≤ 5)
      × (is_empty (iam_hop ∷ []) ≡ false))
find_paths_example = find_paths_lem changes "user" "role" 5 (iam_hop ∷ [])

-- The hop is the one attack path, and no edge leads back.
one_path : find_attack_paths linked "user" "role" 5 ≡ hop ∷ []
unfolding find_attack_paths add_node Dict.put Dict.get
one_path = refl

no_way_back : find_attack_paths linked "role" "user" 5 ≡ []
unfolding find_attack_paths add_node Dict.put Dict.get
no_way_back = refl

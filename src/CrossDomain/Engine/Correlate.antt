-- ===== src/CrossDomain/Engine/Correlate.antt =====
-- `correlate` of correlation_engine.py: one cluster for each binding that has events, then one for each
-- workload with runtime events that no cluster's binding names.
pub mod Indexing
pub mod Coverage
pub mod Origin
use cloud_native_threat_guar.Prelude.{
  String, Bool, true, false, not, ◌&&◌, ◌||◌, Option, none, some, List, [], ◌∷◌, ◌++◌, ◌==◌,
  is_empty, any, if◌then◌else◌,
}
use cloud_native_threat_guar.Prelude.Dict.{Dict}
use cloud_native_threat_guar.Prelude.Text.{lower}
use cloud_native_threat_guar.CrossDomain.Event.{UnifiedSecurityEvent}
use cloud_native_threat_guar.CrossDomain.Mapping.{MappingMechanism, IdentityBinding, get_all}
use cloud_native_threat_guar.CrossDomain.Engine.{
  CorrelatedCluster, CrossDomainCorrelationEngine, Index, no_events, index_events, events_at,
  binding_key,
}
use cloud_native_threat_guar.CrossDomain.Engine.Chain.{build_attack_chain}

-- A cluster's binding names the workload key.
abbrev pub names : String → CorrelatedCluster → Bool
names key c = elim c.binding [ none ↦ false | some b ↦ binding_key b == key ]

-- `matched_iam or matched_runtime or matched_admission`
abbrev pub has_events : Index → IdentityBinding → Bool
has_events index binding =
    not (is_empty (events_at index.iam_by_role (lower binding.cloud_identity)))
    || not (is_empty (events_at index.runtime_by_workload (binding_key binding)))
    || not (is_empty (events_at index.admission_by_workload (binding_key binding)))

module _ (format_mechanism : MappingMechanism → String) where
  unfoldable pub cluster_of :
      Option IdentityBinding
      → (iam runtime admission : List UnifiedSecurityEvent) → CorrelatedCluster
  cluster_of binding iam runtime admission =
      let c : CorrelatedCluster = record {
        binding = binding;
        iam_events = iam;
        runtime_events = runtime;
        admission_events = admission;
        attack_chain = none;
      } in
      record c { attack_chain = some (build_attack_chain format_mechanism c) }

  abbrev pub bound_cluster : Index → IdentityBinding → CorrelatedCluster
  bound_cluster index binding =
      cluster_of (some binding) (events_at index.iam_by_role (lower binding.cloud_identity))
        (events_at index.runtime_by_workload (binding_key binding))
        (events_at index.admission_by_workload (binding_key binding))

  -- 1. The clusters of the registered bindings.
  unfoldable pub bound_clusters : Index → List IdentityBinding → List CorrelatedCluster
  unfolding cluster_of lower
  bound_clusters index [] = []
  bound_clusters index (binding ∷ bindings) =
      let rest = bound_clusters index bindings in
      if has_events index binding then bound_cluster index binding ∷ rest else rest

  -- 2. The loop over the workloads; the clusters so far are searched and extended.
  unfoldable pub add_unmapped :
      Index → Dict (List UnifiedSecurityEvent) → List CorrelatedCluster → List CorrelatedCluster
  unfolding cluster_of
  add_unmapped index [] clusters = clusters
  add_unmapped index ((key, events) ∷ workloads) clusters = add_unmapped index workloads (
      if any (names key) clusters
      then clusters
      else clusters ++ cluster_of none [] events (events_at index.admission_by_workload key) ∷ [])

  unfoldable pub correlate : CrossDomainCorrelationEngine → List CorrelatedCluster
  unfolding index_events bound_clusters add_unmapped get_all
  correlate engine =
      let index = index_events no_events engine.events in
      add_unmapped index index.runtime_by_workload
        (bound_clusters index (get_all engine.mapping_registry))

-- ===== src/CrossDomain/Engine/Correlate/Coverage.antt =====
-- No runtime detection is lost by the correlation.
use mathlib.Core.List.Memᴰ
use cloud_native_threat_guar.Prelude.{
  String, true, false, none, some, List, [], ◌∷◌, ◌++◌, ◌≡◌, inl, inr, refl, sym, ap, subst, ◌∙◌,
  ◌==◌, eq_iff, any, Memᴰ, Bool-cases, Option-cases, arith,
}
use cloud_native_threat_guar.Prelude.Dict
use cloud_native_threat_guar.Prelude.Dict.{Dict}
use cloud_native_threat_guar.CrossDomain.Event.{UnifiedSecurityEvent}
use cloud_native_threat_guar.CrossDomain.Mapping.{MappingMechanism, IdentityBinding, get_all}
use cloud_native_threat_guar.CrossDomain.Engine.{
  CorrelatedCluster, CrossDomainCorrelationEngine, Index, no_events, index_events, events_at,
  binding_key, workload_key,
}
use cloud_native_threat_guar.CrossDomain.Engine.Correlate.{
  names, cluster_of, bound_clusters, add_unmapped, correlate, has_events,
}
use cloud_native_threat_guar.CrossDomain.Engine.Correlate.Indexing.{
  runtime, kind, index_of, key_of, index_events_complete,
}

get-mem : {V : Type 0} (d : Dict V) (k : String) (v : V) → Dict.get d k ≡ some v → Memᴰ (k, v) d
unfolding Dict.get
get-mem [] k v h = cc
get-mem ((j, w) ∷ d) k v h = elim (Bool-cases (j == k)) [
  | inl same ↦ Memᴰ.head (ground (arith, eq_iff j k))
  | inr other ↦ Memᴰ.tail (get-mem d k v (ground arith))
]

module _ (index : Dict (List UnifiedSecurityEvent)) (key : String) where
  events_at_missing : Dict.get index key ≡ none → events_at index key ≡ []
  events_at_missing h = ground arith

  events_at_present :
      (es : List UnifiedSecurityEvent) → Dict.get index key ≡ some es → events_at index key ≡ es
  events_at_present es h = ground arith

module _ (format_mechanism : MappingMechanism → String) where
  abbrev new_cluster : Index → String → List UnifiedSecurityEvent → CorrelatedCluster
  new_cluster index key events =
      cluster_of format_mechanism none [] events (events_at index.admission_by_workload key)

  -- The clusters so far stay.
  add_unmapped-keeps :
      (index : Index) (workloads : Dict (List UnifiedSecurityEvent))
      (clusters : List CorrelatedCluster) (c : CorrelatedCluster)
      → Memᴰ c clusters
      → Memᴰ c (add_unmapped format_mechanism index workloads clusters)
  unfolding add_unmapped
  add_unmapped-keeps index [] clusters c m = m
  add_unmapped-keeps index ((key, events) ∷ workloads) clusters c m =
      elim (Bool-cases (any (names key) clusters)) [
        | inl named ↦ rw named (add_unmapped-keeps index workloads clusters c m)
        | inr free ↦ rw free (
            add_unmapped-keeps index workloads (clusters ++ new_cluster index key events ∷ []) c
              (Memᴰ.append_left _ m))
      ]

  any-mem :
      (key : String) (clusters : List CorrelatedCluster)
      → any (names key) clusters ≡ true
      → (c : CorrelatedCluster) × Memᴰ c clusters × (names key c ≡ true)
  any-mem key [] h = cc
  any-mem key (c ∷ clusters) h = elim (Bool-cases (names key c)) [
    | inl here ↦ (c, Memᴰ.head refl, here)
    | inr there ↦ let (c', m, h') = any-mem key clusters (ground arith) in (c', Memᴰ.tail m, h')
  ]

  -- A cluster that names the key holds the event.
  abbrev Holds : String → UnifiedSecurityEvent → List CorrelatedCluster → Type 0
  Holds key ev clusters =
      (c : CorrelatedCluster) → Memᴰ c clusters → names key c ≡ true → Memᴰ ev c.runtime_events

  Holds-append :
      (key : String) (ev : UnifiedSecurityEvent) (clusters : List CorrelatedCluster)
      (new : CorrelatedCluster)
      → Holds key ev clusters
      → names key new ≡ false
      → Holds key ev (clusters ++ new ∷ [])
  Holds-append key ev clusters new holds unnamed c m h = elim (Memᴰ.append_cases clusters m) [
    | inl old ↦ holds c old h
    | inr last ↦ cc (ap (names key) (Memᴰ.eq_of_singleton last))
  ]

  add_unmapped_covers :
      (index : Index) (key : String) (es : List UnifiedSecurityEvent) (ev : UnifiedSecurityEvent)
      → Memᴰ ev es
      → (workloads : Dict (List UnifiedSecurityEvent)) (clusters : List CorrelatedCluster)
      → Memᴰ (key, es) workloads
      → Holds key ev clusters
      → (c : CorrelatedCluster) × Memᴰ c (add_unmapped format_mechanism index workloads clusters)
        × Memᴰ ev c.runtime_events
  unfolding add_unmapped cluster_of
  add_unmapped_covers index key es ev inside [] clusters m holds = absurd (Memᴰ.not-nil m)
  add_unmapped_covers index key es ev inside ((k, events) ∷ workloads) clusters m holds =
      elim (Bool-cases (any (names k) clusters)) [
        | inl named ↦ rw named (elim (Memᴰ.cases_cons m) [
          | inr later ↦ add_unmapped_covers index key es ev inside workloads clusters later holds
          | inl same ↦
              let (c, m', h) = any-mem k clusters named in
              (
                c,
                add_unmapped-keeps index workloads clusters c m',
                holds c m' (subst (λ j. names j c ≡ true) (ap (λ p. p.0) (sym same)) h),
              )
        ])
        | inr free ↦
            let more : List CorrelatedCluster = clusters ++ new_cluster index k events ∷ [] in
            rw free (elim (Memᴰ.cases_cons m) [
              | inl same ↦ (
                new_cluster index k events,
                add_unmapped-keeps index workloads more (new_cluster index k events)
                    (Memᴰ.append_right clusters (Memᴰ.head refl)),
                subst (Memᴰ ev) (ap (λ p. p.1) same) inside,
              )
              | inr later ↦
                  add_unmapped_covers index key es ev inside workloads more later
                    (Holds-append key ev clusters (new_cluster index k events) holds refl)
            ])
      ]

  bound_clusters-runtime :
      (index : Index) (bindings : List IdentityBinding) (key : String) (c : CorrelatedCluster)
      → Memᴰ c (bound_clusters format_mechanism index bindings)
      → names key c ≡ true
      → c.runtime_events ≡ events_at index.runtime_by_workload key
  unfolding bound_clusters
  bound_clusters-runtime index [] key c m h = absurd (Memᴰ.not-nil m)
  bound_clusters-runtime index (b ∷ bindings) key c m h = elim (Bool-cases (has_events index b)) [
    | inr idle ↦ bound_clusters-runtime index bindings key c (rw (idle, bound_clusters) at m) h
    | inl active ↦ elim (Memᴰ.cases_cons (rw (active, bound_clusters) at m)) [
      | inr later ↦ bound_clusters-runtime index bindings key c later h
      | inl same ↦
          let key_eq : binding_key b ≡ key =
            (eq_iff (binding_key b) key).0 (subst (λ x. names key x ≡ true) same h) in
          ap (λ x. x.runtime_events) same ∙ ap (events_at index.runtime_by_workload) key_eq
    ]
  ]

  -- Every ingested event of the runtime (from ThreatGuard, and no admission violation) stands among the
  -- runtime events of some cluster.
  pub correlate_covers :
      (engine : CrossDomainCorrelationEngine) (ev : UnifiedSecurityEvent)
      → Memᴰ ev engine.events
      → kind ev ≡ runtime
      → (c : CorrelatedCluster) × Memᴰ c (correlate format_mechanism engine)
        × Memᴰ ev c.runtime_events
  unfolding correlate
  correlate_covers engine ev m is_runtime =
      let index : Index = index_events no_events engine.events in
      let stored : Memᴰ ev (events_at index.runtime_by_workload (workload_key ev)) =
        subst (λ k. Memᴰ ev (events_at (index_of k index) (key_of k ev))) is_runtime
          (index_events_complete no_events engine.events ev m) in
      elim (Option-cases (Dict.get index.runtime_by_workload (workload_key ev))) [
        | inl missing ↦ absurd (
            Memᴰ.not-nil (
              subst (Memᴰ ev)
                (events_at_missing index.runtime_by_workload (workload_key ev) missing) stored))
        | inr (es, at) ↦
            add_unmapped_covers index (workload_key ev) es ev
              (subst (Memᴰ ev) (events_at_present index.runtime_by_workload (workload_key ev) es at)
                stored)
              index.runtime_by_workload
              (bound_clusters format_mechanism index (get_all engine.mapping_registry))
              (get-mem index.runtime_by_workload (workload_key ev) es at)
              (λ c m' h.
                rw
                  (bound_clusters-runtime index (get_all engine.mapping_registry) (workload_key ev)
                    c m' h)
                  stored)
      ]

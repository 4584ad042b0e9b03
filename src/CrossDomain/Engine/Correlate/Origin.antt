-- ===== src/CrossDomain/Engine/Correlate/Origin.antt =====
-- The runtime events of the clusters are events that were ingested.
use cloud_native_threat_guar.Prelude.{
  String, Option, none, some, List, [], ◌∷◌, ◌++◌, ◌==◌, ◌≡◌, inl, inr, refl, subst, any, Memᴰ, All,
  All-append, Bool-cases, Option-cases, arith,
}
use cloud_native_threat_guar.Prelude.Dict
use cloud_native_threat_guar.Prelude.Dict.{Dict}
use cloud_native_threat_guar.CrossDomain.Event.{
  UnifiedSecurityEvent, EventSource, cloudgraphguard, threatguard,
}
use cloud_native_threat_guar.CrossDomain.Mapping.{MappingMechanism, IdentityBinding, get_all}
use cloud_native_threat_guar.CrossDomain.Engine.{
  CorrelatedCluster, CrossDomainCorrelationEngine, Index, no_events, append_at, events_at,
  file_event, index_events, is_admission, workload_key,
}
use cloud_native_threat_guar.CrossDomain.Engine.Correlate.{
  names, has_events, bound_clusters, add_unmapped, correlate,
}
use cloud_native_threat_guar.CrossDomain.Engine.Correlate.Indexing.{runtime, kind}

module _ (all : List UnifiedSecurityEvent) where
  -- The event was ingested, and is one of the runtime.
  abbrev IsKnown : UnifiedSecurityEvent → Type 0
  IsKnown ev = Memᴰ ev all × (kind ev ≡ runtime)

  abbrev AllKnown : Dict (List UnifiedSecurityEvent) → Type 0
  AllKnown [] = Unit
  AllKnown ((key, evs) ∷ d) = All IsKnown evs × AllKnown d

  put-AllKnown :
      (d : Dict (List UnifiedSecurityEvent)) (key : String) (evs : List UnifiedSecurityEvent)
      → AllKnown d
      → All IsKnown evs
      → AllKnown (Dict.put d key evs)
  unfolding Dict.put
  put-AllKnown [] key evs known new = (new, tt)
  put-AllKnown ((j, others) ∷ d) key evs known new = elim (Bool-cases (j == key)) [
    | inl same ↦ rw same (new, known.1)
    | inr differs ↦ rw differs (known.0, put-AllKnown d key evs known.1 new)
  ]

  get-AllKnown :
      (d : Dict (List UnifiedSecurityEvent)) (key : String) (evs : List UnifiedSecurityEvent)
      → AllKnown d
      → Dict.get d key ≡ some evs
      → All IsKnown evs
  unfolding Dict.get
  get-AllKnown [] key evs known found = cc
  get-AllKnown ((j, others) ∷ d) key evs known found = elim (Bool-cases (j == key)) [
    | inl same ↦ subst (All IsKnown) (ground arith) known.0
    | inr differs ↦ get-AllKnown d key evs known.1 (rw differs at found)
  ]

  append_at-AllKnown :
      (d : Dict (List UnifiedSecurityEvent)) (key : String) (ev : UnifiedSecurityEvent)
      → AllKnown d
      → IsKnown ev
      → AllKnown (append_at d key ev)
  unfolding append_at
  append_at-AllKnown d key ev known new = elim (Option-cases (Dict.get d key)) [
    | inl missing ↦ rw (missing, append_at) (put-AllKnown d key (ev ∷ []) known (new, tt))
    | inr (evs, found) ↦
        rw (found, append_at)
          (put-AllKnown d key (evs ++ ev ∷ []) known
            (All-append IsKnown evs (ev ∷ []) (get-AllKnown d key evs known found) (new, tt)))
  ]

  file_event-AllKnown :
      (index : Index) (ev : UnifiedSecurityEvent) (source : EventSource)
      → ev.source ≡ source
      → Memᴰ ev all
      → AllKnown index.runtime_by_workload
      → AllKnown (file_event index ev source).runtime_by_workload
  unfolding file_event
  file_event-AllKnown index ev cloudgraphguard e m known = known
  file_event-AllKnown index ev threatguard e m known =
      elim (Bool-cases (is_admission ev.event_type)) [
        | inl admission ↦ rw admission known
        | inr other ↦ rw other (
            append_at-AllKnown index.runtime_by_workload (workload_key ev) ev known
              (m, rw (e, other) refl))
      ]

  index_events-AllKnown :
      (index : Index) (events : List UnifiedSecurityEvent)
      → All (λ ev. Memᴰ ev all) events
      → AllKnown index.runtime_by_workload
      → AllKnown (index_events index events).runtime_by_workload
  unfolding index_events
  index_events-AllKnown index [] h known = known
  index_events-AllKnown index (ev ∷ events) h known =
      index_events-AllKnown (file_event index ev ev.source) events h.1
        (file_event-AllKnown index ev ev.source refl h.0 known)

  found-IsKnown :
      (o : Option (List UnifiedSecurityEvent))
      → ((evs : List UnifiedSecurityEvent) → o ≡ some evs → All IsKnown evs)
      → All IsKnown (elim o [ none ↦ [] | some evs ↦ evs ])
  found-IsKnown none h = tt
  found-IsKnown (some evs) h = h evs refl

  events_at-IsKnown :
      (d : Dict (List UnifiedSecurityEvent)) (key : String)
      → AllKnown d
      → All IsKnown (events_at d key)
  events_at-IsKnown d key known =
      found-IsKnown (Dict.get d key) (λ evs found. get-AllKnown d key evs known found)

  abbrev AllClusters : List CorrelatedCluster → Type 0
  AllClusters clusters = All (λ c. All IsKnown c.runtime_events) clusters

  module _ (format_mechanism : MappingMechanism → String) (index : Index)
      (known : AllKnown index.runtime_by_workload) where
    bound_clusters-IsKnown :
        (bindings : List IdentityBinding)
        → AllClusters (bound_clusters format_mechanism index bindings)
    unfolding bound_clusters
    bound_clusters-IsKnown [] = tt
    bound_clusters-IsKnown (b ∷ bindings) = elim (Bool-cases (has_events index b)) [
      | inl active ↦
          rw active
            (events_at-IsKnown index.runtime_by_workload _ known, bound_clusters-IsKnown bindings)
      | inr idle ↦ rw idle (bound_clusters-IsKnown bindings)
    ]

    add_unmapped-IsKnown :
        (workloads : Dict (List UnifiedSecurityEvent)) (clusters : List CorrelatedCluster)
        → AllKnown workloads
        → AllClusters clusters
        → AllClusters (add_unmapped format_mechanism index workloads clusters)
    unfolding add_unmapped
    add_unmapped-IsKnown [] clusters w h = h
    add_unmapped-IsKnown ((key, events) ∷ workloads) clusters w h =
        elim (Bool-cases (any (names key) clusters)) [
          | inl named ↦ rw named (add_unmapped-IsKnown workloads clusters w.1 h)
          | inr free ↦ rw free (
              add_unmapped-IsKnown workloads _ w.1
                (All-append (λ c. All IsKnown c.runtime_events) clusters _ h (w.0, tt)))
        ]

All-members :
    {A : Type 0} (xs ys : List A) → ((x : A) → Memᴰ x xs → Memᴰ x ys) → All (λ x. Memᴰ x ys) xs
All-members [] ys h = tt
All-members (x ∷ xs) ys h = (h x (Memᴰ.head refl), All-members xs ys (λ z m. h z (Memᴰ.tail m)))

-- Every runtime event of every cluster is an ingested event from ThreatGuard that is no admission violation.
pub correlate_origin :
    (format_mechanism : MappingMechanism → String) (engine : CrossDomainCorrelationEngine)
    → All
        (λ c. All (λ ev. Memᴰ ev engine.events × (kind ev ≡ runtime)) c.runtime_events)
        (correlate format_mechanism engine)
unfolding correlate
correlate_origin format_mechanism engine =
    let index : Index = index_events no_events engine.events in
    let known : AllKnown engine.events index.runtime_by_workload =
      index_events-AllKnown engine.events no_events engine.events
        (All-members engine.events engine.events (λ x m. m)) tt in
    add_unmapped-IsKnown engine.events format_mechanism index known index.runtime_by_workload
      (bound_clusters format_mechanism index (get_all engine.mapping_registry)) known
      (bound_clusters-IsKnown engine.events format_mechanism index known
        (get_all engine.mapping_registry))

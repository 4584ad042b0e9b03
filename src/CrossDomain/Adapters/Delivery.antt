-- ===== src/CrossDomain/Adapters/Delivery.antt =====
-- From a detection of the cluster to a correlated cluster: the adapter and the correlation engine together.
use mathlib.Core.List.Memᴰ
use cloud_native_threat_guar.Prelude.{
  ℕ, String, false, Option, [], ◌∷◌, ◌++◌, ◌≡◌, refl, ap, ◌∙◌, Memᴰ,
}
use cloud_native_threat_guar.Prelude.Points.{points}
use cloud_native_threat_guar.Prelude.Int.{ℤ, pos}
use cloud_native_threat_guar.Prelude.Json.{Json}
use cloud_native_threat_guar.Prelude.Python.{PyError}
use cloud_native_threat_guar.Prelude.Result.{Result, ok, ◌>>=◌, Returns, always-Returns, value_of}
use cloud_native_threat_guar.Prelude.Text.{member}
use cloud_native_threat_guar.Runtime.Events.{SecurityEvent}
use cloud_native_threat_guar.CrossDomain.Event.{threatguard, UnifiedSecurityEvent}
use cloud_native_threat_guar.CrossDomain.Mapping.{MappingMechanism}
use cloud_native_threat_guar.CrossDomain.Engine.{
  CorrelatedCluster, CrossDomainCorrelationEngine, ingest_event, is_admission,
}
use cloud_native_threat_guar.CrossDomain.Engine.Correlate.{correlate}
use cloud_native_threat_guar.CrossDomain.Engine.Correlate.Indexing.{runtime, kind_of, kind}
use cloud_native_threat_guar.CrossDomain.Engine.Correlate.Coverage.{correlate_covers}
use cloud_native_threat_guar.CrossDomain.Adapters.{validated}
use cloud_native_threat_guar.CrossDomain.Adapters.ThreatGuard.{
  type_of, score_of, unified, validated_event, to_unified_event,
}

-- What the correlation engine reads of the event to file it.
abbrev IsMade : String → SecurityEvent → UnifiedSecurityEvent → Type 0
IsMade id event u = (u.event_id ≡ id) × (u.source ≡ threatguard) × (u.event_type ≡ type_of event)

module _ (python_str : Json → String) (float_of : Json → Result PyError ℤ)
    (without_hashes without_hash : String → String) where
  validated_event-IsMade :
      (id time : String) (event : SecurityEvent) (score : ℤ) (account : Option String)
      → Returns (IsMade id event) (
          validated_event python_str float_of without_hashes without_hash id time event score
            account)
  unfolding validated_event unified
  validated_event-IsMade id time event score account =
      let made : ℕ → ℕ → UnifiedSecurityEvent = λ risk c.
        unified python_str float_of without_hashes without_hash id time event account risk c in
      always-Returns (IsMade id event) (validated (points 100) score)
        (λ risk. validated 100 (pos event.confidence) >>= (λ c. ok (made risk c)))
        (λ risk.
          always-Returns (IsMade id event) (validated 100 (pos event.confidence))
            (λ c. ok (made risk c)) (λ c. (refl, refl, refl)))

  to_unified_event-IsMade :
      (id time : String) (event : SecurityEvent)
      → Returns
          (IsMade id event)
          (to_unified_event python_str float_of without_hashes without_hash id time event)
  unfolding to_unified_event
  to_unified_event-IsMade id time event =
      always-Returns (IsMade id event)
        (score_of python_str float_of without_hashes without_hash event) _
        (λ score.
          always-Returns (IsMade id event) _ _
            (λ account. validated_event-IsMade id time event score account))

ingested :
    (engine : CrossDomainCorrelationEngine) (u : UnifiedSecurityEvent)
    → member u.event_id engine.seen_event_ids ≡ false
    → (ingest_event engine u).1.events ≡ engine.events ++ u ∷ []
unfolding ingest_event
ingested engine u h = rw h refl

-- A detection of ThreatGuard that the adapter makes a unified event of, and whose type is none that maps to an
-- admission violation, stands among the runtime events of some cluster after its event, with an id that is not
-- yet seen, is ingested.
pub detection_reaches_cluster :
    (python_str : Json → String) (float_of : Json → Result PyError ℤ)
    (without_hashes without_hash : String → String) (format_mechanism : MappingMechanism → String)
    (engine : CrossDomainCorrelationEngine) (id time : String) (event : SecurityEvent)
    (u : UnifiedSecurityEvent)
    → to_unified_event python_str float_of without_hashes without_hash id time event ≡ ok u
    → is_admission (type_of event) ≡ false
    → member id engine.seen_event_ids ≡ false
    → (c : CorrelatedCluster) × Memᴰ c (correlate format_mechanism (ingest_event engine u).1)
      × Memᴰ u c.runtime_events
detection_reaches_cluster python_str float_of without_hashes without_hash format_mechanism engine id
      time event u e ha hs =
    let made =
      value_of (IsMade id event) _ u
        (to_unified_event-IsMade python_str float_of without_hashes without_hash id time event) e in
    let filed : kind u ≡ runtime =
      ap (λ s. kind_of s (is_admission u.event_type)) made.1
      ∙ ap (λ t. kind_of threatguard (is_admission t)) made.2
      ∙ ap (kind_of threatguard) ha in
    let stored : Memᴰ u (ingest_event engine u).1.events =
      rw (ingested engine u (rw (made.0) hs)) (Memᴰ.append_right engine.events (Memᴰ.head refl)) in
    correlate_covers format_mechanism (ingest_event engine u).1 u stored filed

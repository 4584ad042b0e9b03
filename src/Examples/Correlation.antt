-- ===== src/Examples/Correlation.antt =====
-- The correlation engine and the attack chains on a runtime detection and a cloud finding.
use cloud_native_threat_guar.Prelude.{
  ◌*◌, ◌+◌, ◌≤◌, String, none, some, [], ◌∷◌, ◌≡◌, refl, length, map, All, Memᴰ, arith,
  if◌then◌else◌,
}
use cloud_native_threat_guar.Prelude.Points.{points, tenth, IsWhole}
use cloud_native_threat_guar.Prelude.Json.{end}
use cloud_native_threat_guar.Prelude.Sort.{sort_by}
use cloud_native_threat_guar.CrossDomain.Event.{
  cloudgraphguard, threatguard, iam_risk, runtime_detection, aws, high, UnifiedSecurityEvent,
}
use cloud_native_threat_guar.CrossDomain.Mapping.{MappingMechanism}
use cloud_native_threat_guar.CrossDomain.Engine.{
  CorrelatedCluster, CrossDomainCorrelationEngine, ingest_events,
}
use cloud_native_threat_guar.CrossDomain.Engine.Chain.{build_attack_chain, max_score, is_cross}
use cloud_native_threat_guar.CrossDomain.Engine.Chain.Order.{
  IsNumbered, in_order, build_attack_chain_order, build_attack_chain_risk,
}
use cloud_native_threat_guar.CrossDomain.Engine.Ingest.{IsTracked, ingest_events_lem}
use cloud_native_threat_guar.CrossDomain.Engine.Correlate.{correlate}
use cloud_native_threat_guar.CrossDomain.Engine.Correlate.Coverage.{correlate_covers}
use cloud_native_threat_guar.CrossDomain.Engine.Correlate.Indexing.{runtime, kind}
use cloud_native_threat_guar.CrossDomain.Engine.Correlate.Origin.{correlate_origin}

-- A detection on the pod web-1 of the workload web.
abbrev pub detection : UnifiedSecurityEvent
detection = record {
  schema_version = "1.0";
  event_id = "e1";
  timestamp = "2025-01-01T00:00:00Z";
  source = threatguard;
  event_type = runtime_detection;
  provider = aws;
  cluster_id = none;
  account_id = none;
  principal_id = none;
  principal_arn = none;
  role_arn = none;
  namespace = some "prod";
  workload = some "web";
  pod = some "web-1";
  service_account = none;
  resource_id = none;
  resource_arn = none;
  action = some "process:/bin/sh";
  severity = high;
  risk_score = points 80;
  confidence = 90;
  detection_rule = none;
  description = "shell in a container";
  evidence = end;
  metadata = end;
}

abbrev pub cloud_event : UnifiedSecurityEvent
cloud_event = record detection {
  event_id = "e2";
  source = cloudgraphguard;
  event_type = iam_risk;
  role_arn = some "arn:aws:iam::1:role/app";
  action = some "iam:PassRole";
}

abbrev idle_engine : CrossDomainCorrelationEngine
idle_engine = record { mapping_registry = []; events = []; seen_event_ids = [] }

abbrev busy_engine : CrossDomainCorrelationEngine
busy_engine = record { mapping_registry = []; events = detection ∷ []; seen_event_ids = "e1" ∷ [] }

abbrev pub incident_cluster : CorrelatedCluster
incident_cluster = record {
  binding = none;
  iam_events = cloud_event ∷ [];
  runtime_events = detection ∷ [];
  admission_events = [];
  attack_chain = none;
}

abbrev format_name : MappingMechanism → String
format_name m = "mechanism"

correlate_covers_example :
    (c : CorrelatedCluster) × Memᴰ c (correlate format_name busy_engine)
    × Memᴰ detection c.runtime_events
correlate_covers_example = correlate_covers format_name busy_engine detection (Memᴰ.head refl) refl

idle-IsTracked : IsTracked idle_engine
idle-IsTracked = record { same = λ id. refl; distinct = tt }

ingest_events_example :
    IsTracked (ingest_events idle_engine (detection ∷ cloud_event ∷ detection ∷ [])).1
    × (length (ingest_events idle_engine (detection ∷ cloud_event ∷ detection ∷ [])).1.events
        ≡ length idle_engine.events
          + (ingest_events idle_engine (detection ∷ cloud_event ∷ detection ∷ [])).0)
    × (ingest_events
          (ingest_events idle_engine (detection ∷ cloud_event ∷ detection ∷ [])).1
          (detection ∷ cloud_event ∷ detection ∷ [])
        ≡ (0, (ingest_events idle_engine (detection ∷ cloud_event ∷ detection ∷ [])).1))
ingest_events_example =
    ingest_events_lem idle_engine (detection ∷ cloud_event ∷ detection ∷ []) idle-IsTracked

build_attack_chain_order_example :
    IsNumbered 1 (build_attack_chain format_name incident_cluster).stages
    × ((build_attack_chain format_name incident_cluster).event_ids
        ≡ map (λ ev. ev.event_id) (in_order format_name incident_cluster))
build_attack_chain_order_example = build_attack_chain_order format_name incident_cluster

scores-below : All (λ ev. ev.risk_score ≤ points 100) (in_order format_name incident_cluster)
unfolding sort_by
scores-below = (omega arith, (omega arith, tt))

build_attack_chain_risk_example :
    All
      (λ ev.
        2 * ev.risk_score
        ≤ 2 * (build_attack_chain format_name incident_cluster).composite_risk + tenth)
      (in_order format_name incident_cluster)
    × ((build_attack_chain format_name incident_cluster).composite_risk ≤ points 100)
    × (2 * (build_attack_chain format_name incident_cluster).composite_risk
        ≤ 2
            * (max_score (map (λ ev. ev.risk_score) (in_order format_name incident_cluster))
                + (if is_cross incident_cluster then points 5 else 0))
          + tenth)
    × IsWhole (build_attack_chain format_name incident_cluster).composite_risk
build_attack_chain_risk_example = build_attack_chain_risk format_name incident_cluster scores-below

correlate_origin_example :
    All
      (λ c. All (λ ev. Memᴰ ev busy_engine.events × (kind ev ≡ runtime)) c.runtime_events)
      (correlate format_name busy_engine)
correlate_origin_example = correlate_origin format_name busy_engine

-- Two of the three events are new.
two_added : (ingest_events idle_engine (detection ∷ cloud_event ∷ detection ∷ [])).0 ≡ 2
unfolding ingest_events
two_added = refl

-- ===== src/Examples/Adapters.antt =====
-- Events as dicts, and the adapters.
use cloud_native_threat_guar.Prelude.{
  ◌+◌, ◌*◌, ◌≤◌, String, none, some, [], ◌∷◌, ◌≡◌, refl, All, Memᴰ,
}
use cloud_native_threat_guar.Prelude.Points.{points, tenth}
use cloud_native_threat_guar.Prelude.Dict
use cloud_native_threat_guar.Prelude.Int.{ℤ, pos}
use cloud_native_threat_guar.Prelude.Json.{Json, null, real, int, str, obj, end, field, find_field}
use cloud_native_threat_guar.Prelude.Python.{PyError, value_error}
use cloud_native_threat_guar.Prelude.Result.{Result, ok, err, ◌>>=◌}
use cloud_native_threat_guar.Prelude.Text.{upper, lower}
use cloud_native_threat_guar.Detection.Rules.Defaults.{reconnaissance}
use cloud_native_threat_guar.Detection.Events.{Subject, detect}
use cloud_native_threat_guar.Runtime.Events.{SecurityEvent, default_event}
use cloud_native_threat_guar.Runtime.Dicts.{DictEvent, to_dict, from_dict}
use cloud_native_threat_guar.Runtime.Dicts.Roundtrip.{without_network, from_dict-to_dict}
use cloud_native_threat_guar.Runtime.Dicts.Keywords.{init, engine_keywords, as_event, init-detect}
use cloud_native_threat_guar.CloudGraph.Iam.{IamFinding, iam_attack_path}
use cloud_native_threat_guar.CrossDomain.Event.{UnifiedSecurityEvent}
use cloud_native_threat_guar.CrossDomain.Mapping.{MappingMechanism}
use cloud_native_threat_guar.CrossDomain.Engine.{
  CorrelatedCluster, CrossDomainCorrelationEngine, ingest_event,
}
use cloud_native_threat_guar.CrossDomain.Engine.Chain.{build_attack_chain}
use cloud_native_threat_guar.CrossDomain.Engine.Chain.Order.{in_order}
use cloud_native_threat_guar.CrossDomain.Engine.Correlate.{correlate}
use cloud_native_threat_guar.CrossDomain.Adapters.{batch}
use cloud_native_threat_guar.CrossDomain.Adapters.ThreatGuard
use cloud_native_threat_guar.CrossDomain.Adapters.CloudGraphGuard
use cloud_native_threat_guar.CrossDomain.Adapters.Bounds.{adapted_chain_risk}
use cloud_native_threat_guar.CrossDomain.Adapters.Delivery.{detection_reaches_cluster}

abbrev floated : Json → Result PyError Json
floated (real x) = ok (real x)
floated _ = err value_error

abbrev read_event : DictEvent
read_event = record {
  event_id = str "ev-1";
  timestamp = str "t1";
  event_type = str "runtime_detection";
  source = str "tetragon";
  cluster = str "c1";
  namespace = str "prod";
  pod = str "web-1";
  container = str "";
  node = str "n1";
  process = str "/bin/sh";
  parent_process = str "";
  executable = str "";
  action = str "process_exec";
  severity = str "HIGH";
  confidence = real "0.9";
  detection_rule = str "RUNTIME-001";
  mitre_technique = str "";
  mitre_tactic = str "Execution";
  file_path = str "/etc/shadow";
  destination_ip = str "";
  destination_port = int 0;
  description = str "";
  metadata = obj (field "command" (str "sh") end);
  evidence_mode = str "live";
  run_id = str "r1";
  scenario_id = str "";
  captured_at = str "";
  observed_at = str "";
  collector_version = str "";
}

from_dict-to_dict_example :
    (to_dict read_event >>= from_dict floated "ev-2" "t2" "c2" "n2")
    ≡ ok (without_network read_event)
unfolding upper
from_dict-to_dict_example =
    from_dict-to_dict floated "ev-2" "t2" "c2" "n2" read_event (field "command" (str "sh") end)
      "HIGH" "Execution" refl refl refl refl refl refl refl

abbrev subject : Subject
subject = record { namespace = str "prod"; pod = str "web-1"; container = null; process = str "id" }

init-detect_example :
    init "ev-1" "t2" "c1" "n1" (
      engine_keywords reconnaissance
        (str "t1")
        subject
        (str "process_exec")
        (str "id")
        (field "pid" (int 7) end))
    ≡ ok (
        as_event "ev-1" "c1" "n1" (
          detect reconnaissance
            (str "t1")
            subject
            (str "process_exec")
            (str "id")
            (field "pid" (int 7) end)))
init-detect_example =
    init-detect "ev-1" "t2" "c1" "n1" reconnaissance (str "t1") subject (str "process_exec")
      (str "id") (field "pid" (int 7) end)

abbrev shown : Json → String
shown v = ""

abbrev floated_score : Json → Result PyError ℤ
floated_score (int n) = ok (pos (points n))
floated_score _ = err value_error

abbrev same : String → String
same name = name

abbrev mechanism_name : MappingMechanism → String
mechanism_name m = ""

abbrev seen_event : SecurityEvent
seen_event = record (default_event "ev-1" "t1" "c1" "n1") {
  pod = "web-1";
  process = "/bin/sh";
  destination_ip = "10.0.0.1";
}

abbrev finding : IamFinding
finding = record {
  finding_type = iam_attack_path;
  title = "path";
  description = "a path";
  severity = "crit";
  risk_score = points 95;
  principal_arn = "arn:aws:iam::1:user/u";
  principal_name = "u";
  account_id = "1";
  target_role_arn = none;
  target_resource_arn = none;
  escalation_vector = none;
  attack_path = "u" ∷ [];
  effective_actions = [];
  remediation_suggestion = none;
  evidence = end;
}

abbrev adapted : UnifiedSecurityEvent
adapted =
    ThreatGuard.unified shown floated_score same same "use-1" "t2" seen_event (some "web-1-sa")
      (points 75) 90

abbrev adapted_cluster : CorrelatedCluster
adapted_cluster = record {
  binding = none;
  iam_events = CloudGraphGuard.unified "f1" "use-2" "t3" finding (points 95) ∷ [];
  runtime_events = adapted ∷ [];
  admission_events = [];
  attack_chain = none;
}

adapted_chain_risk_example :
    ((build_attack_chain mechanism_name adapted_cluster).composite_risk ≤ points 100)
    × All
        (λ u.
          2 * u.risk_score
          ≤ 2 * (build_attack_chain mechanism_name adapted_cluster).composite_risk + tenth)
        (in_order mechanism_name adapted_cluster)
unfolding batch ThreatGuard.to_unified_event CloudGraphGuard.to_unified_event find_field Dict.get
    lower default_event
adapted_chain_risk_example =
    adapted_chain_risk shown floated_score same same mechanism_name
      ((finding, "f1", "use-2", "t3") ∷ []) [] ((seen_event, "use-1", "t2") ∷ []) adapted_cluster
      refl refl refl

abbrev idle : CrossDomainCorrelationEngine
idle = record { mapping_registry = []; events = []; seen_event_ids = [] }

detection_reaches_cluster_example :
    (c : CorrelatedCluster) × Memᴰ c (correlate mechanism_name (ingest_event idle adapted).1)
    × Memᴰ adapted c.runtime_events
unfolding ThreatGuard.to_unified_event ThreatGuard.type_of find_field Dict.get lower default_event
detection_reaches_cluster_example =
    detection_reaches_cluster shown floated_score same same mechanism_name idle "use-1" "t2"
      seen_event adapted refl refl refl

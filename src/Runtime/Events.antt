-- ===== src/Runtime/Events.antt =====
-- src/cloudnative_threatguard/runtime/events.py: the event envelope and the correlated incident.
use cloud_native_threat_guar.Prelude.{ℕ, String, List, [], ◌∷◌}
use cloud_native_threat_guar.Prelude.Json.{str, Fields, end, field}
use cloud_native_threat_guar.Prelude.Text.{concat}

pub data SecurityEventType : Type 0 where
  admission_violation runtime_detection network_anomaly policy_violation configuration_risk
        attack_simulation incident response_action :
      SecurityEventType

-- The `.value` of an event type.
unfoldable pub event_type_value : SecurityEventType → String
event_type_value admission_violation = "admission_violation"
event_type_value runtime_detection = "runtime_detection"
event_type_value network_anomaly = "network_anomaly"
event_type_value policy_violation = "policy_violation"
event_type_value configuration_risk = "configuration_risk"
event_type_value attack_simulation = "attack_simulation"
event_type_value incident = "incident"
event_type_value response_action = "response_action"

-- The fields hold what the annotations of the dataclass declare; `confidence` is in hundredths.
pub record SecurityEvent : Type 0 where
  pub event_id : String
  pub timestamp : String
  pub event_type : String
  pub source : String
  pub cluster : String
  pub namespace : String
  pub pod : String
  pub container : String
  pub node : String
  pub process : String
  pub parent_process : String
  pub executable : String
  pub action : String
  pub severity : String
  pub confidence : ℕ
  pub detection_rule : String
  pub mitre_technique : String
  pub mitre_tactic : String
  pub file_path : String
  pub destination_ip : String
  pub destination_port : ℕ
  pub description : String
  pub metadata : Fields
  pub evidence_mode : String
  pub run_id : String
  pub scenario_id : String
  pub captured_at : String
  pub observed_at : String
  pub collector_version : String

-- `incident_id` and `created_at` come from a random number and the clock: they are arguments of the
-- functions that make an incident.
pub record SecurityIncident : Type 0 where
  pub incident_id : String
  pub created_at : String
  pub cluster : String
  pub namespace : String
  pub pod : String
  pub container : String
  pub severity : String
  pub confidence : ℕ
  pub title : String
  pub summary : String
  pub tactics : List String
  pub techniques : List String
  pub events : List SecurityEvent
  pub status : String
  pub metadata : Fields

-- The defaults of the dataclass; the id, the time, the cluster and the node are those of the process.
unfoldable pub default_event : String → String → String → String → SecurityEvent
default_event event_id timestamp cluster node = record {
  event_id = event_id;
  timestamp = timestamp;
  event_type = "runtime_detection";
  source = "tetragon";
  cluster = cluster;
  namespace = "threatguard";
  pod = "";
  container = "";
  node = node;
  process = "";
  parent_process = "";
  executable = "";
  action = "detected";
  severity = "HIGH";
  confidence = 90;
  detection_rule = "";
  mitre_technique = "";
  mitre_tactic = "";
  file_path = "";
  destination_ip = "";
  destination_port = 0;
  description = "";
  metadata = end;
  evidence_mode = "unknown";
  run_id = "";
  scenario_id = "";
  captured_at = "";
  observed_at = "";
  collector_version = "";
}

-- `from_admission_denial`; `base` holds the defaults of a new event.
unfoldable pub from_admission_denial :
    (base : SecurityEvent) (rule_id policy_name resource_name namespace violation_message : String)
    (mitre_technique mitre_tactic severity : String) (confidence : ℕ)
    → SecurityEvent
unfolding event_type_value concat
from_admission_denial base rule_id policy_name resource_name namespace violation_message
      mitre_technique mitre_tactic severity confidence =
    record base {
      event_type = event_type_value admission_violation;
      source = "opa_gatekeeper";
      namespace = namespace;
      pod = resource_name;
      action = "blocked_admission";
      severity = severity;
      confidence = confidence;
      detection_rule = rule_id;
      mitre_technique = mitre_technique;
      mitre_tactic = mitre_tactic;
      description = concat ("Admission blocked by " ∷ policy_name ∷ ": " ∷ violation_message ∷ []);
      metadata = field "policy_name" (str policy_name) (
          field "resource_name" (str resource_name) (
            field "violation_details" (str violation_message)
              (field "enforcement_action" (str "deny") end)));
    }

-- ===== src/Detection/Events.antt =====
-- `ThreatGuardDetection` of src/cloudnative_threatguard/runtime/events.py as the engine makes it: its fields
-- hold whatever the sensor's event held. The fields that the engine does not pass keep their defaults and are
-- left out; an `evidence` that is a dict of the event is copied, not shared.
use cloud_native_threat_guar.Prelude.{String}
use cloud_native_threat_guar.Prelude.Json.{Json, str, obj, Fields, set_field}
use cloud_native_threat_guar.Prelude.Python.{PyError, type_error}
use cloud_native_threat_guar.Prelude.Result.{Result, ok, err}
use cloud_native_threat_guar.Detection.Rules.{DetectionRule}

pub record ThreatGuardDetection : Type 0 where
  pub timestamp : Json
  pub namespace : Json
  pub pod : Json
  pub container : Json
  pub process : Json
  pub action : Json
  pub event_type : String
  pub severity : String
  pub detection_rule : String
  pub mitre_technique : String
  pub mitre_tactic : String
  pub description : String
  pub metadata : Fields

-- What the engine reads of an event before it matches a rule.
pub record Subject : Type 0 where
  pub namespace : Json
  pub pod : Json
  pub container : Json
  pub process : Json

-- The constructor puts the command and the technique's name into the evidence, which becomes the metadata.
unfoldable pub detect :
    DetectionRule
    → (timestamp : Json) → Subject
    → (action command : Json) → Fields
    → ThreatGuardDetection
unfolding set_field
detect rule timestamp subject action command evidence = record {
  timestamp = timestamp;
  namespace = subject.namespace;
  pod = subject.pod;
  container = subject.container;
  process = subject.process;
  action = action;
  event_type = rule.event_type;
  severity = rule.severity;
  detection_rule = rule.rule_id;
  mitre_technique = rule.mitre_technique;
  mitre_tactic = rule.mitre_tactic;
  description = rule.name;
  metadata =
      set_field (set_field evidence "command" command) "technique_name" (str rule.technique_name);
}

-- An evidence that is no dict has no item assignment.
unfoldable pub detect_json :
    DetectionRule
    → (timestamp : Json) → Subject
    → (action command : Json) → Json
    → Result PyError ThreatGuardDetection
unfolding detect
detect_json rule timestamp subject action command (obj fs) =
    ok (detect rule timestamp subject action command fs)
detect_json rule timestamp subject action command _ = err type_error

-- ===== src/Runtime/Dicts/Keywords.antt =====
-- `ThreatGuardDetection.__init__` of src/cloudnative_threatguard/runtime/events.py: the keywords of older callers.
use cloud_native_threat_guar.Prelude.{
  String, Bool, true, false, not, ◌&&◌, List, [], ◌∷◌, ◌==◌, ◌≡◌, refl, if◌then◌else◌,
}
use cloud_native_threat_guar.Prelude.Json.{
  Json, str, int, real, obj, Fields, end, field, find_field, field_or, set_field,
}
use cloud_native_threat_guar.Prelude.Python.{PyError, attribute_error, type_error, has_key}
use cloud_native_threat_guar.Prelude.Result.{Result, ok, err, ◌>>=◌}
use cloud_native_threat_guar.Prelude.Text.{member}
use cloud_native_threat_guar.Detection.Rules.{DetectionRule}
use cloud_native_threat_guar.Detection.Events.{ThreatGuardDetection, Subject, detect}
use cloud_native_threat_guar.Runtime.Dicts.{DictEvent, security_event}

-- `kwargs.pop(key)`
unfoldable pub remove_field : Fields → String → Fields
remove_field end k = end
remove_field (field j v fs) k =
    let rest = remove_field fs k in if j == k then fs else field j v rest

-- `d.update(e)`
unfoldable pub update_fields : Fields → Fields → Fields
unfolding set_field
update_fields d end = d
update_fields d (field k v e) = update_fields (set_field d k v) e

unfoldable pub rename : String → String → Fields → Fields
unfolding remove_field set_field
rename old new kwargs =
    if has_key kwargs old && not (has_key kwargs new)
    then set_field (remove_field kwargs old) new (field_or kwargs old (obj end))
    else kwargs

-- `kwargs["metadata"][key] = value`, on a new dict where there is none.
unfoldable pub set_metadata : Fields → String → Json → Result PyError Fields
unfolding set_field
set_metadata kwargs key value = elim (field_or kwargs "metadata" (obj end)) [
  | obj fs ↦ ok (set_field kwargs "metadata" (obj (set_field fs key value)))
  | _ ↦ err type_error
]

-- A keyword that goes into the metadata.
unfoldable pub move_into_metadata : String → Fields → Result PyError Fields
unfolding remove_field set_metadata
move_into_metadata key kwargs =
    if has_key kwargs key
    then set_metadata (remove_field kwargs key) key (field_or kwargs key (obj end))
    else ok kwargs

abbrev pub allowed_fields : List String
allowed_fields =
    "event_id" ∷ "timestamp" ∷ "event_type" ∷ "source" ∷ "cluster" ∷ "namespace" ∷ "pod"
    ∷ "container" ∷ "node" ∷ "process" ∷ "parent_process" ∷ "executable" ∷ "action" ∷ "severity"
    ∷ "confidence" ∷ "detection_rule" ∷ "mitre_technique" ∷ "mitre_tactic" ∷ "description"
    ∷ "metadata" ∷ "evidence_mode" ∷ "run_id" ∷ "scenario_id" ∷ "captured_at" ∷ "observed_at"
    ∷ "collector_version" ∷ []

unfoldable pub with_allowed : Bool → Fields → Fields
with_allowed flag end = end
with_allowed flag (field k v fs) =
    let rest = with_allowed flag fs in
    if member k allowed_fields
    then (if flag then field k v rest else rest)
    else (if flag then rest else field k v rest)

-- The keywords that are no field of the event go into the metadata too.
unfoldable pub collect_extras : Fields → Result PyError Fields
unfolding with_allowed update_fields set_field
collect_extras kwargs = elim (field_or kwargs "metadata" (obj end)) [
  | obj fs ↦ ok (
      set_field (with_allowed true kwargs) "metadata"
        (obj (update_fields fs (with_allowed false kwargs))))
  | _ ↦ err attribute_error
]

unfoldable pub rename_legacy : Fields → Fields
unfolding rename
rename_legacy kwargs = rename "evidence" "metadata" (
    rename "detection_name" "description" (
      rename "tactic" "mitre_tactic"
        (rename "technique" "mitre_technique" (rename "rule_id" "detection_rule" kwargs))))

-- The event's defaults are as in `security_event`.
unfoldable pub init : (event_id timestamp cluster node : String) → Fields → Result PyError DictEvent
unfolding security_event rename_legacy move_into_metadata collect_extras
init event_id timestamp cluster node kwargs = do
  with_command ← move_into_metadata "command" (rename_legacy kwargs)
  with_name ← move_into_metadata "technique_name" with_command
  complete ← collect_extras with_name
  ok (security_event event_id timestamp cluster node complete)

-- The keywords of the engine's calls.
abbrev pub engine_keywords :
    DetectionRule → (timestamp : Json) → Subject → (action command : Json) → Fields → Fields
engine_keywords rule timestamp subject action command evidence = field "timestamp" timestamp (
    field "namespace" subject.namespace (
      field "pod" subject.pod (
        field "container" subject.container (
          field "process" subject.process (
            field "command" command (
              field "action" action (
                field "event_type" (str rule.event_type) (
                  field "severity" (str rule.severity) (
                    field "detection_name" (str rule.name) (
                      field "rule_id" (str rule.rule_id) (
                        field "technique" (str rule.mitre_technique) (
                          field "tactic" (str rule.mitre_tactic) (
                            field "technique_name" (str rule.technique_name)
                              (field "evidence" (obj evidence) end))))))))))))))

-- The event that a detection is.
abbrev pub as_event : (event_id cluster node : String) → ThreatGuardDetection → DictEvent
as_event event_id cluster node d = record {
  event_id = str event_id;
  timestamp = d.timestamp;
  event_type = str d.event_type;
  source = str "tetragon";
  cluster = str cluster;
  namespace = d.namespace;
  pod = d.pod;
  container = d.container;
  node = str node;
  process = d.process;
  parent_process = str "";
  executable = str "";
  action = d.action;
  severity = str d.severity;
  confidence = real "0.9";
  detection_rule = str d.detection_rule;
  mitre_technique = str d.mitre_technique;
  mitre_tactic = str d.mitre_tactic;
  file_path = str "";
  destination_ip = str "";
  destination_port = int 0;
  description = str d.description;
  metadata = obj d.metadata;
  evidence_mode = str "unknown";
  run_id = str "";
  scenario_id = str "";
  captured_at = str "";
  observed_at = str "";
  collector_version = str "";
}

-- The constructor takes the engine's keywords, in the spelling of older callers, and raises nothing: it makes the
-- event of the detection, with the command and the technique's name in the metadata.
pub init-detect :
    (event_id now cluster node : String) (rule : DetectionRule) (timestamp : Json)
    (subject : Subject) (action command : Json) (evidence : Fields)
    → init event_id now cluster node
        (engine_keywords rule timestamp subject action command evidence)
      ≡ ok (as_event event_id cluster node (detect rule timestamp subject action command evidence))
unfolding init detect rename_legacy rename move_into_metadata set_metadata collect_extras
    update_fields with_allowed set_field find_field remove_field security_event
init-detect event_id now cluster node rule timestamp subject action command evidence = refl

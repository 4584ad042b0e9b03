-- ===== src/Runtime/Dicts.antt =====
-- `SecurityEvent.to_dict` and `SecurityEvent.from_dict` of src/cloudnative_threatguard/runtime/events.py, and
-- `ThreatGuardDetection.__init__`. Python checks no annotation: the fields hold what the dict held.
pub mod Roundtrip
pub mod Keywords
use cloud_native_threat_guar.Prelude.{
  String, Bool, true, false, not, ◌&&◌, ◌||◌, Option, none, some, List, [], ◌∷◌, if◌then◌else◌,
}
use cloud_native_threat_guar.Prelude.Json.{
  Json, null, bool, int, negative, real, str, arr, obj, Fields, end, field, or_json, find_field,
  field_or, set_field,
}
use cloud_native_threat_guar.Prelude.Python.{PyError, attribute_error, type_error, get_of, has_key}
use cloud_native_threat_guar.Prelude.Result.{Result, ok, err, ◌>>=◌}
use cloud_native_threat_guar.Prelude.Text.{upper, member}

pub record DictEvent : Type 0 where
  pub event_id : Json
  pub timestamp : Json
  pub event_type : Json
  pub source : Json
  pub cluster : Json
  pub namespace : Json
  pub pod : Json
  pub container : Json
  pub node : Json
  pub process : Json
  pub parent_process : Json
  pub executable : Json
  pub action : Json
  pub severity : Json
  pub confidence : Json
  pub detection_rule : Json
  pub mitre_technique : Json
  pub mitre_tactic : Json
  pub file_path : Json
  pub destination_ip : Json
  pub destination_port : Json
  pub description : Json
  pub metadata : Json
  pub evidence_mode : Json
  pub run_id : Json
  pub scenario_id : Json
  pub captured_at : Json
  pub observed_at : Json
  pub collector_version : Json

-- `asdict(self)`, with these fields after it.
unfoldable pub asdict : DictEvent → Fields → Fields
asdict e rest = field "event_id" e.event_id (
    field "timestamp" e.timestamp (
      field "event_type" e.event_type (
        field "source" e.source (
          field "cluster" e.cluster (
            field "namespace" e.namespace (
              field "pod" e.pod (
                field "container" e.container (
                  field "node" e.node (
                    field "process" e.process (
                      field "parent_process" e.parent_process (
                        field "executable" e.executable (
                          field "action" e.action (
                            field "severity" e.severity (
                              field "confidence" e.confidence (
                                field "detection_rule" e.detection_rule (
                                  field "mitre_technique" e.mitre_technique (
                                    field "mitre_tactic" e.mitre_tactic (
                                      field "file_path" e.file_path (
                                        field "destination_ip" e.destination_ip (
                                          field "destination_port" e.destination_port (
                                            field "description" e.description (
                                              field "metadata" e.metadata (
                                                field "evidence_mode" e.evidence_mode (
                                                  field "run_id" e.run_id (
                                                    field "scenario_id" e.scenario_id (
                                                      field "captured_at" e.captured_at (
                                                        field "observed_at" e.observed_at (
                                                          field "collector_version"
                                                            e.collector_version
                                                            (rest)))))))))))))))))))))))))))))

unfoldable pub to_dict : DictEvent → Result PyError Fields
unfolding asdict get_of
to_dict e = do
  technique_name ← get_of e.metadata "technique_name" (str "")
  ok (
      asdict e (
        field "rule_id" e.detection_rule (
          field "technique" e.mitre_technique (
            field "technique_name" technique_name
              (field "detection_name" e.description (field "evidence" e.metadata end))))))

-- `v.upper()`
unfoldable pub upper_of : Json → Result PyError Json
unfolding upper
upper_of (str s) = ok (str (upper s))
upper_of _ = err attribute_error

-- `data.get(key) or data.get(legacy, default)`
abbrev pub get_either : Fields → String → String → Json → Json
get_either fields key legacy default =
    or_json (field_or fields key null) (field_or fields legacy default)

-- The defaults of the process: a new id, the time, and the names of the cluster and the node; `to_float` is
-- `float`.
module _ (to_float : Json → Result PyError Json) (event_id timestamp cluster node : String) where
  unfoldable pub from_dict : Fields → Result PyError DictEvent
  unfolding upper_of find_field
  from_dict fields = do
    severity ← upper_of (field_or fields "severity" (str "HIGH"))
    confidence ← to_float (field_or fields "confidence" (real "0.9"))
    ok record {
      event_id = or_json (field_or fields "event_id" null) (str event_id);
      timestamp = or_json (field_or fields "timestamp" null) (str timestamp);
      event_type = field_or fields "event_type" (str "runtime_detection");
      source = field_or fields "source" (str "tetragon");
      cluster = field_or fields "cluster" (str cluster);
      namespace = field_or fields "namespace" (str "threatguard");
      pod = field_or fields "pod" (str "");
      container = field_or fields "container" (str "");
      node = field_or fields "node" (str node);
      process = field_or fields "process" (str "");
      parent_process = field_or fields "parent_process" (str "");
      executable = field_or fields "executable" (field_or fields "process" (str ""));
      action = field_or fields "action" (str "detected");
      severity = severity;
      confidence = confidence;
      detection_rule = get_either fields "detection_rule" "rule_id" (str "");
      mitre_technique = get_either fields "mitre_technique" "technique" (str "");
      mitre_tactic = get_either fields "mitre_tactic" "tactic" (str "");
      file_path = str "";
      destination_ip = str "";
      destination_port = int 0;
      description = get_either fields "description" "detection_name" (str "");
      metadata = get_either fields "metadata" "evidence" (obj end);
      evidence_mode = field_or fields "evidence_mode" (str "unknown");
      run_id = field_or fields "run_id" (str "");
      scenario_id = field_or fields "scenario_id" (str "");
      captured_at = field_or fields "captured_at" (str "");
      observed_at = field_or fields "observed_at" (str "");
      collector_version = field_or fields "collector_version" (str "");
    }

module _ (event_id timestamp cluster node : String) where
  -- `SecurityEvent(**kwargs)`: a keyword for each field, or its default.
  unfoldable pub security_event : Fields → DictEvent
  unfolding find_field
  security_event kwargs = record {
    event_id = field_or kwargs "event_id" (str event_id);
    timestamp = field_or kwargs "timestamp" (str timestamp);
    event_type = field_or kwargs "event_type" (str "runtime_detection");
    source = field_or kwargs "source" (str "tetragon");
    cluster = field_or kwargs "cluster" (str cluster);
    namespace = field_or kwargs "namespace" (str "threatguard");
    pod = field_or kwargs "pod" (str "");
    container = field_or kwargs "container" (str "");
    node = field_or kwargs "node" (str node);
    process = field_or kwargs "process" (str "");
    parent_process = field_or kwargs "parent_process" (str "");
    executable = field_or kwargs "executable" (str "");
    action = field_or kwargs "action" (str "detected");
    severity = field_or kwargs "severity" (str "HIGH");
    confidence = field_or kwargs "confidence" (real "0.9");
    detection_rule = field_or kwargs "detection_rule" (str "");
    mitre_technique = field_or kwargs "mitre_technique" (str "");
    mitre_tactic = field_or kwargs "mitre_tactic" (str "");
    file_path = field_or kwargs "file_path" (str "");
    destination_ip = field_or kwargs "destination_ip" (str "");
    destination_port = field_or kwargs "destination_port" (int 0);
    description = field_or kwargs "description" (str "");
    metadata = field_or kwargs "metadata" (obj end);
    evidence_mode = field_or kwargs "evidence_mode" (str "unknown");
    run_id = field_or kwargs "run_id" (str "");
    scenario_id = field_or kwargs "scenario_id" (str "");
    captured_at = field_or kwargs "captured_at" (str "");
    observed_at = field_or kwargs "observed_at" (str "");
    collector_version = field_or kwargs "collector_version" (str "");
  }

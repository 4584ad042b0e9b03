-- ===== src/CrossDomain/Adapters/ThreatGuard.antt =====
-- `ThreatGuardAdapter` of src/cloudnative_threatguard/correlation/cross_domain/adapters/tg_adapter.py. The id and
-- the time of the new event are random and the clock's: they are arguments.
use cloud_native_threat_guar.Prelude.{
  ℕ, String, not, ◌&&◌, ◌||◌, ◌==◌, Option, none, some, [], ◌∷◌, if◌then◌else◌,
}
use cloud_native_threat_guar.Prelude.Points.{points}
use cloud_native_threat_guar.Prelude.Dict
use cloud_native_threat_guar.Prelude.Dict.{Dict}
use cloud_native_threat_guar.Prelude.Int.{ℤ, pos}
use cloud_native_threat_guar.Prelude.Json.{
  Json, null, int, str, Fields, end, field, is_truthy, find_field, field_or, set_field,
}
use cloud_native_threat_guar.Prelude.Python.{PyError}
use cloud_native_threat_guar.Prelude.Result.{Result, ok, ◌>>=◌}
use cloud_native_threat_guar.Prelude.Text.{lower, truthy, or_else, concat, decimal}
use cloud_native_threat_guar.Runtime.Events.{SecurityEvent}
use cloud_native_threat_guar.CrossDomain.Event.{
  threatguard, EventType, runtime_detection, admission_violation, network_detection, incident,
  attack_simulation, kubernetes, Severity, low, medium, high, critical, UnifiedSecurityEvent,
}
use cloud_native_threat_guar.CrossDomain.Adapters.{validated, optional_text}

abbrev pub severity_map : Dict Severity
severity_map =
    ("critical", critical) ∷ ("high", high) ∷ ("medium", medium) ∷ ("low", low) ∷ ("info", low) ∷ []

abbrev pub severity_score : Severity → ℕ
severity_score critical = points 90
severity_score high = points 75
severity_score medium = points 50
severity_score low = points 25

abbrev pub event_type_map : Dict EventType
event_type_map =
    ("runtime_detection", runtime_detection)
    ∷ ("admission_violation", admission_violation)
    ∷ ("network_anomaly", network_detection)
    ∷ ("policy_violation", admission_violation)
    ∷ ("attack_simulation", attack_simulation)
    ∷ ("incident", incident)
    ∷ []

abbrev pub get_default {ℓ} : {V : Type ℓ} → Option V → V → V
get_default none v = v
get_default (some v) w = v

unfoldable pub type_of : SecurityEvent → EventType
unfolding Dict.get lower
type_of event = get_default (Dict.get event_type_map (lower event.event_type)) runtime_detection

unfoldable pub severity_of : SecurityEvent → Severity
unfolding Dict.get lower
severity_of event = get_default (Dict.get severity_map (lower event.severity)) high

-- `if value: evidence[key] = value`
unfoldable pub set_if : String → String → Fields → Fields
unfolding set_field
set_if key value evidence = if truthy value then set_field evidence key (str value) else evidence

unfoldable pub evidence_of : SecurityEvent → Fields
unfolding set_if set_field
evidence_of event =
    let process = set_if "executable" event.executable (
      set_if "parent_process" event.parent_process
        (set_if "process" event.process event.metadata)) in
    let file = set_if "file_path" event.file_path process in
    let network =
      if truthy event.destination_ip
      then set_field (set_field file "destination_ip" (str event.destination_ip)) "destination_port"
          (int event.destination_port)
      else file in
    if truthy event.mitre_technique
    then set_field (set_field network "mitre_technique" (str event.mitre_technique)) "mitre_tactic"
        (str event.mitre_tactic)
    else network

unfoldable pub action_of : SecurityEvent → String
unfolding concat decimal
action_of event =
    if not (truthy event.action) || event.action == "detected"
    then (if truthy event.process
        then concat ("execve:" ∷ event.process ∷ [])
        else if truthy event.file_path
        then concat ("openat:" ∷ event.file_path ∷ [])
        else if truthy event.destination_ip
        then concat ("connect:" ∷ event.destination_ip ∷ ":" ∷ decimal event.destination_port ∷ [])
        else event.action)
    else event.action

-- `x or None`
abbrev pub text_or_none : String → Option String
text_or_none s = if truthy s then some s else none

-- `python_str` is `str`, `float_of` is `float` in the units of Prelude/Points, and the two substitutions take the
-- hashes of a replica set and of a pod off the end of a name.
module _ (python_str : Json → String) (float_of : Json → Result PyError ℤ)
    (without_hashes without_hash : String → String) where
  unfoldable pub infer_workload_name : String → Fields → Option String
  unfolding find_field
  infer_workload_name pod_name metadata = elim (find_field metadata "workload") [
    | some workload ↦ some (python_str workload)
    | none ↦ if truthy pod_name then some (without_hash (without_hashes pod_name)) else none
  ]

  -- `metadata.get("service_account")`, or the account named after the workload.
  unfoldable pub service_account_of : Option String → Fields → Json
  unfolding concat find_field
  service_account_of none metadata = field_or metadata "service_account" null
  service_account_of (some workload) metadata =
      let given = field_or metadata "service_account" null in
      if not (is_truthy given) && truthy workload
      then str (concat (workload ∷ "-sa" ∷ []))
      else given

  unfoldable pub score_of : SecurityEvent → Result PyError ℤ
  unfolding find_field severity_of
  score_of event = elim (find_field event.metadata "risk_score") [
    | none ↦ ok (pos (severity_score (severity_of event)))
    | some score ↦ float_of score
  ]

  unfoldable pub unified :
      (event_id timestamp : String) → SecurityEvent → Option String → ℕ → ℕ → UnifiedSecurityEvent
  unfolding infer_workload_name evidence_of action_of severity_of type_of
  unified event_id timestamp event service_account risk_score confidence = record {
    schema_version = "1.0";
    event_id = event_id;
    timestamp = timestamp;
    source = threatguard;
    event_type = type_of event;
    provider = kubernetes;
    cluster_id = some (or_else event.cluster "threatguard-cluster");
    account_id = none;
    principal_id = none;
    principal_arn = none;
    role_arn = none;
    namespace = some (or_else event.namespace "threatguard");
    workload = infer_workload_name event.pod event.metadata;
    pod = text_or_none event.pod;
    service_account = service_account;
    resource_id = text_or_none (or_else event.file_path (or_else event.destination_ip event.pod));
    resource_arn = none;
    action = some (action_of event);
    severity = severity_of event;
    risk_score = risk_score;
    confidence = confidence;
    detection_rule = text_or_none event.detection_rule;
    description = or_else event.description "ThreatGuard security detection";
    evidence = evidence_of event;
    metadata = field "original_event_id" (str event.event_id) (
        field "node" (str event.node)
          (field "container" (str event.container) (field "engine" (str "threatguard") end)));
  }

  -- The validation of the event's numbers, and the event.
  unfoldable pub validated_event :
      (event_id timestamp : String)
      → SecurityEvent
      → ℤ
      → Option String
      → Result PyError UnifiedSecurityEvent
  unfolding unified validated
  validated_event event_id timestamp event score service_account = do
    risk_score ← validated (points 100) score
    confidence ← validated 100 (pos event.confidence)
    ok (unified event_id timestamp event service_account risk_score confidence)

  unfoldable pub to_unified_event :
      (event_id timestamp : String) → SecurityEvent → Result PyError UnifiedSecurityEvent
  unfolding score_of service_account_of infer_workload_name validated_event optional_text
  to_unified_event event_id timestamp event = do
    score ← score_of event
    service_account ←
        optional_text
          (service_account_of (infer_workload_name event.pod event.metadata) event.metadata)
    validated_event event_id timestamp event score service_account

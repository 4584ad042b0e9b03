-- ===== src/Reporting/Incidents.antt =====
-- src/cloudnative_threatguard/reporting/incidents.py: the manager that keeps the incidents of a cluster,
-- their histories and an audit log. The clock is an argument. The recommendations of an incident, which come
-- from another component and which the manager does not read, are left out, and so are the keys that
-- `to_dict` adds to an event beside its fields.
pub mod History
use cloud_native_threat_guar.Prelude.{
  ℕ, suc, ◌+◌, String, Bool, true, false, not, Option, none, some, List, [], ◌∷◌, ◌++◌, ◌==◌,
  filter, length, map, if◌then◌else◌,
}
use cloud_native_threat_guar.Prelude.Dict
use cloud_native_threat_guar.Prelude.Dict.{Dict}
use cloud_native_threat_guar.Prelude.Json.{Fields}
use cloud_native_threat_guar.Prelude.Result.{Result, ok, err}
use cloud_native_threat_guar.Prelude.Sort.{sort_by}
use cloud_native_threat_guar.Prelude.Text.{truthy, or_else, upper, member, concat, decimal}
use cloud_native_threat_guar.Runtime.Events.{SecurityEvent, SecurityIncident}
use cloud_native_threat_guar.Reporting.Factors.{RiskContributor}
use cloud_native_threat_guar.Reporting.Risk.{Datetime, RiskTier, evaluate_workload}

-- The values of `IncidentStatus`.
abbrev pub valid_statuses : List String
valid_statuses =
    "NEW" ∷ "TRIAGED" ∷ "INVESTIGATING" ∷ "CONTAINED" ∷ "RESOLVED" ∷ "FALSE_POSITIVE" ∷ []

pub record TimelineEntry : Type 0 where
  pub step : ℕ
  pub timestamp : String
  pub event_id : String
  pub action : String
  pub process : String
  pub rule : String
  pub technique : String
  pub tactic : String
  pub description : String
  pub severity : String

pub record ChainNode : Type 0 where
  pub node_id : String
  pub step : ℕ
  pub tactic : String
  pub technique : String
  pub label : String
  pub process : String
  pub severity : String
  pub evidence : Fields

-- The two shapes of an entry of the history.
pub data HistoryEntry : Type 0 where
  created : (timestamp status notes : String) → HistoryEntry
  changed : (timestamp actor action previous_status new_status notes : String) → HistoryEntry

pub record AuditEntry : Type 0 where
  pub timestamp : String
  pub action : String
  pub resource_id : String
  pub details : String

pub record IncidentRecord : Type 0 where
  pub incident_id : String
  pub title : String
  pub severity : String
  pub risk_score : ℕ
  pub risk_severity : RiskTier
  pub status : String
  pub first_seen : String
  pub last_seen : String
  pub affected_cluster : String
  pub affected_namespace : String
  pub affected_pod : String
  pub affected_container : String
  pub affected_node : String
  pub tactics : List String
  pub techniques : List String
  pub event_count : ℕ
  pub events : List SecurityEvent
  pub timeline : List TimelineEntry
  pub attack_chain : List ChainNode
  pub risk_factors : List RiskContributor
  pub history : List HistoryEntry
  pub metadata : Fields

pub record IncidentManager : Type 0 where
  pub incidents : Dict IncidentRecord
  pub audit_log : List AuditEntry

unfoldable pub timeline_from : ℕ → List SecurityEvent → List TimelineEntry
timeline_from idx [] = []
timeline_from idx (ev ∷ events) =
    record {
      step = idx + 1;
      timestamp = ev.timestamp;
      event_id = ev.event_id;
      action = ev.action;
      process = ev.process;
      rule = ev.detection_rule;
      technique = ev.mitre_technique;
      tactic = ev.mitre_tactic;
      description = ev.description;
      severity = ev.severity;
    }
    ∷ timeline_from (suc idx) events

-- `_build_timeline`
unfoldable pub build_timeline : List SecurityEvent → List TimelineEntry
unfolding timeline_from sort_by
build_timeline events = timeline_from 0 (sort_by (λ ev. ev.timestamp) events)

-- `_build_attack_chain`, from the index of the first event.
unfoldable pub chain_from : ℕ → List SecurityEvent → List ChainNode
unfolding concat decimal
chain_from idx [] = []
chain_from idx (ev ∷ events) =
    record {
      node_id = concat ("node-" ∷ decimal (idx + 1) ∷ []);
      step = idx + 1;
      tactic = or_else ev.mitre_tactic "Unknown";
      technique = or_else ev.mitre_technique "Unknown";
      label = or_else ev.description ev.action;
      process = ev.process;
      severity = ev.severity;
      evidence = ev.metadata;
    }
    ∷ chain_from (suc idx) events

abbrev pub first_time : String → List TimelineEntry → String
first_time default [] = default
first_time default (entry ∷ timeline) = entry.timestamp

abbrev pub last_time : String → List TimelineEntry → String
last_time default [] = default
last_time default (entry ∷ timeline) = last_time entry.timestamp timeline

-- `_record_audit`
abbrev pub record_audit :
    (now action resource_id details : String) → List AuditEntry → List AuditEntry
record_audit now action resource_id details log =
    log
    ++ record { timestamp = now; action = action; resource_id = resource_id; details = details }
      ∷ []

abbrev pub workload_of : SecurityIncident → String
workload_of c = if truthy c.pod then concat (c.namespace ∷ "/" ∷ c.pod ∷ []) else c.namespace

unfoldable pub incident_record :
    Datetime → (node now : String) → SecurityIncident → Option Fields → IncidentRecord
unfolding build_timeline chain_from concat decimal evaluate_workload
incident_record dt node now c workload_spec =
    let timeline = build_timeline c.events in
    let risk_eval = evaluate_workload dt c.events (workload_of c) workload_spec in
    record {
      incident_id = c.incident_id;
      title = c.title;
      severity = c.severity;
      risk_score = risk_eval.composite_risk_score;
      risk_severity = risk_eval.risk_tier;
      status = "NEW";
      first_seen = first_time c.created_at timeline;
      last_seen = last_time c.created_at timeline;
      affected_cluster = c.cluster;
      affected_namespace = c.namespace;
      affected_pod = c.pod;
      affected_container = c.container;
      affected_node = node;
      tactics = c.tactics;
      techniques = c.techniques;
      event_count = length c.events;
      events = c.events;
      timeline = timeline;
      attack_chain = chain_from 0 c.events;
      risk_factors = risk_eval.top_risk_contributors;
      history =
          created now "NEW" (
            concat (
              "Incident automatically correlated from "
              ∷ decimal (length c.events)
              ∷ " security events."
              ∷ []))
          ∷ [];
      metadata = c.metadata;
    }

unfoldable pub create_incident_from_correlation :
    Datetime
    → (node now : String) → IncidentManager
    → SecurityIncident
    → Option Fields
    → IncidentRecord × IncidentManager
unfolding incident_record concat Dict.put
create_incident_from_correlation dt node now manager c workload_spec =
    let inc = incident_record dt node now c workload_spec in
    (
      inc,
      record {
        incidents = Dict.put manager.incidents c.incident_id inc;
        audit_log =
            record_audit now "CREATE_INCIDENT" c.incident_id
              (concat ("Created incident with severity " ∷ c.severity ∷ [])) manager.audit_log;
      },
    )

unfoldable pub get_incident : IncidentManager → String → Option IncidentRecord
unfolding Dict.get
get_incident manager incident_id = Dict.get manager.incidents incident_id

-- A filter that is not given, or is empty, keeps every incident.
abbrev pub keep_if :
    Option String → (String → IncidentRecord → Bool) → List IncidentRecord → List IncidentRecord
keep_if none test incidents = incidents
keep_if (some value) test incidents =
    if truthy value then filter (test value) incidents else incidents

unfoldable pub list_incidents :
    IncidentManager → (status severity namespace : Option String) → List IncidentRecord
unfolding Dict.values upper
list_incidents manager status severity namespace =
    keep_if namespace (λ v inc. inc.affected_namespace == v)
      (keep_if severity (λ v inc. upper inc.severity == upper v)
        (keep_if status (λ v inc. upper inc.status == upper v) (Dict.values manager.incidents)))

pub data ValueError : Type 0 where
  invalid_status : String → ValueError

unfoldable pub with_status : (now new_status notes actor : String) → IncidentRecord → IncidentRecord
unfolding upper concat
with_status now new_status notes actor inc = record inc {
  status = upper new_status;
  history =
      inc.history
      ++ changed now actor
          (concat ("STATUS_CHANGED_" ∷ inc.status ∷ "_TO_" ∷ upper new_status ∷ [])) inc.status
          (upper new_status) notes
        ∷ [];
}

unfoldable pub update_status :
    (now : String)
    → IncidentManager
    → (incident_id new_status notes actor : String)
    → Result ValueError (Option IncidentRecord × IncidentManager)
unfolding with_status upper concat Dict.get Dict.put
update_status now manager incident_id new_status notes actor =
    elim (Dict.get manager.incidents incident_id) [
      | none ↦ ok (none, manager)
      | some inc ↦
          if not (member (upper new_status) valid_statuses)
          then err (invalid_status new_status)
          else ok (
            some (with_status now new_status notes actor inc),
            record {
              incidents =
                  Dict.put manager.incidents incident_id
                    (with_status now new_status notes actor inc);
              audit_log =
                  record_audit now "UPDATE_INCIDENT_STATUS" incident_id
                    (concat (
                      "Status changed from "
                      ∷ inc.status
                      ∷ " to "
                      ∷ upper new_status
                      ∷ " by "
                      ∷ actor
                      ∷ []))
                    manager.audit_log;
            },
          )
    ]

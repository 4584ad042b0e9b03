-- ===== src/Correlation/Kubernetes.antt =====
-- src/cloudnative_threatguard/correlation/kubernetes.py: the events of a workload grouped into an
-- incident. `fresh n` is the id and the time of creation of the n-th incident.
pub mod Grouping
pub mod Multiset
use cloud_native_threat_guar.Prelude.{
  ℕ, suc, ◌+◌, String, Bool, true, false, not, ◌&&◌, List, [], ◌∷◌, ◌++◌, ◌==◌, ltb, max, is_empty,
  length, if◌then◌else◌,
}
use cloud_native_threat_guar.Prelude.Dict.{Dict}
use cloud_native_threat_guar.Prelude.Json.{end}
use cloud_native_threat_guar.Prelude.Sort.{sort_by}
use cloud_native_threat_guar.Prelude.Text.{
  truthy, or_else, member, concat, join, decimal, last_part,
}
use cloud_native_threat_guar.Runtime.Events.{SecurityEvent, SecurityIncident}

-- `_SEVERITY_ORDER.index(s)`; 0 for a text that is not in the list.
abbrev pub severity_index : String → ℕ
severity_index s =
    if s == "LOW"
    then 1
    else if s == "MEDIUM"
    then 2
    else if s == "HIGH"
    then 3
    else if s == "CRITICAL"
    then 4
    else 0

abbrev pub severity_order : List String
severity_order = "INFO" ∷ "LOW" ∷ "MEDIUM" ∷ "HIGH" ∷ "CRITICAL" ∷ []

unfoldable pub group_key : SecurityEvent → String
unfolding concat
group_key ev = if truthy ev.pod then concat (ev.namespace ∷ "/" ∷ ev.pod ∷ []) else ev.namespace

abbrev pub Groups : Type 0
Groups = Dict (List SecurityEvent)

-- `grouped.setdefault(key, []).append(ev)`
unfoldable pub add_event : Groups → String → SecurityEvent → Groups
add_event [] key ev = (key, ev ∷ []) ∷ []
add_event ((j, evs) ∷ groups) key ev =
    let rest = add_event groups key ev in
    if j == key then (j, evs ++ ev ∷ []) ∷ groups else (j, evs) ∷ rest

unfoldable pub group_events : Groups → List SecurityEvent → Groups
unfolding add_event group_key
group_events groups [] = groups
group_events groups (ev ∷ events) = group_events (add_event groups (group_key ev) ev) events

-- One round of the loop over the events of a group; `highest` is always in the order.
unfoldable pub raise : String → String → String
raise highest severity =
    if member severity severity_order && ltb (severity_index highest) (severity_index severity)
    then severity
    else highest

unfoldable pub highest_severity : String → List SecurityEvent → String
unfolding raise
highest_severity highest [] = highest
highest_severity highest (e ∷ events) = highest_severity (raise highest e.severity) events

-- Texts that are not empty, each once, in order.
unfoldable pub collect : (SecurityEvent → String) → List String → List SecurityEvent → List String
collect field found [] = found
collect field found (e ∷ events) =
    collect field
      (if truthy (field e) && not (member (field e) found) then found ++ field e ∷ [] else found)
      events

unfoldable pub max_confidence : List SecurityEvent → ℕ
max_confidence [] = 0
max_confidence (e ∷ events) = max e.confidence (max_confidence events)

-- The incident of the sorted events `primary ∷ others` of a group.
unfoldable pub incident_of :
    (incident_id created_at key : String) → SecurityEvent → List SecurityEvent → SecurityIncident
unfolding highest_severity collect max_confidence concat join decimal last_part
incident_of incident_id created_at key primary others =
    let events = primary ∷ others in
    let tactics = collect (λ e. e.mitre_tactic) [] events in
    let techniques = collect (λ e. e.mitre_technique) [] events in
    let pod_name = or_else primary.pod (last_part 47 key) in
    let chained = ltb 1 (length tactics) in
    record {
      incident_id = incident_id;
      created_at = created_at;
      cluster = primary.cluster;
      namespace = or_else primary.namespace "threatguard";
      pod = pod_name;
      container = primary.container;
      severity = highest_severity "LOW" events;
      confidence = max_confidence events;
      title =
          if chained
          then concat ("Multi-Stage Attack Chain Detected on " ∷ pod_name ∷ [])
          else concat (
              "Security Violation Burst: " ∷ or_else primary.description "Anomalous Behavior" ∷ []);
      summary =
          if chained
          then concat (
              "Correlated "
              ∷ decimal (length events)
              ∷ " security events across "
              ∷ decimal (length tactics)
              ∷ " MITRE tactics ("
              ∷ join ", " tactics
              ∷ ") in workload "
              ∷ pod_name
              ∷ "."
              ∷ [])
          else concat (
              "Detected "
              ∷ decimal (length events)
              ∷ " security events matching "
              ∷ join ", " techniques
              ∷ " on "
              ∷ pod_name
              ∷ "."
              ∷ []);
      tactics = tactics;
      techniques = techniques;
      events = events;
      status = "OPEN";
      metadata = end;
    }

-- A group without events makes no incident.
abbrev pub incidents_of :
    (incident_id created_at key : String) → List SecurityEvent → List SecurityIncident
incidents_of incident_id created_at key [] = []
incidents_of incident_id created_at key (e ∷ events) =
    incident_of incident_id created_at key e events ∷ []

unfoldable pub make_incidents : (fresh : ℕ → String × String) → ℕ → Groups → List SecurityIncident
unfolding incident_of sort_by
make_incidents fresh n [] = []
make_incidents fresh n ((key, events) ∷ groups) =
    incidents_of (fresh n).0 (fresh n).1 key (sort_by (λ e. e.timestamp) events)
    ++ make_incidents fresh (suc n) groups

unfoldable pub correlate_incidents :
    (fresh : ℕ → String × String) → List SecurityEvent → List SecurityIncident
unfolding group_events make_incidents
correlate_incidents fresh events = make_incidents fresh 0 (group_events [] events)

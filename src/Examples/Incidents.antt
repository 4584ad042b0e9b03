-- ===== src/Examples/Incidents.antt =====
-- The incidents of a cluster of two events, and those of a single cluster's correlation.
use cloud_native_threat_guar.Prelude.{
  none, List, Bool, false, leb, ◌&&◌, ℕ, count_if, String, true, some, [], ◌∷◌, ◌==◌, ◌≡◌, refl,
  map, all, arith, Memᴰ, if◌then◌else◌,
}
use cloud_native_threat_guar.Prelude.Points.{points}
use cloud_native_threat_guar.Prelude.Json.{find_field}
use cloud_native_threat_guar.CrossDomain.Engine.{CorrelatedCluster}
use cloud_native_threat_guar.CrossDomain.Engine.Chain.{build_attack_chain}
use cloud_native_threat_guar.Prelude.Result.{ok}
use cloud_native_threat_guar.CrossDomain.Incident.{
  new, contained, finding, CrossDomainIncident, risk_of,
}
use cloud_native_threat_guar.CrossDomain.Incident.Manager.{
  UnifiedIncidentManager, source_events, incident_of, create_from_cluster, get_incident,
  update_status,
}
use cloud_native_threat_guar.CrossDomain.Incident.Lifecycle.{
  is_typed, is_ok, create_from_cluster-is_ok, kept_event, kept_finding, Graded, is_found, updated,
  create_from_cluster_lem, update_status_lem,
}
use cloud_native_threat_guar.Runtime.Events.{SecurityEvent, SecurityIncident, default_event}
use cloud_native_threat_guar.Correlation.Kubernetes.{correlate_incidents}
use cloud_native_threat_guar.Correlation.Kubernetes.Grouping.{Covers, correlate_incidents-Covers}
use cloud_native_threat_guar.Correlation.Kubernetes.Multiset.{
  event_count, correlate_incidents_count,
}
use cloud_native_threat_guar.Reporting.Metrics.{compute_snapshot}
use cloud_native_threat_guar.Reporting.Metrics.Names.{
  unresolved, crosses, at_risk, IsNamed, principal_of, workload_of, resources_of,
}
use cloud_native_threat_guar.Reporting.Metrics.Counts.{
  count_at, picked, is_iam, is_runtime, all_findings, compute_snapshot_lem,
}
use cloud_native_threat_guar.CrossDomain.Event.{high}
use cloud_native_threat_guar.Examples.Correlation.{detection, cloud_event, incident_cluster}

all-typed : all is_typed (source_events incident_cluster) ≡ true
unfolding is_typed
all-typed = refl

create_from_cluster_example :
    (i : CrossDomainIncident) × (after : UnifiedIncidentManager) × (create_from_cluster "CDI-1"
        "now" [] incident_cluster
      ≡ ok (i, after))
    × (i.source_event_ids ≡ map (λ ev. ev.event_id) (source_events incident_cluster))
    × (map kept_finding i.contributing_findings ≡ map kept_event (source_events incident_cluster))
    × Graded (risk_of incident_cluster.attack_chain) i.severity
    × (i.status ≡ new)
    × ((j : String) → get_incident after j ≡ (if "CDI-1" == j then some i else get_incident [] j))
create_from_cluster_example =
    create_from_cluster_lem "CDI-1" "now" [] incident_cluster all-typed (omega arith)

-- A chain with a risk above the bound of the schema.
abbrev over : CorrelatedCluster
over = record incident_cluster {
  attack_chain = some (record (build_attack_chain (λ m. "mechanism") incident_cluster) {
    composite_risk = points 150;
  });
}

create_from_cluster-is_ok_example :
    is_ok (create_from_cluster "CDI-1" "now" [] over)
    ≡ (all is_typed (source_events over) && leb (risk_of over.attack_chain) (points 100))
create_from_cluster-is_ok_example = create_from_cluster-is_ok "CDI-1" "now" [] over

over_refused : is_ok (create_from_cluster "CDI-1" "now" [] over) ≡ false
unfolding create_from_cluster find_field
over_refused = refl

abbrev tracked : UnifiedIncidentManager
tracked = ("CDI-1", incident_of "CDI-1" "now" incident_cluster []) ∷ []

update_status_example :
    ((update_status "later" tracked "CDI-1" contained).0 ≡ is_found (get_incident tracked "CDI-1"))
    × (get_incident (update_status "later" tracked "CDI-1" contained).1 "CDI-1"
        ≡ updated "later" contained
            ("CDI-1" == "CDI-1")
            (get_incident tracked "CDI-1")
            (get_incident tracked "CDI-1"))
update_status_example = update_status_lem "later" tracked "CDI-1" "CDI-1" contained

abbrev pub shell : SecurityEvent
shell = record (default_event "e1" "2025-01-01T00:00:00Z" "kind" "node-1") {
  pod = "web-1";
  severity = "CRITICAL";
  mitre_tactic = "Execution";
  mitre_technique = "T1059";
  description = "shell in a container";
}

abbrev pub token : SecurityEvent
token = record (default_event "e2" "2025-01-01T00:00:05Z" "kind" "node-1") {
  pod = "web-1";
  severity = "HIGH";
  mitre_tactic = "Credential Access";
  mitre_technique = "T1552.007";
}

abbrev fresh : ℕ → String × String
fresh n = ("#TG-000001", "now")

correlate_incidents-Covers_example :
    (inc : SecurityIncident) × Memᴰ inc (correlate_incidents fresh (token ∷ shell ∷ []))
    × Covers inc token
correlate_incidents-Covers_example =
    correlate_incidents-Covers fresh (token ∷ shell ∷ []) token (Memᴰ.head refl)

abbrev is_token : SecurityEvent → Bool
is_token event = event.event_id == "e2"

correlate_incidents_count_example :
    event_count is_token (correlate_incidents fresh (token ∷ shell ∷ []))
    ≡ count_if is_token (token ∷ shell ∷ [])
correlate_incidents_count_example = correlate_incidents_count fresh (token ∷ shell ∷ []) is_token

-- Both events are of one pod, and the incident has the higher severity.
one_incident :
    map (λ i. i.severity) (correlate_incidents fresh (token ∷ shell ∷ [])) ≡ "CRITICAL" ∷ []
unfolding correlate_incidents default_event
one_incident = refl

abbrev snapshot_input : List CrossDomainIncident
snapshot_input =
    incident_of "CDI-1" "now" incident_cluster
      (finding detection none ∷ finding cloud_event none ∷ [])
    ∷ []

compute_snapshot_example :
    ((compute_snapshot snapshot_input).open_incidents
      ≡ count_if (λ i. unresolved i.status) snapshot_input)
    × ((compute_snapshot snapshot_input).exploitable_attack_paths
        ≡ count_if (λ i. unresolved i.status && crosses i) snapshot_input)
    × IsNamed principal_of at_risk snapshot_input
        (compute_snapshot snapshot_input).high_risk_principals
    × IsNamed workload_of at_risk snapshot_input
        (compute_snapshot snapshot_input).high_risk_workloads
    × IsNamed resources_of
        (λ i. unresolved i.status)
        snapshot_input
        (compute_snapshot snapshot_input).sensitive_resources_exposed
    × (count_at high (compute_snapshot snapshot_input).iam_risks_by_severity
        ≡ count_if (picked is_iam high) (all_findings snapshot_input))
    × (count_at high (compute_snapshot snapshot_input).runtime_threats_by_severity
        ≡ count_if (picked is_runtime high) (all_findings snapshot_input))
compute_snapshot_example = compute_snapshot_lem snapshot_input high

-- One finding of the cloud and one of the runtime, both of high severity.
one_each :
    (count_at high (compute_snapshot snapshot_input).iam_risks_by_severity ≡ 1)
    × (count_at high (compute_snapshot snapshot_input).runtime_threats_by_severity ≡ 1)
unfolding compute_snapshot
one_each = (refl, refl)

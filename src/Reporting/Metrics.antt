-- ===== src/Reporting/Metrics.antt =====
-- src/cloudnative_threatguard/reporting/cross_domain_metrics.py: the metric values of the cross-domain
-- incidents. A set of texts is a list with each text once.
pub mod Names
pub mod Counts
use cloud_native_threat_guar.Prelude.{
  ℕ, suc, String, Bool, true, false, not, ◌&&◌, ◌||◌, Option, none, some, List, [], ◌∷◌, ◌++◌,
  filter, count_if, length, ltb, if◌then◌else◌,
}
use cloud_native_threat_guar.Prelude.Text.{truthy, distinct}
use cloud_native_threat_guar.CrossDomain.Event.{
  cloudgraphguard, threatguard, EventSource, admission_violation, Severity, low, medium, high,
  critical, or_option,
}
use cloud_native_threat_guar.CrossDomain.Engine.{is_admission}
use cloud_native_threat_guar.CrossDomain.Incident.{
  resolved, same_status, RemediationProposal, ContributingFinding, CrossDomainIncident,
}

-- The dict of counts by severity, which holds the four severities from the start.
pub record BySeverity : Type 0 where
  pub low_count : ℕ
  pub medium_count : ℕ
  pub high_count : ℕ
  pub critical_count : ℕ

abbrev pub no_counts : BySeverity
no_counts = record { low_count = 0; medium_count = 0; high_count = 0; critical_count = 0 }

-- `counts[sev] = counts.get(sev, 0) + 1`
abbrev pub bump : Severity → BySeverity → BySeverity
bump low counts = record counts { low_count = suc counts.low_count }
bump medium counts = record counts { medium_count = suc counts.medium_count }
bump high counts = record counts { high_count = suc counts.high_count }
bump critical counts = record counts { critical_count = suc counts.critical_count }

pub record CrossDomainMetricsSnapshot : Type 0 where
  pub total_correlations : ℕ
  pub open_incidents : ℕ
  pub exploitable_attack_paths : ℕ
  pub high_risk_principals : ℕ
  pub high_risk_workloads : ℕ
  pub sensitive_resources_exposed : ℕ
  pub iam_risks_by_severity : BySeverity
  pub runtime_threats_by_severity : BySeverity

abbrev pub is_cross_domain : CrossDomainIncident → Bool
is_cross_domain i =
    ltb 0 i.evidence_summary.iam_events_count
    && (ltb 0 i.evidence_summary.runtime_events_count
        || ltb 0 i.evidence_summary.admission_events_count)

abbrev pub is_open : CrossDomainIncident → Bool
is_open i = not (same_status i.status resolved)

abbrev pub is_high_risk : Severity → Bool
is_high_risk high = true
is_high_risk critical = true
is_high_risk _ = false

-- The text in a list of its own, if it is there and not empty.
abbrev pub texts_of : Option String → List String
texts_of none = []
texts_of (some s) = if truthy s then s ∷ [] else []

unfoldable pub principals : List CrossDomainIncident → List String
principals [] = []
principals (i ∷ incidents) =
    texts_of (or_option i.cloud_context.principal i.cloud_context.role) ++ principals incidents

unfoldable pub workloads : List CrossDomainIncident → List String
workloads [] = []
workloads (i ∷ incidents) =
    texts_of (elim i.k8s_context [ none ↦ none | some context ↦ context.workload ])
    ++ workloads incidents

abbrev pub targets : List RemediationProposal → List String
targets [] = []
targets (p ∷ proposals) = texts_of (some p.target) ++ targets proposals

unfoldable pub resources : List CrossDomainIncident → List String
resources [] = []
resources (i ∷ incidents) = targets i.remediation_proposals ++ resources incidents

abbrev pub Buckets : Type 0
Buckets = BySeverity × BySeverity

abbrev pub add_source : EventSource → ContributingFinding → Buckets → Buckets
add_source cloudgraphguard finding (iam, runtime) = (bump finding.severity iam, runtime)
add_source threatguard finding (iam, runtime) =
    (iam, if is_admission finding.event_type then runtime else bump finding.severity runtime)

unfoldable pub add_findings : Buckets → List ContributingFinding → Buckets
add_findings buckets [] = buckets
add_findings buckets (f ∷ findings) = add_findings (add_source f.source f buckets) findings

unfoldable pub add_incidents : Buckets → List CrossDomainIncident → Buckets
unfolding add_findings
add_incidents buckets [] = buckets
add_incidents buckets (i ∷ incidents) =
    add_incidents (add_findings buckets i.contributing_findings) incidents

unfoldable pub compute_snapshot : List CrossDomainIncident → CrossDomainMetricsSnapshot
unfolding principals workloads resources add_incidents distinct
compute_snapshot incidents =
    let open_list = filter is_open incidents in
    let high_risk = filter (λ i. is_high_risk i.severity) open_list in
    let buckets = add_incidents (no_counts, no_counts) incidents in
    record {
      total_correlations = length incidents;
      open_incidents = length open_list;
      exploitable_attack_paths = count_if is_cross_domain open_list;
      high_risk_principals = length (distinct (principals high_risk));
      high_risk_workloads = length (distinct (workloads high_risk));
      sensitive_resources_exposed = length (distinct (resources open_list));
      iam_risks_by_severity = buckets.0;
      runtime_threats_by_severity = buckets.1;
    }

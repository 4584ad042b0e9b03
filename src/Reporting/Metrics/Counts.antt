-- ===== src/Reporting/Metrics/Counts.antt =====
-- What the metric values of reporting/cross_domain_metrics.py count.
use cloud_native_threat_guar.Prelude.{
  ℕ, ◌+◌, Bool, true, false, not, ◌&&◌, List, [], ◌∷◌, ◌++◌, ◌≡◌, refl, ◌∙◌, count_if, arith,
  Bool-cases, inl, inr, length-filter, if◌then◌else◌,
}
use cloud_native_threat_guar.CrossDomain.Event.{
  EventSource, cloudgraphguard, threatguard, EventType, iam_risk, runtime_detection,
  admission_violation, network_detection, incident, attack_simulation, Severity, low, medium, high,
  critical,
}
use cloud_native_threat_guar.CrossDomain.Engine.{is_admission}
use cloud_native_threat_guar.CrossDomain.Incident.{ContributingFinding, CrossDomainIncident}
use cloud_native_threat_guar.Reporting.Metrics.{
  BySeverity, no_counts, bump, Buckets, add_source, add_findings, add_incidents, is_open,
  is_cross_domain, principals, workloads, compute_snapshot,
}
use cloud_native_threat_guar.Reporting.Metrics.Names.{
  unresolved, crosses, at_risk, IsNamed, principal_of, workload_of, resources_of, risk-IsNamed,
  open-IsNamed, open-crosses, is_open-unresolved, count-filter, count_if-same, principals-any,
  workloads-any,
}

-- The count of one severity.
abbrev pub count_at : Severity → BySeverity → ℕ
count_at low c = c.low_count
count_at medium c = c.medium_count
count_at high c = c.high_count
count_at critical c = c.critical_count

abbrev pub severity_is : Severity → Severity → Bool
severity_is low low = true
severity_is medium medium = true
severity_is high high = true
severity_is critical critical = true
severity_is _ _ = false

-- A finding of the cloud, and one of the runtime that is no admission violation.
pub is_iam : EventSource → EventType → Bool
is_iam cloudgraphguard kind = true
is_iam threatguard kind = false

pub is_runtime : EventSource → EventType → Bool
is_runtime cloudgraphguard kind = false
is_runtime threatguard admission_violation = false
is_runtime threatguard _ = true

abbrev pub all_findings : List CrossDomainIncident → List ContributingFinding
all_findings [] = []
all_findings (i ∷ incidents) = i.contributing_findings ++ all_findings incidents

-- The findings of a severity that a test on source and type picks.
abbrev pub picked : (EventSource → EventType → Bool) → Severity → ContributingFinding → Bool
picked test s f = test f.source f.event_type && severity_is s f.severity

count_at-bump :
    (s t : Severity) (c : BySeverity)
    → count_at s (bump t c) ≡ count_at s c + (if severity_is s t then 1 else 0)
count_at-bump low low c = omega arith
count_at-bump low medium c = omega arith
count_at-bump low high c = omega arith
count_at-bump low critical c = omega arith
count_at-bump medium low c = omega arith
count_at-bump medium medium c = omega arith
count_at-bump medium high c = omega arith
count_at-bump medium critical c = omega arith
count_at-bump high low c = omega arith
count_at-bump high medium c = omega arith
count_at-bump high high c = omega arith
count_at-bump high critical c = omega arith
count_at-bump critical low c = omega arith
count_at-bump critical medium c = omega arith
count_at-bump critical high c = omega arith
count_at-bump critical critical c = omega arith

runtime_kind : (kind : EventType) → is_runtime threatguard kind ≡ not (is_admission kind)
unfolding is_runtime
runtime_kind iam_risk = refl
runtime_kind runtime_detection = refl
runtime_kind admission_violation = refl
runtime_kind network_detection = refl
runtime_kind incident = refl
runtime_kind attack_simulation = refl

module _ (s : Severity) where
  add_source-count :
      (source : EventSource) (f : ContributingFinding) (b : Buckets)
      → (count_at s (add_source source f b).0
          ≡ count_at s b.0
            + (if is_iam source f.event_type && severity_is s f.severity then 1 else 0))
        × (count_at s (add_source source f b).1
            ≡ count_at s b.1
              + (if is_runtime source f.event_type && severity_is s f.severity then 1 else 0))
  unfolding is_iam is_runtime
  add_source-count cloudgraphguard f (iam, runtime) = (count_at-bump s f.severity iam, omega arith)
  add_source-count threatguard f (iam, runtime) = elim (Bool-cases (is_admission f.event_type)) [
    | inl e ↦ rw (e, runtime_kind f.event_type) (omega arith, rw e (omega arith))
    | inr e ↦
        rw (e, runtime_kind f.event_type) (omega arith, rw e (count_at-bump s f.severity runtime))
  ]

  count_if-append :
      (test : ContributingFinding → Bool) (xs ys : List ContributingFinding)
      → count_if test (xs ++ ys) ≡ count_if test xs + count_if test ys
  count_if-append test [] ys = omega arith
  count_if-append test (x ∷ xs) ys = ground (arith, count_if-append test xs ys)

  add_findings-count :
      (b : Buckets) (fs : List ContributingFinding)
      → (count_at s (add_findings b fs).0 ≡ count_at s b.0 + count_if (picked is_iam s) fs)
        × (count_at s (add_findings b fs).1 ≡ count_at s b.1 + count_if (picked is_runtime s) fs)
  unfolding add_findings
  add_findings-count b [] = (omega arith, omega arith)
  add_findings-count b (f ∷ fs) =
      let rest = add_findings-count (add_source f.source f b) fs in
      let one = add_source-count f.source f b in
      (ground (arith, rest.0, one.0), ground (arith, rest.1, one.1))

  add_incidents-count :
      (b : Buckets) (is : List CrossDomainIncident)
      → (count_at s (add_incidents b is).0
          ≡ count_at s b.0 + count_if (picked is_iam s) (all_findings is))
        × (count_at s (add_incidents b is).1
            ≡ count_at s b.1 + count_if (picked is_runtime s) (all_findings is))
  unfolding add_incidents
  add_incidents-count b [] = (omega arith, omega arith)
  add_incidents-count b (i ∷ is) =
      let rest = add_incidents-count (add_findings b i.contributing_findings) is in
      let one = add_findings-count b i.contributing_findings in
      (
        omega (
          arith,
          rest.0,
          one.0,
          count_if-append (picked is_iam s) i.contributing_findings (all_findings is),
        ),
        omega (
          arith,
          rest.1,
          one.1,
          count_if-append (picked is_runtime s) i.contributing_findings (all_findings is),
        ),
      )

none_counted : (s : Severity) → count_at s no_counts ≡ 0
none_counted low = refl
none_counted medium = refl
none_counted high = refl
none_counted critical = refl

-- Open incidents are those that are not resolved, and attack paths those of them with events of the cloud and of
-- the cluster. The high-risk principals and workloads are the different texts that open incidents of high or
-- critical severity name, and the exposed resources those that proposals of open incidents target. For each
-- severity, the counts are the findings of that severity from the cloud, and from the runtime without admission
-- violations, of all incidents.
pub compute_snapshot_lem :
    (incidents : List CrossDomainIncident) (s : Severity)
    → ((compute_snapshot incidents).open_incidents ≡ count_if (λ i. unresolved i.status) incidents)
      × ((compute_snapshot incidents).exploitable_attack_paths
          ≡ count_if (λ i. unresolved i.status && crosses i) incidents)
      × IsNamed principal_of at_risk incidents (compute_snapshot incidents).high_risk_principals
      × IsNamed workload_of at_risk incidents (compute_snapshot incidents).high_risk_workloads
      × IsNamed resources_of
          (λ i. unresolved i.status)
          incidents
          (compute_snapshot incidents).sensitive_resources_exposed
      × (count_at s (compute_snapshot incidents).iam_risks_by_severity
          ≡ count_if (picked is_iam s) (all_findings incidents))
      × (count_at s (compute_snapshot incidents).runtime_threats_by_severity
          ≡ count_if (picked is_runtime s) (all_findings incidents))
unfolding compute_snapshot
compute_snapshot_lem incidents s =
    let counted = add_incidents-count s (no_counts, no_counts) incidents in
    (
      length-filter is_open incidents ∙ count_if-same _ _ is_open-unresolved incidents,
      count-filter is_open is_cross_domain incidents ∙ count_if-same _ _ open-crosses incidents,
      risk-IsNamed principal_of principals incidents principals-any,
      risk-IsNamed workload_of workloads incidents workloads-any,
      open-IsNamed incidents,
      omega (arith, counted.0, none_counted s),
      omega (arith, counted.1, none_counted s),
    )

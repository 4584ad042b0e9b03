-- ===== src/Reporting/Risk/Bounds.antt =====
-- Bounds of the factors and of the score.
use cloud_native_threat_guar.Prelude.{
  ℕ, ◌*◌, ◌≤◌, min, String, Option, none, some, List, [], ◌∷◌, ◌≡◌, inl, inr, is_empty, length,
  Bool-cases, ◌&&◌, arith, refl,
}
use cloud_native_threat_guar.Prelude.Dict
use cloud_native_threat_guar.Prelude.Dict.{Dict}
use cloud_native_threat_guar.Prelude.Json.{Fields, end, field}
use cloud_native_threat_guar.Prelude.Text.{upper}
use cloud_native_threat_guar.Runtime.Events.{SecurityEvent}
use cloud_native_threat_guar.Reporting.Factors.{
  raise_severity, max_severity, severity_part, asset_part, spec_part, network_part, mitre_part,
}
use cloud_native_threat_guar.Reporting.Risk.{
  Breakdown, Datetime, total, burst, apart, clustering_part, last_of, factors, evaluate_workload,
  is_absent,
}

pub record IsBounded (b : Breakdown) : Type 0 where
  pub severity : b.severity_points ≤ 56
  pub asset : b.asset_criticality ≤ 30
  pub privilege : b.privilege_level ≤ 70
  pub network : b.network_exposure ≤ 20
  pub clustering : b.event_volume_clustering ≤ 12
  pub mitre : b.mitre_technique_weight ≤ 35

raise_severity-le : (score : ℕ) (sev : String) → score ≤ 40 → raise_severity score sev ≤ 40
unfolding raise_severity
raise_severity-le score sev h = ground arith

max_severity-le :
    (score : ℕ) (events : List SecurityEvent) → score ≤ 40 → max_severity score events ≤ 40
unfolding max_severity
max_severity-le score [] h = h
max_severity-le score (ev ∷ events) h =
    max_severity-le (raise_severity score (upper ev.severity)) events
      (raise_severity-le score (upper ev.severity) h)

severity_part-le : (events : List SecurityEvent) → (severity_part events).0 ≤ 56
unfolding severity_part
severity_part-le events = omega (arith, max_severity-le 0 events)

asset_part-le : (workload_ref : String) → (asset_part workload_ref).0 ≤ 30
unfolding asset_part Dict.get
asset_part-le workload_ref = ground arith

spec_part-le : (spec : Option Fields) → (spec_part spec).0 ≤ 70
unfolding spec_part
spec_part-le none = omega arith
spec_part-le (some end) = omega arith
spec_part-le (some (field k v fs)) = ground arith

network_part-le : (events : List SecurityEvent) → (network_part events).0 ≤ 20
unfolding network_part
network_part-le [] = omega arith
network_part-le (ev ∷ events) = ground (arith, network_part-le events)

mitre_part-le : (events : List SecurityEvent) → (mitre_part events).0 ≤ 35
unfolding mitre_part
mitre_part-le events = omega arith

burst-le : (dt : Datetime) (count : ℕ) (micros : Option ℕ) → (burst dt count micros).0 ≤ 12
unfolding burst
burst-le dt count none = omega arith
burst-le dt count (some micros) = ground arith

clustering_part-le :
    (dt : Datetime) (events : List SecurityEvent) → (clustering_part dt events).0 ≤ 12
unfolding clustering_part
clustering_part-le dt [] = omega arith
clustering_part-le dt (ev ∷ []) = omega arith
clustering_part-le dt (ev ∷ next ∷ events) =
    burst-le dt (length (ev ∷ next ∷ events))
      (apart dt ev.timestamp (last_of next events).timestamp)

module _ (dt : Datetime) (events : List SecurityEvent) (workload_ref : String)
    (spec : Option Fields) where
  factors-IsBounded : IsBounded (factors dt events workload_ref spec).0
  unfolding factors
  factors-IsBounded = record {
    severity = severity_part-le events;
    asset = asset_part-le workload_ref;
    privilege = spec_part-le spec;
    network = network_part-le events;
    clustering = clustering_part-le dt events;
    mitre = mitre_part-le events;
  }

  -- The score is at most 100 points and is three quarters of the sum of the six factors, cut off at 100;
  -- each factor keeps to its own bound: 56, 30, 70, 20, 12 and 35 points.
  pub evaluate_workload_bounds :
      ((evaluate_workload dt events workload_ref spec).composite_risk_score ≤ 10000)
      × ((evaluate_workload dt events workload_ref spec).composite_risk_score
          ≡ min 10000 (total (evaluate_workload dt events workload_ref spec).factor_breakdown * 75))
      × IsBounded (evaluate_workload dt events workload_ref spec).factor_breakdown
  unfolding evaluate_workload
  evaluate_workload_bounds = elim (Bool-cases (is_empty events && is_absent spec)) [
    | inl nothing ↦ rw nothing (omega arith, refl, omega arith)
    | inr some_input ↦ rw some_input (omega arith, refl, factors-IsBounded)
  ]

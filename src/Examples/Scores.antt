-- ===== src/Examples/Scores.antt =====
-- The risk scores of a workload and of a cluster of two events.
use cloud_native_threat_guar.Prelude.{
  ◌+◌, ◌*◌, ◌/◌, ◌≤◌, min, String, none, some, List, [], ◌∷◌, ◌++◌, ◌≡◌, ◌⊎◌, length, arith,
}
use cloud_native_threat_guar.Prelude.Points.{points, tenth}
use cloud_native_threat_guar.Runtime.Events.{SecurityEvent}
use cloud_native_threat_guar.Reporting.Factors.{RiskContributor}
use cloud_native_threat_guar.Reporting.Risk.{Datetime, total, evaluate_workload}
use cloud_native_threat_guar.Reporting.Risk.Bounds.{IsBounded, evaluate_workload_bounds}
use cloud_native_threat_guar.Reporting.Risk.Attribution.{
  impact, IsDescending, IsRearranged, contributors_of, evaluate_workload_attribution,
}
use cloud_native_threat_guar.CrossDomain.Risk.{Rounding, evaluate_cluster}
use cloud_native_threat_guar.CrossDomain.Risk.Bounds.{contributions, evaluate_cluster_bounds}
use cloud_native_threat_guar.Examples.Correlation.{incident_cluster}
use cloud_native_threat_guar.Examples.Incidents.{shell, token}

-- A clock on which every time is read and all are ten seconds apart.
abbrev pub clock : Datetime
clock = record { Instant = String; fromisoformat = λ s. some s; distance = λ a b. some 10000000 }

abbrev two_events : List SecurityEvent
two_events = shell ∷ token ∷ []

evaluate_workload_bounds_example :
    ((evaluate_workload clock two_events "kube-system/web" none).composite_risk_score ≤ 10000)
    × ((evaluate_workload clock two_events "kube-system/web" none).composite_risk_score
        ≡ min 10000 (
            total (evaluate_workload clock two_events "kube-system/web" none).factor_breakdown
            * 75))
    × IsBounded (evaluate_workload clock two_events "kube-system/web" none).factor_breakdown
evaluate_workload_bounds_example = evaluate_workload_bounds clock two_events "kube-system/web" none

evaluate_workload_attribution_example :
    (rest : List RiskContributor) × IsRearranged
      ((evaluate_workload clock two_events "kube-system/web" none).top_risk_contributors ++ rest)
      (contributors_of clock two_events "kube-system/web" none)
    × IsDescending
        ((evaluate_workload clock two_events "kube-system/web" none).top_risk_contributors ++ rest)
    × (impact (contributors_of clock two_events "kube-system/web" none)
        ≡ total (evaluate_workload clock two_events "kube-system/web" none).factor_breakdown)
    × (length (evaluate_workload clock two_events "kube-system/web" none).top_risk_contributors ≤ 5)
    × ((rest ≡ [])
        ⊎ (length (evaluate_workload clock two_events "kube-system/web" none).top_risk_contributors
            ≡ 5))
evaluate_workload_attribution_example =
    evaluate_workload_attribution clock two_events "kube-system/web" none

-- Rounding half up.
abbrev half_up : Rounding
half_up = record {
  round1 = λ x. (x + 50 * tenth) / (100 * tenth) * (100 * tenth);
  not_above = λ x. omega arith;
  not_below = λ x. omega arith;
  monotone = λ x y h. omega arith;
  tenths = λ n. omega arith;
}

evaluate_cluster_bounds_example :
    ((evaluate_cluster half_up incident_cluster).overall_score ≤ 100 * points 100)
    × ((evaluate_cluster half_up incident_cluster).iam_subtotal ≤ 100 * points 35)
    × ((evaluate_cluster half_up incident_cluster).runtime_subtotal ≤ 100 * points 90)
    × ((evaluate_cluster half_up incident_cluster).overall_score
        ≤ contributions (evaluate_cluster half_up incident_cluster).factors + 100 * tenth)
    × (min (100 * points 100) (contributions (evaluate_cluster half_up incident_cluster).factors)
        ≤ (evaluate_cluster half_up incident_cluster).overall_score + 100 * tenth)
evaluate_cluster_bounds_example = evaluate_cluster_bounds half_up incident_cluster

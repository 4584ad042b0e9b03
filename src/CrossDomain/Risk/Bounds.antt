-- ===== src/CrossDomain/Risk/Bounds.antt =====
-- Bounds of the score and of its parts, and the factors that explain it.
use cloud_native_threat_guar.Prelude.{
  ℕ, ◌+◌, ◌*◌, ◌≤◌, min, String, List, [], ◌∷◌, ◌++◌, ◌≡◌, inl, inr, length, Bool-cases, arith,
}
use cloud_native_threat_guar.Prelude.Points.{points, tenth}
use cloud_native_threat_guar.CrossDomain.Event.{UnifiedSecurityEvent}
use cloud_native_threat_guar.CrossDomain.Engine.{CorrelatedCluster}
use cloud_native_threat_guar.CrossDomain.Risk.{
  Rounding, RiskFactor, UnifiedRiskAssessment, Part, is_escalation, is_wildcard, iam_factor,
  iam_loop, iam_part, runtime_part, amplifier_part, evaluate_cluster,
}

-- The sum of the contributions.
unfoldable pub contributions : List RiskFactor → ℕ
contributions [] = 0
contributions (f ∷ fs) = f.contribution + contributions fs

contributions-append :
    (xs ys : List RiskFactor) → contributions (xs ++ ys) ≡ contributions xs + contributions ys
unfolding contributions
contributions-append [] ys = omega arith
contributions-append (x ∷ xs) ys = omega (arith, contributions-append xs ys)

-- A part of the score is explained by its factors up to rounding, and has a bound.
record IsExplained (bound slack : ℕ) (p : Part) : Type 0 where
  within : p.0 ≤ bound
  not_above : contributions p.1 ≤ p.0 + slack
  not_below : p.0 ≤ contributions p.1 + slack

runtime_part-IsExplained :
    (c : CorrelatedCluster) → IsExplained (100 * points 90) 0 (runtime_part c)
unfolding runtime_part contributions
runtime_part-IsExplained c = ground arith

amplifier_part-IsExplained :
    (c : CorrelatedCluster) (count : ℕ) → IsExplained (100 * points 10) 0 (amplifier_part c count)
unfolding amplifier_part contributions
amplifier_part-IsExplained c count = ground arith

module _ (rounding : Rounding) where
  open rounding use {round1, not_above, not_below, monotone, tenths}

  iam_factor-IsExplained :
      (name text : String) (n : ℕ)
      → n ≤ (100 * points 35)
      → IsExplained (100 * points 35) (50 * tenth) (iam_factor rounding name n text)
  unfolding contributions
  iam_factor-IsExplained name text n h = omega (arith, not_above n, not_below n)

  iam_loop-IsExplained :
      (score : ℕ) (events : List UnifiedSecurityEvent)
      → IsExplained (100 * points 35) (50 * tenth) (iam_loop rounding score events)
  unfolding iam_loop
  iam_loop-IsExplained score [] =
      iam_factor-IsExplained _ _ (min (100 * points 25) (score * 30)) (omega arith)
  iam_loop-IsExplained score (ev ∷ events) = elim (Bool-cases (is_escalation ev)) [
    | inl esc ↦
        rw esc
          (iam_factor-IsExplained _ _ (min (100 * points 35) (ev.risk_score * 40)) (omega arith))
    | inr calm ↦ elim (Bool-cases (is_wildcard ev)) [
      | inl wild ↦
          rw (calm, wild)
            (iam_factor-IsExplained _ _ (min (100 * points 30) (ev.risk_score * 35)) (omega arith))
      | inr tame ↦ rw (calm, tame) (iam_loop-IsExplained score events)
    ]
  ]

  iam_part-IsExplained :
      (events : List UnifiedSecurityEvent)
      → IsExplained (100 * points 35) (50 * tenth) (iam_part rounding events)
  unfolding iam_part contributions
  iam_part-IsExplained [] = omega arith
  iam_part-IsExplained (ev ∷ events) = iam_loop-IsExplained ev.risk_score (ev ∷ events)

  round1-le : (x n : ℕ) → x ≤ n * (100 * tenth) → round1 x ≤ n * (100 * tenth)
  round1-le x n h = omega (arith, monotone x (n * (100 * tenth)) h, tenths n)

  module _ (c : CorrelatedCluster) where
    abbrev r : UnifiedRiskAssessment
    r = evaluate_cluster rounding c

    -- The overall score is at most 100 points, its IAM part at most 35 and its runtime part at most 90; the
    -- listed contributions add up to the score, up to 0.1 points and the limit of 100.
    pub evaluate_cluster_bounds :
        (r.overall_score ≤ (100 * points 100))
        × (r.iam_subtotal ≤ (100 * points 35))
        × (r.runtime_subtotal ≤ (100 * points 90))
        × (r.overall_score ≤ contributions r.factors + 100 * tenth)
        × (min (100 * points 100) (contributions r.factors) ≤ r.overall_score + 100 * tenth)
    unfolding evaluate_cluster
    evaluate_cluster_bounds =
        let iam : Part = iam_part rounding c.iam_events in
        let run : Part = runtime_part c in
        let amp : Part = amplifier_part c (length (iam.1 ++ run.1)) in
        let iam_ok = iam_part-IsExplained c.iam_events in
        let run_ok = runtime_part-IsExplained c in
        let amp_ok = amplifier_part-IsExplained c (length (iam.1 ++ run.1)) in
        let all_factors = contributions-append (iam.1 ++ run.1) amp.1 in
        let two_factors = contributions-append iam.1 run.1 in
        let above = not_above (iam.0 + run.0 + amp.0) in
        let below = not_below (iam.0 + run.0 + amp.0) in
        (
          omega arith,
          round1-le iam.0 350 iam_ok.within,
          round1-le run.0 900 run_ok.within,
          omega arith,
          omega arith,
        )

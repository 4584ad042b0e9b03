-- ===== src/CrossDomain/Risk.antt =====
-- src/cloudnative_threatguard/correlation/cross_domain/engine/risk_evaluator.py. Event scores are in
-- the units of Prelude/Points, so the products with 0.4, 0.35 and 0.3 are whole hundredths of a unit; all subtotals,
-- contributions and totals here are in hundredths of a unit. `round1` is Python's `round(x, 1)`.
pub mod Bounds
use cloud_native_threat_guar.Prelude.{
  ℕ, ◌+◌, ◌*◌, ◌≤◌, min, String, Bool, true, false, not, ◌&&◌, ◌||◌, Option, none, some, List, [],
  ◌∷◌, ◌++◌, ◌≡◌, is_empty, length, leb, if◌then◌else◌,
}
use cloud_native_threat_guar.Prelude.Points.{points, tenth}
use cloud_native_threat_guar.Prelude.Text.{lower, contains}
use cloud_native_threat_guar.CrossDomain.Event.{
  Severity, low, medium, high, critical, UnifiedSecurityEvent, or_text,
}
use cloud_native_threat_guar.CrossDomain.Engine.{CorrelatedCluster}
use cloud_native_threat_guar.CrossDomain.Engine.Chain.{is_cross}

-- `round(x, 1)` on a number in hundredths of a unit: the nearest tenth, which leaves whole tenths alone
-- and keeps the order.
pub record Rounding : Type 0 where
  pub round1 : ℕ → ℕ
  pub not_above : (x : ℕ) → round1 x ≤ x + 50 * tenth
  pub not_below : (x : ℕ) → x ≤ round1 x + 50 * tenth
  pub monotone : (x y : ℕ) → x ≤ y → round1 x ≤ round1 y
  pub tenths : (n : ℕ) → round1 (n * (100 * tenth)) ≡ n * (100 * tenth)

pub record RiskFactor : Type 0 where
  pub source : String
  pub factor : String
  pub contribution : ℕ
  pub description : String

pub record UnifiedRiskAssessment : Type 0 where
  pub overall_score : ℕ
  pub severity : Severity
  pub iam_subtotal : ℕ
  pub runtime_subtotal : ℕ
  pub factors : List RiskFactor
  pub remediation_urgency : String
  pub calculation_formula : String

abbrev pub action_has : UnifiedSecurityEvent → String → Bool
action_has ev part = elim ev.action [ none ↦ false | some a ↦ contains a part ]

abbrev pub is_escalation : UnifiedSecurityEvent → Bool
is_escalation ev = contains ev.description "Privilege Escalation" || action_has ev "PassRole"

abbrev pub is_wildcard : UnifiedSecurityEvent → Bool
is_wildcard ev = contains ev.description "Wildcard" || action_has ev "*"

abbrev pub factor_of : String → String → ℕ → String → RiskFactor
factor_of source name contribution text = record {
  source = source;
  factor = name;
  contribution = contribution;
  description = text;
}

-- What a step adds: the subtotal, and the factors.
abbrev pub Part : Type 0
Part = ℕ × List RiskFactor

-- The three local flags of the loop over the runtime events.
pub record Flags : Type 0 where
  pub credential_access : Bool
  pub shell_exec : Bool
  pub egress : Bool

abbrev pub rule_has : UnifiedSecurityEvent → String → Bool
rule_has ev part = contains (or_text ev.detection_rule "") part

abbrev pub desc_has : UnifiedSecurityEvent → String → Bool
desc_has ev part = contains (lower ev.description) part

unfoldable pub flag : Flags → UnifiedSecurityEvent → Flags
flag f ev =
    if rule_has ev "004" || desc_has ev "token" || desc_has ev "secret"
    then record f { credential_access = true }
    else if rule_has ev "001" || desc_has ev "shell" || desc_has ev "bash" || desc_has ev "sh"
    then record f { shell_exec = true }
    else if rule_has ev "006" || desc_has ev "outbound" || desc_has ev "connect"
    then record f { egress = true }
    else f

unfoldable pub flags : Flags → List UnifiedSecurityEvent → Flags
unfolding flag
flags f [] = f
flags f (ev ∷ events) = flags (flag f ev) events

abbrev pub no_flags : Flags
no_flags = record { credential_access = false; shell_exec = false; egress = false }

-- A fixed contribution, if its condition holds.
abbrev pub part_if : Bool → RiskFactor → Part
part_if b f = if b then (f.contribution, f ∷ []) else (0, [])

abbrev pub ◌⊕◌ : Part → Part → Part
◌⊕◌ (a, xs) (b, ys) = (a + b, xs ++ ys)

-- 2. Runtime and admission factors.
unfoldable pub runtime_part : CorrelatedCluster → Part
unfolding flags lower
runtime_part c =
    let f = flags no_flags c.runtime_events in
    ◌⊕◌
      (part_if f.credential_access (
        factor_of "threatguard" "credential_access" (100 * points 40)
          "ServiceAccount token or sensitive credentials accessed by unauthorized process"))
      (◌⊕◌
        (part_if f.shell_exec (
          factor_of "threatguard" "runtime_shell_execution" (100 * points 25)
            "Interactive shell spawned inside container (MITRE T1059.004)"))
        (◌⊕◌
          (part_if f.egress (
            factor_of "threatguard" "external_network_egress" (100 * points 15)
              "Outbound network socket opened to external IP (potential exfiltration)"))
          (part_if (not (is_empty c.admission_events)) (
            factor_of "threatguard" "admission_policy_violation" (100 * points 10)
              "Workload violates pod security standards (OPA Gatekeeper constraint)"))))

-- 3. The cross-domain amplifier, for a number of factors so far.
unfoldable pub amplifier_part : CorrelatedCluster → ℕ → Part
amplifier_part c count = part_if (is_cross c && leb 2 count) (
    factor_of "context" "cross_domain_kill_chain_correlation" (100 * points 10)
      "Active multi-stage progression from cloud identity to running container exploit")

unfoldable pub severity_of : ℕ → Severity
severity_of score =
    if leb (100 * points 85) score
    then critical
    else if leb (100 * points 65) score
    then high
    else if leb (100 * points 40) score
    then medium
    else low

unfoldable pub urgency_of : Severity → String
urgency_of critical = "P1-Immediate"
urgency_of high = "P2-Urgent"
urgency_of medium = "P3-Standard"
urgency_of low = "P4-Low"

module _ (rounding : Rounding) where
  open rounding use {round1}

  abbrev pub iam_factor : String → ℕ → String → Part
  iam_factor name contribution text =
      (contribution, factor_of "cloudgraphguard" name (round1 contribution) text ∷ [])

  -- The loop over the cloud events, which breaks at the first event of either kind. `first_score` is
  -- the score of the first event, for the fallback after the loop.
  unfoldable pub iam_loop : ℕ → List UnifiedSecurityEvent → Part
  iam_loop first_score [] =
      iam_factor "iam_excessive_permission" (min (100 * points 25) (first_score * 30))
        "Cloud IAM principal possesses elevated cloud access"
  iam_loop first_score (ev ∷ events) =
      let rest = iam_loop first_score events in
      if is_escalation ev
      then iam_factor "iam_privilege_escalation" (min (100 * points 35) (ev.risk_score * 40))
          "Cloud IAM principal possesses privilege escalation path (e.g. PassRole)"
      else if is_wildcard ev
      then iam_factor "iam_wildcard_permission" (min (100 * points 30) (ev.risk_score * 35))
          "Cloud IAM principal has administrative wildcard permissions (*)"
      else rest

  -- 1. IAM factors.
  unfoldable pub iam_part : List UnifiedSecurityEvent → Part
  unfolding iam_loop
  iam_part [] = (0, [])
  iam_part (ev ∷ events) = iam_loop ev.risk_score (ev ∷ events)

  unfoldable pub evaluate_cluster : CorrelatedCluster → UnifiedRiskAssessment
  unfolding iam_part runtime_part amplifier_part severity_of urgency_of
  evaluate_cluster c =
      let (iam, iam_factors) = iam_part c.iam_events in
      let (runtime, runtime_factors) = runtime_part c in
      let (amplifier, context) = amplifier_part c (length (iam_factors ++ runtime_factors)) in
      let total : ℕ = min (100 * points 100) (round1 (iam + runtime + amplifier)) in
      record {
        overall_score = total;
        severity = severity_of total;
        iam_subtotal = round1 iam;
        runtime_subtotal = round1 runtime;
        factors = (iam_factors ++ runtime_factors) ++ context;
        remediation_urgency = urgency_of (severity_of total);
        calculation_formula =
            "overall_score = min(100.0, sum(IAM_Factors) + sum(Runtime_Factors) + KillChain_Amplifier)";
      }

-- ===== src/CrossDomain/Adapters/CloudGraphGuard.antt =====
-- `CloudGraphGuardAdapter` of src/cloudnative_threatguard/correlation/cross_domain/adapters/cgg_adapter.py. The
-- finding's id, and the id and the time of the new event, are arguments.
use cloud_native_threat_guar.Prelude.{
  ℕ, String, Option, none, some, List, [], ◌∷◌, is_empty, if◌then◌else◌,
}
use cloud_native_threat_guar.Prelude.Points.{points}
use cloud_native_threat_guar.Prelude.Int.{pos}
use cloud_native_threat_guar.Prelude.Json.{str, arr, Fields, end, field, set_field}
use cloud_native_threat_guar.Prelude.Python.{PyError}
use cloud_native_threat_guar.Prelude.Result.{Result, ok, ◌>>=◌}
use cloud_native_threat_guar.Prelude.Text.{lower, truthy, member}
use cloud_native_threat_guar.CloudGraph.Iam.{
  FindingType, iam_privilege_escalation, iam_excessive_permission, iam_wildcard_permission,
  iam_cross_account_trust, iam_sensitive_resource_access, iam_attack_path, IamFinding,
}
use cloud_native_threat_guar.CloudGraph.Escalation.{vector_value}
use cloud_native_threat_guar.CrossDomain.Event.{
  cloudgraphguard, iam_risk, aws, Severity, low, medium, high, critical, UnifiedSecurityEvent,
}
use cloud_native_threat_guar.CrossDomain.Adapters.{validated, texts}

abbrev pub finding_type_value : FindingType → String
finding_type_value iam_privilege_escalation = "IAM_PRIVILEGE_ESCALATION"
finding_type_value iam_excessive_permission = "IAM_EXCESSIVE_PERMISSION"
finding_type_value iam_wildcard_permission = "IAM_WILDCARD_PERMISSION"
finding_type_value iam_cross_account_trust = "IAM_CROSS_ACCOUNT_TRUST"
finding_type_value iam_sensitive_resource_access = "IAM_SENSITIVE_RESOURCE_ACCESS"
finding_type_value iam_attack_path = "IAM_ATTACK_PATH"

unfoldable pub severity_of : String → Severity
unfolding lower
severity_of severity =
    let sev = lower severity in
    if member sev ("critical" ∷ "crit" ∷ [])
    then critical
    else if member sev ("high" ∷ [])
    then high
    else if member sev ("medium" ∷ "med" ∷ [])
    then medium
    else low

abbrev pub head : List String → Option String
head [] = none
head (s ∷ ss) = some s

-- The escalation vector's action, or the first effective action.
unfoldable pub action_of : IamFinding → Option String
action_of finding = elim finding.escalation_vector [
  | some vector ↦ some (vector_value vector)
  | none ↦ head finding.effective_actions
]

abbrev pub set_texts : String → List String → Fields → Fields
set_texts key ss evidence =
    if is_empty ss then evidence else set_field evidence key (arr (texts ss))

abbrev pub set_text : String → Option String → Fields → Fields
set_text key none evidence = evidence
set_text key (some s) evidence = if truthy s then set_field evidence key (str s) else evidence

unfoldable pub evidence_of : IamFinding → Fields
unfolding set_field texts
evidence_of finding = set_texts "effective_actions" finding.effective_actions (
    set_text "remediation_suggestion" finding.remediation_suggestion
      (set_texts "attack_path" finding.attack_path finding.evidence))

unfoldable pub unified :
    (finding_id event_id timestamp : String) → IamFinding → ℕ → UnifiedSecurityEvent
unfolding action_of severity_of evidence_of
unified finding_id event_id timestamp finding risk_score = record {
  schema_version = "1.0";
  event_id = event_id;
  timestamp = timestamp;
  source = cloudgraphguard;
  event_type = iam_risk;
  provider = aws;
  cluster_id = none;
  account_id = some finding.account_id;
  principal_id = some finding.principal_name;
  principal_arn = some finding.principal_arn;
  role_arn = finding.target_role_arn;
  namespace = none;
  workload = none;
  pod = none;
  service_account = none;
  resource_id = none;
  resource_arn = finding.target_resource_arn;
  action = action_of finding;
  severity = severity_of finding.severity;
  risk_score = risk_score;
  confidence = 95;
  detection_rule = some (finding_type_value finding.finding_type);
  description = finding.description;
  evidence = evidence_of finding;
  metadata =
      field "original_finding_id" (str finding_id) (field "engine" (str "cloudgraphguard") end);
}

unfoldable pub to_unified_event :
    (finding_id event_id timestamp : String) → IamFinding → Result PyError UnifiedSecurityEvent
unfolding unified validated
to_unified_event finding_id event_id timestamp finding = do
  risk_score ← validated (points 100) (pos finding.risk_score)
  ok (unified finding_id event_id timestamp finding risk_score)

-- ===== src/CloudGraph/Escalation.antt =====
-- src/cloudnative_threatguard/cloudgraphguard/analysis/escalation.py: the privilege escalations
-- that the policies of a principal allow.
pub mod Vectors
use cloud_native_threat_guar.Prelude.{
  ℕ, String, Bool, true, false, not, ◌&&◌, ◌||◌, Option, none, some, List, [], ◌∷◌, ◌++◌, ◌==◌, ltb,
  all, if◌then◌else◌,
}
use cloud_native_threat_guar.Prelude.Points.{points}
use cloud_native_threat_guar.Prelude.Json.{Json, str, arr, Items, nil, cons, Fields, end, field}
use cloud_native_threat_guar.Prelude.Text.{lower, member, concat}
use cloud_native_threat_guar.CloudGraph.Iam.{
  IamPolicyStatement, IamPolicy, IamPrincipal, IamFinding, iam_privilege_escalation,
  iam_wildcard_permission, PrivilegeEscalationVector, pass_role, attach_user_policy,
  attach_role_policy, put_user_policy, put_role_policy, create_policy_version,
  set_default_policy_version, update_assume_role_policy, assume_role,
}

-- The `.value` of a vector.
abbrev pub vector_value : PrivilegeEscalationVector → String
vector_value pass_role = "iam:PassRole"
vector_value attach_user_policy = "iam:AttachUserPolicy"
vector_value attach_role_policy = "iam:AttachRolePolicy"
vector_value put_user_policy = "iam:PutUserPolicy"
vector_value put_role_policy = "iam:PutRolePolicy"
vector_value create_policy_version = "iam:CreatePolicyVersion"
vector_value set_default_policy_version = "iam:SetDefaultPolicyVersion"
vector_value update_assume_role_policy = "iam:UpdateAssumeRolePolicy"
vector_value assume_role = "sts:AssumeRole"

abbrev pub Signature : Type 0
Signature = PrivilegeEscalationVector × List String

abbrev pub escalation_signatures : List Signature
escalation_signatures =
    (pass_role, "iam:PassRole" ∷ "ec2:RunInstances" ∷ [])
    ∷ (attach_user_policy, "iam:AttachUserPolicy" ∷ [])
    ∷ (attach_role_policy, "iam:AttachRolePolicy" ∷ [])
    ∷ (put_user_policy, "iam:PutUserPolicy" ∷ [])
    ∷ (put_role_policy, "iam:PutRolePolicy" ∷ [])
    ∷ (create_policy_version, "iam:CreatePolicyVersion" ∷ [])
    ∷ (set_default_policy_version, "iam:SetDefaultPolicyVersion" ∷ [])
    ∷ (update_assume_role_policy, "iam:UpdateAssumeRolePolicy" ∷ [])
    ∷ (assume_role, "sts:AssumeRole" ∷ [])
    ∷ []

-- `all_actions.add(x)`: the set as a list with each member once.
abbrev pub add : List String → String → List String
add set x = if member x set then set else x ∷ set

unfoldable pub add_actions : List String → List String → List String
unfolding lower
add_actions set [] = set
add_actions set (action ∷ actions) = add_actions (add set (lower action)) actions

unfoldable pub add_statements : List String → List IamPolicyStatement → List String
unfolding add_actions
add_statements set [] = set
add_statements set (stmt ∷ statements) =
    add_statements (if stmt.effect == "Allow" then add_actions set stmt.actions else set) statements

unfoldable pub add_policies : List String → List IamPolicy → List String
unfolding add_statements
add_policies set [] = set
add_policies set (policy ∷ policies) = add_policies (add_statements set policy.statements) policies

abbrev pub is_assume_role : PrivilegeEscalationVector → Bool
is_assume_role assume_role = true
is_assume_role _ = false

abbrev pub texts : List String → Items
texts [] = nil
texts (s ∷ rest) = cons (str s) (texts rest)

unfoldable pub wildcard_finding : IamPrincipal → IamFinding
unfolding concat
wildcard_finding principal = record {
  finding_type = iam_wildcard_permission;
  title = concat ("Full Administrator Access Granted to " ∷ principal.name ∷ []);
  description =
      concat
        ("Principal " ∷ principal.arn ∷ " possesses administrative wildcard permissions (*)." ∷ []);
  severity = "critical";
  risk_score = points 95;
  principal_arn = principal.arn;
  principal_name = principal.name;
  account_id = principal.account_id;
  target_role_arn = none;
  target_resource_arn = none;
  escalation_vector = none;
  attack_path = [];
  effective_actions = "*" ∷ [];
  remediation_suggestion = some "Scope permissions using least-privilege policy templates.";
  evidence = end;
}

unfoldable pub vector_finding : IamPrincipal → Signature → IamFinding
unfolding concat
vector_finding principal (vector, sig_actions) =
    let score = if is_assume_role vector then 70 else 85 in
    record {
      finding_type = iam_privilege_escalation;
      title = concat ("IAM Privilege Escalation via " ∷ vector_value vector ∷ []);
      description = concat (
          "Principal "
          ∷ principal.name
          ∷ " can escalate privileges using vector "
          ∷ vector_value vector
          ∷ "."
          ∷ []);
      severity = if ltb score 85 then "high" else "critical";
      risk_score = points score;
      principal_arn = principal.arn;
      principal_name = principal.name;
      account_id = principal.account_id;
      target_role_arn = none;
      target_resource_arn = none;
      escalation_vector = some vector;
      attack_path = [];
      effective_actions = sig_actions;
      remediation_suggestion = some (
          concat
            ("Remove or constrain " ∷ vector_value vector ∷ " with resource ARN conditions." ∷ []));
      evidence =
          field "matched_actions" (arr (texts sig_actions))
            (field "vector" (str (vector_value vector)) end);
    }

unfoldable pub is_matched : List String → Signature → Bool
unfolding lower
is_matched all_actions (vector, sig_actions) =
    all (λ act. member (lower act) all_actions || member "*" all_actions) sig_actions

unfoldable pub vector_findings : IamPrincipal → List String → List Signature → List IamFinding
unfolding is_matched vector_finding
vector_findings principal all_actions [] = []
vector_findings principal all_actions (s ∷ signatures) =
    let rest = vector_findings principal all_actions signatures in
    if is_matched all_actions s then vector_finding principal s ∷ rest else rest

unfoldable pub analyze_principal : IamPrincipal → List IamFinding
unfolding add_policies wildcard_finding vector_findings
analyze_principal principal =
    let all_actions = add_policies [] (principal.attached_policies ++ principal.inline_policies) in
    (if member "*" all_actions || member "*:*" all_actions
      then wildcard_finding principal ∷ []
      else [])
    ++ vector_findings principal all_actions escalation_signatures

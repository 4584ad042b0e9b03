-- ===== src/CloudGraph/Iam.antt =====
-- src/cloudnative_threatguard/cloudgraphguard/models/iam.py and findings.py: principals with
-- their policies, and findings about them.
use cloud_native_threat_guar.Prelude.{ℕ, String, Bool, Option, List}
use cloud_native_threat_guar.Prelude.Dict.{Dict}
use cloud_native_threat_guar.Prelude.Json.{Fields}

pub data IamPrincipalType : Type 0 where
  user role group service federated : IamPrincipalType

pub record IamPolicyStatement : Type 0 where
  pub sid : Option String
  pub effect : String
  pub actions : List String
  pub resources : List String
  pub principals : List String
  pub conditions : Fields

pub record IamPolicy : Type 0 where
  pub policy_id : String
  pub name : String
  pub arn : String
  pub is_managed : Bool
  pub statements : List IamPolicyStatement

pub record IamPrincipal : Type 0 where
  pub name : String
  pub arn : String
  pub account_id : String
  pub principal_type : IamPrincipalType
  pub attached_policies : List IamPolicy
  pub inline_policies : List IamPolicy
  pub tags : Dict String

pub data FindingType : Type 0 where
  iam_privilege_escalation iam_excessive_permission iam_wildcard_permission iam_cross_account_trust
        iam_sensitive_resource_access iam_attack_path :
      FindingType

pub data PrivilegeEscalationVector : Type 0 where
  pass_role attach_user_policy attach_role_policy put_user_policy put_role_policy
        create_policy_version set_default_policy_version update_assume_role_policy assume_role :
      PrivilegeEscalationVector

-- `risk_score` is in the units of Prelude/Points. The random id and the time of a finding, which nothing reads,
-- are left out.
pub record IamFinding : Type 0 where
  pub finding_type : FindingType
  pub title : String
  pub description : String
  pub severity : String
  pub risk_score : ℕ
  pub principal_arn : String
  pub principal_name : String
  pub account_id : String
  pub target_role_arn : Option String
  pub target_resource_arn : Option String
  pub escalation_vector : Option PrivilegeEscalationVector
  pub attack_path : List String
  pub effective_actions : List String
  pub remediation_suggestion : Option String
  pub evidence : Fields

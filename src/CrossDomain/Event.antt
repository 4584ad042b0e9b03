-- ===== src/CrossDomain/Event.antt =====
-- src/cloudnative_threatguard/correlation/cross_domain/models/event.py: the normalized event.
use cloud_native_threat_guar.Prelude.{ℕ, String, Option, none, some, if◌then◌else◌}
use cloud_native_threat_guar.Prelude.Json.{Fields}
use cloud_native_threat_guar.Prelude.Text.{truthy}

pub data EventSource : Type 0 where
  cloudgraphguard threatguard : EventSource

pub data EventType : Type 0 where
  iam_risk runtime_detection admission_violation network_detection incident attack_simulation :
      EventType

pub data CloudProvider : Type 0 where
  aws kubernetes gcp azure : CloudProvider

pub data Severity : Type 0 where
  low medium high critical : Severity

-- `risk_score` is in the units of Prelude/Points, and `confidence` in hundredths.
pub record UnifiedSecurityEvent : Type 0 where
  pub schema_version : String
  pub event_id : String
  pub timestamp : String
  pub source : EventSource
  pub event_type : EventType
  pub provider : CloudProvider
  pub cluster_id : Option String
  pub account_id : Option String
  pub principal_id : Option String
  pub principal_arn : Option String
  pub role_arn : Option String
  pub namespace : Option String
  pub workload : Option String
  pub pod : Option String
  pub service_account : Option String
  pub resource_id : Option String
  pub resource_arn : Option String
  pub action : Option String
  pub severity : Severity
  pub risk_score : ℕ
  pub confidence : ℕ
  pub detection_rule : Option String
  pub description : String
  pub evidence : Fields
  pub metadata : Fields

-- `x or y` of optional texts: the first operand if it is there and not empty.
abbrev pub or_option : Option String → Option String → Option String
or_option none y = y
or_option (some s) y = if truthy s then some s else y

-- `x or "text"`
abbrev pub or_text : Option String → String → String
or_text none t = t
or_text (some s) t = if truthy s then s else t

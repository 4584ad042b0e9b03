-- ===== src/CrossDomain/Incident.antt =====
-- src/cloudnative_threatguard/correlation/cross_domain/models/incident.py: incidents made from
-- correlated clusters, and the manager that keeps them. The id of an incident is random and its
-- times are read from the clock: they are arguments.
pub mod Manager
pub mod Lifecycle
use cloud_native_threat_guar.Prelude.{
  ℕ, String, Bool, true, false, not, ◌&&◌, ◌||◌, Option, none, some, List, [], ◌∷◌, ◌++◌, eqb, leb,
  ltb, filter, is_empty, length, map, if◌then◌else◌,
}
use cloud_native_threat_guar.Prelude.Points.{points}
use cloud_native_threat_guar.Prelude.Dict
use cloud_native_threat_guar.Prelude.Dict.{Dict}
use cloud_native_threat_guar.Prelude.Json.{Json, null, str, Fields, find_field}
use cloud_native_threat_guar.Prelude.Result.{Result, ok, err}
use cloud_native_threat_guar.Prelude.Text.{truthy, contains, member, concat, last_part}
use cloud_native_threat_guar.CrossDomain.Event.{
  EventSource, EventType, Severity, medium, high, critical, UnifiedSecurityEvent, or_text,
}
use cloud_native_threat_guar.CrossDomain.Mapping.{MappingMechanism, IdentityBinding}
use cloud_native_threat_guar.CrossDomain.Engine.{
  Domain, k8s_runtime, Stage, CorrelatedAttackChain, CorrelatedCluster,
}

pub data IncidentStatus : Type 0 where
  new triaged investigating contained resolved : IncidentStatus

abbrev pub status_number : IncidentStatus → ℕ
status_number new = 0
status_number triaged = 1
status_number investigating = 2
status_number contained = 3
status_number resolved = 4

-- `a == b`
abbrev pub same_status : IncidentStatus → IncidentStatus → Bool
same_status a b = eqb (status_number a) (status_number b)

pub record RemediationProposal : Type 0 where
  pub domain : String
  pub title : String
  pub target : String
  pub action : String
  pub dry_run_command : String
  pub rationale : String
  pub is_dry_run_only : Bool

pub record ContributingFinding : Type 0 where
  pub event_id : String
  pub source : EventSource
  pub event_type : EventType
  pub severity : Severity
  pub detection_rule : Option String
  pub technique : Option String
  pub evidence : Fields

-- The dicts of contexts and of counts, as records; a key that is not set is `none`.
pub record CloudContext : Type 0 where
  pub provider : Option String
  pub role : Option String
  pub mechanism : Option MappingMechanism
  pub principal : Option String

pub record K8sContext : Type 0 where
  pub cluster : String
  pub namespace : String
  pub workload : Option String
  pub service_account : String

pub record EvidenceSummary : Type 0 where
  pub iam_events_count : ℕ
  pub runtime_events_count : ℕ
  pub admission_events_count : ℕ

pub record CrossDomainIncident : Type 0 where
  pub incident_id : String
  pub title : String
  pub severity : Severity
  pub status : IncidentStatus
  pub risk_score : ℕ
  pub created_at : String
  pub updated_at : String
  pub attack_chain : List String
  pub source_event_ids : List String
  pub evidence_summary : EvidenceSummary
  pub contributing_findings : List ContributingFinding
  pub cloud_context : CloudContext
  pub k8s_context : Option K8sContext
  pub remediation_proposals : List RemediationProposal

-- The exception of pydantic for a value that is not of the declared type, or out of its range.
pub data ValidationError : Type 0 where
  validation_error : ValidationError

-- `risk_score` is declared `Field(ge=0.0, le=100.0)`.
abbrev pub is_valid_risk : ℕ → Bool
is_valid_risk risk = leb risk (points 100)

-- `technique` is declared `str | None`.
unfoldable pub technique_of : Option Json → Result ValidationError (Option String)
technique_of none = ok none
technique_of (some null) = ok none
technique_of (some (str s)) = ok (some s)
technique_of (some _) = err validation_error

abbrev pub finding : UnifiedSecurityEvent → Option String → ContributingFinding
finding event technique = record {
  event_id = event.event_id;
  source = event.source;
  event_type = event.event_type;
  severity = event.severity;
  detection_rule = event.detection_rule;
  technique = technique;
  evidence = event.evidence;
}

unfoldable pub from_event : UnifiedSecurityEvent → Result ValidationError ContributingFinding
unfolding technique_of find_field
from_event event = elim (technique_of (find_field event.evidence "mitre_technique")) [
  | err e ↦ err e
  | ok technique ↦ ok (finding event technique)
]

unfoldable pub from_events :
    List UnifiedSecurityEvent → Result ValidationError (List ContributingFinding)
unfolding from_event
from_events [] = ok []
from_events (event ∷ events) =
    let rest = from_events events in
    elim (from_event event) [
      | err e ↦ err e
      | ok f ↦ elim rest [ err e ↦ err e | ok fs ↦ ok (f ∷ fs) ]
    ]

-- A cluster without a chain has 75 points.
abbrev pub risk_of : Option CorrelatedAttackChain → ℕ
risk_of none = points 75
risk_of (some chain) = chain.composite_risk

unfoldable pub severity_for : ℕ → Severity
severity_for risk =
    if leb (points 85) risk then critical else if ltb risk (points 50) then medium else high

abbrev pub step_if : Option String → (String → String) → List String
step_if none f = []
step_if (some s) f = if truthy s then f s ∷ [] else []

-- `act.split(":")[-1] if ":" in act else act`; without a colon the last part is the whole text.
abbrev pub clean_action : Option String → String
clean_action none = ""
clean_action (some act) = last_part 58 act

abbrev pub is_runtime : Domain → Bool
is_runtime k8s_runtime = true
is_runtime _ = false

-- The loop over the stages appends the runtime actions that are not there yet.
unfoldable pub add_actions : List String → List Stage → List String
unfolding last_part
add_actions steps [] = steps
add_actions steps (st ∷ stages) =
    let act = clean_action st.action in
    add_actions
      (if is_runtime st.domain && not (member act steps) then steps ++ act ∷ [] else steps) stages

unfoldable pub chain_steps : Option CorrelatedAttackChain → List String
unfolding add_actions last_part
chain_steps none = []
chain_steps (some chain) =
    add_actions
      (step_if chain.cloud_principal (last_part 47)
        ++ (step_if chain.cloud_role (last_part 47)
            ++ (step_if chain.kubernetes_cluster (λ c. "EKS")
                ++ (step_if chain.service_account (λ s. s)
                    ++ step_if chain.kubernetes_workload (λ w. w)))))
      chain.stages

-- ===== src/CrossDomain/Incident/Manager.antt =====
-- `UnifiedIncidentManager` of models/incident.py. Its dict of incidents is the state; a status
-- update, which the code makes in the shared object, is made in the dict.
use cloud_native_threat_guar.Prelude.{
  String, Bool, true, false, not, ◌&&◌, Option, none, some, List, [], ◌∷◌, ◌++◌, filter, is_empty,
  length, map, if◌then◌else◌,
}
use cloud_native_threat_guar.Prelude.Dict
use cloud_native_threat_guar.Prelude.Dict.{Dict}
use cloud_native_threat_guar.Prelude.Result.{Result, ok, err}
use cloud_native_threat_guar.Prelude.Text.{truthy, contains, concat}
use cloud_native_threat_guar.CrossDomain.Event.{UnifiedSecurityEvent, or_text}
use cloud_native_threat_guar.CrossDomain.Mapping.{IdentityBinding}
use cloud_native_threat_guar.CrossDomain.Engine.{CorrelatedCluster}
use cloud_native_threat_guar.CrossDomain.Incident.{
  IncidentStatus, new, same_status, RemediationProposal, CloudContext, K8sContext,
  CrossDomainIncident, ValidationError, validation_error, is_valid_risk, ContributingFinding,
  from_events, risk_of, severity_for, chain_steps,
}

abbrev pub UnifiedIncidentManager : Type 0
UnifiedIncidentManager = Dict CrossDomainIncident

abbrev pub is_pass_role : UnifiedSecurityEvent → Bool
is_pass_role ev = elim ev.action [
  | none ↦ false
  | some action ↦ truthy action && contains action "PassRole"
]

-- The loop over the cloud events stops at the first one that passes a role.
unfoldable pub pass_role_proposals : List UnifiedSecurityEvent → List RemediationProposal
pass_role_proposals [] = []
pass_role_proposals (ev ∷ events) =
    let rest = pass_role_proposals events in
    if is_pass_role ev
    then record {
      domain = "CLOUD_IAM";
      title = "Constrain IAM PassRole Delegation";
      target = or_text ev.principal_arn "IAM Principal";
      action = "Remove wildcard iam:PassRole and restrict to explicit resource ARNs";
      dry_run_command = "aws iam get-user-policy --user-name <name> --policy-name <policy>";
      rationale = "Prevents arbitrary privilege escalation into compute service roles.";
      is_dry_run_only = true;
    }
      ∷ []
    else rest

abbrev pub boundary_proposal : CloudContext → RemediationProposal
boundary_proposal context = record {
  domain = "CLOUD_IAM";
  title = "Enforce Least Privilege IAM Boundary";
  target = elim context.role [ none ↦ "Target Role" | some role ↦ role ];
  action = "Apply permission boundary limiting administrative API actions";
  dry_run_command =
      "aws iam put-role-permissions-boundary --role-name <name> --permissions-boundary <arn>";
  rationale = "Restricts blast radius of assumed cloud roles.";
  is_dry_run_only = true;
}

unfoldable pub cloud_proposals : CloudContext → List UnifiedSecurityEvent → List RemediationProposal
unfolding pass_role_proposals
cloud_proposals context [] = []
cloud_proposals context (ev ∷ events) =
    let proposals = pass_role_proposals (ev ∷ events) in
    if is_empty proposals then boundary_proposal context ∷ [] else proposals

unfoldable pub isolation_proposal : String → String → RemediationProposal
unfolding concat
isolation_proposal ns target_pod = record {
  domain = "KUBERNETES_RUNTIME";
  title = "Isolate Compromised Pod via NetworkPolicy";
  target = concat (ns ∷ "/" ∷ target_pod ∷ []);
  action = "Apply zero-trust default-deny NetworkPolicy isolating workload egress";
  dry_run_command = concat (
      "kubectl label pod " ∷ target_pod ∷ " -n " ∷ ns
      ∷ " security.threatguard.io/quarantine=true --dry-run=client" ∷ []);
  rationale = "Halts lateral movement and token exfiltration immediately.";
  is_dry_run_only = true;
}

unfoldable pub runtime_proposals :
    Option IdentityBinding → List UnifiedSecurityEvent → List RemediationProposal
unfolding isolation_proposal
runtime_proposals binding [] = []
runtime_proposals binding (ev ∷ events) =
    isolation_proposal (elim binding [ none ↦ "threatguard" | some b ↦ b.namespace ])
      (or_text ev.pod "target-pod")
    ∷ []

abbrev pub first_principal : List UnifiedSecurityEvent → Option String
first_principal [] = none
first_principal (ev ∷ events) = elim ev.principal_arn [
  | none ↦ none
  | some arn ↦ if truthy arn then some arn else none
]

abbrev pub cloud_context_of : Option IdentityBinding → Option String → CloudContext
cloud_context_of none principal = record {
  provider = none;
  role = none;
  mechanism = none;
  principal = principal;
}
cloud_context_of (some b) principal = record {
  provider = some b.cloud_provider;
  role = some b.cloud_identity;
  mechanism = some b.mapping_mechanism;
  principal = principal;
}

abbrev pub k8s_context_of : Option IdentityBinding → Option K8sContext
k8s_context_of none = none
k8s_context_of (some b) = some (record {
  cluster = b.cluster;
  namespace = b.namespace;
  workload = b.workload;
  service_account = b.service_account;
})

-- `cluster.iam_events + cluster.runtime_events + cluster.admission_events`
abbrev pub source_events : CorrelatedCluster → List UnifiedSecurityEvent
source_events c = c.iam_events ++ (c.runtime_events ++ c.admission_events)

abbrev pub incident_of :
    (incident_id now : String) → CorrelatedCluster → List ContributingFinding → CrossDomainIncident
incident_of incident_id now c findings =
    let risk = risk_of c.attack_chain in
    let context = cloud_context_of c.binding (first_principal c.iam_events) in
    record {
      incident_id = incident_id;
      title =
          if not (is_empty c.iam_events) && not (is_empty c.runtime_events)
          then "Potential Cloud Identity to Kubernetes Credential Compromise"
          else "Kubernetes Security Threat Incident";
      severity = severity_for risk;
      status = new;
      risk_score = risk;
      created_at = now;
      updated_at = now;
      attack_chain = chain_steps c.attack_chain;
      source_event_ids = map (λ ev. ev.event_id) (source_events c);
      evidence_summary = record {
        iam_events_count = length c.iam_events;
        runtime_events_count = length c.runtime_events;
        admission_events_count = length c.admission_events;
      };
      contributing_findings = findings;
      cloud_context = context;
      k8s_context = k8s_context_of c.binding;
      remediation_proposals =
          cloud_proposals context c.iam_events ++ runtime_proposals c.binding c.runtime_events;
    }

unfoldable pub register : UnifiedIncidentManager → CrossDomainIncident → UnifiedIncidentManager
unfolding Dict.put
register manager incident = Dict.put manager incident.incident_id incident

unfoldable pub create_from_cluster :
    (incident_id now : String)
    → UnifiedIncidentManager
    → CorrelatedCluster
    → Result ValidationError (CrossDomainIncident × UnifiedIncidentManager)
unfolding from_events severity_for chain_steps cloud_proposals runtime_proposals register
create_from_cluster incident_id now manager c = elim (from_events (source_events c)) [
  | err e ↦ err e
  | ok findings ↦
      if is_valid_risk (risk_of c.attack_chain)
      then ok (
        incident_of incident_id now c findings,
        register manager (incident_of incident_id now c findings),
      )
      else err validation_error
]

unfoldable pub get_incident : UnifiedIncidentManager → String → Option CrossDomainIncident
unfolding Dict.get
get_incident manager incident_id = Dict.get manager incident_id

unfoldable pub list_incidents :
    UnifiedIncidentManager → Option IncidentStatus → List CrossDomainIncident
unfolding Dict.values
list_incidents manager none = Dict.values manager
list_incidents manager (some status) =
    filter (λ i. same_status i.status status) (Dict.values manager)

unfoldable pub update_status :
    (now : String)
    → UnifiedIncidentManager
    → String
    → IncidentStatus
    → Bool × UnifiedIncidentManager
unfolding Dict.get Dict.put
update_status now manager incident_id new_status = elim (Dict.get manager incident_id) [
  | none ↦ (false, manager)
  | some inc ↦
      (true, Dict.put manager incident_id (record inc { status = new_status; updated_at = now }))
]

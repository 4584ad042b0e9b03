-- ===== src/CrossDomain/Engine/Chain.antt =====
-- `_build_attack_chain` of correlation_engine.py: the stages of a cluster, in the order cloud, transition,
-- admission, runtime.
pub mod Order
use cloud_native_threat_guar.Prelude.{
  ℕ, ◌+◌, String, Bool, true, false, not, ◌&&◌, ◌||◌, Option, none, some, List, [], ◌∷◌, ◌++◌,
  is_empty, length, leb, min, max, if◌then◌else◌,
}
use cloud_native_threat_guar.Prelude.Points.{points, round_tenth}
use cloud_native_threat_guar.Prelude.Sort.{sort_by}
use cloud_native_threat_guar.Prelude.Text.{truthy, concat}
use cloud_native_threat_guar.CrossDomain.Event.{high, UnifiedSecurityEvent, or_option, or_text}
use cloud_native_threat_guar.CrossDomain.Mapping.{MappingMechanism, IdentityBinding}
use cloud_native_threat_guar.CrossDomain.Engine.{
  Domain, cloud_iam, eks_access_transition, k8s_admission, k8s_runtime, Stage,
  CorrelatedAttackChain, CorrelatedCluster,
}

abbrev pub is_text : Option String → Bool
is_text none = false
is_text (some s) = truthy s

-- The local variables `stages`, `event_ids` and `scores`.
pub record Building : Type 0 where
  pub stages : List Stage
  pub event_ids : List String
  pub scores : List ℕ

abbrev pub nothing_built : Building
nothing_built = record { stages = []; event_ids = []; scores = [] }

-- `len(stages) + 1` is the number of the new stage.
abbrev pub add_stage : (ℕ → Stage) → List Stage → List Stage
add_stage stage stages = stages ++ stage (length stages + 1) ∷ []

unfoldable pub add_events :
    (UnifiedSecurityEvent → ℕ → Stage) → Building → List UnifiedSecurityEvent → Building
add_events stage b [] = b
add_events stage b (ev ∷ events) =
    add_events stage
      (record {
        stages = add_stage (stage ev) b.stages;
        event_ids = b.event_ids ++ ev.event_id ∷ [];
        scores = b.scores ++ ev.risk_score ∷ [];
      })
      events

-- The updates of `principal` and of `workload` in the loops: a value that is missing or empty is
-- replaced by the first one that is not.
unfoldable pub fill :
    (UnifiedSecurityEvent → Option String)
    → Option String
    → List UnifiedSecurityEvent
    → Option String
fill field value [] = value
fill field value (ev ∷ events) =
    fill field (if not (is_text value) && is_text (field ev) then field ev else value) events

abbrev pub iam_stage : UnifiedSecurityEvent → ℕ → Stage
iam_stage ev n = record {
  step = n;
  domain = cloud_iam;
  event_id = some ev.event_id;
  mechanism = none;
  action = some (or_text ev.action "IAM Access");
  entity = or_option ev.principal_arn ev.principal_id;
  description = ev.description;
  severity = ev.severity;
}

abbrev pub admission_stage : UnifiedSecurityEvent → ℕ → Stage
admission_stage ev n = record {
  step = n;
  domain = k8s_admission;
  event_id = some ev.event_id;
  mechanism = none;
  action = some (or_text ev.action "admission_blocked");
  entity = or_option ev.pod ev.workload;
  description = ev.description;
  severity = ev.severity;
}

abbrev pub runtime_stage : UnifiedSecurityEvent → ℕ → Stage
runtime_stage ev n = record {
  step = n;
  domain = k8s_runtime;
  event_id = some ev.event_id;
  mechanism = none;
  action = some (or_text ev.action "runtime_activity");
  entity = or_option ev.pod ev.workload;
  description = ev.description;
  severity = ev.severity;
}

unfoldable pub max_score : List ℕ → ℕ
max_score [] = 0
max_score (s ∷ scores) = max s (max_score scores)

abbrev pub is_cross : CorrelatedCluster → Bool
is_cross c =
    not (is_empty c.iam_events)
    && (not (is_empty c.runtime_events) || not (is_empty c.admission_events))

unfoldable pub composite_of : Bool → ℕ → List ℕ → ℕ
unfolding max_score round_tenth
composite_of cross stages scores = round_tenth (
    if cross && leb 3 stages
    then min (points 100) (max_score scores + points 5)
    else max_score scores)

abbrev pub first_pod : List UnifiedSecurityEvent → Option String
first_pod [] = none
first_pod (ev ∷ events) = ev.pod

abbrev pub of_binding {ℓ} :
    {A : Type ℓ} → Option IdentityBinding → (IdentityBinding → Option A) → Option A
of_binding none f = none
of_binding (some b) f = f b

-- `format_mechanism` is Python's formatting of the enum in an f-string, which depends on the version.
module _ (format_mechanism : MappingMechanism → String) where
  transition_stage : IdentityBinding → ℕ → Stage
  transition_stage b n = record {
    step = n;
    domain = eks_access_transition;
    event_id = none;
    mechanism = some b.mapping_mechanism;
    action = none;
    entity = some (concat (b.cloud_identity ∷ " -> " ∷ b.namespace ∷ "/" ∷ b.service_account ∷ []));
    description = concat (
        "Cloud IAM identity assumed access to Kubernetes ServiceAccount via "
        ∷ format_mechanism b.mapping_mechanism
        ∷ []);
    severity = high;
  }

  -- Stage 2 stands only in a cluster with a binding, cloud events and events of the cluster.
  add_transition : CorrelatedCluster → Option IdentityBinding → Building → Building
  add_transition c none b = b
  add_transition c (some binding) b =
      if is_cross c then record b { stages = add_stage (transition_stage binding) b.stages } else b

  unfoldable pub build_stages : CorrelatedCluster → Building
  unfolding add_events add_transition transition_stage
  build_stages c =
      let cloud = add_events iam_stage nothing_built c.iam_events in
      let access = add_transition c c.binding cloud in
      let admitted = add_events admission_stage access c.admission_events in
      add_events runtime_stage admitted (sort_by (λ ev. ev.timestamp) c.runtime_events)

  unfoldable pub build_attack_chain : CorrelatedCluster → CorrelatedAttackChain
  unfolding build_stages fill composite_of
  build_attack_chain c =
      let b = build_stages c in
      record {
        title =
            if is_cross c
            then "Multi-Stage Cross-Domain Attack Chain"
            else "Kubernetes Workload Security Threat";
        cloud_principal = fill (λ ev. ev.principal_arn) none c.iam_events;
        cloud_role = of_binding c.binding (λ binding. some binding.cloud_identity);
        kubernetes_cluster = of_binding c.binding (λ binding. some binding.cluster);
        kubernetes_workload =
            fill (λ ev. ev.workload) (of_binding c.binding (λ binding. binding.workload))
              (sort_by (λ ev. ev.timestamp) c.runtime_events);
        kubernetes_pod = first_pod c.runtime_events;
        service_account = of_binding c.binding (λ binding. some binding.service_account);
        stages = b.stages;
        event_ids = b.event_ids;
        composite_risk = composite_of (is_cross c) (length b.stages) b.scores;
        is_cross_domain = is_cross c;
      }

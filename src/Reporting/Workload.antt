-- ===== src/Reporting/Workload.antt =====
-- src/cloudnative_threatguard/reporting/workload_resolver.py: the controller that owns a pod, and
-- the target of its remediation. The live client and the regular expressions, by the group `base` that a
-- match yields, are parameters. A reference of the owners is read at `kind` and `name` alone.
pub mod Target
use cloud_native_threat_guar.Prelude.{
  ℕ, String, Bool, true, false, not, ◌&&◌, ◌||◌, Option, none, some, List, [], ◌∷◌, ◌==◌, ltb,
  length, first, if◌then◌else◌,
}
use cloud_native_threat_guar.Prelude.Text.{truthy, member, concat, decimal}

pub record OwnerReference : Type 0 where
  pub kind : Option String
  pub name : Option String

pub record WorkloadRef : Type 0 where
  pub namespace : String
  pub pod_name : Option String
  pub owner_kind : Option String
  pub owner_name : Option String
  pub inferred_from : Option String
  pub requires_manual_remediation : Bool
  pub manual_reason : String
  pub live_lookup_status : Option String

-- `get_owner_references(namespace, kind, name)`
abbrev pub KubernetesOwnershipClient : Type 0
KubernetesOwnershipClient = String → String → String → Option (List OwnerReference)

abbrev pub is_filled : Option String → Bool
is_filled none = false
is_filled (some s) = truthy s

-- `_ROLLOUT_RESTART_SUPPORTED_KINDS.get(kind)`
unfoldable pub rollout_kind : String → Option String
rollout_kind kind =
    if kind == "Deployment"
    then some "deployment"
    else if kind == "StatefulSet"
    then some "statefulset"
    else if kind == "DaemonSet"
    then some "daemonset"
    else none

-- `kind in _ROLLOUT_RESTART_SUPPORTED_KINDS`
abbrev pub is_supported : String → Bool
is_supported kind = elim (rollout_kind kind) [ none ↦ false | some _ ↦ true ]

abbrev pub target_of : Option String → Option String → Option String
target_of (some kind) (some name) =
    if truthy kind && truthy name
    then elim (rollout_kind kind) [
      | none ↦ none
      | some resource ↦ some (concat (resource ∷ "/" ∷ name ∷ []))
    ]
    else none
target_of (some kind) none = none
target_of none name = none

unfoldable pub remediation_target : WorkloadRef → Option String
unfolding rollout_kind concat
remediation_target ref =
    if ref.requires_manual_remediation then none else target_of ref.owner_kind ref.owner_name

-- A reference that names no owner, or names the given one, and needs an operator.
abbrev pub manual :
    String → Option String → Option String → Option String → Option String → String → WorkloadRef
manual namespace pod_name kind name inferred_from reason = record {
  namespace = namespace;
  pod_name = pod_name;
  owner_kind = kind;
  owner_name = name;
  inferred_from = inferred_from;
  requires_manual_remediation = true;
  manual_reason = reason;
  live_lookup_status = none;
}

abbrev pub automatic : String → Option String → String → String → String → WorkloadRef
automatic namespace pod_name kind name inferred_from = record {
  namespace = namespace;
  pod_name = pod_name;
  owner_kind = some kind;
  owner_name = some name;
  inferred_from = some inferred_from;
  requires_manual_remediation = false;
  manual_reason = "";
  live_lookup_status = none;
}

abbrev pub is_deployment : OwnerReference → Bool
is_deployment o =
    elim o.kind [ none ↦ false | some kind ↦ kind == "Deployment" ] && is_filled o.name

-- `next((o for o in owner_refs if ...), None)`, and the name of that reference.
unfoldable pub deployment_name : List OwnerReference → Option String
deployment_name owner_refs = elim (first is_deployment owner_refs) [ none ↦ none | some o ↦ o.name ]

module _ (replicaset_base deployment_base statefulset_base : String → Option String)
    (kubernetes_client : Option KubernetesOwnershipClient) where
  abbrev live_deployment : String → String → Option String
  live_deployment namespace replicaset_name = elim kubernetes_client [
    | none ↦ none
    | some client ↦ elim (client namespace "ReplicaSet" replicaset_name) [
      | none ↦ none
      | some owner_refs ↦ deployment_name owner_refs
    ]
  ]

  -- `_resolve_replicaset_owner`
  unfoldable pub resolve_replicaset_owner : String → String → Option String × String
  unfolding deployment_name
  resolve_replicaset_owner namespace replicaset_name =
      elim (live_deployment namespace replicaset_name) [
        | none ↦ (replicaset_base replicaset_name, "naming_fallback")
        | some name ↦ (some name, "live_api")
      ]

  unfoldable pub resolve_replicaset : String → Option String → String → String → WorkloadRef
  unfolding resolve_replicaset_owner concat
  resolve_replicaset namespace pod_name owner_name inferred_from =
      let (found, method) = resolve_replicaset_owner namespace owner_name in
      let unresolved =
        manual namespace pod_name (some "ReplicaSet") (some owner_name) (some inferred_from) (
          concat (
            "Pod is owned by ReplicaSet '" ∷ owner_name
            ∷ "', but its owning Deployment could not be "
            ∷ "determined (no live cluster lookup available or it didn't resolve a Deployment owner, and "
            ∷ "the ReplicaSet's name doesn't match the expected '<deployment>-<hash>' shape)."
            ∷ [])) in
      elim found [
        | none ↦ unresolved
        | some name ↦
            if truthy name
            then automatic namespace pod_name "Deployment" name
                (if method == "live_api" then "live_api" else inferred_from)
            else unresolved
      ]

  unfoldable pub resolve_owner : String → Option String → String → String → String → WorkloadRef
  unfolding rollout_kind resolve_replicaset concat
  resolve_owner namespace pod_name kind name inferred_from =
      if member kind ("Job" ∷ "CronJob" ∷ [])
      then manual namespace pod_name (some kind) (some name) (some inferred_from) (
          concat (
            "Pod is owned by a " ∷ kind ∷ " ('" ∷ name ∷ "'), a run-to-completion workload; "
            ∷ "'kubectl rollout restart' is not a supported operation for it." ∷ []))
      else if kind == "ReplicaSet"
      then resolve_replicaset namespace pod_name name inferred_from
      else if is_supported kind
      then automatic namespace pod_name kind name inferred_from
      else manual namespace pod_name (some kind) (some name) (some inferred_from) (
          concat (
            "Owner kind '" ∷ kind ∷ "' is not one this engine knows how to remediate automatically."
            ∷ []))

  unfoldable pub resolve_single :
      String → Option String → Option String → Option String → String → WorkloadRef
  unfolding resolve_owner
  resolve_single namespace pod_name (some kind) (some name) inferred_from =
      if truthy kind && truthy name
      then resolve_owner namespace pod_name kind name inferred_from
      else manual namespace pod_name none none none
          "ownerReferences entry is missing 'kind' or 'name'."
  resolve_single namespace pod_name (some kind) none inferred_from =
      manual namespace pod_name none none none "ownerReferences entry is missing 'kind' or 'name'."
  resolve_single namespace pod_name none name inferred_from =
      manual namespace pod_name none none none "ownerReferences entry is missing 'kind' or 'name'."

  -- The references are `owner ∷ others`: the code calls this with a list that is not empty.
  unfoldable pub resolve_from_owner_references :
      String → Option String → OwnerReference → List OwnerReference → String → WorkloadRef
  unfolding resolve_single concat decimal
  resolve_from_owner_references namespace pod_name owner others inferred_from =
      if ltb 1 (length (owner ∷ others))
      then manual namespace pod_name none none none (
          concat (
            "Pod has "
            ∷ decimal (length (owner ∷ others))
            ∷ " ownerReferences; ownership is ambiguous and cannot be safely auto-resolved."
            ∷ []))
      else resolve_single namespace pod_name owner.kind owner.name inferred_from

  unfoldable pub by_pattern : String → String → WorkloadRef
  unfolding concat
  by_pattern namespace pod_name = elim (deployment_base pod_name) [
    | some base ↦ automatic namespace (some pod_name) "Deployment" base "pod_name_pattern"
    | none ↦ elim (statefulset_base pod_name) [
      | some base ↦ automatic namespace (some pod_name) "StatefulSet" base "pod_name_pattern"
      | none ↦ manual namespace (some pod_name) none none none (
          concat (
            "No owner reference metadata was available, and pod name '" ∷ pod_name
            ∷ "' does not match a recognized Deployment or StatefulSet naming pattern. Treating as a standalone "
            ∷ "Pod (or an owner kind, such as DaemonSet, that cannot be inferred safely from naming alone) "
            ∷ "rather than risk targeting the wrong resource." ∷ []))
    ]
  ]

  unfoldable pub resolve_via_naming_pattern : String → Option String → WorkloadRef
  unfolding by_pattern
  resolve_via_naming_pattern namespace none =
      manual namespace none none none none "No pod name or owner reference metadata available."
  resolve_via_naming_pattern namespace (some pod_name) =
      if truthy pod_name
      then by_pattern namespace pod_name
      else manual namespace (some pod_name) none none none
          "No pod name or owner reference metadata available."

  -- The answer of a live lookup of the pod.
  unfoldable pub resolve_live : String → Option String → Option (List OwnerReference) → WorkloadRef
  unfolding resolve_from_owner_references resolve_via_naming_pattern
  resolve_live namespace pod_name none = record (resolve_via_naming_pattern namespace pod_name) {
    live_lookup_status = some "failed";
  }
  resolve_live namespace pod_name (some []) =
      record (manual namespace pod_name none none (some "live_api")
        "Live Kubernetes lookup confirmed this Pod has no owner (standalone Pod).") {
          live_lookup_status = some "success";
        }
  resolve_live namespace pod_name (some (owner ∷ others)) =
      record (resolve_from_owner_references namespace pod_name owner others "live_api") {
        live_lookup_status = some "success";
      }

  abbrev pub lookup : String → Option String → KubernetesOwnershipClient → WorkloadRef
  lookup namespace none client = resolve_via_naming_pattern namespace none
  lookup namespace (some pod) client =
      if truthy pod
      then resolve_live namespace (some pod) (client namespace "Pod" pod)
      else resolve_via_naming_pattern namespace (some pod)

  unfoldable pub resolve_workload_owner : String → Option String → List OwnerReference → WorkloadRef
  unfolding resolve_from_owner_references resolve_via_naming_pattern resolve_live
  resolve_workload_owner namespace pod_name (owner ∷ others) =
      resolve_from_owner_references namespace pod_name owner others "owner_references"
  resolve_workload_owner namespace pod_name [] = elim kubernetes_client [
    | none ↦ resolve_via_naming_pattern namespace pod_name
    | some client ↦ lookup namespace pod_name client
  ]

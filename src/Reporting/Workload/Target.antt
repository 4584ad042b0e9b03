-- ===== src/Reporting/Workload/Target.antt =====
-- When workload_resolver.py names a remediation target, and what a live lookup changes.
use cloud_native_threat_guar.Prelude.{
  String, Bool, true, false, not, ◌&&◌, Option, none, some, List, [], ◌∷◌, ◌==◌, ◌≡◌, inl, inr,
  refl, subst, arith, ltb, length, Bool-cases, Option-cases, and→both, if◌then◌else◌,
}
use cloud_native_threat_guar.Prelude.Text.{truthy, member}
use cloud_native_threat_guar.Reporting.Workload.{
  OwnerReference, WorkloadRef, KubernetesOwnershipClient, rollout_kind, is_supported, lookup,
  remediation_target, manual, automatic, resolve_replicaset_owner, resolve_replicaset,
  resolve_owner, resolve_single, resolve_from_owner_references, by_pattern,
  resolve_via_naming_pattern, resolve_live, resolve_workload_owner,
}

abbrev pub is_there : Option String → Bool
is_there none = false
is_there (some s) = true

-- There is a target exactly if the remediation need not be manual.
abbrev pub IsDecided : WorkloadRef → Type 0
IsDecided ref = is_there (remediation_target ref) ≡ not ref.requires_manual_remediation

manual-IsDecided :
    (namespace : String) (pod kind name from : Option String) (reason : String)
    → IsDecided (manual namespace pod kind name from reason)
unfolding remediation_target
manual-IsDecided namespace pod kind name from reason = refl

false-true : {P : Type 0} → false ≡ true → P
false-true h = ground arith

automatic-IsDecided :
    (namespace : String) (pod : Option String) (kind name from : String)
    → is_supported kind ≡ true
    → truthy kind ≡ true
    → truthy name ≡ true
    → IsDecided (automatic namespace pod kind name from)
unfolding remediation_target
automatic-IsDecided namespace pod kind name from supported k n =
    elim (Option-cases (rollout_kind kind)) [
      | inl missing ↦
          false-true
            (subst (λ r. (elim r [ none ↦ false | some _ ↦ true ]) ≡ true) missing supported)
      | inr (r, there) ↦ rw (k, n, there) refl
    ]

module _ (replicaset_base deployment_base statefulset_base : String → Option String)
    (kubernetes_client : Option KubernetesOwnershipClient)
    (deployment_filled : (s base : String) → deployment_base s ≡ some base → truthy base ≡ true)
    (statefulset_filled : (s base : String)
      → statefulset_base s ≡ some base
      → truthy base ≡ true) where
  abbrev owner_ref : String → String → Option String × String
  owner_ref =
      resolve_replicaset_owner replicaset_base deployment_base statefulset_base kubernetes_client

  replicaset-IsDecided :
      (namespace : String) (pod : Option String) (name from : String)
      → IsDecided (
          resolve_replicaset replicaset_base deployment_base statefulset_base kubernetes_client
            namespace pod name from)
  unfolding resolve_replicaset rollout_kind remediation_target
  replicaset-IsDecided namespace pod name from = elim (Option-cases (owner_ref namespace name).0) [
    | inl missing ↦ rw (missing, resolve_replicaset) refl
    | inr (found, there) ↦ elim (Bool-cases (truthy found)) [
      | inl filled ↦
          rw (there, filled, resolve_replicaset)
            (automatic-IsDecided namespace pod "Deployment" found
              (if (owner_ref namespace name).1 == "live_api" then "live_api" else from) refl refl
              filled)
      | inr empty ↦ rw (there, empty, resolve_replicaset) refl
    ]
  ]

  owner-IsDecided :
      (namespace : String) (pod : Option String) (kind name from : String)
      → truthy kind ≡ true
      → truthy name ≡ true
      → IsDecided (
          resolve_owner replicaset_base deployment_base statefulset_base kubernetes_client namespace
            pod kind name from)
  unfolding resolve_owner remediation_target
  owner-IsDecided namespace pod kind name from k n =
      elim (Bool-cases (member kind ("Job" ∷ "CronJob" ∷ []))) [
        | inl job ↦ rw job refl
        | inr other ↦ elim (Bool-cases (kind == "ReplicaSet")) [
          | inl set ↦ rw (other, set) (replicaset-IsDecided namespace pod name from)
          | inr single ↦ elim (Bool-cases (is_supported kind)) [
            | inl supported ↦
                rw (other, single, supported)
                  (automatic-IsDecided namespace pod kind name from supported k n)
            | inr unsupported ↦ rw (other, single, unsupported) refl
          ]
        ]
      ]

  single-IsDecided :
      (namespace : String) (pod kind name : Option String) (from : String)
      → IsDecided (
          resolve_single replicaset_base deployment_base statefulset_base kubernetes_client
            namespace pod kind name from)
  unfolding resolve_single remediation_target
  single-IsDecided namespace pod none name from = refl
  single-IsDecided namespace pod (some kind) none from = refl
  single-IsDecided namespace pod (some kind) (some name) from =
      elim (Bool-cases (truthy kind && truthy name)) [
        | inl filled ↦
            let (k, n) = and→both (truthy kind) (truthy name) filled in
            rw filled (owner-IsDecided namespace pod kind name from k n)
        | inr empty ↦ rw empty refl
      ]

  references-IsDecided :
      (namespace : String) (pod : Option String) (owner : OwnerReference)
      (others : List OwnerReference) (from : String)
      → IsDecided (
          resolve_from_owner_references replicaset_base deployment_base statefulset_base
            kubernetes_client namespace pod owner others from)
  unfolding resolve_from_owner_references remediation_target
  references-IsDecided namespace pod owner others from =
      elim (Bool-cases (ltb 1 (length (owner ∷ others)))) [
        | inl many ↦ rw many refl
        | inr one ↦ rw one (single-IsDecided namespace pod owner.kind owner.name from)
      ]

  by_pattern-IsDecided :
      (namespace pod : String)
      → IsDecided (
          by_pattern replicaset_base deployment_base statefulset_base kubernetes_client namespace
            pod)
  unfolding by_pattern rollout_kind remediation_target
  by_pattern-IsDecided namespace pod = elim (Option-cases (deployment_base pod)) [
    | inl missing ↦ elim (Option-cases (statefulset_base pod)) [
      | inl missing' ↦ rw (missing, missing', by_pattern) refl
      | inr (base, there) ↦
          rw (missing, there, by_pattern)
            (automatic-IsDecided namespace (some pod) "StatefulSet" base "pod_name_pattern" refl
              refl (statefulset_filled pod base there))
    ]
    | inr (base, there) ↦
        rw (there, by_pattern)
          (automatic-IsDecided namespace (some pod) "Deployment" base "pod_name_pattern" refl refl
            (deployment_filled pod base there))
  ]

  naming-IsDecided :
      (namespace : String) (pod : Option String)
      → IsDecided (
          resolve_via_naming_pattern replicaset_base deployment_base statefulset_base
            kubernetes_client namespace pod)
  unfolding resolve_via_naming_pattern remediation_target
  naming-IsDecided namespace none = refl
  naming-IsDecided namespace (some pod) = elim (Bool-cases (truthy pod)) [
    | inl filled ↦ rw filled (by_pattern-IsDecided namespace pod)
    | inr empty ↦ rw empty refl
  ]

  live-IsDecided :
      (namespace : String) (pod : Option String) (answer : Option (List OwnerReference))
      → IsDecided (
          resolve_live replicaset_base deployment_base statefulset_base kubernetes_client namespace
            pod answer)
  unfolding resolve_live remediation_target
  live-IsDecided namespace pod none = naming-IsDecided namespace pod
  live-IsDecided namespace pod (some []) = refl
  live-IsDecided namespace pod (some (owner ∷ others)) =
      references-IsDecided namespace pod owner others "live_api"

  lookup-IsDecided :
      (namespace : String) (pod : Option String) (client : KubernetesOwnershipClient)
      → IsDecided (
          lookup replicaset_base deployment_base statefulset_base kubernetes_client namespace pod
            client)
  lookup-IsDecided namespace none client = naming-IsDecided namespace none
  lookup-IsDecided namespace (some pod) client = elim (Bool-cases (truthy pod)) [
    | inl filled ↦ rw filled (live-IsDecided namespace (some pod) (client namespace "Pod" pod))
    | inr empty ↦ rw empty (naming-IsDecided namespace (some pod))
  ]

  absent-IsDecided :
      (namespace : String) (pod : Option String) (client : Option KubernetesOwnershipClient)
      → IsDecided (elim client [
        | none ↦
            resolve_via_naming_pattern replicaset_base deployment_base statefulset_base
              kubernetes_client namespace pod
        | some c ↦
            lookup replicaset_base deployment_base statefulset_base kubernetes_client namespace pod
              c
      ])
  absent-IsDecided namespace pod none = naming-IsDecided namespace pod
  absent-IsDecided namespace pod (some client) = lookup-IsDecided namespace pod client

  -- Where the groups of both pod patterns are never empty, the resolver offers a remediation target
  -- exactly when it does not ask for a manual remediation, whatever the references given and whatever
  -- a live client answers.
  pub resolve_workload_owner_lem :
      (namespace : String) (pod : Option String) (references : List OwnerReference)
      → IsDecided (
          resolve_workload_owner replicaset_base deployment_base statefulset_base kubernetes_client
            namespace pod references)
  unfolding resolve_workload_owner
  resolve_workload_owner_lem namespace pod (owner ∷ others) =
      references-IsDecided namespace pod owner others "owner_references"
  resolve_workload_owner_lem namespace pod [] = absent-IsDecided namespace pod kubernetes_client

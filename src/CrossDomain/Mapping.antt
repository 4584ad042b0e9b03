-- ===== src/CrossDomain/Mapping.antt =====
-- src/cloudnative_threatguard/correlation/cross_domain/models/mapping.py: bindings of cloud identities to
-- Kubernetes identities, and their registry.
use cloud_native_threat_guar.Prelude.{
  String, Bool, false, ◌&&◌, Option, none, some, List, ◌==◌, filter,
}
use cloud_native_threat_guar.Prelude.Dict
use cloud_native_threat_guar.Prelude.Dict.{Dict}
use cloud_native_threat_guar.Prelude.Json.{Fields}
use cloud_native_threat_guar.Prelude.Text.{lower, truthy}

pub data MappingMechanism : Type 0 where
  eks_access_entry aws_auth_configmap irsa pod_identity workload_identity azure_workload_identity
        explicit_config :
      MappingMechanism

pub record IdentityBinding : Type 0 where
  pub binding_id : String
  pub cloud_provider : String
  pub cloud_identity : String
  pub cloud_identity_type : String
  pub cluster : String
  pub kubernetes_identity : String
  pub namespace : String
  pub service_account : String
  pub workload : Option String
  pub mapping_mechanism : MappingMechanism
  pub is_active : Bool
  pub metadata : Fields

abbrev pub IdentityMappingRegistry : Type 0
IdentityMappingRegistry = Dict IdentityBinding

unfoldable pub register : IdentityMappingRegistry → IdentityBinding → IdentityMappingRegistry
unfolding Dict.put
register reg binding = Dict.put reg binding.binding_id binding

unfoldable pub get_all : IdentityMappingRegistry → List IdentityBinding
unfolding Dict.values
get_all reg = Dict.values reg

unfoldable pub find_by_cloud_identity : IdentityMappingRegistry → String → List IdentityBinding
unfolding Dict.values lower
find_by_cloud_identity reg cloud_identity =
    filter (λ b. lower b.cloud_identity == lower cloud_identity) (Dict.values reg)

abbrev pub same_workload : Option String → String → Bool
same_workload none workload = false
same_workload (some w) workload = truthy w && (lower w == lower workload)

unfoldable pub find_by_k8s_workload :
    IdentityMappingRegistry → String → String → List IdentityBinding
unfolding Dict.values lower
find_by_k8s_workload reg namespace workload =
    filter (λ b. (lower b.namespace == lower namespace) && same_workload b.workload workload)
      (Dict.values reg)

unfoldable pub find_by_service_account :
    IdentityMappingRegistry → String → String → List IdentityBinding
unfolding Dict.values lower
find_by_service_account reg namespace service_account =
    filter
      (λ b.
        (lower b.namespace == lower namespace)
        && (lower b.service_account == lower service_account))
      (Dict.values reg)

-- ===== src/CrossDomain/Engine.antt =====
-- src/cloudnative_threatguard/correlation/cross_domain/engine/correlation_engine.py. The random
-- identifiers of chains and clusters, which nothing reads, are left out.
pub mod Chain
pub mod Ingest
pub mod Correlate
use cloud_native_threat_guar.Prelude.{
  ℕ, suc, ◌+◌, String, Bool, true, false, not, ◌&&◌, ◌||◌, Option, none, some, List, [], ◌∷◌, ◌++◌,
  ◌==◌, is_empty, length, any, leb, min, max, if◌then◌else◌,
}
use cloud_native_threat_guar.Prelude.Dict
use cloud_native_threat_guar.Prelude.Dict.{Dict}
use cloud_native_threat_guar.Prelude.Sort.{sort_by}
use cloud_native_threat_guar.Prelude.Text.{lower, truthy, member, concat}
use cloud_native_threat_guar.CrossDomain.Event.{
  EventSource, cloudgraphguard, threatguard, EventType, admission_violation, Severity, high,
  UnifiedSecurityEvent, or_option, or_text,
}
use cloud_native_threat_guar.CrossDomain.Mapping.{
  MappingMechanism, IdentityBinding, IdentityMappingRegistry, get_all,
}

pub data Domain : Type 0 where
  cloud_iam eks_access_transition k8s_admission k8s_runtime : Domain

-- A stage is a dict; a key that a domain's stages lack is `none`.
pub record Stage : Type 0 where
  pub step : ℕ
  pub domain : Domain
  pub event_id : Option String
  pub mechanism : Option MappingMechanism
  pub action : Option String
  pub entity : Option String
  pub description : String
  pub severity : Severity

pub record CorrelatedAttackChain : Type 0 where
  pub title : String
  pub cloud_principal : Option String
  pub cloud_role : Option String
  pub kubernetes_cluster : Option String
  pub kubernetes_workload : Option String
  pub kubernetes_pod : Option String
  pub service_account : Option String
  pub stages : List Stage
  pub event_ids : List String
  pub composite_risk : ℕ
  pub is_cross_domain : Bool

pub record CorrelatedCluster : Type 0 where
  pub binding : Option IdentityBinding
  pub iam_events : List UnifiedSecurityEvent
  pub runtime_events : List UnifiedSecurityEvent
  pub admission_events : List UnifiedSecurityEvent
  pub attack_chain : Option CorrelatedAttackChain

pub record CrossDomainCorrelationEngine : Type 0 where
  pub mapping_registry : IdentityMappingRegistry
  pub events : List UnifiedSecurityEvent
  pub seen_event_ids : List String

unfoldable pub ingest_event :
    CrossDomainCorrelationEngine → UnifiedSecurityEvent → Bool × CrossDomainCorrelationEngine
ingest_event engine event =
    if member event.event_id engine.seen_event_ids then (false, engine) else (
      true,
      record engine {
        seen_event_ids = event.event_id ∷ engine.seen_event_ids;
        events = engine.events ++ event ∷ [];
      },
    )

-- The count so far is passed along.
ingest_loop :
    ℕ → CrossDomainCorrelationEngine → List UnifiedSecurityEvent → ℕ × CrossDomainCorrelationEngine
ingest_loop count engine [] = (count, engine)
ingest_loop count engine (e ∷ events) =
    let (added, engine') = ingest_event engine e in
    ingest_loop (if added then suc count else count) engine' events

unfoldable pub ingest_events :
    CrossDomainCorrelationEngine → List UnifiedSecurityEvent → ℕ × CrossDomainCorrelationEngine
unfolding ingest_event ingest_loop
ingest_events engine events = ingest_loop 0 engine events

-- `index.setdefault(key, []).append(ev)`
unfoldable pub append_at :
    Dict (List UnifiedSecurityEvent)
    → String
    → UnifiedSecurityEvent
    → Dict (List UnifiedSecurityEvent)
unfolding Dict.get Dict.put
append_at index key ev = elim (Dict.get index key) [
  | none ↦ Dict.put index key (ev ∷ [])
  | some es ↦ Dict.put index key (es ++ ev ∷ [])
]

-- `index.get(key, [])`
abbrev pub events_at : Dict (List UnifiedSecurityEvent) → String → List UnifiedSecurityEvent
events_at index key = elim (Dict.get index key) [ none ↦ [] | some es ↦ es ]

pub record Index : Type 0 where
  pub iam_by_role : Dict (List UnifiedSecurityEvent)
  pub runtime_by_workload : Dict (List UnifiedSecurityEvent)
  pub admission_by_workload : Dict (List UnifiedSecurityEvent)

abbrev pub no_events : Index
no_events = record { iam_by_role = []; runtime_by_workload = []; admission_by_workload = [] }

abbrev pub role_key : UnifiedSecurityEvent → String
role_key ev =
    lower (or_text (or_option ev.role_arn (or_option ev.principal_arn ev.principal_id)) "")

abbrev pub workload_key : UnifiedSecurityEvent → String
workload_key ev = lower (or_text (or_option ev.workload ev.pod) "")

abbrev pub is_admission : EventType → Bool
is_admission admission_violation = true
is_admission _ = false

file_event : Index → UnifiedSecurityEvent → EventSource → Index
file_event index ev cloudgraphguard = record index {
  iam_by_role = append_at index.iam_by_role (role_key ev) ev;
}
file_event index ev threatguard =
    if is_admission ev.event_type
    then record index {
      admission_by_workload = append_at index.admission_by_workload (workload_key ev) ev;
    }
    else record index {
      runtime_by_workload = append_at index.runtime_by_workload (workload_key ev) ev;
    }

unfoldable pub index_events : Index → List UnifiedSecurityEvent → Index
unfolding append_at file_event
index_events index [] = index
index_events index (ev ∷ events) = index_events (file_event index ev ev.source) events

-- `(binding.workload or "").lower()`
abbrev pub binding_key : IdentityBinding → String
binding_key b = lower (or_text b.workload "")

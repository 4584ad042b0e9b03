-- ===== src/CrossDomain.antt =====
-- src/cloudnative_threatguard/correlation/cross_domain: events of the cloud and of the cluster in one
-- schema, their correlation over identity bindings, the scoring of the clusters, and the incidents.
pub mod Event
pub mod Mapping
pub mod Engine
pub mod Risk
pub mod Incident
pub mod Adapters

-- ===== src/Correlation.antt =====
-- src/cloudnative_threatguard/correlation/: the correlation within one cluster. The one across
-- domains, in correlation/cross_domain/, is the module CrossDomain.
pub mod Kubernetes

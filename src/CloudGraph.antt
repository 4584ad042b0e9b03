-- ===== src/CloudGraph.antt =====
-- src/cloudnative_threatguard/cloudgraphguard/: the analysis of cloud identities.
pub mod Iam
pub mod Escalation

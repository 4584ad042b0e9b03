-- ===== src/Reporting.antt =====
-- src/cloudnative_threatguard/reporting: risk scores, incidents and the security scorecard.
pub mod Factors
pub mod Risk
pub mod Workload
pub mod Incidents
pub mod Metrics
pub mod Scorecard

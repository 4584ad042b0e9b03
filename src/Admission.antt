-- ===== src/Admission.antt =====
-- src/cloudnative_threatguard/admission/: the checks of the admission policies.
pub mod LiveCheck
pub mod Validator

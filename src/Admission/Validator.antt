-- ===== src/Admission/Validator.antt =====
-- src/cloudnative_threatguard/admission/validator.py, `eval_policy` of admission/opa_client.py and `run_offline` of
-- admission/live_check.py: the manifests against the policies, without a cluster. A run of the OPA binary on
-- a package and a manifest is a parameter, which gives the exit code, the standard error and the violations
-- that it prints; `msg` is the message of a violation and `show_all` the text of a list of them. The negative
-- files are the sorted base names of the directory. The manifests are taken to be there and to be YAML.
pub mod Summary
pub mod Offline
use cloud_native_threat_guar.Prelude.{
  ℕ, String, Bool, true, false, not, ◌&&◌, Option, none, some, List, [], ◌∷◌, ◌++◌, eqb, map, any,
  count_if, length, is_empty, if◌then◌else◌,
}
use cloud_native_threat_guar.Prelude.Int.{ℤ, is_pos}
use cloud_native_threat_guar.Prelude.Result.{Result, ok, err, ◌>>=◌}
use cloud_native_threat_guar.Prelude.Dict
use cloud_native_threat_guar.Prelude.Dict.{Dict}
use cloud_native_threat_guar.Prelude.Text.{contains, concat, join, prefix}
use cloud_native_threat_guar.Admission.LiveCheck.{
  Row, Results, policy_denied, unexpectedly_allowed, allowed, positive_rejected, summarize,
}

abbrev pub policies : Dict (String × String)
policies =
    ("01-privileged-pod.yaml", ("k8sprivilegedcontainer", "privileged mode must be false"))
    ∷ ("02-hostpid-pod.yaml", ("k8shostnamespaces", "hostPID must be false"))
    ∷ (
      "03-docker-socket-mount.yaml",
      ("k8shostfilesystem", "mounting hostPath '/var/run/docker.sock' is strictly prohibited"),
    )
    ∷ ("04-root-user-pod.yaml", ("k8snonrootuser", "runAsNonRoot must be true"))
    ∷ (
      "05-allow-priv-escalation.yaml",
      ("k8sprivilegeescalation", "allowPrivilegeEscalation must be false"),
    )
    ∷ (
      "06-missing-drop-caps.yaml",
      ("k8sdropcapabilities", "capabilities.drop must explicitly include 'ALL'"),
    )
    ∷ (
      "07-missing-seccomp.yaml",
      ("k8sseccompprofile", "seccompProfile.type must be configured to 'RuntimeDefault'"),
    )
    ∷ ("08-writable-rootfs.yaml", ("k8sreadonlyrootfs", "readOnlyRootFilesystem must be true"))
    ∷ []

abbrev pub all_packages : List String
all_packages =
    "k8sprivilegedcontainer" ∷ "k8shostnamespaces" ∷ "k8shostfilesystem" ∷ "k8snonrootuser"
    ∷ "k8sprivilegeescalation" ∷ "k8sdropcapabilities" ∷ "k8sseccompprofile" ∷ "k8sreadonlyrootfs"
    ∷ []

pub record PolicyCheckResult : Type 0 where
  pub manifest : String
  pub policy_package : String
  pub blocked : Bool
  pub message_matched_expected : Bool
  pub violation_messages : List String

pub record ManifestValidationReport : Type 0 where
  pub positive_manifest : String
  pub positive_passed : Bool
  pub positive_failures : List String
  pub negative_results : List PolicyCheckResult

abbrev pub total_negative : ManifestValidationReport → ℕ
total_negative report = length report.negative_results

abbrev pub blocked_negative : ManifestValidationReport → ℕ
blocked_negative report = count_if (λ r. r.blocked) report.negative_results

unfoldable pub all_passed : ManifestValidationReport → Bool
all_passed report = report.positive_passed && eqb (blocked_negative report) (total_negative report)

abbrev pub positive_name : String
positive_name = "secure-workload.yaml"

abbrev pub as_expected : PolicyCheckResult → Bool
as_expected r = r.blocked && r.message_matched_expected

unfoldable pub offline_row : PolicyCheckResult → Row
unfolding prefix join
offline_row r = record {
  manifest = r.manifest;
  outcome = if as_expected r then policy_denied else unexpectedly_allowed;
  exit_code = none;
  constraint = some r.policy_package;
  detail = prefix 500 (join "; " r.violation_messages);
}

unfoldable pub offline_results : (rate : ℕ → ℕ → ℕ) → ManifestValidationReport → Results
unfolding offline_row summarize prefix join
offline_results rate report =
    summarize rate (map offline_row report.negative_results)
      (record {
        manifest = report.positive_manifest;
        outcome = if report.positive_passed then allowed else positive_rejected;
        exit_code = none;
        constraint = none;
        detail = prefix 500 (join "; " report.positive_failures);
      }
        ∷ [])
      "opa_offline_evaluation"

module _ (Violation : Type 0) (msg : Violation → String) (show_all : List Violation → String)
    (opa : (pkg manifest : String) → ℤ × (String × List Violation)) where
  -- `RuntimeError` with its text
  unfoldable pub eval_policy : (pkg manifest : String) → Result String (List Violation)
  unfolding concat
  eval_policy pkg manifest =
      let (returncode, (stderr, violations)) = opa pkg manifest in
      if is_pos returncode 0
      then ok violations
      else err (concat ("OPA eval error for package '" ∷ pkg ∷ "': " ∷ stderr ∷ []))

  abbrev pub with_failure : String → List Violation → List String → List String
  with_failure pkg [] failures = failures
  with_failure pkg (v ∷ violations) failures =
      concat (pkg ∷ ": " ∷ show_all (v ∷ violations) ∷ []) ∷ failures

  unfoldable pub failures_of : List String → Result String (List String)
  unfolding eval_policy concat
  failures_of [] = ok []
  failures_of (pkg ∷ packages) =
      let rest = failures_of packages in
      do
        violations ← eval_policy pkg positive_name
        failures ← rest
        ok (with_failure pkg violations failures)

  abbrev pub check_of : String → String × String → List Violation → PolicyCheckResult
  check_of manifest (pkg, expected) violations =
      let messages = map msg violations in
      record {
        manifest = manifest;
        policy_package = pkg;
        blocked = not (is_empty violations);
        message_matched_expected = any (λ m. contains m expected) messages;
        violation_messages = messages;
      }

  -- A manifest without a policy is passed over.
  abbrev pub add_check :
      String
      → Option (String × String)
      → Result String (List PolicyCheckResult)
      → Result String (List PolicyCheckResult)
  add_check manifest none rest = rest
  add_check manifest (some policy) rest = do
    violations ← eval_policy policy.0 manifest
    results ← rest
    ok (check_of manifest policy violations ∷ results)

  unfoldable pub checks_of : List String → Result String (List PolicyCheckResult)
  unfolding Dict.get eval_policy
  checks_of [] = ok []
  checks_of (manifest ∷ files) = add_check manifest (Dict.get policies manifest) (checks_of files)

  unfoldable pub validate_all :
      (negative_files : List String) → Result String ManifestValidationReport
  unfolding failures_of checks_of
  validate_all negative_files = do
    failures ← failures_of all_packages
    results ← checks_of negative_files
    ok (record {
      positive_manifest = positive_name;
      positive_passed = is_empty failures;
      positive_failures = failures;
      negative_results = results;
    })

  unfoldable pub run_offline :
      (rate : ℕ → ℕ → ℕ) (negative_files : List String) → Result String Results
  unfolding validate_all offline_results
  run_offline rate negative_files = do
    report ← validate_all negative_files
    ok (offline_results rate report)

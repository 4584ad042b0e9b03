-- ===== src/Admission/LiveCheck.antt =====
-- src/cloudnative_threatguard/admission/live_check.py: the verification that the cluster's
-- admission webhook denies the negative manifests and admits the positive ones. The runner of
-- kubectl, the search for the constraint's name by a regular expression and the rounded percentage
-- are parameters; the time and the id of the run, which nothing reads, are left out.
pub mod Verdict
use cloud_native_threat_guar.Prelude.{
  ℕ, ◌+◌, String, Bool, true, false, not, ◌&&◌, Option, none, some, List, [], ◌∷◌, ◌++◌, ◌==◌, eqb,
  map, count_if, length, is_empty, if◌then◌else◌,
}
use cloud_native_threat_guar.Prelude.Int.{ℤ, is_pos}
use cloud_native_threat_guar.Prelude.Text.{contains, prefix}

pub data Outcome : Type 0 where
  policy_denied unexpectedly_allowed execution_error allowed positive_rejected : Outcome

abbrev pub is_policy_denied : Outcome → Bool
is_policy_denied policy_denied = true
is_policy_denied _ = false

abbrev pub is_unexpectedly_allowed : Outcome → Bool
is_unexpectedly_allowed unexpectedly_allowed = true
is_unexpectedly_allowed _ = false

abbrev pub is_execution_error : Outcome → Bool
is_execution_error execution_error = true
is_execution_error _ = false

abbrev pub is_allowed : Outcome → Bool
is_allowed allowed = true
is_allowed _ = false

abbrev pub is_positive_rejected : Outcome → Bool
is_positive_rejected positive_rejected = true
is_positive_rejected _ = false

-- One row of `negative_results` or `positive_results`; a positive one has no constraint, and one of the
-- offline mode no exit code.
pub record Row : Type 0 where
  pub manifest : String
  pub outcome : Outcome
  pub exit_code : Option ℤ
  pub constraint : Option String
  pub detail : String

pub record Results : Type 0 where
  pub total : ℕ
  pub blocked : ℕ
  pub allowed_count : ℕ
  pub errors : ℕ
  pub enforcement_rate : ℕ
  pub positive_total : ℕ
  pub positive_allowed : ℕ
  pub positive_rejected_count : ℕ
  pub mode : String
  pub evidence_mode : String
  pub status : String
  pub negative_results : List Row
  pub positive_results : List Row

abbrev pub webhook_marker : String
webhook_marker = "admission webhook \"validation.gatekeeper.sh\" denied the request"

-- `find_constraint` is the group that `_CONSTRAINT_RE.search` finds.
abbrev pub extract_constraint : (find_constraint : String → Option String) → String → String
extract_constraint find_constraint output = elim (find_constraint output) [
  | none ↦ ""
  | some name ↦ name
]

unfoldable pub classify_negative : ℤ → String → Outcome
classify_negative returncode output =
    if is_pos returncode 0
    then unexpectedly_allowed
    else if contains output webhook_marker
    then policy_denied
    else execution_error

unfoldable pub classify_positive : ℤ → String → Outcome
classify_positive returncode output =
    if is_pos returncode 0
    then allowed
    else if contains output webhook_marker
    then positive_rejected
    else execution_error

abbrev pub count : (Outcome → Bool) → List Row → ℕ
count test rows = count_if (λ r. test r.outcome) rows

-- `rate blocked total` is `round(blocked / total * 100.0, 1)`, in tenths.
unfoldable pub summarize : (rate : ℕ → ℕ → ℕ) → List Row → List Row → String → Results
summarize rate negative positive mode =
    let total = length negative in
    let blocked = count is_policy_denied negative in
    let errors = count is_execution_error (negative ++ positive) in
    let positive_ok = count is_allowed positive in
    let complete = not (eqb total 0) && not (is_empty positive) in
    let passed =
      complete && (eqb blocked total && (eqb positive_ok (length positive) && eqb errors 0)) in
    record {
      total = total;
      blocked = blocked;
      allowed_count = count is_unexpectedly_allowed negative;
      errors = errors;
      enforcement_rate = if eqb total 0 then 0 else rate blocked total;
      positive_total = length positive;
      positive_allowed = positive_ok;
      positive_rejected_count = count is_positive_rejected positive;
      mode = mode;
      evidence_mode = if mode == "live_cluster_webhook" then "live" else "offline";
      status = if passed then "PASS" else "FAIL";
      negative_results = negative;
      positive_results = positive;
    }

-- The runner takes the path of the manifest that `kubectl apply --dry-run=server -f` is given.
abbrev pub Runner : Type 0
Runner = String → ℤ × String

unfoldable pub negative_row : Runner → (String → Option String) → String → Row
unfolding classify_negative prefix
negative_row runner find_constraint manifest =
    let (code, out) = runner manifest in
    let outcome = classify_negative code out in
    record {
      manifest = manifest;
      outcome = outcome;
      exit_code = some code;
      constraint =
          some (if is_policy_denied outcome then extract_constraint find_constraint out else "");
      detail = prefix 500 out;
    }

unfoldable pub positive_row : Runner → String → Row
unfolding classify_positive prefix
positive_row runner manifest =
    let (code, out) = runner manifest in
    let outcome = classify_positive code out in
    record {
      manifest = manifest;
      outcome = outcome;
      exit_code = some code;
      constraint = none;
      detail = if is_allowed outcome then "" else prefix 500 out;
    }

-- The manifests of both directories, as the sorted listing gives them.
unfoldable pub run_live :
    (rate : ℕ → ℕ → ℕ) (find_constraint : String → Option String)
    → Runner
    → List String
    → List String
    → Results
unfolding summarize negative_row positive_row
run_live rate find_constraint runner negative positive =
    summarize rate (map (negative_row runner find_constraint) negative)
      (map (positive_row runner) positive) "live_cluster_webhook"

-- `EXIT_OK` and `EXIT_FAILED`
unfoldable pub exit_code_for : Results → ℕ
exit_code_for results = if results.status == "PASS" then 0 else 1

-- ===== src/Admission/Validator/Summary.antt =====
-- The status that the summary of the offline check has, in terms of the report.
use cloud_native_threat_guar.Prelude.{
  ℕ, String, Bool, true, false, not, ◌&&◌, none, List, [], ◌∷◌, ◌++◌, ◌==◌, ◌≡◌, refl, ◌∙◌, ap, eqb,
  map, all, length, is_empty, if◌then◌else◌, arith,
}
use cloud_native_threat_guar.Prelude.Text.{prefix, join}
use cloud_native_threat_guar.Prelude.Result.{Result, ok, err, ◌>>=◌}
use cloud_native_threat_guar.Admission.LiveCheck.{
  Row, Results, allowed, positive_rejected, is_policy_denied, is_execution_error, is_allowed, count,
  summarize,
}
use cloud_native_threat_guar.Admission.LiveCheck.Verdict.{
  eqb-count_if, eqb-length-zero, count-append, verdict_lem,
}
use cloud_native_threat_guar.Admission.Validator.{
  all_passed, PolicyCheckResult, ManifestValidationReport, as_expected, offline_row,
  offline_results,
}

all-denied :
    (rs : List PolicyCheckResult)
    → all (λ row. is_policy_denied row.outcome) (map offline_row rs) ≡ all as_expected rs
unfolding offline_row
all-denied [] = refl
all-denied (r ∷ rs) = ground (arith, all-denied rs)

no-errors : (rs : List PolicyCheckResult) → count is_execution_error (map offline_row rs) ≡ 0
unfolding offline_row
no-errors [] = refl
no-errors (r ∷ rs) = ground (arith, no-errors rs)

is_empty-rows : (rs : List PolicyCheckResult) → is_empty (map offline_row rs) ≡ is_empty rs
is_empty-rows [] = refl
is_empty-rows (r ∷ rs) = refl

-- The counts of the negative rows, as tests.
counts :
    (rs : List PolicyCheckResult)
    → let rows = map offline_row rs in
      (not (eqb (length rows) 0) && eqb (count is_policy_denied rows) (length rows))
      ≡ (not (is_empty rs) && all as_expected rs)
counts rs =
    rw
      (
        eqb-length-zero (map offline_row rs),
        is_empty-rows rs,
        eqb-count_if (λ row. is_policy_denied row.outcome) (map offline_row rs),
        all-denied rs,
      )
      refl

-- One positive row, which is admitted or rejected, and no errors.
settle :
    (z b passed : Bool) (n : ℕ)
    → n ≡ 0
    → ((not z && true) && (b && (eqb (if passed then 1 else 0) 1 && eqb n 0)))
      ≡ (passed && (not z && b))
settle z b passed n h = ground arith

row_of : Bool → Row → Row
row_of passed row = record {
  manifest = row.manifest;
  outcome = if passed then allowed else positive_rejected;
  exit_code = row.exit_code;
  constraint = row.constraint;
  detail = row.detail;
}

errors :
    (rs : List PolicyCheckResult) (passed : Bool) (row : Row)
    → (count is_execution_error (map offline_row rs ++ row_of passed row ∷ []) ≡ 0)
      × (count is_allowed (row_of passed row ∷ []) ≡ (if passed then 1 else 0))
unfolding row_of
errors rs true row = (
  count-append is_execution_error (map offline_row rs) (row_of true row ∷ [])
      ∙ rw (no-errors rs) refl,
  refl,
)
errors rs false row = (
  count-append is_execution_error (map offline_row rs) (row_of false row ∷ [])
      ∙ rw (no-errors rs) refl,
  refl,
)

status_lem :
    (rate : ℕ → ℕ → ℕ) (mode : String) (rs : List PolicyCheckResult) (passed : Bool) (row : Row)
    → ((summarize rate (map offline_row rs) (row_of passed row ∷ []) mode).status == "PASS")
      ≡ (passed && (not (is_empty rs) && all as_expected rs))
unfolding summarize
status_lem rate mode rs passed row =
    let rows : List Row = map offline_row rs in
    let others : List Row = row_of passed row ∷ [] in
    let z : Bool = eqb (length rows) 0 in
    let b : Bool = eqb (count is_policy_denied rows) (length rows) in
    let n : ℕ = count is_execution_error (rows ++ others) in
    let all_ok : Bool = (not z && true) && (b && (eqb (count is_allowed others) 1 && eqb n 0)) in
    let e : all_ok ≡ (passed && (not z && b)) =
      rw (errors rs passed row).1 (settle z b passed n (errors rs passed row).0) in
    (verdict_lem all_ok).0 ∙ e ∙ ap (λ c. passed && c) (counts rs)

-- The status of the summary, in terms of the report.
pub offline_results_lem :
    (rate : ℕ → ℕ → ℕ) (report : ManifestValidationReport)
    → ((offline_results rate report).status == "PASS") ≡ (
        report.positive_passed
        && (not (is_empty report.negative_results) && all as_expected report.negative_results))
unfolding offline_results row_of
offline_results_lem rate report =
    status_lem rate "opa_offline_evaluation" report.negative_results report.positive_passed
      (record {
        manifest = report.positive_manifest;
        outcome = allowed;
        exit_code = none;
        constraint = none;
        detail = prefix 500 (join "; " report.positive_failures);
      })

unfoldable pub passes : Result String Results → Bool
passes (ok results) = results.status == "PASS"
passes (err e) = false

-- The report that `validate_all` returns has passed.
unfoldable pub accepted : Result String ManifestValidationReport → Bool
unfolding all_passed
accepted (ok report) = all_passed report
accepted (err e) = false

expected-blocked :
    (rs : List PolicyCheckResult) → (all as_expected rs && not (all (λ r. r.blocked) rs)) ≡ false
expected-blocked [] = refl
expected-blocked (r ∷ rs) = ground (arith, expected-blocked rs)

pub passed-accepted :
    (rate : ℕ → ℕ → ℕ) (checked : Result String ManifestValidationReport)
    → (passes (checked >>= (λ report. ok (offline_results rate report))) && not (accepted checked))
      ≡ false
unfolding passes accepted all_passed
passed-accepted rate (ok report) =
    rw (offline_results_lem rate report, eqb-count_if (λ r. r.blocked) report.negative_results)
      (ground (arith, expected-blocked report.negative_results))
passed-accepted rate (err e) = refl

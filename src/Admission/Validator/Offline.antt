-- ===== src/Admission/Validator/Offline.antt =====
-- When the offline check of the policies passes.
use cloud_native_threat_guar.Prelude.{
  ℕ, String, Bool, true, false, not, ◌&&◌, Option, none, some, List, [], ◌∷◌, ◌≡◌, refl, ◌∙◌, ap,
  map, filter, all, any, is_empty, arith, Option-cases, inl, inr,
}
use cloud_native_threat_guar.Prelude.Int.{ℤ, is_pos}
use cloud_native_threat_guar.Prelude.Result.{Result, ok, err, ◌>>=◌, Returns, always-Returns}
use cloud_native_threat_guar.Prelude.Dict
use cloud_native_threat_guar.Prelude.Text.{contains}
use cloud_native_threat_guar.Admission.Validator.{
  policies, all_packages, positive_name, PolicyCheckResult, ManifestValidationReport, as_expected,
  offline_results, eval_policy, with_failure, failures_of, check_of, add_check, checks_of,
  validate_all, run_offline,
}
use cloud_native_threat_guar.Admission.Validator.Summary.{
  offline_results_lem, passes, accepted, passed-accepted,
}

-- The file has a policy.
pub known : String → Bool
known file = elim (Dict.get policies file) [ none ↦ false | some policy ↦ true ]

known-get :
    (file : String) (o : Option (String × String))
    → Dict.get policies file ≡ o
    → known file ≡ (elim o [ none ↦ false | some policy ↦ true ])
unfolding known
known-get file o h = ap (λ p. elim p [ none ↦ false | some policy ↦ true ]) h

IsEmptyAs : Bool → Result String (List PolicyCheckResult) → Type 0
IsEmptyAs b r = Returns (λ rs. is_empty rs ≡ b) r

abbrev report_of : List String → List PolicyCheckResult → ManifestValidationReport
report_of failures rs = record {
  positive_manifest = positive_name;
  positive_passed = is_empty failures;
  positive_failures = failures;
  negative_results = rs;
}

module _ (Violation : Type 0) (msg : Violation → String) (show_all : List Violation → String)
    (opa : (pkg manifest : String) → ℤ × (String × List Violation)) where
  -- OPA evaluates the package on the positive manifest, and finds no violation.
  pub clean : String → Bool
  clean pkg =
      let (returncode, (stderr, violations)) = opa pkg positive_name in
      is_pos returncode 0 && is_empty violations

  -- OPA evaluates the file's package on it, and finds a violation, one with the expected text.
  pub triggered_by : String → Option (String × String) → Bool
  triggered_by file none = false
  triggered_by file (some (pkg, expected)) =
      let (returncode, (stderr, violations)) = opa pkg file in
      is_pos returncode 0
      && (not (is_empty violations) && any (λ m. contains m expected) (map msg violations))

  pub triggered : String → Bool
  triggered file = triggered_by file (Dict.get policies file)

  abbrev none_of : Result String (List Violation) → Bool
  none_of (ok violations) = is_empty violations
  none_of (err e) = false

  abbrev no_failure : Result String (List String) → Bool
  no_failure (ok failures) = is_empty failures
  no_failure (err e) = false

  abbrev expected_all : Result String (List PolicyCheckResult) → Bool
  expected_all (ok rs) = all as_expected rs
  expected_all (err e) = false

  abbrev as_expected_on : String → String × String → Result String (List Violation) → Bool
  as_expected_on file policy (ok violations) =
      as_expected (check_of Violation msg show_all opa file policy violations)
  as_expected_on file policy (err e) = false

  clean_lem :
      (pkg : String)
      → none_of (eval_policy Violation msg show_all opa pkg positive_name) ≡ clean pkg
  unfolding eval_policy clean
  clean_lem pkg = ground arith

  triggered_lem :
      (file : String) (policy : String × String)
      → as_expected_on file policy (eval_policy Violation msg show_all opa policy.0 file)
        ≡ triggered_by file (some policy)
  unfolding eval_policy triggered_by
  triggered_lem file policy = ground arith

  no_failure-step :
      (pkg : String) (found : Result String (List Violation)) (rest : Result String (List String))
      → no_failure (
          found >>= (λ vs. rest >>= (λ fs. ok (with_failure Violation msg show_all opa pkg vs fs))))
        ≡ (none_of found && no_failure rest)
  no_failure-step pkg (ok []) (ok fs) = refl
  no_failure-step pkg (ok []) (err e) = refl
  no_failure-step pkg (ok (v ∷ vs)) (ok fs) = refl
  no_failure-step pkg (ok (v ∷ vs)) (err e) = refl
  no_failure-step pkg (err e) rest = refl

  failures_lem :
      (packages : List String)
      → no_failure (failures_of Violation msg show_all opa packages) ≡ all clean packages
  unfolding failures_of
  failures_lem [] = refl
  failures_lem (pkg ∷ packages) =
      no_failure-step pkg (eval_policy Violation msg show_all opa pkg positive_name)
        (failures_of Violation msg show_all opa packages)
      ∙ rw (clean_lem pkg, failures_lem packages) refl

  expected-step :
      (file : String) (policy : String × String) (found : Result String (List Violation))
      (rest : Result String (List PolicyCheckResult))
      → expected_all (
          found
          >>= (λ vs. rest >>= (λ rs. ok (check_of Violation msg show_all opa file policy vs ∷ rs))))
        ≡ (as_expected_on file policy found && expected_all rest)
  expected-step file policy (ok vs) (ok rs) = refl
  expected-step file policy (ok vs) (err e) = ground arith
  expected-step file policy (err e) rest = refl

  add_check-expected :
      (file : String) (policy : Option (String × String))
      (rest : Result String (List PolicyCheckResult))
      → expected_all (add_check Violation msg show_all opa file policy rest)
        ≡ ((elim policy [ none ↦ true | some p ↦ triggered_by file (some p) ]) && expected_all rest)
  add_check-expected file none rest = refl
  add_check-expected file (some policy) rest =
      expected-step file policy (eval_policy Violation msg show_all opa policy.0 file) rest
      ∙ rw (triggered_lem file policy) refl

  checks_lem :
      (files : List String)
      → expected_all (checks_of Violation msg show_all opa files)
        ≡ all triggered (filter known files)
  unfolding checks_of triggered
  checks_lem [] = refl
  checks_lem (file ∷ files) =
      let step =
        add_check-expected file (Dict.get policies file)
          (checks_of Violation msg show_all opa files) in
      elim (Option-cases (Dict.get policies file)) [
        | inl h ↦ step ∙ rw (h, known-get file none h, checks_lem files) refl
        | inr (policy, h) ↦ step ∙ rw (h, known-get file (some policy) h, checks_lem files, h) refl
      ]

  add_check-IsEmptyAs :
      (file : String) (policy : Option (String × String))
      (rest : Result String (List PolicyCheckResult)) (b : Bool)
      → IsEmptyAs b rest
      → IsEmptyAs
          (elim policy [ none ↦ b | some p ↦ false ])
          (add_check Violation msg show_all opa file policy rest)
  unfolding IsEmptyAs
  add_check-IsEmptyAs file none rest b h = h
  add_check-IsEmptyAs file (some policy) rest b h =
      always-Returns (λ rs. is_empty rs ≡ false)
        (eval_policy Violation msg show_all opa policy.0 file)
        (λ vs. rest >>= (λ rs. ok (check_of Violation msg show_all opa file policy vs ∷ rs)))
        (λ vs.
          always-Returns (λ rs. is_empty rs ≡ false) rest
            (λ rs. ok (check_of Violation msg show_all opa file policy vs ∷ rs)) (λ rs. refl))

  checks-IsEmptyAs :
      (files : List String)
      → IsEmptyAs (is_empty (filter known files)) (checks_of Violation msg show_all opa files)
  unfolding checks_of IsEmptyAs
  checks-IsEmptyAs [] = refl
  checks-IsEmptyAs (file ∷ files) =
      let step =
        add_check-IsEmptyAs file (Dict.get policies file)
          (checks_of Violation msg show_all opa files) (is_empty (filter known files))
          (checks-IsEmptyAs files) in
      elim (Option-cases (Dict.get policies file)) [
        | inl h ↦ rw (known-get file none h, h) (rw h at step)
        | inr (policy, h) ↦ rw (known-get file (some policy) h, h) (rw h at step)
      ]

  passes-step :
      (rate : ℕ → ℕ → ℕ) (b : Bool) (failures : Result String (List String))
      (checks : Result String (List PolicyCheckResult))
      → IsEmptyAs b checks
      → passes (
          (failures >>= (λ fs. checks >>= (λ rs. ok (report_of fs rs))))
          >>= (λ r. ok (offline_results rate r)))
        ≡ (no_failure failures && (not b && expected_all checks))
  unfolding passes IsEmptyAs
  passes-step rate b (ok fs) (ok rs) h = rw (offline_results_lem rate (report_of fs rs), h) refl
  passes-step rate b (ok fs) (err e) h = ground arith
  passes-step rate b (err e) checks h = refl

  -- The offline check returns results with the status PASS exactly when OPA evaluates every package on the
  -- positive manifest without a violation, there is a negative manifest with a policy, and on each such
  -- manifest OPA evaluates its policy and finds violations, one of them with the expected text. It never
  -- has that status where the report of `validate_all` has not passed.
  pub run_offline_lem :
      (rate : ℕ → ℕ → ℕ) (files : List String)
      → (passes (run_offline Violation msg show_all opa rate files) ≡ (
          all clean all_packages
          && (not (is_empty (filter known files)) && all triggered (filter known files))))
        × ((passes (run_offline Violation msg show_all opa rate files)
              && not (accepted (validate_all Violation msg show_all opa files)))
            ≡ false)
  unfolding run_offline validate_all
  run_offline_lem rate files = (
    passes-step rate (is_empty (filter known files))
          (failures_of Violation msg show_all opa all_packages)
          (checks_of Violation msg show_all opa files) (checks-IsEmptyAs files)
        ∙ rw (failures_lem all_packages, checks_lem files) refl,
    passed-accepted rate (validate_all Violation msg show_all opa files),
  )

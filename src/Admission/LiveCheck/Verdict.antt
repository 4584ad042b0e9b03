-- ===== src/Admission/LiveCheck/Verdict.antt =====
-- What a run of live_check.py reports, in terms of what kubectl answered for each manifest.
use cloud_native_threat_guar.Prelude.{
  ℕ, ◌+◌, String, Bool, true, false, not, ◌&&◌, Option, List, [], ◌∷◌, ◌++◌, ◌==◌, ◌≡◌, refl, ◌∙◌,
  eqb, map, all, count_if, length, is_empty, if◌then◌else◌, arith, length-map, count_if-le-length,
}
use cloud_native_threat_guar.Prelude.Int.{is_pos}
use cloud_native_threat_guar.Prelude.Text.{contains}
use cloud_native_threat_guar.Admission.LiveCheck.{
  Row, Runner, Outcome, is_policy_denied, is_unexpectedly_allowed, is_execution_error, is_allowed,
  is_positive_rejected, count, webhook_marker, classify_negative, classify_positive, negative_row,
  positive_row, summarize, run_live, exit_code_for,
}

-- kubectl reports a failure, and the webhook's denial.
pub denied : Runner → String → Bool
denied runner manifest =
    let (code, out) = runner manifest in not (is_pos code 0) && contains out webhook_marker

-- kubectl reports success.
pub admitted : Runner → String → Bool
admitted runner manifest = is_pos (runner manifest).0 0

negative-outcome :
    (runner : Runner) (find : String → Option String) (m : String)
    → is_policy_denied (negative_row runner find m).outcome ≡ denied runner m
unfolding negative_row classify_negative denied
negative-outcome runner find m = ground arith

positive-outcome :
    (runner : Runner) (m : String) → is_allowed (positive_row runner m).outcome ≡ admitted runner m
unfolding positive_row classify_positive admitted
positive-outcome runner m = ground arith

-- Every row of a negative manifest counts for one of three outcomes.
negative-counts :
    (runner : Runner) (find : String → Option String) (ms : List String)
    → let rows = map (negative_row runner find) ms in
      length rows
      ≡ count is_policy_denied rows
        + count is_unexpectedly_allowed rows
        + count is_execution_error rows
unfolding negative_row classify_negative
negative-counts runner find [] = refl
negative-counts runner find (m ∷ ms) = ground (arith, negative-counts runner find ms)

positive-counts :
    (runner : Runner) (ms : List String)
    → let rows = map (positive_row runner) ms in
      length rows
      ≡ count is_allowed rows + count is_positive_rejected rows + count is_execution_error rows
unfolding positive_row classify_positive
positive-counts runner [] = refl
positive-counts runner (m ∷ ms) = ground (arith, positive-counts runner ms)

pub eqb-count_if :
    {A : Type 0} (p : A → Bool) (xs : List A) → eqb (count_if p xs) (length xs) ≡ all p xs
eqb-count_if p [] = refl
eqb-count_if p (x ∷ xs) = ground (arith, eqb-count_if p xs, count_if-le-length p xs)

pub count-append :
    (p : Outcome → Bool) (rows others : List Row)
    → count p (rows ++ others) ≡ count p rows + count p others
count-append p [] others = ground arith
count-append p (r ∷ rows) others = ground (arith, count-append p rows others)

all-negative :
    (runner : Runner) (find : String → Option String) (ms : List String)
    → all (λ r. is_policy_denied r.outcome) (map (negative_row runner find) ms)
      ≡ all (denied runner) ms
all-negative runner find [] = refl
all-negative runner find (m ∷ ms) =
    rw (negative-outcome runner find m, all-negative runner find ms) refl

all-positive :
    (runner : Runner) (ms : List String)
    → all (λ r. is_allowed r.outcome) (map (positive_row runner) ms) ≡ all (admitted runner) ms
all-positive runner [] = refl
all-positive runner (m ∷ ms) = rw (positive-outcome runner m, all-positive runner ms) refl

is_empty-map : {A B : Type 0} (f : A → B) (xs : List A) → is_empty (map f xs) ≡ is_empty xs
is_empty-map f [] = refl
is_empty-map f (x ∷ xs) = refl

pub eqb-length-zero : {A : Type 0} (xs : List A) → eqb (length xs) 0 ≡ is_empty xs
eqb-length-zero [] = refl
eqb-length-zero (x ∷ xs) = ground arith

abbrev pub verdict : Bool → String
verdict passed = if passed then "PASS" else "FAIL"

pub verdict_lem :
    (passed : Bool)
    → ((verdict passed == "PASS") ≡ passed)
      × (eqb (if verdict passed == "PASS" then 0 else 1) 0 ≡ (verdict passed == "PASS"))
verdict_lem true = (refl, refl)
verdict_lem false = (refl, refl)

-- Where each kind's counts add up, full counts of denials and admissions leave no errors.
no-errors :
    (n b a en p ok r ep : ℕ) (nothing : Bool)
    → n ≡ b + a + en
    → p ≡ ok + r + ep
    → (not (eqb n 0) && nothing && (eqb b n && (eqb ok p && eqb (en + ep) 0)))
      ≡ ((not (eqb n 0) && nothing) && (eqb b n && eqb ok p))
no-errors n b a en p ok r ep nothing hn hp = ground arith

complete-eq :
    (find : String → Option String) (runner : Runner) (negative positive : List String)
    → let rows = map (negative_row runner find) negative in
      let others = map (positive_row runner) positive in
      ((not (eqb (length rows) 0) && not (is_empty others))
        && (eqb (count is_policy_denied rows) (length rows)
            && eqb (count is_allowed others) (length others)))
      ≡ ((not (is_empty negative) && not (is_empty positive))
          && (all (denied runner) negative && all (admitted runner) positive))
complete-eq find runner negative positive =
    rw
      (
        eqb-length-zero (map (negative_row runner find) negative),
        is_empty-map (negative_row runner find) negative,
        is_empty-map (positive_row runner) positive,
        eqb-count_if (λ r. is_policy_denied r.outcome) (map (negative_row runner find) negative),
        all-negative runner find negative,
        eqb-count_if (λ r. is_allowed r.outcome) (map (positive_row runner) positive),
        all-positive runner positive,
      )
      refl

-- The live check passes exactly when there are manifests of both kinds, the webhook denied every
-- negative one and kubectl admitted every positive one; its exit code is 0 exactly then, and the counts
-- of the outcomes add up to the number of manifests.
pub run_live_lem :
    (rate : ℕ → ℕ → ℕ) (find : String → Option String) (runner : Runner)
    (negative positive : List String)
    → let results = run_live rate find runner negative positive in
      ((results.status == "PASS") ≡ (
        (not (is_empty negative) && not (is_empty positive))
        && (all (denied runner) negative && all (admitted runner) positive)))
      × (eqb (exit_code_for results) 0 ≡ (results.status == "PASS"))
      × (length negative + length positive
          ≡ results.blocked + results.allowed_count + results.errors + results.positive_allowed
            + results.positive_rejected_count)
unfolding run_live summarize exit_code_for
run_live_lem rate find runner negative positive =
    let rows : List Row = map (negative_row runner find) negative in
    let others : List Row = map (positive_row runner) positive in
    let en : ℕ = count is_execution_error rows in
    let ep : ℕ = count is_execution_error others in
    let b : ℕ = count is_policy_denied rows in
    let ok : ℕ = count is_allowed others in
    let passed : Bool =
      not (eqb (length rows) 0)
      && not (is_empty others)
      && (eqb b (length rows) && (eqb ok (length others) && eqb (en + ep) 0)) in
    let sums : count is_execution_error (rows ++ others) ≡ en + ep =
      count-append is_execution_error rows others in
    let e : passed ≡ (
        (not (is_empty negative) && not (is_empty positive))
        && (all (denied runner) negative && all (admitted runner) positive)) =
      (no-errors (length rows) b (count is_unexpectedly_allowed rows) en (length others) ok
          (count is_positive_rejected others) ep (not (is_empty others))
          (negative-counts runner find negative) (positive-counts runner positive)
        ∙ complete-eq find runner negative positive) in
    rw sums (
      (verdict_lem passed).0 ∙ e,
      (verdict_lem passed).1,
      omega (
        arith,
        length-map (negative_row runner find) negative,
        length-map (positive_row runner) positive,
        negative-counts runner find negative,
        positive-counts runner positive,
      ),
    )

-- ===== src/Runtime/Scenarios/Decision.antt =====
-- When `evaluate_scenario` of runtime/scenarios.py lets a scenario pass.
use cloud_native_threat_guar.Prelude.{
  ℕ, String, Bool, true, false, not, ◌&&◌, ◌||◌, Option, some, List, [], ◌∷◌, ◌++◌, ◌==◌, ◌≡◌, refl,
  sym, eq_iff, arith, is_empty, filter, all, if◌then◌else◌, Bool-cases, inl, inr, subst,
}
use cloud_native_threat_guar.Prelude.Sort.{insert, sort_by}
use cloud_native_threat_guar.Prelude.Paths.{all-member}
use cloud_native_threat_guar.Prelude.Text.{member, distinct}
use cloud_native_threat_guar.Runtime.Scenarios.{
  Scenario, ScenarioRun, identity, missing_rules, enforcement_reasons, detection_reasons,
  saw_nothing, was_killed, was_stopped, evaluate_scenario,
}

is_empty-insert : (x : String) (xs : List String) → is_empty (insert identity x xs) ≡ false
unfolding insert
is_empty-insert x [] = refl
is_empty-insert x (y ∷ ys) = ground arith

is_empty-sort_by : (xs : List String) → is_empty (sort_by identity xs) ≡ is_empty xs
unfolding sort_by
is_empty-sort_by [] = refl
is_empty-sort_by (x ∷ xs) = is_empty-insert x (sort_by identity xs)

is_empty-filter :
    (p : String → Bool) (xs : List String) → is_empty (filter p xs) ≡ all (λ x. not (p x)) xs
is_empty-filter p [] = refl
is_empty-filter p (x ∷ xs) = ground (arith, is_empty-filter p xs)

all-distinct : (p : String → Bool) (xs : List String) → all p (distinct xs) ≡ all p xs
unfolding distinct
all-distinct p [] = refl
all-distinct p (x ∷ xs) = ground (arith, all-distinct p xs, all-member p x (distinct xs))

all-not-not : (p : String → Bool) (xs : List String) → all (λ x. not (not (p x))) xs ≡ all p xs
all-not-not p [] = refl
all-not-not p (x ∷ xs) = ground (arith, all-not-not p xs)

is_empty-missing_rules :
    (expected detected : List String)
    → is_empty (missing_rules expected detected) ≡ all (λ r. member r detected) expected
unfolding missing_rules
is_empty-missing_rules expected detected =
    rw
      (
        is_empty-sort_by (filter (λ r. not (member r detected)) (distinct expected)),
        is_empty-filter (λ r. not (member r detected)) (distinct expected),
        all-distinct (λ r. not (not (member r detected))) expected,
      )
      (all-not-not (λ r. member r detected) expected)

-- The kill is as the scenario expects it.
pub enforced : Scenario → ScenarioRun → Bool → Bool → Bool
enforced scenario run enforcement_seen check_exit_code =
    if scenario.expected_enforcement == "block"
    then (not check_exit_code || was_killed run.exit_code) && enforcement_seen
    else not (check_exit_code && was_killed run.exit_code)

-- The detections are as the scenario expects them.
pub detected : Scenario → List String → Option ℕ → Bool
detected scenario detected_rules events_seen =
    all (λ r. member r detected_rules) scenario.expected_rules
    && (not (is_empty scenario.expected_rules)
        || (is_empty detected_rules && not (saw_nothing events_seen)))

is_empty-enforcement_reasons :
    (scenario : Scenario) (run : ScenarioRun) (seen check : Bool)
    → is_empty (enforcement_reasons scenario run seen check) ≡ enforced scenario run seen check
unfolding enforcement_reasons enforced
is_empty-enforcement_reasons scenario run seen check = ground arith

is_empty-detection_reasons :
    (scenario : Scenario) (rules : List String) (events_seen : Option ℕ)
    → is_empty (detection_reasons scenario rules events_seen) ≡ detected scenario rules events_seen
unfolding detection_reasons detected
is_empty-detection_reasons scenario rules events_seen =
    ground (arith, is_empty-missing_rules scenario.expected_rules rules)

is_empty-append : (xs ys : List String) → is_empty (xs ++ ys) ≡ (is_empty xs && is_empty ys)
is_empty-append [] ys = refl
is_empty-append (x ∷ xs) ys = refl

was_stopped-not-passed :
    (run : ScenarioRun) → was_stopped run ≡ true → (run.status == "passed") ≡ false
was_stopped-not-passed run h = elim (Bool-cases (run.status == "passed")) [
  | inl e ↦
      let passed : run.status ≡ "passed" = (eq_iff run.status "passed").0 e in
      let stopped : ("passed" == "blocked" || "passed" == "skipped") ≡ true =
        subst (λ s. (s == "blocked" || s == "skipped") ≡ true) passed h in
      ground arith
  | inr e ↦ e
]

is_empty-reasons :
    (scenario : Scenario) (run : ScenarioRun) (rules : List String) (seen check : Bool)
    (events_seen : Option ℕ)
    → is_empty (
        enforcement_reasons scenario run seen check ++ detection_reasons scenario rules events_seen)
      ≡ (enforced scenario run seen check && detected scenario rules events_seen)
is_empty-reasons scenario run rules seen check events_seen =
    rw
      (
        is_empty-append (enforcement_reasons scenario run seen check)
            (detection_reasons scenario rules events_seen),
        is_empty-enforcement_reasons scenario run seen check,
        is_empty-detection_reasons scenario rules events_seen,
      )
      refl

-- A scenario that was run passes exactly when the orchestrator neither blocked nor skipped it, the
-- kill is as expected (a blocking scenario: exit 137 where exit codes count, and kill evidence;
-- another one: no exit 137 where exit codes count), every expected rule was detected and, if
-- none is expected, none was detected and the sensor did not report zero events. It also passes
-- exactly when the outcome has no reasons.
pub evaluate_scenario_lem :
    (scenario : Scenario) (run : ScenarioRun) (rules : List String) (seen check : Bool)
    (events_seen : Option ℕ)
    → ((evaluate_scenario scenario (some run) rules seen check events_seen).status == "passed") ≡ (
        not (was_stopped run)
        && (enforced scenario run seen check && detected scenario rules events_seen))
      × ((evaluate_scenario scenario (some run) rules seen check events_seen).status == "passed")
        ≡ is_empty (evaluate_scenario scenario (some run) rules seen check events_seen).reasons
unfolding evaluate_scenario
evaluate_scenario_lem scenario run rules seen check events_seen =
    elim (Bool-cases (was_stopped run)) [
      | inl stopped ↦
          rw stopped (was_stopped-not-passed run stopped, was_stopped-not-passed run stopped)
      | inr ran ↦
          rw (ran, sym (is_empty-reasons scenario run rules seen check events_seen))
            (elim (Bool-cases (
              is_empty (
                enforcement_reasons scenario run seen check
                ++ detection_reasons scenario rules events_seen))) [
                  | inl clean ↦ rw clean (refl, refl)
                  | inr reason ↦ rw reason (refl, refl)
                ])
    ]

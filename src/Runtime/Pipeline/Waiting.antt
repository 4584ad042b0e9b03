-- ===== src/Runtime/Pipeline/Waiting.antt =====
-- The wait for late events ends.
use cloud_native_threat_guar.Prelude.{
  ℕ, zero, suc, ◌+◌, ◌≤◌, String, false, Option, none, some, List, ◌≡◌, refl, Bool-cases, inl, inr,
  arith, ◌==◌,
}
use cloud_native_threat_guar.Prelude.Dict.{Dict}
use cloud_native_threat_guar.Prelude.Json.{Json, Fields}
use cloud_native_threat_guar.Prelude.Python.{PyError}
use cloud_native_threat_guar.Prelude.Result.{Result, ok, err}
use cloud_native_threat_guar.Runtime.Collector.{CollectionResult}
use cloud_native_threat_guar.Runtime.Scenarios.{Scenario, ScenarioRun}
use cloud_native_threat_guar.Runtime.Pipeline.{Evaluation, is_unavailable, RunResult}
use cloud_native_threat_guar.Runtime.Pipeline.Run.{
  Attempt, continued, finished, goes_on, evaluated, wait_loop, waited_for, run_live, run_pipeline,
}

-- The fuel was enough.
abbrev Ends : {A : Type 0} → Option A → Type 0
Ends none = ⊥
Ends (some a) = Unit

continued-Ends :
    (r : Result PyError Evaluation) (next : Evaluation → Option (Result PyError Attempt))
    → ((e : Evaluation) → Ends (next e))
    → Ends (continued r next)
continued-Ends (ok e) next h = h e
continued-Ends (err x) next h = tt

finished-Ends : (o : Option (Result PyError Attempt)) → Ends o → Ends (finished o)
finished-Ends (some (ok a)) h = tt
finished-Ends (some (err x)) h = tt
finished-Ends none h = elim h [ ]

Ends-some : {A : Type 0} (o : Option A) → Ends o → (a : A) × (o ≡ some a)
Ends-some (some a) h = (a, refl)
Ends-some none h = elim h [ ]

module _ (python_str : Json → String) (now : String) (parse_time : String → Option ℕ)
    (collect : ℕ → CollectionResult) (namespace : String) (catalog : List Scenario)
    (wait_seconds : ℕ) where
  no_wait :
      (waited : ℕ) (attempt : Attempt)
      → wait_seconds ≤ waited
      → goes_on python_str now parse_time collect namespace catalog wait_seconds waited attempt
        ≡ false
  no_wait waited (collection, e) h = ground (arith, h)

  wait_loop-Ends :
      (fuel : ℕ) (runs : Dict ScenarioRun) (waited attempts : ℕ) (attempt : Attempt)
      → wait_seconds ≤ waited + fuel
      → Ends (
          wait_loop python_str now parse_time collect namespace catalog wait_seconds fuel runs
            waited attempts attempt)
  unfolding wait_loop
  wait_loop-Ends zero runs waited attempts attempt h =
      rw (no_wait waited attempt (omega (arith, h))) tt
  wait_loop-Ends (suc fuel) runs waited attempts attempt h =
      elim (Bool-cases
        (goes_on python_str now parse_time collect namespace catalog wait_seconds waited attempt)) [
          | inr e ↦ rw e tt
          | inl e ↦ elim (Bool-cases (is_unavailable (collect attempts))) [
            | inl gone ↦ rw (e, gone) tt
            | inr there ↦
                rw (e, there)
                  (continued-Ends
                    (evaluated python_str now parse_time collect namespace catalog wait_seconds runs
                      (collect attempts))
                    _
                    (λ e'.
                      wait_loop-Ends fuel runs (waited + 2) (suc attempts) (collect attempts, e')
                        (omega (arith, h))))
          ]
        ]

  waited_for-Ends :
      (runs : Dict ScenarioRun) (attempt : Attempt)
      → Ends
          (waited_for python_str now parse_time collect namespace catalog wait_seconds runs attempt)
  waited_for-Ends runs attempt = elim (Bool-cases (is_unavailable attempt.0)) [
    | inl e ↦ rw e tt
    | inr e ↦ rw e (wait_loop-Ends wait_seconds runs 0 1 attempt (omega arith))
  ]

  run_live-Ends :
      (runs : Dict ScenarioRun)
      → Ends (run_live python_str now parse_time collect namespace catalog wait_seconds runs)
  unfolding run_live
  run_live-Ends runs = finished-Ends _ (
      continued-Ends
        (evaluated python_str now parse_time collect namespace catalog wait_seconds runs
          (collect 0))
        _ (λ e. waited_for-Ends runs (collect 0, e)))

  run_pipeline-Ends :
      (mode : String) (runs : Dict ScenarioRun) (events : List Fields)
      → Ends (
          run_pipeline python_str now parse_time collect namespace catalog wait_seconds mode runs
            events)
  unfolding run_pipeline
  run_pipeline-Ends mode runs events = elim (Bool-cases (mode == "demo")) [
    | inl e ↦ rw e tt
    | inr e ↦ elim (Bool-cases (mode == "live")) [
      | inl l ↦ rw (e, l) (run_live-Ends runs)
      | inr l ↦ rw (e, l) tt
    ]
  ]

-- Whatever the collections bring, a run comes to an end with a result or an exception: the loop that waits for
-- late events makes at most as many rounds as the allowed seconds.
pub run_pipeline_ends :
    (python_str : Json → String) (now : String) (parse_time : String → Option ℕ)
    (collect : ℕ → CollectionResult) (namespace : String) (catalog : List Scenario)
    (wait_seconds : ℕ) (mode : String) (runs : Dict ScenarioRun) (events : List Fields)
    → (r : Result PyError RunResult) × (run_pipeline python_str now parse_time collect namespace
          catalog wait_seconds mode runs events
        ≡ some r)
run_pipeline_ends python_str now parse_time collect namespace catalog wait_seconds mode runs
      events =
    Ends-some _ (
      run_pipeline-Ends python_str now parse_time collect namespace catalog wait_seconds mode runs
        events)

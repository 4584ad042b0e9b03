-- ===== src/Runtime/Pipeline/Run.antt =====
-- `run_pipeline` of src/cloudnative_threatguard/runtime/pipeline.py: the wait for late events and the run. The
-- writing of the artifacts, and the reports in them, are left out.
use cloud_native_threat_guar.Prelude.{
  ℕ, zero, suc, ◌+◌, String, Bool, not, ◌&&◌, Option, none, some, List, [], ◌∷◌, ◌==◌, any, ltb,
  if◌then◌else◌,
}
use cloud_native_threat_guar.Prelude.Dict
use cloud_native_threat_guar.Prelude.Dict.{Dict}
use cloud_native_threat_guar.Prelude.Json.{Json, Fields}
use cloud_native_threat_guar.Prelude.Python.{PyError, value_error}
use cloud_native_threat_guar.Prelude.Result.{Result, ok, err, ◌>>=◌}
use cloud_native_threat_guar.Runtime.Collector.{CollectionResult}
use cloud_native_threat_guar.Runtime.Scenarios.{Scenario, ScenarioRun}
use cloud_native_threat_guar.Runtime.Pipeline.{
  Evaluation, failed, is_unavailable, RunResult, demo_result, live_result, evaluate_all,
}

abbrev pub Attempt : Type 0
Attempt = CollectionResult × Evaluation

abbrev pub continued :
    Result PyError Evaluation
    → (Evaluation → Option (Result PyError Attempt))
    → Option (Result PyError Attempt)
continued (err e) next = some (err e)
continued (ok e) next = next e

abbrev pub finished : Option (Result PyError Attempt) → Option (Result PyError RunResult)
finished none = none
finished (some (err e)) = some (err e)
finished (some (ok attempt)) = some (ok (live_result attempt))

-- `{s.id: ScenarioRun(s.id, "executed", None, "", "") for s in catalog}`
unfoldable pub executed_runs : Dict ScenarioRun → List Scenario → Dict ScenarioRun
unfolding Dict.put
executed_runs runs [] = runs
executed_runs runs (s ∷ catalog) =
    executed_runs
      (Dict.put runs s.id record {
        scenario_id = s.id;
        status = "executed";
        exit_code = none;
        started_at = "";
        ended_at = "";
      })
      catalog

module _ (python_str : Json → String) (now : String) (parse_time : String → Option ℕ)
    (collect : ℕ → CollectionResult) (namespace : String) (catalog : List Scenario)
    (wait_seconds : ℕ) where
  abbrev pub evaluated : Dict ScenarioRun → CollectionResult → Result PyError Evaluation
  evaluated runs collection =
      evaluate_all python_str now parse_time "live" namespace runs collection.events catalog

  abbrev pub goes_on : ℕ → Attempt → Bool
  goes_on waited (collection, e) = ltb waited wait_seconds && any failed e.outcomes

  -- The loop that collects again while a scenario failed, on fuel; `attempts` counts the collections so far.
  unfoldable pub wait_loop :
      ℕ → Dict ScenarioRun → (waited attempts : ℕ) → Attempt → Option (Result PyError Attempt)
  unfolding evaluate_all
  wait_loop zero runs waited attempts attempt =
      if goes_on waited attempt then none else some (ok attempt)
  wait_loop (suc fuel) runs waited attempts attempt =
      let collection = collect attempts in
      let again : Evaluation → Option (Result PyError Attempt) =
        λ e. wait_loop fuel runs (waited + 2) (suc attempts) (collection, e) in
      if not (goes_on waited attempt)
      then some (ok attempt)
      else if is_unavailable collection
      then some (ok (collection, attempt.1))
      else continued (evaluated runs collection) again

  -- Without an event stream there is no wait. The loop needs at most `wait_seconds` rounds.
  abbrev pub waited_for : Dict ScenarioRun → Attempt → Option (Result PyError Attempt)
  waited_for runs attempt =
      if is_unavailable attempt.0
      then some (ok attempt)
      else wait_loop wait_seconds runs 0 1 attempt

  unfoldable pub run_live : Dict ScenarioRun → Option (Result PyError RunResult)
  unfolding wait_loop evaluate_all
  run_live runs =
      finished (continued (evaluated runs (collect 0)) (λ e. waited_for runs (collect 0, e)))

  unfoldable pub run_demo : List Fields → Result PyError RunResult
  unfolding executed_runs evaluate_all
  run_demo events = do
    e ←
        evaluate_all python_str now parse_time "demo" namespace (executed_runs [] catalog) events
          catalog
    ok (demo_result e)

  -- `runs` is what the orchestrator recorded, `events` the fixture's.
  unfoldable pub run_pipeline :
      (mode : String) → Dict ScenarioRun → List Fields → Option (Result PyError RunResult)
  unfolding run_live run_demo
  run_pipeline mode runs events =
      if mode == "demo"
      then some (run_demo events)
      else if mode == "live"
      then run_live runs
      else some (err value_error)

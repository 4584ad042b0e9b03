-- ===== src/Runtime/Pipeline.antt =====
-- src/cloudnative_threatguard/runtime/pipeline.py: one validation run, from the scenarios and the sensor's events
-- to outcomes and an exit code. `parse_time` is the collector's `parse_time` in milliseconds, on the text of a
-- time, `collect` the collection at each attempt, and `python_str` is `str`. A set of rule names is a list.
pub mod Run
pub mod Waiting
pub mod Outcomes
pub mod Verdict
use cloud_native_threat_guar.Prelude.{
  ℕ, zero, suc, ◌+◌, String, Bool, true, false, not, ◌&&◌, ◌||◌, Option, none, some, List, [], ◌∷◌,
  ◌++◌, ◌==◌, map, filter, any, is_empty, length, leb, ltb, if◌then◌else◌,
}
use cloud_native_threat_guar.Prelude.Dict
use cloud_native_threat_guar.Prelude.Dict.{Dict}
use cloud_native_threat_guar.Prelude.Json.{Json, null, str, obj, Fields, find_field, field_or}
use cloud_native_threat_guar.Prelude.Python.{PyError, value_error, equals_text}
use cloud_native_threat_guar.Prelude.Result.{Result, ok, err, ◌>>=◌}
use cloud_native_threat_guar.Prelude.Text.{contains}
use cloud_native_threat_guar.Detection.Events.{ThreatGuardDetection}
use cloud_native_threat_guar.Detection.Exec.{Outcome}
use cloud_native_threat_guar.Detection.Engine.{
  DetectionEngine, initial, with_new, process_raw_tetragon_event,
}
use cloud_native_threat_guar.Runtime.Collector.{CollectionResult, event_kind, enforcement_observed}
use cloud_native_threat_guar.Runtime.Scenarios.{
  Scenario, ScenarioRun, ScenarioOutcome, evaluate_scenario,
}

abbrev pub is_live : String → Bool
is_live mode = mode == "live"

abbrev pub is_executed : ScenarioRun → Bool
is_executed run = run.status == "executed"

abbrev pub in_window : (start finish : ℕ) → Option ℕ → Bool
in_window start finish none = false
in_window start finish (some when) = leb start (when + 1500) && leb when (finish + 1500)

-- The outcomes and, with their scenarios, the detections.
pub record Evaluation : Type 0 where
  pub outcomes : List ScenarioOutcome
  pub detections : List (String × ThreatGuardDetection)

abbrev pub joined : Evaluation → Evaluation → Evaluation
joined a b = record {
  outcomes = a.outcomes ++ b.outcomes;
  detections = a.detections ++ b.detections;
}

abbrev pub failed : ScenarioOutcome → Bool
failed o = o.status == "failed"

abbrev pub is_unavailable : CollectionResult → Bool
is_unavailable collection = collection.status == "unavailable"

abbrev pub has_kprobes : CollectionResult → Bool
has_kprobes collection = any (λ e. event_kind e == "process_kprobe") collection.events

abbrev pub hint : String
hint =
    "the sensor stream contains no process_kprobe events: kprobe-based policies (shell block, file open, connect) are not exporting events in this deployment; run `make sensor-diagnose` to compare the sensor's counters with the export stream"

-- A failure that a missing event class may explain.
abbrev pub add_hint : ScenarioOutcome → ScenarioOutcome
add_hint o =
    if failed o && any (λ r. contains r "not observed" || contains r "kill evidence") o.reasons
    then record o { reasons = o.reasons ++ hint ∷ [] }
    else o

-- Without a working event stream nothing is confirmed either way.
abbrev pub block : ScenarioOutcome → ScenarioOutcome
block o =
    if o.status == "passed" || o.status == "failed"
    then record o {
      status = "blocked";
      reasons = o.reasons ++ "sensor event stream unavailable" ∷ [];
    }
    else o

-- The corrections of the outcomes of a live run.
unfoldable pub corrected : CollectionResult → List ScenarioOutcome → List ScenarioOutcome
corrected collection outcomes =
    if is_unavailable collection
    then map block outcomes
    else if not (is_empty collection.events) && not (has_kprobes collection)
    then map add_hint outcomes
    else outcomes

abbrev pub required_failed : List ScenarioOutcome → Bool
required_failed outcomes = any (λ o. o.required && not (o.status == "passed")) outcomes

pub record RunResult : Type 0 where
  pub origin : String
  pub outcomes : List ScenarioOutcome
  pub detections : List (String × ThreatGuardDetection)
  pub exit_code : ℕ

abbrev pub exit_of : List ScenarioOutcome → ℕ
exit_of outcomes = if required_failed outcomes then 1 else 0

abbrev pub demo_result : Evaluation → RunResult
demo_result e = record {
  origin = "SIMULATED";
  outcomes = e.outcomes;
  detections = e.detections;
  exit_code = exit_of e.outcomes;
}

abbrev pub live_result : CollectionResult × Evaluation → RunResult
live_result (collection, e) =
    let outcomes = corrected collection e.outcomes in
    record {
      origin = "LIVE";
      outcomes = outcomes;
      detections = e.detections;
      exit_code = if is_unavailable collection then 2 else exit_of outcomes;
    }

module _ (python_str : Json → String) (now : String) (parse_time : String → Option ℕ) where
  unfoldable pub events_in_window : (start finish : ℕ) → List Fields → List Fields
  unfolding find_field
  events_in_window start finish events =
      filter (λ e. in_window start finish (parse_time (python_str (field_or e "time" (str "")))))
        events

  abbrev pub window_of : Option ℕ → Option ℕ → List Fields → List Fields
  window_of (some start) (some finish) events = events_in_window start finish events
  window_of _ _ events = []

  -- The events of an executed run; a run that is missing has none.
  abbrev pub run_events : Option ScenarioRun → List Fields → List Fields
  run_events none events = []
  run_events (some run) events =
      if is_executed run
      then window_of (parse_time run.started_at) (parse_time run.ended_at) events
      else []

  unfoldable pub scenario_events :
      (mode : String) → Scenario → Option ScenarioRun → List Fields → List Fields
  unfolding events_in_window find_field
  scenario_events mode scenario run events =
      if mode == "demo"
      then filter (λ e. equals_text (field_or e "_scenario" null) scenario.id) events
      else run_events run events

  -- The detections of a new engine, which records nothing.
  unfoldable pub detect_all :
      DetectionEngine → List Fields → Result PyError (List ThreatGuardDetection)
  unfolding process_raw_tetragon_event
  detect_all engine [] = ok []
  detect_all engine (raw ∷ events) =
      let (outcome, engine') = process_raw_tetragon_event python_str now false engine (obj raw) in
      do d ← outcome; ds ← detect_all engine' events; ok (with_new d ds)

  unfoldable pub evaluate_one :
      (mode namespace : String)
      → List Fields
      → Scenario
      → Option ScenarioRun
      → Result PyError Evaluation
  unfolding scenario_events detect_all evaluate_scenario enforcement_observed
  evaluate_one mode namespace events scenario run =
      let own = scenario_events mode scenario run events in
      do
        ds ← detect_all (initial namespace) own
        ok record {
          outcomes =
              evaluate_scenario scenario run (map (λ d. d.detection_rule) ds)
                (enforcement_observed python_str own) (is_live mode) (some (length own))
              ∷ [];
          detections = map (λ d. (scenario.id, d)) ds;
        }

  unfoldable pub evaluate_all :
      (mode namespace : String)
      → Dict ScenarioRun
      → List Fields
      → List Scenario
      → Result PyError Evaluation
  unfolding evaluate_one Dict.get
  evaluate_all mode namespace runs events [] = ok record { outcomes = []; detections = [] }
  evaluate_all mode namespace runs events (scenario ∷ catalog) = do
    here ← evaluate_one mode namespace events scenario (Dict.get runs scenario.id)
    rest ← evaluate_all mode namespace runs events catalog
    ok (joined here rest)

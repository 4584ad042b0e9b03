-- ===== src/Examples/Runs.antt =====
-- The collection of events and the runs of the pipeline.
use cloud_native_threat_guar.Prelude.{
  ℕ, String, true, false, Option, none, some, List, [], ◌∷◌, ◌==◌, eqb, ◌≡◌, if◌then◌else◌,
}
use cloud_native_threat_guar.Prelude.Dict.{Dict}
use cloud_native_threat_guar.Prelude.Json.{Json, null, str, obj, arr, nil, Fields, end, field}
use cloud_native_threat_guar.Prelude.Python.{PyError, value_error}
use cloud_native_threat_guar.Prelude.Result.{Result, ok, err}
use cloud_native_threat_guar.Detection.Rules.Defaults.{shell_execution}
use cloud_native_threat_guar.Detection.Events.{detect}
use cloud_native_threat_guar.Runtime.Collector.{CollectionResult}
use cloud_native_threat_guar.Runtime.Scenarios.{Scenario, ScenarioRun}
use cloud_native_threat_guar.Runtime.Pipeline.{RunResult}
use cloud_native_threat_guar.Runtime.Pipeline.Run.{run_pipeline}
use cloud_native_threat_guar.Runtime.Pipeline.Waiting.{run_pipeline_ends}

abbrev shell_event : Fields
shell_event = field "time" (str "t5") (
    field "process_exec"
      (obj (
        field "process"
          (obj (
            field "binary" (str "/bin/sh") (
              field "pod" (obj (field "namespace" (str "prod") (field "name" (str "web") end)))
                end)))
          end))
      end)

abbrev loads : String → Option Json
loads line =
    if line == "event"
    then some (obj shell_event)
    else if line == "[]"
    then some (arr nil)
    else none

abbrev shown : Json → String
shown (str s) = s
shown _ = ""

abbrev same : String → String
same s = s

abbrev no_dict : Json → Result PyError Fields
no_dict v = err value_error

-- A stand-in for the digest, which raises on one text.
abbrev digest : String → Result PyError String
digest s = if s == "" then err value_error else ok s

abbrev stream : List String
stream = "event" ∷ "{" ∷ "event" ∷ "[]" ∷ []

-- The first collection is empty, the second one has the event.
abbrev collection_at : ℕ → CollectionResult
collection_at n = record {
  events = if eqb n 0 then [] else shell_event ∷ [];
  status = "ok";
  parse_errors = 0;
  duplicates_dropped = 0;
  dropped_other_pods = 0;
}

abbrev time_of : String → Option ℕ
time_of s = some 100000

abbrev catalog : List Scenario
catalog =
    record {
      id = "S1";
      name = "shell";
      script = "s.sh";
      required = true;
      expected_rules = "RUNTIME-001" ∷ [];
      expected_enforcement = "detect";
      timeout_seconds = 30;
    }
    ∷ []

abbrev runs : Dict ScenarioRun
runs =
    (
      "S1",
      record {
        scenario_id = "S1";
        status = "executed";
        exit_code = none;
        started_at = "a";
        ended_at = "b";
      },
    )
    ∷ []

run_pipeline_ends_example :
    (r : Result PyError RunResult) × (run_pipeline shown "now" time_of collection_at "prod" catalog
        45 "live" runs []
      ≡ some r)
run_pipeline_ends_example =
    run_pipeline_ends shown "now" time_of collection_at "prod" catalog 45 "live" runs []

abbrev late_result : RunResult
late_result = record {
  origin = "LIVE";
  outcomes =
      record {
        scenario_id = "S1";
        name = "shell";
        required = true;
        status = "passed";
        expected_rules = "RUNTIME-001" ∷ [];
        detected_rules = "RUNTIME-001" ∷ [];
        expected_enforcement = "detect";
        enforcement_observed = false;
        exit_code = none;
        reasons = [];
      }
      ∷ [];
  detections =
      (
        "S1",
        detect shell_execution (str "t5")
            record {
              namespace = str "prod";
              pod = str "web";
              container = str "";
              process = str "/bin/sh";
            }
            (str "process_exec") (str "/bin/sh")
            (field "binary" (str "/bin/sh") (
              field "arguments" (str "")
                (field "pid" null (field "uid" null (field "parent_process" (str "") end))))),
      )
      ∷ [];
  exit_code = 0;
}

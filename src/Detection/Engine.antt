-- ===== src/Detection/Engine.antt =====
-- `DetectionEngine` of src/cloudnative_threatguard/detection/engine.py: its state, the dispatch of one event,
-- the ingestion of a file, and the summary. `now` is the clock's time as a text, `loads` is `json.loads`,
-- which returns nothing where the line is no JSON.
pub mod Namespace
pub mod Accounting
pub mod Catalog
pub mod Classes
pub mod Errors
use cloud_native_threat_guar.Prelude.{
  ℕ, suc, ◌+◌, String, Bool, true, false, ◌||◌, Option, none, some, List, [], ◌∷◌, ◌++◌, length,
  if◌then◌else◌,
}
use cloud_native_threat_guar.Prelude.Dict
use cloud_native_threat_guar.Prelude.Dict.{Dict}
use cloud_native_threat_guar.Prelude.Json.{
  Json, null, str, arr, obj, Items, Fields, end, is_truthy, field_or,
}
use cloud_native_threat_guar.Prelude.Python.{PyError, attribute_error, type_error, has_key, strip}
use cloud_native_threat_guar.Prelude.Result.{Result, ok, err, ◌>>=◌}
use cloud_native_threat_guar.Prelude.Text.{truthy}
use cloud_native_threat_guar.Detection.Rules
use cloud_native_threat_guar.Detection.Rules.{DetectionRule, RuleRegistry}
use cloud_native_threat_guar.Detection.Rules.Defaults.{default_rules}
use cloud_native_threat_guar.Detection.Events.{ThreatGuardDetection, Subject, detect_json}
use cloud_native_threat_guar.Detection.Exec.{Outcome, handle_process_exec}
use cloud_native_threat_guar.Detection.Kprobe.{handle_kprobe}

pub record DetectionEngine : Type 0 where
  pub protected_namespace : String
  pub detections : List ThreatGuardDetection
  pub total_events_processed : ℕ

abbrev pub initial : String → DetectionEngine
initial protected = record {
  protected_namespace = protected;
  detections = [];
  total_events_processed = 0;
}

-- `rule_id and rule_id in self.rules`, and then the rule. A list or a dict is no key.
unfoldable pub rule_of : Json → Result PyError (Option DetectionRule)
unfolding Rules.register_all Rules.get
rule_of (str rule_id) = ok (Rules.get (Rules.register_all [] default_rules) rule_id)
rule_of (arr vs) = if is_truthy (arr vs) then err type_error else ok none
rule_of (obj fs) = if is_truthy (obj fs) then err type_error else ok none
rule_of _ = ok none

unfoldable pub handle_generic_event : (protected : String) (time : Json) → Fields → Outcome
unfolding rule_of detect_json
handle_generic_event protected time event = do
  found ← rule_of (field_or event "rule_id" null)
  elim found [
    | none ↦ ok none
    | some rule ↦ do
      detection ←
          detect_json rule time
            record {
              namespace = field_or event "namespace" (str protected);
              pod = field_or event "pod" (str "simulated-target");
              container = field_or event "container" (str "app");
              process = field_or event "process" (field_or event "binary" (str ""));
            }
            (field_or event "action" (str "detected")) (field_or event "command" (str ""))
            (field_or event "evidence" (obj end))
      ok (some detection)
  ]

-- `self.detections.append(det)`
abbrev pub append_detection : DetectionEngine → Option ThreatGuardDetection → DetectionEngine
append_detection engine none = engine
append_detection engine (some d) = record engine { detections = engine.detections ++ d ∷ [] }

abbrev pub count_event : DetectionEngine → DetectionEngine
count_event engine = record engine { total_events_processed = suc engine.total_events_processed }

abbrev pub recorded : Bool → DetectionEngine → Option ThreatGuardDetection → DetectionEngine
recorded keep engine d = if keep then append_detection engine d else engine

-- What a call leaves when the event's evaluation returned or raised.
abbrev pub settled : Bool → DetectionEngine → Outcome → Outcome × DetectionEngine
settled keep engine (ok d) = (ok d, recorded keep engine d)
settled keep engine (err e) = (err e, engine)

abbrev pub appended : Outcome × DetectionEngine → Outcome × DetectionEngine
appended (ok d, engine) = (ok d, append_detection engine d)
appended (err e, engine) = (err e, engine)

abbrev pub with_new :
    Option ThreatGuardDetection → List ThreatGuardDetection → List ThreatGuardDetection
with_new none ds = ds
with_new (some d) ds = d ∷ ds

abbrev pub Detections : Type 0
Detections = Result PyError (List ThreatGuardDetection)

-- A line's result and that of the lines after it: an exception leaves the loop, and what was appended stays.
abbrev pub followed :
    Outcome × DetectionEngine → Detections × DetectionEngine → Detections × DetectionEngine
followed (err e, engine) rest = (err e, engine)
followed (ok d, engine) (err e, after) = (err e, after)
followed (ok d, engine) (ok ds, after) = (ok (with_new d ds), after)

module _ (python_str : Json → String) (now : String) where
  unfoldable pub evaluate_raw_event : (protected : String) → Json → Outcome
  unfolding handle_process_exec handle_kprobe handle_generic_event
  evaluate_raw_event protected (obj event) =
      let time = field_or event "time" (str now) in
      let exec_event = field_or event "process_exec" null in
      let kprobe_event = field_or event "process_kprobe" null in
      if is_truthy exec_event
      then handle_process_exec python_str protected time exec_event
      else if is_truthy kprobe_event
      then handle_kprobe python_str protected time kprobe_event
      else if has_key event "binary" || has_key event "process"
      then handle_generic_event protected time event
      else ok none
  evaluate_raw_event protected _ = err attribute_error

  -- The counter moves before the event is read, so also where reading raises.
  unfoldable pub process_raw_tetragon_event :
      Bool → DetectionEngine → Json → Outcome × DetectionEngine
  unfolding evaluate_raw_event
  process_raw_tetragon_event keep engine raw =
      settled keep (count_event engine) (evaluate_raw_event engine.protected_namespace raw)

  module _ (loads : String → Option Json) where
    -- One line of the file: an empty line and a line that is no JSON are passed over.
    unfoldable pub ingest_line : DetectionEngine → String → Outcome × DetectionEngine
    unfolding process_raw_tetragon_event strip
    ingest_line engine line =
        if truthy (strip line)
        then elim (loads (strip line)) [
          | none ↦ (ok none, engine)
          | some event ↦ appended (process_raw_tetragon_event false engine event)
        ]
        else (ok none, engine)

    -- The lines of a file that exists, and the new detections in their order.
    unfoldable pub ingest_lines : DetectionEngine → List String → Detections × DetectionEngine
    unfolding ingest_line
    ingest_lines engine [] = (ok [], engine)
    ingest_lines engine (line ∷ lines) =
        let here = ingest_line engine line in followed here (ingest_lines here.1 lines)

abbrev or_zero : Option ℕ → ℕ
or_zero none = 0
or_zero (some n) = n

-- `counts.get(k, 0)`
unfoldable pub count_of : Dict ℕ → String → ℕ
unfolding Dict.get
count_of counts k = or_zero (Dict.get counts k)

-- `counts[k] = counts.get(k, 0) + 1`
unfoldable pub bump : Dict ℕ → String → Dict ℕ
unfolding Dict.put count_of
bump counts k = Dict.put counts k (suc (count_of counts k))

unfoldable pub tally : {A : Type 0} → (A → String) → Dict ℕ → List A → Dict ℕ
unfolding bump
tally key counts [] = counts
tally key counts (d ∷ ds) = tally key (bump counts (key d)) ds

abbrev pub no_severities : Dict ℕ
no_severities = ("CRITICAL", 0) ∷ ("HIGH", 0) ∷ ("MEDIUM", 0) ∷ ("LOW", 0) ∷ ("INFO", 0) ∷ []

pub record EngineSummary : Type 0 where
  pub total_detections : ℕ
  pub total_events_processed : ℕ
  pub by_severity : Dict ℕ
  pub by_rule : Dict ℕ
  pub by_technique : Dict ℕ

unfoldable pub get_summary : DetectionEngine → EngineSummary
unfolding tally
get_summary engine = record {
  total_detections = length engine.detections;
  total_events_processed = engine.total_events_processed;
  by_severity = tally (λ d. d.severity) no_severities engine.detections;
  by_rule = tally (λ d. d.detection_rule) [] engine.detections;
  by_technique = tally (λ d. d.mitre_technique) [] engine.detections;
}

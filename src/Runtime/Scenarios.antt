-- ===== src/Runtime/Scenarios.antt =====
-- src/cloudnative_threatguard/runtime/scenarios.py: the attack scenarios and the decision on each
-- one's outcome. A set of rule names is a list in which order and repetition mean nothing.
pub mod Decision
use cloud_native_threat_guar.Prelude.{
  ℕ, String, Bool, true, false, not, ◌&&◌, ◌||◌, Option, none, some, List, [], ◌∷◌, ◌++◌, ◌==◌, eqb,
  filter, is_empty, if◌then◌else◌,
}
use cloud_native_threat_guar.Prelude.Int.{ℤ, is_pos, decimal_int}
use cloud_native_threat_guar.Prelude.Sort.{sort_by}
use cloud_native_threat_guar.Prelude.Text.{member, distinct, concat, join}

pub record Scenario : Type 0 where
  pub id : String
  pub name : String
  pub script : String
  pub required : Bool
  pub expected_rules : List String
  pub expected_enforcement : String
  pub timeout_seconds : ℕ

pub record ScenarioRun : Type 0 where
  pub scenario_id : String
  pub status : String
  pub exit_code : Option ℤ
  pub started_at : String
  pub ended_at : String

pub record ScenarioOutcome : Type 0 where
  pub scenario_id : String
  pub name : String
  pub required : Bool
  pub status : String
  pub expected_rules : List String
  pub detected_rules : List String
  pub expected_enforcement : String
  pub enforcement_observed : Bool
  pub exit_code : Option ℤ
  pub reasons : List String

-- `EXIT_KILLED` is 128 + SIGKILL.
abbrev pub was_killed : Option ℤ → Bool
was_killed none = false
was_killed (some code) = is_pos code 137

abbrev pub exit_text : Option ℤ → String
exit_text none = "None"
exit_text (some code) = decimal_int code

abbrev pub identity : String → String
identity s = s

-- `sorted(set(expected) - detected)`
unfoldable pub missing_rules : List String → List String → List String
unfolding distinct sort_by
missing_rules expected detected =
    sort_by identity (filter (λ r. not (member r detected)) (distinct expected))

abbrev pub reason_if : Bool → String → List String
reason_if test reason = if test then reason ∷ [] else []

-- The reasons of the enforcement check.
unfoldable pub enforcement_reasons : Scenario → ScenarioRun → Bool → Bool → List String
unfolding concat decimal_int
enforcement_reasons scenario run enforcement_seen check_exit_code =
    if scenario.expected_enforcement == "block"
    then reason_if (check_exit_code && not (was_killed run.exit_code)) (
        concat
          ("expected the process to be killed (exit 137), got " ∷ exit_text run.exit_code ∷ []))
      ++ reason_if (not enforcement_seen)
          "no kill evidence (SIGKILL) in the sensor events for this scenario"
    else reason_if (check_exit_code && was_killed run.exit_code)
        "process was killed (exit 137) but this scenario does not expect enforcement"

abbrev pub saw_nothing : Option ℕ → Bool
saw_nothing none = false
saw_nothing (some n) = eqb n 0

-- The reasons of the detection check.
unfoldable pub detection_reasons : Scenario → List String → Option ℕ → List String
unfolding missing_rules concat join sort_by distinct
detection_reasons scenario detected_rules events_seen =
    let missing = missing_rules scenario.expected_rules detected_rules in
    reason_if (not (is_empty missing))
      (concat ("expected detection(s) not observed: " ∷ join ", " missing ∷ []))
    ++ (if not (is_empty scenario.expected_rules)
        then []
        else if not (is_empty detected_rules)
        then concat (
            "false alert on benign control: "
            ∷ join ", " (sort_by identity (distinct detected_rules))
            ∷ [])
          ∷ []
        else reason_if (saw_nothing events_seen)
            "no sensor events observed for the benign command; silence cannot be confirmed")

abbrev pub run_code : Option ScenarioRun → Option ℤ
run_code none = none
run_code (some run) = run.exit_code

-- The outcome with its status and reasons still to be filled in.
abbrev pub outcome_of :
    Scenario → Option ScenarioRun → List String → Bool → String → List String → ScenarioOutcome
outcome_of scenario run detected_rules enforcement_seen status reasons = record {
  scenario_id = scenario.id;
  name = scenario.name;
  required = scenario.required;
  status = status;
  expected_rules = scenario.expected_rules;
  detected_rules = sort_by identity (distinct detected_rules);
  expected_enforcement = scenario.expected_enforcement;
  enforcement_observed = enforcement_seen;
  exit_code = run_code run;
  reasons = reasons;
}

abbrev pub was_stopped : ScenarioRun → Bool
was_stopped run = run.status == "blocked" || run.status == "skipped"

unfoldable pub evaluate_scenario :
    (scenario : Scenario) (run : Option ScenarioRun) (detected_rules : List String)
    (enforcement_seen check_exit_code : Bool) (events_seen : Option ℕ)
    → ScenarioOutcome
unfolding concat enforcement_reasons detection_reasons
evaluate_scenario scenario none detected_rules enforcement_seen check_exit_code events_seen =
    outcome_of scenario none detected_rules enforcement_seen "not_run"
      ("scenario was planned but never executed" ∷ [])
evaluate_scenario scenario (some run) detected_rules enforcement_seen check_exit_code events_seen =
    let reasons =
      enforcement_reasons scenario run enforcement_seen check_exit_code
      ++ detection_reasons scenario detected_rules events_seen in
    if was_stopped run
    then outcome_of scenario (some run) detected_rules enforcement_seen run.status
        (concat ("scenario " ∷ run.status ∷ " by the orchestrator" ∷ []) ∷ [])
    else outcome_of scenario (some run) detected_rules enforcement_seen
        (if is_empty reasons then "passed" else "failed") reasons

-- ===== src/Reporting/Scorecard.antt =====
-- src/cloudnative_threatguard/reporting/scorecard.py: the scorecard of one validation run. The evidence is what
-- the files held, in the types in which the run writes them: `none` is a file that is missing, unreadable or no
-- object, and an optional field a key that may be missing. What the report only copies from the evidence is left
-- out. `parse_time` is `datetime.fromisoformat` as a number
-- of seconds in UTC, `rate` a percentage rounded to a tenth.
pub mod Verdict
use cloud_native_threat_guar.Prelude.{
  ℕ, ◌+◌, ◌-◌, String, Bool, true, false, not, ◌&&◌, ◌||◌, Option, none, some, List, [], ◌∷◌, ◌++◌,
  ◌==◌, eqb, ltb, length, is_empty, filter, all, any, count_if, if◌then◌else◌,
}
use cloud_native_threat_guar.Prelude.Dict
use cloud_native_threat_guar.Prelude.Dict.{Dict}
use cloud_native_threat_guar.Prelude.Sort.{sort_by}
use cloud_native_threat_guar.Prelude.Text.{member, distinct, truthy, starts_with, utc_offset}

pub record AdmissionResults : Type 0 where
  pub is_filled : Bool
  pub status : Option String
  pub run_id : Option String
  pub evidence_mode : Option String
  pub total : ℕ
  pub blocked : ℕ
  pub allowed : ℕ

-- `required` is true where the key is missing.
pub record ScenarioRow : Type 0 where
  pub status : Option String
  pub required : Bool
  pub expected_rules : List String
  pub detected_rules : List String

pub record RunManifest : Type 0 where
  pub is_filled : Bool
  pub scenarios : List ScenarioRow
  pub origin : String
  pub run_id : String
  pub evidence_mode : Option String
  pub captured_at : Option String
  pub collector_status : String

pub record EventRow : Type 0 where
  pub rule_id : String
  pub severity : String

-- The empty dict, with the defaults of its keys.
abbrev pub no_admission : AdmissionResults
no_admission = record {
  is_filled = false;
  status = none;
  run_id = none;
  evidence_mode = none;
  total = 0;
  blocked = 0;
  allowed = 0;
}

abbrev pub no_manifest : RunManifest
no_manifest = record {
  is_filled = false;
  scenarios = [];
  origin = "UNKNOWN";
  run_id = "";
  evidence_mode = none;
  captured_at = none;
  collector_status = "unknown";
}

abbrev pub is_missing {ℓ} : {A : Type ℓ} → Option A → Bool
is_missing none = true
is_missing (some a) = false

abbrev pub given {ℓ} : {A : Type ℓ} → A → Option A → A
given default none = default
given default (some a) = a

-- `value == text`
abbrev pub is_text : Option String → String → Bool
is_text none t = false
is_text (some s) t = s == t

unfoldable pub admission_ok : AdmissionResults → Bool
admission_ok admission = elim admission.status [
  | some status ↦ status == "PASS"
  | none ↦ ltb 0 admission.total && eqb admission.blocked admission.total && eqb admission.allowed 0
]

abbrev pub note : Bool → String → List String
note b text = if b then text ∷ [] else []

-- The issues in the order in which they are found.
unfoldable pub issues_of :
    Option AdmissionResults → Option RunManifest → (captured : Option ℕ) → List String
issues_of loaded_admission loaded_manifest captured =
    let admission = given no_admission loaded_admission in
    let manifest = given no_manifest loaded_manifest in
    let both = admission.is_filled && manifest.is_filled in
    note (is_missing loaded_admission) "admission results are missing or unreadable"
    ++ (note (is_missing loaded_manifest) "runtime run manifest is missing or unreadable"
        ++ (note (both && not (is_text admission.run_id manifest.run_id))
              "admission and runtime evidence come from different runs"
            ++ (note
                  (both
                    && (is_text manifest.evidence_mode "live"
                        && not (is_text admission.evidence_mode "live")))
                  "live runtime evidence paired with non-live admission evidence"
                ++ note (manifest.is_filled && is_missing captured)
                    "run manifest has no capture time")))

pub data OverallStatus : Type 0 where
  pass fail incomplete stale : OverallStatus

abbrev pub is_pass : OverallStatus → Bool
is_pass pass = true
is_pass _ = false

abbrev pub with_status : String → ScenarioRow → Bool
with_status status row = is_text row.status status

abbrev pub never_ran : ScenarioRow → Bool
never_ran row = with_status "not_run" row || with_status "blocked" row || with_status "skipped" row

unfoldable pub count_never_ran : List ScenarioRow → ℕ
count_never_ran rows =
    count_if (with_status "not_run") rows
    + count_if (with_status "blocked") rows
    + count_if (with_status "skipped") rows

abbrev pub required_rows : List ScenarioRow → List ScenarioRow
required_rows rows = filter (λ row. row.required) rows

unfoldable pub required_passed : List ScenarioRow → Bool
required_passed rows =
    not (is_empty (required_rows rows)) && all (with_status "passed") (required_rows rows)

abbrev pub collector_ok : RunManifest → Bool
collector_ok manifest = member manifest.collector_status ("ok" ∷ "not_applicable" ∷ [])

unfoldable pub overall_of :
    (issues : List String) (is_stale : Bool) → AdmissionResults → RunManifest → OverallStatus
unfolding admission_ok required_passed count_never_ran
overall_of issues is_stale admission manifest =
    if not (is_empty issues) || is_empty manifest.scenarios
    then incomplete
    else if is_stale
    then stale
    else if not (eqb (count_never_ran manifest.scenarios) 0)
        && any (λ row. row.required && never_ran row) manifest.scenarios
    then incomplete
    else if (admission.is_filled && admission_ok admission)
        && (required_passed manifest.scenarios && collector_ok manifest)
    then pass
    else fail

pub record Scorecard : Type 0 where
  pub overall_status : OverallStatus
  pub origin : String
  pub live_acceptance : Bool
  pub run_id : String
  pub issues : List String
  pub admission_status : String
  pub enforcement_rate : ℕ
  pub total_scenarios : ℕ
  pub detected : ℕ
  pub missed : ℕ
  pub detection_rate : ℕ
  pub failed : ℕ
  pub blocked : ℕ
  pub skipped : ℕ
  pub not_run : ℕ
  pub expected_rules : List String
  pub covered_rules : List String
  pub coverage_rate : ℕ
  pub detections_by_severity : Dict ℕ
  pub total_runtime_events : ℕ

abbrev identity : String → String
identity s = s

unfoldable pub all_rules : (ScenarioRow → List String) → List ScenarioRow → List String
all_rules rules [] = []
all_rules rules (row ∷ rows) = rules row ++ all_rules rules rows

unfoldable pub expected_of : List ScenarioRow → List String
unfolding all_rules distinct sort_by
expected_of rows = sort_by identity (distinct (all_rules (λ row. row.expected_rules) rows))

unfoldable pub covered_of : List ScenarioRow → List String
unfolding all_rules distinct sort_by
covered_of rows = sort_by identity (
    distinct
      (filter (λ r. member r (expected_of rows)) (all_rules (λ row. row.detected_rules) rows)))

abbrev pub is_runtime : EventRow → Bool
is_runtime ev = starts_with ev.rule_id "RUNTIME-"

unfoldable pub count_severities : Dict ℕ → List EventRow → Dict ℕ
unfolding Dict.get Dict.put
count_severities counts [] = counts
count_severities counts (ev ∷ events) =
    count_severities
      (if is_runtime ev
        then Dict.put counts ev.severity (given 0 (Dict.get counts ev.severity) + 1)
        else counts)
      events

module _ (parse_time : String → Option ℕ) (rate : ℕ → ℕ → ℕ) (now max_age : ℕ) where
  unfoldable pub parse_ts : Option String → Option ℕ
  unfolding utc_offset
  parse_ts none = none
  parse_ts (some value) = if truthy value then parse_time (utc_offset value) else none

  abbrev pub is_older : Option ℕ → Bool
  is_older none = false
  is_older (some captured) = ltb (captured + max_age) now

  unfoldable pub generate_scorecard :
      Option AdmissionResults → Option RunManifest → List EventRow → Scorecard
  unfolding parse_ts issues_of overall_of admission_ok expected_of covered_of count_severities
  generate_scorecard loaded_admission loaded_manifest events =
      let admission = given no_admission loaded_admission in
      let manifest = given no_manifest loaded_manifest in
      let rows = manifest.scenarios in
      let captured = parse_ts manifest.captured_at in
      let issues = issues_of loaded_admission loaded_manifest captured in
      let overall = overall_of issues (is_older captured) admission manifest in
      let passed = count_if (with_status "passed") rows in
      let expected = expected_of rows in
      let covered = covered_of rows in
      record {
        overall_status = overall;
        origin = manifest.origin;
        live_acceptance = is_pass overall && manifest.origin == "LIVE";
        run_id = manifest.run_id;
        issues = issues ++ note (is_older captured) "evidence is older than the allowed age";
        admission_status =
            if admission.is_filled && admission_ok admission
            then "PASS"
            else if admission.is_filled
            then "FAIL"
            else "MISSING";
        enforcement_rate =
            if eqb admission.total 0 then 0 else rate admission.blocked admission.total;
        total_scenarios = length rows;
        detected = passed;
        missed = length rows - passed;
        detection_rate = if is_empty rows then 0 else rate passed (length rows);
        failed = count_if (with_status "failed") rows;
        blocked = count_if (with_status "blocked") rows;
        skipped = count_if (with_status "skipped") rows;
        not_run = count_if (with_status "not_run") rows;
        expected_rules = expected;
        covered_rules = covered;
        coverage_rate = if is_empty expected then 0 else rate (length covered) (length expected);
        detections_by_severity = count_severities [] events;
        total_runtime_events = count_if is_runtime events;
      }

-- ===== src/Runtime/Pipeline/Outcomes.antt =====
-- The outcomes of the scenarios through the evaluation and the corrections, and the exit code.
use cloud_native_threat_guar.Prelude.{
  ℕ, String, Bool, true, false, not, ◌&&◌, ◌||◌, Option, none, some, List, [], ◌∷◌, ◌++◌, ◌≡◌, refl,
  ap, ◌∙◌, map, all, any, eqb, is_empty, Bool-cases, inl, inr, arith, ◌==◌,
}
use cloud_native_threat_guar.Prelude.Dict
use cloud_native_threat_guar.Prelude.Dict.{Dict}
use cloud_native_threat_guar.Prelude.Json.{Json, Fields}
use cloud_native_threat_guar.Prelude.Result.{ok, Returns, bind-Returns, always-Returns}
use cloud_native_threat_guar.Prelude.Text.{contains}
use cloud_native_threat_guar.Detection.Engine.{initial}
use cloud_native_threat_guar.Runtime.Collector.{CollectionResult}
use cloud_native_threat_guar.Runtime.Scenarios.{
  Scenario, ScenarioRun, ScenarioOutcome, was_stopped, evaluate_scenario,
}
use cloud_native_threat_guar.Runtime.Pipeline.{
  Evaluation, failed, is_unavailable, has_kprobes, add_hint, block, corrected, required_failed,
  exit_of, RunResult, demo_result, live_result, scenario_events, detect_all, evaluate_one, joined,
  evaluate_all,
}
use cloud_native_threat_guar.Runtime.Pipeline.Run.{Attempt}

abbrev pub ids : List ScenarioOutcome → List String
ids outcomes = map (λ o. o.scenario_id) outcomes

abbrev pub planned : List Scenario → List String
planned catalog = map (λ s. s.id) catalog

map-append_ids : (xs ys : List ScenarioOutcome) → ids (xs ++ ys) ≡ ids xs ++ ids ys
map-append_ids [] ys = refl
map-append_ids (x ∷ xs) ys = ap (λ l. x.scenario_id ∷ l) (map-append_ids xs ys)

evaluate_scenario-id :
    (scenario : Scenario) (run : Option ScenarioRun) (rules : List String) (seen check : Bool)
    (n : Option ℕ)
    → (evaluate_scenario scenario run rules seen check n).scenario_id ≡ scenario.id
unfolding evaluate_scenario
evaluate_scenario-id scenario none rules seen check n = refl
evaluate_scenario-id scenario (some run) rules seen check n = elim (Bool-cases (was_stopped run)) [
  | inl e ↦ rw e refl
  | inr e ↦ rw e refl
]

module _ (python_str : Json → String) (now : String) (parse_time : String → Option ℕ)
    (mode namespace : String) where
  evaluate_one-ids :
      (events : List Fields) (scenario : Scenario) (run : Option ScenarioRun)
      → Returns
          (λ e. ids e.outcomes ≡ scenario.id ∷ [])
          (evaluate_one python_str now parse_time mode namespace events scenario run)
  unfolding evaluate_one
  evaluate_one-ids events scenario run =
      always-Returns (λ e. ids e.outcomes ≡ scenario.id ∷ [])
        (detect_all python_str now parse_time (initial namespace)
          (scenario_events python_str now parse_time mode scenario run events))
        _ (λ ds. ap (λ i. i ∷ []) (evaluate_scenario-id scenario run _ _ _ _))

  pub evaluate_all-ids :
      (runs : Dict ScenarioRun) (events : List Fields) (catalog : List Scenario)
      → Returns
          (λ e. ids e.outcomes ≡ planned catalog)
          (evaluate_all python_str now parse_time mode namespace runs events catalog)
  unfolding evaluate_all
  evaluate_all-ids runs events [] = refl
  evaluate_all-ids runs events (scenario ∷ catalog) =
      bind-Returns (λ e. ids e.outcomes ≡ scenario.id ∷ [])
        (λ e. ids e.outcomes ≡ planned (scenario ∷ catalog))
        (evaluate_one python_str now parse_time mode namespace events scenario
          (Dict.get runs scenario.id))
        _ (evaluate_one-ids events scenario (Dict.get runs scenario.id))
        (λ here h.
          bind-Returns (λ e. ids e.outcomes ≡ planned catalog)
            (λ e. ids e.outcomes ≡ planned (scenario ∷ catalog))
            (evaluate_all python_str now parse_time mode namespace runs events catalog)
            (λ rest. ok (joined here rest)) (evaluate_all-ids runs events catalog)
            (λ rest hr. rw (map-append_ids here.outcomes rest.outcomes, h, hr) refl))

block-id : (o : ScenarioOutcome) → (block o).scenario_id ≡ o.scenario_id
block-id o = elim (Bool-cases (o.status == "passed" || o.status == "failed")) [
  | inl e ↦ rw e refl
  | inr e ↦ rw e refl
]

add_hint-id : (o : ScenarioOutcome) → (add_hint o).scenario_id ≡ o.scenario_id
add_hint-id o =
    elim (Bool-cases
      (failed o && any (λ r. contains r "not observed" || contains r "kill evidence") o.reasons)) [
        | inl e ↦ rw e refl
        | inr e ↦ rw e refl
      ]

map-ids :
    (f : ScenarioOutcome → ScenarioOutcome) (os : List ScenarioOutcome)
    → ((o : ScenarioOutcome) → (f o).scenario_id ≡ o.scenario_id)
    → ids (map f os) ≡ ids os
map-ids f [] h = refl
map-ids f (o ∷ os) h = rw (h o, map-ids f os h) refl

corrected-ids :
    (collection : CollectionResult) (os : List ScenarioOutcome)
    → ids (corrected collection os) ≡ ids os
unfolding corrected
corrected-ids collection os = elim (Bool-cases (is_unavailable collection)) [
  | inl e ↦ rw e (map-ids block os block-id)
  | inr e ↦ elim (Bool-cases (not (is_empty collection.events) && not (has_kprobes collection))) [
    | inl e2 ↦ rw (e, e2) (map-ids add_hint os add_hint-id)
    | inr e2 ↦ rw (e, e2) refl
  ]
]

abbrev passed : ScenarioOutcome → Bool
passed o = o.status == "passed"

block-passed : (o : ScenarioOutcome) → passed (block o) ≡ false
block-passed o = elim (Bool-cases (o.status == "passed" || o.status == "failed")) [
  | inl e ↦ rw e refl
  | inr e ↦ rw e (ground (arith, e))
]

blocked-any : (os : List ScenarioOutcome) → any passed (map block os) ≡ false
blocked-any [] = refl
blocked-any (o ∷ os) = rw (block-passed o, blocked-any os) refl

none_failed :
    (os : List ScenarioOutcome)
    → required_failed os ≡ not (all (λ o. not o.required || passed o) os)
none_failed [] = refl
none_failed (o ∷ os) = ground (arith, none_failed os)

-- The exit code, and the outcomes of the planned scenarios in their order.
abbrev pub IsJudged : List Scenario → RunResult → Type 0
IsJudged catalog r =
    (ids r.outcomes ≡ planned catalog)
    × (eqb r.exit_code 0
        ≡ (not (eqb r.exit_code 2) && all (λ o. not o.required || o.status == "passed") r.outcomes))
    × ((eqb r.exit_code 2 && any (λ o. o.status == "passed") r.outcomes) ≡ false)

exit_of-zero :
    (os : List ScenarioOutcome)
    → (eqb (exit_of os) 0 ≡ all (λ o. not o.required || passed o) os) × (eqb (exit_of os) 2 ≡ false)
exit_of-zero os = elim (Bool-cases (all (λ o. not o.required || passed o) os)) [
  | inl e ↦ rw (none_failed os, e) (refl, refl)
  | inr e ↦ rw (none_failed os, e) (refl, refl)
]

pub demo-IsJudged :
    (catalog : List Scenario) (e : Evaluation)
    → ids e.outcomes ≡ planned catalog
    → IsJudged catalog (demo_result e)
demo-IsJudged catalog e h = let z = exit_of-zero e.outcomes in (h, rw z.1 z.0, rw z.1 refl)

gone-IsJudged :
    (catalog : List Scenario) (collection : CollectionResult) (e : Evaluation)
    → ids e.outcomes ≡ planned catalog
    → is_unavailable collection ≡ true
    → IsJudged catalog (live_result (collection, e))
unfolding corrected
gone-IsJudged catalog collection e h gone =
    rw gone (map-ids block e.outcomes block-id ∙ h, refl, blocked-any e.outcomes)

pub live-IsJudged :
    (catalog : List Scenario) (a : Attempt)
    → ids a.1.outcomes ≡ planned catalog
    → IsJudged catalog (live_result a)
live-IsJudged catalog (collection, e) h = elim (Bool-cases (is_unavailable collection)) [
  | inl gone ↦ gone-IsJudged catalog collection e h gone
  | inr there ↦
      let z = exit_of-zero (corrected collection e.outcomes) in
      rw there (corrected-ids collection e.outcomes ∙ h, rw z.1 z.0, rw z.1 refl)
]

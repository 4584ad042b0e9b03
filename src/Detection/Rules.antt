-- ===== src/Detection/Rules.antt =====
-- src/cloudnative_threatguard/detection/rules.py: detection rules, their evaluation on an event, and their
-- registry. A predicate is a function that returns a truth value or raises (`none`).
pub mod Defaults
pub mod Registry
pub mod Matching
use cloud_native_threat_guar.Prelude.{
  ℕ, String, Bool, true, false, not, ◌&&◌, ◌||◌, Option, none, some, List, [], ◌∷◌, ◌==◌, filter,
  is_empty, if◌then◌else◌,
}
use cloud_native_threat_guar.Prelude.Dict
use cloud_native_threat_guar.Prelude.Dict.{Dict}
use cloud_native_threat_guar.Prelude.Json.{Json, str, Fields, is_truthy, or_json, field_or}
use cloud_native_threat_guar.Prelude.Python.{PyError, basename, text_in, equals_text}
use cloud_native_threat_guar.Prelude.Result.{Result, ok, err, ◌>>=◌}
use cloud_native_threat_guar.Prelude.Text.{lower, member}

-- `confidence` is in hundredths.
pub record DetectionRule : Type 0 where
  pub rule_id : String
  pub name : String
  pub description : String
  pub severity : String
  pub confidence : ℕ
  pub mitre_technique : String
  pub mitre_tactic : String
  pub technique_name : String
  pub event_source : String
  pub event_type : String
  pub enabled : Bool
  pub target_binaries : List String
  pub target_paths : List String
  pub predicate : Option (Fields → Option Bool)
  pub false_positive_considerations : String
  pub recommended_response : String

-- `v in texts`
abbrev pub json_member : Json → List String → Bool
json_member v [] = false
json_member v (t ∷ texts) = equals_text v t || json_member v texts

-- The loop over the target paths.
unfoldable pub any_in : Json → List String → Result PyError Bool
unfolding text_in
any_in path [] = ok false
any_in path (target ∷ targets) =
    let rest = any_in path targets in
    do found ← text_in target path; if found then ok true else rest

unfoldable pub matches_path : DetectionRule → Json → Result PyError Bool
unfolding any_in
matches_path rule path =
    if is_truthy path && not (is_empty rule.target_paths)
    then any_in path rule.target_paths
    else ok false

unfoldable pub matches_binary : DetectionRule → Json → Result PyError Bool
unfolding basename lower
matches_binary rule binary =
    if is_truthy binary && not (is_empty rule.target_binaries)
    then (do
      base ← basename binary
      ok (member (lower base) rule.target_binaries || json_member binary rule.target_binaries))
    else ok false

-- The default matching, by the name of the binary and then by the path.
unfoldable pub matches_default : DetectionRule → Fields → Result PyError Bool
unfolding matches_binary matches_path
matches_default rule ctx =
    let path = or_json (field_or ctx "path" (str "")) (field_or ctx "file_path" (str "")) in
    do
      found ←
          matches_binary rule
            (or_json (field_or ctx "binary" (str "")) (field_or ctx "process" (str "")))
      if found then ok true else matches_path rule path

unfoldable pub evaluate : DetectionRule → Fields → Result PyError Bool
unfolding matches_default
evaluate rule ctx = if not rule.enabled then ok false else elim rule.predicate [
  | none ↦ matches_default rule ctx
  | some predicate ↦ elim (predicate ctx) [ none ↦ ok false | some found ↦ ok found ]
]

abbrev pub RuleRegistry : Type 0
RuleRegistry = Dict DetectionRule

unfoldable pub register : RuleRegistry → DetectionRule → RuleRegistry
unfolding Dict.put
register reg rule = Dict.put reg rule.rule_id rule

unfoldable pub get : RuleRegistry → String → Option DetectionRule
unfolding Dict.get
get reg rule_id = Dict.get reg rule_id

unfoldable pub list_rules : RuleRegistry → Bool → List DetectionRule
unfolding Dict.values
list_rules reg enabled_only =
    if enabled_only then filter (λ r. r.enabled) (Dict.values reg) else Dict.values reg

-- `self._rules[rule_id].enabled = flag`, if the rule is there.
unfoldable pub set_enabled : Bool → RuleRegistry → String → Bool × RuleRegistry
unfolding Dict.get Dict.put
set_enabled flag reg rule_id = elim (Dict.get reg rule_id) [
  | none ↦ (false, reg)
  | some rule ↦ (true, Dict.put reg rule_id (record rule { enabled = flag }))
]

unfoldable pub enable_rule : RuleRegistry → String → Bool × RuleRegistry
unfolding set_enabled
enable_rule reg rule_id = set_enabled true reg rule_id

unfoldable pub disable_rule : RuleRegistry → String → Bool × RuleRegistry
unfolding set_enabled
disable_rule reg rule_id = set_enabled false reg rule_id

unfoldable pub register_all : RuleRegistry → List DetectionRule → RuleRegistry
unfolding register
register_all reg [] = reg
register_all reg (rule ∷ rules) = register_all (register reg rule) rules

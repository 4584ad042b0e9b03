-- ===== src/Detection/Engine/Catalog.antt =====
-- Which of the rules of rules.py match a binary, by the names that the engine tests.
use cloud_native_threat_guar.Prelude.{
  String, Bool, true, false, Option, none, some, List, [], ◌∷◌, ◌≡◌, refl, sym, if◌then◌else◌, ◌==◌,
  is_empty, Bool-cases, inl, inr, not, ◌&&◌, arith, subst, eq_iff,
}
use cloud_native_threat_guar.Prelude.Json.{Fields, find_field}
use cloud_native_threat_guar.Prelude.Python.{PyError}
use cloud_native_threat_guar.Prelude.Result.{Result, ok, err}
use cloud_native_threat_guar.Prelude.Text.{member, lower, last_part, after_last}
use cloud_native_threat_guar.Prelude.Paths.{has_char}
use cloud_native_threat_guar.Detection.Rules.{
  DetectionRule, evaluate, matches_default, matches_binary, matches_path,
}
use cloud_native_threat_guar.Detection.Rules.Defaults.{
  shell_execution, network_utility, reconnaissance, privilege_escalation, cryptomining,
  sensitive_access, outbound_connection, violation_burst, package_manager, namespace_escape,
  default_rules,
}
use cloud_native_threat_guar.Detection.Rules.Matching.{of_binary, base_name, matches_names}
use cloud_native_threat_guar.Detection.Exec.{
  shells, network_tools, reconnaissance_tools, escalation_tools, miners,
}

-- The five rules that `_handle_process_exec` names, in its order. The registry, `self.rules`, holds ten, of which
-- RULE-K8S-007 and RULE-K8S-008 are on started processes too: the engine does not apply them.
abbrev pub exec_rules : List DetectionRule
exec_rules =
    shell_execution ∷ network_utility ∷ reconnaissance ∷ privilege_escalation ∷ cryptomining ∷ []

abbrev matched : Result PyError Bool → Bool
matched (ok found) = found
matched (err e) = false

-- The first rule of a list that `DetectionRule.evaluate` matches.
unfoldable pub first_rule : List DetectionRule → Fields → Option String
unfolding evaluate
first_rule [] ctx = none
first_rule (rule ∷ rules) ctx =
    let rest = first_rule rules ctx in
    if matched (evaluate rule ctx) then some rule.rule_id else rest

-- The names that the engine tests are those that each of its rules matches by `evaluate`.
evaluate-names :
    (binary : String)
    → (evaluate shell_execution (of_binary binary) ≡ ok (member (base_name binary) shells))
      × (evaluate network_utility (of_binary binary) ≡ ok (member (base_name binary) network_tools))
      × (evaluate reconnaissance (of_binary binary)
          ≡ ok (member (base_name binary) reconnaissance_tools))
      × (evaluate privilege_escalation (of_binary binary)
          ≡ ok (member (base_name binary) escalation_tools))
      × (evaluate cryptomining (of_binary binary) ≡ ok (member (base_name binary) miners))
unfolding evaluate lower last_part after_last has_char
evaluate-names binary = (
  matches_names shell_execution shells binary refl refl refl refl refl,
  matches_names network_utility network_tools binary refl refl refl refl refl,
  matches_names reconnaissance reconnaissance_tools binary refl refl refl refl refl,
  matches_names privilege_escalation escalation_tools binary refl refl refl refl refl,
  matches_names cryptomining miners binary refl refl refl refl refl,
)

abbrev package_managers : List String
package_managers = "apt" ∷ "apt-get" ∷ "apk" ∷ "yum" ∷ "dnf" ∷ "pip" ∷ []

unfoldable pub class_of : String → Option String
class_of base =
    if member base shells
    then some "RUNTIME-001"
    else if member base network_tools
    then some "RUNTIME-002"
    else if member base reconnaissance_tools
    then some "RUNTIME-003"
    else if member base escalation_tools
    then some "RUNTIME-005"
    else if member base miners
    then some "RUNTIME-007"
    else none

pub first_rule-class_of :
    (binary : String) → first_rule exec_rules (of_binary binary) ≡ class_of (base_name binary)
unfolding first_rule class_of
first_rule-class_of binary =
    let named = evaluate-names binary in rw (named.0, named.1, named.2, named.3, named.4) refl

-- The first id of two.
abbrev pub or_rule : Option String → Option String → Option String
or_rule none other = other
or_rule (some rule_id) other = some rule_id

unnamed :
    (rule : DetectionRule) (binary : String)
    → is_empty rule.target_binaries ≡ true
    → matches_default rule (of_binary binary) ≡ ok false
unfolding matches_default matches_binary matches_path find_field
unnamed rule binary h = elim (Bool-cases (binary == "")) [
  | inl e ↦
      subst (λ b. matches_default rule (of_binary b) ≡ ok false) (sym ((eq_iff binary "").0 e)) refl
  | inr e ↦ rw (e, h, e) refl
]

-- The names of the two rules on started processes that the engine leaves out.
left_out-names :
    (binary : String)
    → (evaluate package_manager (of_binary binary)
        ≡ ok (member (base_name binary) package_managers))
      × (evaluate namespace_escape (of_binary binary)
          ≡ ok (member (base_name binary) ("nsenter" ∷ [])))
unfolding evaluate lower last_part after_last has_char
left_out-names binary = (
  matches_names package_manager package_managers binary refl refl refl refl refl,
  matches_names namespace_escape ("nsenter" ∷ []) binary refl refl refl refl refl,
)

never_named :
    (binary : String)
    → (evaluate sensitive_access (of_binary binary) ≡ ok false)
      × (evaluate outbound_connection (of_binary binary) ≡ ok false)
      × (evaluate violation_burst (of_binary binary) ≡ ok false)
unfolding evaluate
never_named binary = (
  unnamed sensitive_access binary refl,
  unnamed outbound_connection binary refl,
  unnamed violation_burst binary refl,
)

-- The order of the tests, where the last name is one of the fourth test.
branches :
    (a b c d e f g : Bool)
    → (g && not d) ≡ false
    → (if a
        then some "RUNTIME-001"
        else if b
        then some "RUNTIME-002"
        else if c
        then some "RUNTIME-003"
        else if d
        then some "RUNTIME-005"
        else if e
        then some "RUNTIME-007"
        else if f
        then some "RULE-K8S-007"
        else if g
        then some "RULE-K8S-008"
        else none)
      ≡ or_rule
          (if a
            then some "RUNTIME-001"
            else if b
            then some "RUNTIME-002"
            else if c
            then some "RUNTIME-003"
            else if d
            then some "RUNTIME-005"
            else if e
            then some "RUNTIME-007"
            else none)
          (if f then some "RULE-K8S-007" else none)
branches true b c d e f g h = refl
branches false true c d e f g h = refl
branches false false true d e f g h = refl
branches false false false true e f g h = refl
branches false false false false true f g h = refl
branches false false false false false true g h = refl
branches false false false false false false false h = refl
branches false false false false false false true h = ground (arith, h)

escape-name :
    (base : String) → (member base ("nsenter" ∷ []) && not (member base escalation_tools)) ≡ false
escape-name base = ground arith

pub first_rule-default :
    (binary : String)
    → first_rule default_rules (of_binary binary)
      ≡ or_rule (class_of (base_name binary)) (first_rule (package_manager ∷ []) (of_binary binary))
unfolding first_rule class_of
first_rule-default binary =
    let named = evaluate-names binary in
    let left = left_out-names binary in
    let base : String = base_name binary in
    let never = never_named binary in
    rw (named.0, named.1, named.2, named.3, named.4, left.0, left.1, never.0, never.1)
      (branches (member base shells) (member base network_tools) (member base reconnaissance_tools)
        (member base escalation_tools) (member base miners) (member base package_managers)
        (member base ("nsenter" ∷ [])) (escape-name base))

-- ===== src/Detection/Engine/Classes.antt =====
-- Which rule the engine gives to a started process: its tests on the base name against the rules of rules.py.
use cloud_native_threat_guar.Prelude.{
  String, Bool, true, false, Option, none, some, [], ◌∷◌, ◌≡◌, refl, sym, ◌∙◌, if◌then◌else◌,
}
use cloud_native_threat_guar.Prelude.Json.{Json, str, obj, Fields, end, field_or}
use cloud_native_threat_guar.Prelude.Python.{PyError, get_of, basename}
use cloud_native_threat_guar.Prelude.Result.{Result, ok, ◌>>=◌}
use cloud_native_threat_guar.Prelude.Text.{member}
use cloud_native_threat_guar.Detection.Rules.Defaults.{package_manager, default_rules}
use cloud_native_threat_guar.Detection.Rules.Matching.{of_binary, base_name}
use cloud_native_threat_guar.Detection.Events.{ThreatGuardDetection, Subject, detect}
use cloud_native_threat_guar.Detection.Exec.{
  Outcome, shells, network_tools, reconnaissance_tools, escalation_tools, miners, get_or,
  is_foreign, match_binary, exec_in_pod,
}
use cloud_native_threat_guar.Detection.Engine.Catalog.{
  exec_rules, first_rule, or_rule, class_of, first_rule-class_of, first_rule-default,
}

abbrev pub rule_id_of : Option ThreatGuardDetection → Option String
rule_id_of none = none
rule_id_of (some d) = some d.detection_rule

-- The call returns, with a detection by this rule or with none.
data Gives : Option String → Outcome → Type 0 where
  gives :
      (rule_id : Option String) (o : Option ThreatGuardDetection)
      → rule_id_of o ≡ rule_id
      → Gives rule_id (ok o)

if-Gives :
    (b : Bool) (i j : Option String) (x y : Outcome)
    → Gives i x
    → Gives j y
    → Gives (if b then i else j) (if b then x else y)
if-Gives true i j x y hx hy = hx
if-Gives false i j x y hx hy = hy

bind-Gives :
    (A : Type 0) (i : Option String) (r : Result PyError A) (a : A) (f : A → Outcome)
    → r ≡ ok a
    → Gives i (f a)
    → Gives i (r >>= f)
bind-Gives A i r a f e h = rw e h

match_binary-Gives :
    (python_str : Json → String) (time : Json) (subject : Subject) (proc : Fields)
    (binary args : Json) (base : String) (parent cap : Fields)
    → field_or proc "parent" (obj end) ≡ obj parent
    → field_or proc "cap" (obj end) ≡ obj cap
    → Gives (class_of base) (match_binary python_str time subject proc binary args base)
unfolding match_binary class_of detect get_of
match_binary-Gives python_str time subject proc binary args base parent cap hp hc =
    if-Gives (member base shells) _ _ _ _ (rw hp (gives _ _ refl)) (
      if-Gives (member base network_tools) _ _ _ _ (rw hp (gives _ _ refl)) (
        if-Gives (member base reconnaissance_tools) _ _ _ _ (gives _ _ refl) (
          if-Gives (member base escalation_tools) _ _ _ _ (rw hc (gives _ _ refl))
            (if-Gives (member base miners) _ _ _ _ (gives _ _ refl) (gives _ _ refl)))))

exec_in_pod-Gives :
    (python_str : Json → String) (protected : String) (time : Json) (proc pod parent cap : Fields)
    (binary : String)
    → field_or proc "parent" (obj end) ≡ obj parent
    → field_or proc "cap" (obj end) ≡ obj cap
    → get_or proc "binary" (str "") ≡ str binary
    → is_foreign protected (get_or pod "namespace" (str "")) ≡ false
    → Gives (class_of (base_name binary)) (exec_in_pod python_str protected time proc pod)
unfolding exec_in_pod basename
exec_in_pod-Gives python_str protected time proc pod parent cap binary hp hc hb hf =
    rw (hf, hb)
      (match_binary-Gives python_str time _ proc (str binary) _ (base_name binary) parent cap hp hc)

Gives-result :
    (rule_id : Option String) (outcome : Outcome)
    → Gives rule_id outcome
    → (o : Option ThreatGuardDetection) × (outcome ≡ ok o) × (rule_id_of o ≡ rule_id)
Gives-result rule_id _ (gives _ o e) = (o, refl, e)

-- On a process of the protected namespace whose `binary` is a text and whose `parent` and `cap` are dicts where
-- they are given, the engine raises nothing, and it detects by the first of RUNTIME-001, 002, 003, 005 and 007 that
-- `DetectionRule.evaluate` matches on that binary, or detects nothing where none of them matches. The first match
-- among all ten default rules is the same, except where that is RULE-K8S-007: then the engine detects nothing.
pub exec_in_pod-first_rule :
    (python_str : Json → String) (protected : String) (time : Json) (proc pod parent cap : Fields)
    (binary : String)
    → field_or proc "parent" (obj end) ≡ obj parent
    → field_or proc "cap" (obj end) ≡ obj cap
    → get_or proc "binary" (str "") ≡ str binary
    → is_foreign protected (get_or pod "namespace" (str "")) ≡ false
    → (o : Option ThreatGuardDetection) × (exec_in_pod python_str protected time proc pod ≡ ok o)
      × (rule_id_of o ≡ first_rule exec_rules (of_binary binary))
      × (first_rule default_rules (of_binary binary)
          ≡ or_rule (rule_id_of o) (first_rule (package_manager ∷ []) (of_binary binary)))
exec_in_pod-first_rule python_str protected time proc pod parent cap binary hp hc hb hf =
    let given =
      Gives-result _ _
        (exec_in_pod-Gives python_str protected time proc pod parent cap binary hp hc hb hf) in
    (
      given.0,
      given.1,
      given.2 ∙ sym (first_rule-class_of binary),
      rw (given.2) (first_rule-default binary),
    )

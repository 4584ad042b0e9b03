-- ===== src/Detection/Rules/Registry.antt =====
-- The registry of rules.py as a map from ids to rules.
use cloud_native_threat_guar.Prelude.{
  String, Bool, true, false, Option, none, some, List, [], ◌∷◌, ◌==◌, ◌≡◌, refl, ◌∙◌, ap, subst,
  eq_iff, Bool-cases, Option-cases, inl, inr, if◌then◌else◌,
}
use cloud_native_threat_guar.Prelude.Dict
use cloud_native_threat_guar.Prelude.Dict.{Dict, get-put}
use cloud_native_threat_guar.Detection.Rules.{
  DetectionRule, RuleRegistry, register, get, set_enabled, enable_rule, disable_rule,
}

-- The specification: a map from ids to rules, changed at one id.
abbrev pub Rules : Type 0
Rules = String → Option DetectionRule

abbrev pub with_flag : Bool → Option DetectionRule → Option DetectionRule
with_flag flag none = none
with_flag flag (some rule) = some (record rule { enabled = flag })

-- An operation of the registry, and what it does to the map.
pub data Operation : Type 0 where
  put : DetectionRule → Operation
  enable disable : String → Operation

pub apply : RuleRegistry → Operation → RuleRegistry
unfolding register enable_rule disable_rule
apply reg (put rule) = register reg rule
apply reg (enable id) = (enable_rule reg id).1
apply reg (disable id) = (disable_rule reg id).1

abbrev pub specify : Rules → Operation → Rules
specify rules (put rule) j = if rule.rule_id == j then some rule else rules j
specify rules (enable id) j = if id == j then with_flag true (rules j) else rules j
specify rules (disable id) j = if id == j then with_flag false (rules j) else rules j

-- What a call of `enable_rule` or `disable_rule` returns by the specification.
abbrev pub is_there : Option DetectionRule → Bool
is_there none = false
is_there (some rule) = true

set_enabled-get :
    (flag : Bool) (reg : RuleRegistry) (id j : String)
    → (get (set_enabled flag reg id).1 j
        ≡ (if id == j then with_flag flag (get reg j) else get reg j))
      × ((set_enabled flag reg id).0 ≡ is_there (get reg id))
unfolding set_enabled get
set_enabled-get flag reg id j = elim (Option-cases (Dict.get reg id)) [
  | inl missing ↦ rw (missing, set_enabled) (absent flag reg id j missing, refl)
  | inr (rule, found) ↦
      rw (found, set_enabled)
        (get-put reg id j (record rule { enabled = flag }) ∙ present flag reg id j rule found, refl)
]
  where
    absent :
        (flag : Bool) (reg : RuleRegistry) (id j : String)
        → Dict.get reg id ≡ none
        → Dict.get reg j ≡ (if id == j then with_flag flag (Dict.get reg j) else Dict.get reg j)
    absent flag reg id j missing = elim (Bool-cases (id == j)) [
      | inl same ↦ rw same (
          subst (λ k. Dict.get reg k ≡ with_flag flag (Dict.get reg k)) ((eq_iff id j).0 same)
            (rw missing refl))
      | inr other ↦ rw other refl
    ]

    present :
        (flag : Bool) (reg : RuleRegistry) (id j : String) (rule : DetectionRule)
        → Dict.get reg id ≡ some rule
        → (if id == j then some (record rule { enabled = flag }) else Dict.get reg j)
          ≡ (if id == j then with_flag flag (Dict.get reg j) else Dict.get reg j)
    present flag reg id j rule found = elim (Bool-cases (id == j)) [
      | inl same ↦ rw same (
          subst (λ k. some (record rule { enabled = flag }) ≡ with_flag flag (Dict.get reg k))
            ((eq_iff id j).0 same) (rw found refl))
      | inr other ↦ rw other refl
    ]

apply-get :
    (reg : RuleRegistry) (op : Operation) (j : String)
    → get (apply reg op) j ≡ specify (get reg) op j
unfolding apply register enable_rule disable_rule get
apply-get reg (put rule) j = get-put reg rule.rule_id j rule
apply-get reg (enable id) j = (set_enabled-get true reg id j).0
apply-get reg (disable id) j = (set_enabled-get false reg id j).0

unfoldable pub apply_all : RuleRegistry → List Operation → RuleRegistry
unfolding apply
apply_all reg [] = reg
apply_all reg (op ∷ ops) = apply_all (apply reg op) ops

abbrev pub specify_all : Rules → List Operation → Rules
specify_all rules [] = rules
specify_all rules (op ∷ ops) = specify_all (specify rules op) ops

apply-eq-specify : (reg : RuleRegistry) (op : Operation) → get (apply reg op) ≡ specify (get reg) op
apply-eq-specify reg op = λ i j. apply-get reg op j i

-- After any registrations, enablings and disablings, looking a rule up in the registry gives what the
-- specification gives: the rule registered last under the id, with the flag that was set last since then.
pub apply_all_refines :
    (reg : RuleRegistry) (ops : List Operation) (id : String)
    → get (apply_all reg ops) id ≡ specify_all (get reg) ops id
unfolding apply_all
apply_all_refines reg [] id = refl
apply_all_refines reg (op ∷ ops) id =
    apply_all_refines (apply reg op) ops id
    ∙ ap (λ rules. specify_all rules ops id) (apply-eq-specify reg op)

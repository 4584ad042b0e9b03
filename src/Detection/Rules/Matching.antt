-- ===== src/Detection/Rules/Matching.antt =====
-- When a rule of rules.py matches an event.
use cloud_native_threat_guar.Prelude.{
  String, Bool, true, false, ◌||◌, List, [], ◌∷◌, ◌==◌, ◌≡◌, refl, ◌∙◌, ap, subst, sym, eq_iff,
  arith, all, is_empty, Bool-cases, inl, inr, if◌then◌else◌,
}
use cloud_native_threat_guar.Prelude.Paths.{
  has_char, lower-has_char, last_part-has_char, all-member,
}
use cloud_native_threat_guar.Prelude.Json.{str, Fields, end, field, find_field}
use cloud_native_threat_guar.Prelude.Python.{PyError, basename}
use cloud_native_threat_guar.Prelude.Result.{Result, ok}
use cloud_native_threat_guar.Prelude.Text.{lower, member, last_part, after_last}
use cloud_native_threat_guar.Detection.Rules.{
  DetectionRule, json_member, matches_binary, matches_path, matches_default,
}

-- The event context of a process: its binary.
abbrev pub of_binary : String → Fields
of_binary binary = field "binary" (str binary) end

json_member-member : (s : String) (ts : List String) → json_member (str s) ts ≡ member s ts
json_member-member s [] = refl
json_member-member s (t ∷ ts) = ap (λ b. s == t || b) (json_member-member s ts)

-- The base name of a binary, in lower case.
abbrev pub base_name : String → String
base_name binary = lower (last_part 47 binary)

base_name-has_char : (binary : String) → has_char 47 (base_name binary) ≡ false
base_name-has_char binary = lower-has_char (last_part 47 binary) ∙ last_part-has_char 47 binary

bool_eq : (a b : Bool) → (a ≡ true → b ≡ true) → (b ≡ true → a ≡ true) → a ≡ b
bool_eq true b f g = sym (f refl)
bool_eq false true f g = g refl
bool_eq false false f g = refl

-- The targets are the names, and full paths to some of them.
named_target :
    (names targets : List String) (binary : String)
    → all (λ t. member (base_name t) names) targets ≡ true
    → all (λ t. member t names || has_char 47 t) targets ≡ true
    → all (λ n. member n targets) names ≡ true
    → (member (base_name binary) targets || member binary targets) ≡ member (base_name binary) names
named_target names targets binary h1 h2 h3 =
    bool_eq _ _
      (λ hit. elim (Bool-cases (member binary targets)) [
        | inl e ↦ all-member (λ t. member (base_name t) names) binary targets h1 e
        | inr e ↦ ground (
          arith,
          hit,
          e,
          base_name-has_char binary,
          all-member (λ t. member t names || has_char 47 t) (base_name binary) targets h2,
        )
      ])
      (λ hit. ground (arith, all-member (λ n. member n targets) (base_name binary) names h3 hit))

if_ok : (b : Bool) → ◌≡◌ {A = Result PyError Bool} (if b then ok true else ok false) (ok b)
if_ok true = refl
if_ok false = refl

-- A rule without paths that matches by its targets.
pub matches_names :
    (rule : DetectionRule) (names : List String) (binary : String)
    → is_empty rule.target_binaries ≡ false
    → member "" names ≡ false
    → all (λ t. member (base_name t) names) rule.target_binaries ≡ true
    → all (λ t. member t names || has_char 47 t) rule.target_binaries ≡ true
    → all (λ n. member n rule.target_binaries) names ≡ true
    → matches_default rule (of_binary binary) ≡ ok (member (base_name binary) names)
unfolding matches_default matches_binary matches_path basename find_field lower last_part after_last
matches_names rule names binary he h0 h1 h2 h3 = elim (Bool-cases (binary == "")) [
  | inl e ↦
      subst (λ b. matches_default rule (of_binary b) ≡ ok (member (base_name b) names))
        (sym ((eq_iff binary "").0 e)) (rw h0 refl)
  | inr e ↦
      let hit = named_target names rule.target_binaries binary h1 h2 h3 in
      rw (e, he, json_member-member binary rule.target_binaries, hit, e)
        (if_ok (member (base_name binary) names))
]

-- ===== src/Examples/Checks.antt =====
-- The admission check, the decision on a scenario, the escalation analysis and the workload resolver.
use cloud_native_threat_guar.Prelude.{
  ℕ, ◌+◌, String, true, false, not, ◌&&◌, ◌||◌, Option, none, some, List, [], ◌∷◌, ◌++◌, ◌==◌, ◌≡◌,
  refl, eqb, map, filter, all, is_empty, length, arith, Bool-cases, inl, inr, subst, if◌then◌else◌,
}
use cloud_native_threat_guar.Prelude.Int.{ℤ, pos}
use cloud_native_threat_guar.Prelude.Json.{end}
use cloud_native_threat_guar.Prelude.Text.{truthy}
use cloud_native_threat_guar.Admission.LiveCheck.{Runner, webhook_marker, run_live, exit_code_for}
use cloud_native_threat_guar.Admission.LiveCheck.Verdict.{denied, admitted, run_live_lem}
use cloud_native_threat_guar.Admission.Validator.{all_packages, run_offline, validate_all}
use cloud_native_threat_guar.Admission.Validator.Summary.{passes, accepted}
use cloud_native_threat_guar.Admission.Validator.Offline.{known, clean, triggered, run_offline_lem}
use cloud_native_threat_guar.Runtime.Scenarios.{
  Scenario, ScenarioRun, was_stopped, evaluate_scenario,
}
use cloud_native_threat_guar.Runtime.Scenarios.Decision.{enforced, detected, evaluate_scenario_lem}
use cloud_native_threat_guar.CloudGraph.Iam.{IamPrincipal, role}
use cloud_native_threat_guar.CloudGraph.Escalation.{escalation_signatures, analyze_principal}
use cloud_native_threat_guar.CloudGraph.Escalation.Vectors.{
  allows, escalates, vectors, analyze_principal_lem,
}
use cloud_native_threat_guar.Reporting.Workload.{
  OwnerReference, KubernetesOwnershipClient, resolve_workload_owner,
}
use cloud_native_threat_guar.Reporting.Workload.Target.{IsDecided, resolve_workload_owner_lem}

abbrev rate : ℕ → ℕ → ℕ
rate part whole = 1000

abbrev find_constraint : String → Option String
find_constraint output = some "require-labels"

-- A cluster that denies every manifest but one.
abbrev runner : Runner
runner manifest = if manifest == "good.yaml" then (pos 0, "created") else (pos 1, webhook_marker)

abbrev bad : List String
bad = "bad.yaml" ∷ []

abbrev good : List String
good = "good.yaml" ∷ []

run_live_example :
    (((run_live rate find_constraint runner bad good).status == "PASS") ≡ (
      (not (is_empty bad) && not (is_empty good))
      && (all (denied runner) bad && all (admitted runner) good)))
    × (eqb (exit_code_for (run_live rate find_constraint runner bad good)) 0
        ≡ ((run_live rate find_constraint runner bad good).status == "PASS"))
    × (length bad + length good
        ≡ (run_live rate find_constraint runner bad good).blocked
          + (run_live rate find_constraint runner bad good).allowed_count
          + (run_live rate find_constraint runner bad good).errors
          + (run_live rate find_constraint runner bad good).positive_allowed
          + (run_live rate find_constraint runner bad good).positive_rejected_count)
run_live_example = run_live_lem rate find_constraint runner bad good

live_pass : (run_live rate find_constraint runner bad good).status ≡ "PASS"
unfolding run_live
live_pass = refl

abbrev scenario : Scenario
scenario = record {
  id = "s1";
  name = "shell";
  script = "shell.sh";
  required = true;
  expected_rules = "RUNTIME-001" ∷ [];
  expected_enforcement = "block";
  timeout_seconds = 30;
}

abbrev killed : ScenarioRun
killed = record {
  scenario_id = "s1";
  status = "executed";
  exit_code = some (pos 137);
  started_at = "";
  ended_at = "";
}

evaluate_scenario_example :
    ((evaluate_scenario scenario (some killed) ("RUNTIME-001" ∷ []) true true (some 3)).status
        == "passed")
      ≡ (not (was_stopped killed)
          && (enforced scenario killed true true
              && detected scenario ("RUNTIME-001" ∷ []) (some 3)))
    × ((evaluate_scenario scenario (some killed) ("RUNTIME-001" ∷ []) true true (some 3)).status
        == "passed")
      ≡ is_empty
          (evaluate_scenario scenario (some killed) ("RUNTIME-001" ∷ []) true true (some 3)).reasons
evaluate_scenario_example =
    evaluate_scenario_lem scenario killed ("RUNTIME-001" ∷ []) true true (some 3)

abbrev admin : IamPrincipal
admin = record {
  name = "app";
  arn = "arn:aws:iam::1:role/app";
  account_id = "1";
  principal_type = role;
  attached_policies =
      record {
        policy_id = "p1";
        name = "admin";
        arn = "arn:aws:iam::1:policy/admin";
        is_managed = true;
        statements =
            record {
              sid = none;
              effect = "Allow";
              actions = "sts:AssumeRole" ∷ [];
              resources = "*" ∷ [];
              principals = [];
              conditions = end;
            }
            ∷ [];
      }
      ∷ [];
  inline_policies = [];
  tags = [];
}

analyze_principal_example :
    vectors (analyze_principal admin)
    ≡ (if allows admin "*" || allows admin "*:*" then none ∷ [] else [])
      ++ map (λ s. some s.0) (filter (escalates admin) escalation_signatures)
analyze_principal_example = analyze_principal_lem admin

-- A stand-in for the patterns, which matches one pod.
abbrev base_of : String → Option String
base_of name = if name == "web-7c9d8f6d7b-x2abc" then some "web" else none

base_of-filled : (s base : String) → base_of s ≡ some base → truthy base ≡ true
base_of-filled s base h = elim (Bool-cases (s == "web-7c9d8f6d7b-x2abc")) [
  | inl hit ↦ filled (rw hit at h)
  | inr miss ↦ ground arith
]
  where
    filled : some "web" ≡ some base → truthy base ≡ true
    filled e = subst (λ o. (elim o [ none ↦ true | some t ↦ truthy t ]) ≡ true) e refl

abbrev owners : OwnerReference
owners = record { kind = some "DaemonSet"; name = some "agent" }

abbrev client : KubernetesOwnershipClient
client namespace kind name = some (owners ∷ [])

resolve_workload_owner_example :
    IsDecided
      (resolve_workload_owner base_of base_of base_of (some client) "prod" (some "web-1") [])
resolve_workload_owner_example =
    resolve_workload_owner_lem base_of base_of base_of (some client) base_of-filled base_of-filled
      "prod" (some "web-1") []

-- The policy on privileged containers finds the one bad pod.
abbrev opa : String → String → ℤ × (String × List String)
opa pkg manifest =
    if manifest == "01-privileged-pod.yaml" && pkg == "k8sprivilegedcontainer"
    then (pos 0, ("", "privileged mode must be false" ∷ []))
    else (pos 0, ("", []))

abbrev message : String → String
message violation = violation

abbrev show_messages : List String → String
show_messages violations = "violations"

abbrev pods : List String
pods = "01-privileged-pod.yaml" ∷ "notes.yaml" ∷ []

run_offline_lem_example :
    (passes (run_offline String message show_messages opa rate pods) ≡ (
      all (clean String message show_messages opa) all_packages
      && (not (is_empty (filter known pods))
          && all (triggered String message show_messages opa) (filter known pods))))
    × ((passes (run_offline String message show_messages opa rate pods)
          && not (accepted (validate_all String message show_messages opa pods)))
        ≡ false)
run_offline_lem_example = run_offline_lem String message show_messages opa rate pods

offline_pass : passes (run_offline String message show_messages opa rate pods) ≡ true
unfolding run_offline passes
offline_pass = refl

-- ===== src/Examples/Detections.antt =====
-- The detection engine and its rules.
use cloud_native_threat_guar.Prelude.{
  String, true, Option, none, some, [], ◌∷◌, ◌==◌, ◌≡◌, refl, arith, length, count_if,
  if◌then◌else◌,
}
use cloud_native_threat_guar.Prelude.Text.{starts_with}
use cloud_native_threat_guar.Prelude.Python.{attribute_error, strip}
use cloud_native_threat_guar.Prelude.Json.{
  Json, null, str, arr, obj, nil, cons, Fields, end, field, find_field,
}
use cloud_native_threat_guar.Prelude.Result.{ok, err, ◌>>=◌}
use cloud_native_threat_guar.Detection.Rules.{get}
use cloud_native_threat_guar.Detection.Rules.Defaults.{
  shell_execution, package_manager, default_rules,
}
use cloud_native_threat_guar.Detection.Rules.Matching.{of_binary}
use cloud_native_threat_guar.Detection.Rules.Registry.{
  put, enable, disable, specify_all, apply_all, apply_all_refines,
}
use cloud_native_threat_guar.Detection.Events.{ThreatGuardDetection}
use cloud_native_threat_guar.Detection.Exec.{exec_in_pod}
use cloud_native_threat_guar.Detection.Engine.{
  DetectionEngine, initial, count_event, evaluate_raw_event, process_raw_tetragon_event,
  ingest_lines, get_summary, count_of,
}
use cloud_native_threat_guar.Detection.Engine.Namespace.{evaluate_raw_event-namespace}
use cloud_native_threat_guar.Detection.Engine.Accounting.{
  IsAccounted, Extended, engine-IsAccounted, ingest_lines-Extended, get_summary-counts,
}
use cloud_native_threat_guar.Detection.Engine.Catalog.{exec_rules, first_rule, or_rule}
use cloud_native_threat_guar.Detection.Engine.Classes.{rule_id_of, exec_in_pod-first_rule}
use cloud_native_threat_guar.Detection.Engine.Errors.{ingest_lines-not_object}

apply_all_refines_example :
    get
      (apply_all [] (put shell_execution ∷ disable "RUNTIME-001" ∷ enable "RUNTIME-002" ∷ []))
      "RUNTIME-001"
    ≡ specify_all
        (get [])
        (put shell_execution ∷ disable "RUNTIME-001" ∷ enable "RUNTIME-002" ∷ [])
        "RUNTIME-001"
apply_all_refines_example =
    apply_all_refines [] (put shell_execution ∷ disable "RUNTIME-001" ∷ enable "RUNTIME-002" ∷ [])
      "RUNTIME-001"

abbrev shown : Json → String
shown v = ""

abbrev shell_pod : Fields
shell_pod = field "namespace" (str "threatguard") (field "name" (str "web-1") end)

abbrev shell_process : Fields
shell_process =
    field "binary" (str "/bin/BASH")
      (field "arguments" (str "-i") (field "pod" (obj shell_pod) end))

abbrev shell_event : Fields
shell_event =
    field "time" (str "t1")
      (field "process_exec" (obj (field "process" (obj shell_process) end)) end)

abbrev probed_event : Fields
probed_event =
    field "process_kprobe"
      (obj (
        field "function_name" (str "security_file_open") (
          field "process" (obj (field "pod" (obj shell_pod) end)) (
            field "args"
              (arr (
                cons (obj (field "file_arg" (obj (field "path" (str "/etc/shadow-") end)) end))
                  nil))
              end))))
      end

abbrev shell_detection : ThreatGuardDetection
shell_detection = record {
  timestamp = str "t1";
  namespace = str "threatguard";
  pod = str "web-1";
  container = str "";
  process = str "/bin/BASH";
  action = str "process_exec";
  event_type = "process_exec";
  severity = "CRITICAL";
  detection_rule = "RUNTIME-001";
  mitre_technique = "T1059.004";
  mitre_tactic = "Execution";
  description = "Interactive Shell Execution in Workload Container";
  metadata = field "binary" (str "/bin/BASH") (
      field "arguments" (str "-i") (
        field "pid" null (
          field "uid" null (
            field "parent_process" (str "") (
              field "command" (str "/bin/BASH -i") (
                field "technique_name" (str "Command and Scripting Interpreter: Unix Shell")
                  end))))));
}

shell_run :
    evaluate_raw_event shown "now" "threatguard" (obj shell_event) ≡ ok (some shell_detection)
unfolding evaluate_raw_event find_field
shell_run = refl

probed_run :
    (evaluate_raw_event shown "now" "threatguard" (obj probed_event) >>= (λ o. ok (rule_id_of o)))
    ≡ ok (some "RUNTIME-004")
unfolding evaluate_raw_event find_field starts_with
probed_run = refl

evaluate_raw_event-namespace_example : shell_detection.namespace ≡ str "threatguard"
unfolding find_field evaluate_raw_event
evaluate_raw_event-namespace_example =
    evaluate_raw_event-namespace shown "now" "threatguard" shell_event shell_detection refl refl
      refl

abbrev fresh : DetectionEngine
fresh = initial "threatguard"

-- The lines of a file: an event, nothing, no JSON, and a list.
abbrev loads : String → Option Json
loads line =
    if line == "event"
    then some (obj shell_event)
    else if line == "[]"
    then some (arr nil)
    else none

engine-IsAccounted_example :
    IsAccounted (process_raw_tetragon_event shown "now" true fresh (obj shell_event)).1
    × IsAccounted (ingest_lines shown "now" loads fresh ("event" ∷ "{" ∷ "[]" ∷ [])).1
engine-IsAccounted_example =
    engine-IsAccounted shown "now" loads true fresh (obj shell_event) ("event" ∷ "{" ∷ "[]" ∷ [])
      (omega arith)

ingest_lines-Extended_example :
    Extended fresh
      (ingest_lines shown "now" loads fresh ("event" ∷ " " ∷ "{" ∷ [])).1
      (shell_detection ∷ [])
unfolding ingest_lines find_field
ingest_lines-Extended_example =
    ingest_lines-Extended shown "now" loads fresh ("event" ∷ " " ∷ "{" ∷ []) (shell_detection ∷ [])
      refl

abbrev after_shell : DetectionEngine
after_shell = record {
  protected_namespace = fresh.protected_namespace;
  detections = shell_detection ∷ [];
  total_events_processed = 1;
}

ingest_lines-not_object_example :
    ingest_lines shown "now" loads fresh ("event" ∷ "{" ∷ "[]" ∷ "event" ∷ [])
    ≡ (err attribute_error, count_event after_shell)
unfolding ingest_lines find_field strip
ingest_lines-not_object_example =
    ingest_lines-not_object shown "now" loads fresh after_shell ("event" ∷ "{" ∷ []) ("event" ∷ [])
      "[]" (shell_detection ∷ []) (arr nil) refl refl refl refl

abbrev busy : DetectionEngine
busy = record {
  protected_namespace = "threatguard";
  detections = shell_detection ∷ shell_detection ∷ [];
  total_events_processed = 5;
}

get_summary-counts_example :
    ((get_summary busy).total_detections ≡ length busy.detections)
    × (count_of (get_summary busy).by_severity "CRITICAL"
        ≡ count_if (λ d. d.severity == "CRITICAL") busy.detections)
    × (count_of (get_summary busy).by_rule "CRITICAL"
        ≡ count_if (λ d. d.detection_rule == "CRITICAL") busy.detections)
    × (count_of (get_summary busy).by_technique "CRITICAL"
        ≡ count_if (λ d. d.mitre_technique == "CRITICAL") busy.detections)
get_summary-counts_example = get_summary-counts busy "CRITICAL"

exec_in_pod-first_rule_example :
    (o : Option ThreatGuardDetection) × (exec_in_pod shown "threatguard"
        (str "t1")
        shell_process
        shell_pod
      ≡ ok o)
    × (rule_id_of o ≡ first_rule exec_rules (of_binary "/bin/BASH"))
    × (first_rule default_rules (of_binary "/bin/BASH")
        ≡ or_rule (rule_id_of o) (first_rule (package_manager ∷ []) (of_binary "/bin/BASH")))
unfolding find_field
exec_in_pod-first_rule_example =
    exec_in_pod-first_rule shown "threatguard" (str "t1") shell_process shell_pod end end
      "/bin/BASH" refl refl refl refl

-- RULE-K8S-007 matches a package manager, of which the engine makes no detection.
package_manager_missed :
    (first_rule default_rules (of_binary "/usr/bin/apt-get") ≡ some "RULE-K8S-007")
    × (first_rule exec_rules (of_binary "/usr/bin/apt-get") ≡ none)
unfolding first_rule find_field
package_manager_missed = (refl, refl)

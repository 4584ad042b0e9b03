-- ===== src/Detection/Engine/Namespace.antt =====
-- Which namespace the engine's detections lie in.
use cloud_native_threat_guar.Prelude.{
  String, Bool, true, false, ◌||◌, Option, none, some, ◌≡◌, refl, sym, subst, ap, ◌∙◌,
  if◌then◌else◌, Bool-cases, inl, inr, eq_iff, arith,
}
use cloud_native_threat_guar.Prelude.Json.{
  Json, null, bool, int, negative, real, str, arr, obj, Items, Fields, end, is_truthy, or_json,
  or_json-same, field_or,
}
use cloud_native_threat_guar.Prelude.Python.{PyError, equals_text}
use cloud_native_threat_guar.Prelude.Result.{Result, ok, err, ◌>>=◌}
use cloud_native_threat_guar.Prelude.Text.{truthy}
use cloud_native_threat_guar.Detection.Rules.{DetectionRule}
use cloud_native_threat_guar.Detection.Events.{ThreatGuardDetection, Subject, detect}
use cloud_native_threat_guar.Detection.Exec.{
  Outcome, as_dict, get_or, is_foreign, match_binary, exec_in_pod, exec_process,
  handle_process_exec,
}
use cloud_native_threat_guar.Detection.Kprobe.{
  or_try, kprobe_execve, kprobe_file, kprobe_connect, kprobe_opens, kprobe_connects, kprobe_io,
  kprobe_in_pod, kprobe_process, handle_kprobe,
}
use cloud_native_threat_guar.Detection.Engine.{evaluate_raw_event}

-- A detection, if there is one, lies in the namespace.
data InNamespace (protected : String) : Outcome → Type 0 where
  inside :
      (d : ThreatGuardDetection) → d.namespace ≡ str protected → InNamespace protected (ok (some d))
  nothing : InNamespace protected (ok none)
  raised : (e : PyError) → InNamespace protected (err e)

if-InNamespace :
    (protected : String) (b : Bool) (x y : Outcome)
    → InNamespace protected x
    → InNamespace protected y
    → InNamespace protected (if b then x else y)
if-InNamespace protected true x y hx hy = hx
if-InNamespace protected false x y hx hy = hy

bind-InNamespace :
    (protected : String) {A : Type 0} (r : Result PyError A) (f : A → Outcome)
    → ((a : A) → InNamespace protected (f a))
    → InNamespace protected (r >>= f)
bind-InNamespace protected (ok a) f h = h a
bind-InNamespace protected (err e) f h = raised e

equal_namespace :
    (namespace : Json) (protected : String)
    → equals_text namespace protected ≡ true
    → or_json namespace (str protected) ≡ str protected
equal_namespace (str s) protected h =
    subst (λ t. or_json (str t) (str protected) ≡ str protected) (sym ((eq_iff s protected).0 h))
      (or_json-same (str protected))
equal_namespace null protected h = refl
equal_namespace (bool b) protected h = ground arith
equal_namespace (int n) protected h = ground arith
equal_namespace (negative n) protected h = ground arith
equal_namespace (real x) protected h = ground arith
equal_namespace (arr vs) protected h = ground arith
equal_namespace (obj fs) protected h = ground arith

own_namespace :
    (protected : String) (namespace : Json)
    → truthy protected ≡ true
    → is_foreign protected namespace ≡ false
    → or_json namespace (str protected) ≡ str protected
own_namespace protected namespace ht hf =
    equal_namespace namespace protected (ground (arith, ht, hf))

dict-InNamespace :
    (protected : String) (dict : Option Fields) (f : Fields → Outcome)
    → ((fs : Fields) → InNamespace protected (f fs))
    → InNamespace protected (elim dict [ none ↦ ok none | some fs ↦ f fs ])
dict-InNamespace protected none f h = nothing
dict-InNamespace protected (some fs) f h = h fs

detect-InNamespace :
    (protected : String) (rule : DetectionRule) (time : Json) (subject : Subject)
    (action command : Json) (fs : Fields)
    → subject.namespace ≡ str protected
    → InNamespace protected (ok (some (detect rule time subject action command fs)))
unfolding detect
detect-InNamespace protected rule time subject action command fs h = inside _ h

try-InNamespace :
    (protected : String) (here next : Outcome)
    → InNamespace protected here
    → InNamespace protected next
    → InNamespace protected (here >>= or_try next)
try-InNamespace protected (ok none) next h hn = hn
try-InNamespace protected (ok (some d)) next h hn = h
try-InNamespace protected (err e) next h hn = raised e

ruleset detection_rules = (if-InNamespace, bind-InNamespace, detect-InNamespace, nothing, raised)

module _ (python_str : Json → String) (protected : String) where
  match_binary-InNamespace :
      (time : Json) (subject : Subject) (proc : Fields) (binary args : Json) (base : String)
      → subject.namespace ≡ str protected
      → InNamespace protected (match_binary python_str time subject proc binary args base)
  unfolding match_binary
  match_binary-InNamespace time subject proc binary args base h = search (detection_rules) depth 14

  exec_in_pod-InNamespace :
      (time : Json) (proc pod : Fields)
      → truthy protected ≡ true
      → InNamespace protected (exec_in_pod python_str protected time proc pod)
  unfolding exec_in_pod
  exec_in_pod-InNamespace time proc pod ht =
      elim (Bool-cases (is_foreign protected (get_or pod "namespace" (str "")))) [
        | inl e ↦ rw e nothing
        | inr e ↦
            let own = own_namespace protected _ ht e in
            rw e (search (detection_rules, match_binary-InNamespace, own))
      ]

  exec-InNamespace :
      (time : Json) (exec_event : Json)
      → truthy protected ≡ true
      → InNamespace protected (handle_process_exec python_str protected time exec_event)
  unfolding handle_process_exec exec_process
  exec-InNamespace time exec_event ht = dict-InNamespace protected (as_dict exec_event) _ (λ event.
      dict-InNamespace protected (as_dict (get_or event "process" (obj end))) _ (λ proc.
        dict-InNamespace protected (as_dict (get_or proc "pod" (obj end))) _
          (λ pod. exec_in_pod-InNamespace time proc pod ht)))

  opens-InNamespace :
      (time : Json) (subject : Subject) (func_name : Json) (args : Items)
      → subject.namespace ≡ str protected
      → InNamespace protected (kprobe_opens python_str time subject func_name args)
  unfolding kprobe_opens kprobe_file
  opens-InNamespace time subject func_name args h = search (detection_rules) depth 14

  connects-InNamespace :
      (time : Json) (subject : Subject) (func_name : Json) (args : Items)
      → subject.namespace ≡ str protected
      → InNamespace protected (kprobe_connects python_str time subject func_name args)
  unfolding kprobe_connects kprobe_connect
  connects-InNamespace time subject func_name args h = search (detection_rules) depth 14

  io-InNamespace :
      (time : Json) (subject : Subject) (func_name : Json) (args : Items)
      → subject.namespace ≡ str protected
      → InNamespace protected (kprobe_io python_str time subject func_name args)
  unfolding kprobe_io
  io-InNamespace time subject func_name args h =
      try-InNamespace protected _ _ (opens-InNamespace time subject func_name args h)
        (connects-InNamespace time subject func_name args h)

  execve-InNamespace :
      (time : Json) (proc : Fields) (args : Items)
      → truthy protected ≡ true
      → InNamespace protected (kprobe_execve python_str protected time proc args)
  unfolding kprobe_execve
  execve-InNamespace time proc args ht = search (detection_rules, exec-InNamespace) depth 8

  kprobe_in_pod-InNamespace :
      (time : Json) (event proc pod : Fields)
      → truthy protected ≡ true
      → InNamespace protected (kprobe_in_pod python_str protected time event proc pod)
  unfolding kprobe_in_pod
  kprobe_in_pod-InNamespace time event proc pod ht =
      elim (Bool-cases (is_foreign protected (get_or pod "namespace" (str "")))) [
        | inl e ↦ rw e nothing
        | inr e ↦
            let own = own_namespace protected _ ht e in
            rw e (search (detection_rules, execve-InNamespace, io-InNamespace, own))
      ]

  kprobe-InNamespace :
      (time : Json) (kprobe_event : Json)
      → truthy protected ≡ true
      → InNamespace protected (handle_kprobe python_str protected time kprobe_event)
  unfolding handle_kprobe kprobe_process
  kprobe-InNamespace time kprobe_event ht =
      dict-InNamespace protected (as_dict kprobe_event) _ (λ event.
        dict-InNamespace protected (as_dict (get_or event "process" (obj end))) _ (λ proc.
          dict-InNamespace protected (as_dict (get_or proc "pod" (obj end))) _
            (λ pod. kprobe_in_pod-InNamespace time event proc pod ht)))

  sensor-InNamespace :
      (now : String) (event : Fields)
      → truthy protected ≡ true
      → (is_truthy (field_or event "process_exec" null)
          || is_truthy (field_or event "process_kprobe" null))
        ≡ true
      → InNamespace protected (evaluate_raw_event python_str now protected (obj event))
  unfolding evaluate_raw_event
  sensor-InNamespace now event ht hs =
      elim (Bool-cases (is_truthy (field_or event "process_exec" null))) [
        | inl e ↦ rw e (exec-InNamespace _ _ ht)
        | inr e ↦
            let probed : is_truthy (field_or event "process_kprobe" null) ≡ true =
              ground (arith, hs, e) in
            rw (e, probed) (kprobe-InNamespace _ _ ht)
      ]

abbrev namespace_of : Outcome → Json
namespace_of (ok (some d)) = d.namespace
namespace_of _ = null

inside-namespace :
    (protected : String) (outcome : Outcome) (d : ThreatGuardDetection)
    → InNamespace protected outcome
    → outcome ≡ ok (some d)
    → d.namespace ≡ str protected
inside-namespace protected _ d (inside d' h) e = sym (ap namespace_of e) ∙ h
inside-namespace protected _ d nothing e = ground (arith, e)
inside-namespace protected _ d (raised x) e = ground (arith, e)

-- With a protected namespace set, every detection that the engine makes of an event with a `process_exec` or a
-- `process_kprobe` record lies in that namespace.
pub evaluate_raw_event-namespace :
    (python_str : Json → String) (now protected : String) (event : Fields)
    (d : ThreatGuardDetection)
    → truthy protected ≡ true
    → (is_truthy (field_or event "process_exec" null)
        || is_truthy (field_or event "process_kprobe" null))
      ≡ true
    → evaluate_raw_event python_str now protected (obj event) ≡ ok (some d)
    → d.namespace ≡ str protected
evaluate_raw_event-namespace python_str now protected event d ht hs e =
    inside-namespace protected _ d (sensor-InNamespace python_str protected now event ht hs) e

-- ===== src/Detection/Kprobe.antt =====
-- `_handle_kprobe` of src/cloudnative_threatguard/detection/engine.py: started programs, opened files and
-- network connections that kernel probes report.
use cloud_native_threat_guar.Prelude.{
  String, Bool, true, false, Option, none, some, List, [], ◌∷◌, if◌then◌else◌,
}
use cloud_native_threat_guar.Prelude.Json.{
  Json, str, arr, obj, Items, nil, cons, Fields, end, field, is_truthy, or_json, field_or,
  set_field,
}
use cloud_native_threat_guar.Prelude.Python.{PyError, attribute_error, get_of, has_key, text_in}
use cloud_native_threat_guar.Prelude.Result.{Result, ok, err, ◌>>=◌}
use cloud_native_threat_guar.Prelude.Text.{concat, starts_with}
use cloud_native_threat_guar.Detection.Rules.Defaults.{sensitive_access, outbound_connection}
use cloud_native_threat_guar.Detection.Events.{ThreatGuardDetection, Subject, detect}
use cloud_native_threat_guar.Detection.Exec.{
  Outcome, as_dict, get_or, is_foreign, subject_of, format, handle_process_exec,
}

-- One round of the loop that looks for the path of a started program.
unfoldable pub next_exec_path : Json → Json → Result PyError Json
unfolding get_of
next_exec_path path arg = elim (as_dict arg) [
  | none ↦ ok path
  | some fs ↦
      if has_key fs "file_arg"
      then (do
        found ← get_of (get_or fs "file_arg" (obj end)) "path" (str "")
        ok (or_json found path))
      else if has_key fs "string_arg"
      then ok (or_json (field_or fs "string_arg" (str "")) path)
      else ok path
]

-- One round of the loop that looks for the path of an opened file.
unfoldable pub next_file_path : Json → Json → Result PyError Json
unfolding get_of
next_file_path path arg = elim (as_dict arg) [
  | none ↦ ok path
  | some fs ↦
      if has_key fs "file_arg"
      then get_of (field_or fs "file_arg" (obj end)) "path" (str "")
      else if has_key fs "string_arg"
      then ok (field_or fs "string_arg" (str ""))
      else ok path
]

-- One round of the loop that looks for the socket.
abbrev pub next_sock_info : Json → Json → Json
next_sock_info sock arg = elim (as_dict arg) [
  | none ↦ sock
  | some fs ↦ if has_key fs "sock_arg" then field_or fs "sock_arg" (obj end) else sock
]

-- A loop over the arguments, whose rounds may raise.
unfoldable pub over_args : (Json → Json → Result PyError Json) → Json → Items → Result PyError Json
over_args round acc nil = ok acc
over_args round acc (cons arg args) = do next ← round acc arg; over_args round next args

unfoldable pub find_sock_info : Json → Items → Json
find_sock_info sock nil = sock
find_sock_info sock (cons arg args) = find_sock_info (next_sock_info sock arg) args

abbrev pub args_of : Json → Items
args_of (arr args) = args
args_of _ = nil

abbrev pub sensitive_targets : List String
sensitive_targets =
    "/var/run/secrets/kubernetes.io/serviceaccount/token" ∷ "/etc/shadow" ∷ "/etc/gshadow"
    ∷ "/root/.ssh" ∷ []

-- `path == target or path.startswith(target)`
abbrev pub is_at : Json → String → Result PyError Bool
is_at (str path) target = ok (starts_with path target)
is_at _ target = err attribute_error

unfoldable pub is_sensitive : Json → List String → Result PyError Bool
is_sensitive path [] = ok false
is_sensitive path (target ∷ targets) =
    let rest = is_sensitive path targets in
    if is_truthy path then (do found ← is_at path target; if found then ok true else rest) else rest

-- A branch that returned, or the code after it.
abbrev pub or_try : Outcome → Option ThreatGuardDetection → Outcome
or_try next none = next
or_try next (some d) = ok (some d)

module _ (python_str : Json → String) where
  unfoldable pub kprobe_execve : (protected : String) (time : Json) → Fields → Items → Outcome
  unfolding over_args next_exec_path handle_process_exec set_field
  kprobe_execve protected time proc args = do
    path ← over_args next_exec_path (str "") args
    (if is_truthy path
        then handle_process_exec python_str protected time (
            obj (
              field "process" (obj (set_field (set_field proc "binary" path) "arguments" (str "")))
                end))
        else ok none)

  unfoldable pub kprobe_file : (time : Json) → Subject → Json → Items → Outcome
  unfolding over_args next_file_path is_sensitive detect concat
  kprobe_file time subject func_name args = do
    path ← over_args next_file_path (str "") args
    found ← is_sensitive path sensitive_targets
    (if found
        then ok (
            some (
              detect sensitive_access time subject (str "file_read")
                (str (concat ("read " ∷ format python_str path ∷ [])))
                (field "accessed_file" path
                  (field "process" subject.process (field "syscall" func_name end)))))
        else ok none)

  unfoldable pub kprobe_connect : (time : Json) → Subject → Items → Outcome
  unfolding find_sock_info get_of detect concat
  kprobe_connect time subject args =
      let sock = find_sock_info (obj end) args in
      do
        shown_address ← get_of sock "daddr" (str "unknown")
        port ← get_of sock "dport" (str "")
        address ← get_of sock "daddr" (str "")
        protocol ← get_of sock "proto" (str "TCP")
        ok (
            some (
              detect outbound_connection time subject (str "net_connect")
                (str (
                  concat (
                    "connect "
                    ∷ format python_str shown_address
                    ∷ ":"
                    ∷ format python_str port
                    ∷ [])))
                (field "destination_ip" address (
                  field "destination_port" port
                    (field "protocol" protocol (field "process" subject.process end))))))

  unfoldable pub kprobe_connects : (time : Json) → Subject → Json → Items → Outcome
  unfolding kprobe_connect text_in
  kprobe_connects time subject func_name args = do
    connects ← text_in "connect" func_name
    (if connects then kprobe_connect time subject args else ok none)

  unfoldable pub kprobe_opens : (time : Json) → Subject → Json → Items → Outcome
  unfolding kprobe_file text_in
  kprobe_opens time subject func_name args = do
    file ← text_in "file" func_name
    opens ← (if file then ok true else text_in "open" func_name)
    (if opens then kprobe_file time subject func_name args else ok none)

  -- The branches after the one on `execve`, in their order.
  unfoldable pub kprobe_io : (time : Json) → Subject → Json → Items → Outcome
  unfolding kprobe_opens kprobe_connects
  kprobe_io time subject func_name args =
      kprobe_opens time subject func_name args
      >>= or_try (kprobe_connects time subject func_name args)

  unfoldable pub kprobe_in_pod :
      (protected : String) (time : Json) → Fields → Fields → Fields → Outcome
  unfolding kprobe_execve kprobe_io text_in
  kprobe_in_pod protected time event proc pod =
      let func_name = get_or event "function_name" (str "") in
      let args = args_of (get_or event "args" (arr nil)) in
      if is_foreign protected (get_or pod "namespace" (str "")) then ok none else (do
        execve ← text_in "execve" func_name
        (if execve
            then kprobe_execve protected time proc args
            else kprobe_io time (subject_of protected pod (field_or proc "binary" (str "")))
                func_name args))

  unfoldable pub kprobe_process : (protected : String) (time : Json) → Fields → Fields → Outcome
  unfolding kprobe_in_pod
  kprobe_process protected time event proc = elim (as_dict (get_or proc "pod" (obj end))) [
    | none ↦ ok none
    | some pod ↦ kprobe_in_pod protected time event proc pod
  ]

  unfoldable pub handle_kprobe : (protected : String) (time : Json) → Json → Outcome
  unfolding kprobe_process
  handle_kprobe protected time kprobe_event = elim (as_dict kprobe_event) [
    | none ↦ ok none
    | some event ↦ elim (as_dict (get_or event "process" (obj end))) [
      | none ↦ ok none
      | some proc ↦ kprobe_process protected time event proc
    ]
  ]

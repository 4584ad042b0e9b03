-- ===== src/Detection/Exec.antt =====
-- `_handle_process_exec` of src/cloudnative_threatguard/detection/engine.py: the rules on the binary of a
-- started process. `python_str` is what `str` makes of a value that is no text.
use cloud_native_threat_guar.Prelude.{
  String, Bool, not, ◌&&◌, Option, none, some, List, [], ◌∷◌, if◌then◌else◌,
}
use cloud_native_threat_guar.Prelude.Json.{
  Json, null, str, arr, obj, nil, Fields, end, field, or_json, field_or,
}
use cloud_native_threat_guar.Prelude.Python.{PyError, get_of, basename, equals_text, strip}
use cloud_native_threat_guar.Prelude.Result.{Result, ok, ◌>>=◌}
use cloud_native_threat_guar.Prelude.Text.{lower, truthy, member, concat}
use cloud_native_threat_guar.Detection.Rules.Defaults.{
  shell_execution, network_utility, reconnaissance, privilege_escalation, cryptomining,
}
use cloud_native_threat_guar.Detection.Events.{ThreatGuardDetection, Subject, detect}

abbrev pub shells : List String
shells = "sh" ∷ "bash" ∷ "dash" ∷ "zsh" ∷ []

abbrev pub network_tools : List String
network_tools = "curl" ∷ "wget" ∷ "nc" ∷ "netcat" ∷ "socat" ∷ "nmap" ∷ []

abbrev pub reconnaissance_tools : List String
reconnaissance_tools = "whoami" ∷ "id" ∷ "uname" ∷ "ps" ∷ "env" ∷ []

abbrev pub escalation_tools : List String
escalation_tools = "nsenter" ∷ "unshare" ∷ "capsh" ∷ "chroot" ∷ []

abbrev pub miners : List String
miners = "xmrig" ∷ "minerd" ∷ "ccminer" ∷ "cpuminer" ∷ "cgminer" ∷ "ethminer" ∷ []

abbrev pub Outcome : Type 0
Outcome = Result PyError (Option ThreatGuardDetection)

abbrev pub as_dict : Json → Option Fields
as_dict (obj fs) = some fs
as_dict _ = none

-- `v.get(key) or default`
abbrev pub get_or : Fields → String → Json → Json
get_or fs key default = or_json (field_or fs key null) default

-- `container_obj.get("name", "") if isinstance(container_obj, dict) else ""`
abbrev pub container_of : Fields → Json
container_of pod = elim (as_dict (get_or pod "container" (obj end))) [
  | none ↦ str ""
  | some c ↦ field_or c "name" (str "")
]

-- The event is outside of the protected namespace, if there is one.
abbrev pub is_foreign : String → Json → Bool
is_foreign protected namespace = truthy protected && not (equals_text namespace protected)

abbrev pub subject_of : String → Fields → Json → Subject
subject_of protected pod process = record {
  namespace = or_json (get_or pod "namespace" (str "")) (str protected);
  pod = get_or pod "name" (str "");
  container = container_of pod;
  process = process;
}

-- `proc.get(key, {}).get(inner, default)`
abbrev pub nested : Fields → String → String → Json → Result PyError Json
nested proc key inner default = get_of (field_or proc key (obj end)) inner default

module _ (python_str : Json → String) where
  -- A value inside an f-string.
  abbrev pub format : Json → String
  format (str s) = s
  format v = python_str v

  abbrev pub command_of : Json → Json → Json
  command_of binary args = str (strip (concat (format binary ∷ " " ∷ format args ∷ [])))

  -- The chain of rules on the lower-case base name.
  unfoldable pub match_binary : (time : Json) → Subject → Fields → Json → Json → String → Outcome
  unfolding detect get_of strip concat
  match_binary time subject proc binary args base =
      let command = command_of binary args in
      let pid = field_or proc "pid" null in
      let seen : Fields → Fields =
        λ rest. field "binary" binary (field "arguments" args (field "pid" pid rest)) in
      if member base shells
      then (do
        parent ← nested proc "parent" "binary" (str "")
        ok (
            some (
              detect shell_execution time subject (str "process_exec") command (
                seen
                  (field "uid" (field_or proc "uid" null) (field "parent_process" parent end))))))
      else if member base network_tools
      then (do
        parent ← nested proc "parent" "binary" (str "")
        ok (
            some (
              detect network_utility time subject (str "process_exec") command
                (seen (field "parent_process" parent end)))))
      else if member base reconnaissance_tools
      then ok (some (detect reconnaissance time subject (str "process_exec") command (seen end)))
      else if member base escalation_tools
      then (do
        cap ← nested proc "cap" "effective" (arr nil)
        ok (
            some (
              detect privilege_escalation time subject (str "priv_escalation") command
                (seen (field "cap_effective" cap end)))))
      else if member base miners
      then ok (some (detect cryptomining time subject (str "process_exec") command (seen end)))
      else ok none

  -- A process and its pod.
  unfoldable pub exec_in_pod : (protected : String) (time : Json) → Fields → Fields → Outcome
  unfolding match_binary basename lower
  exec_in_pod protected time proc pod =
      let binary = get_or proc "binary" (str "") in
      let args = get_or proc "arguments" (str "") in
      if is_foreign protected (get_or pod "namespace" (str "")) then ok none else (do
        base ← basename binary
        match_binary time (subject_of protected pod binary) proc binary args (lower base))

  unfoldable pub exec_process : (protected : String) (time : Json) → Fields → Outcome
  unfolding exec_in_pod
  exec_process protected time proc = elim (as_dict (get_or proc "pod" (obj end))) [
    | none ↦ ok none
    | some pod ↦ exec_in_pod protected time proc pod
  ]

  unfoldable pub handle_process_exec : (protected : String) (time : Json) → Json → Outcome
  unfolding exec_process
  handle_process_exec protected time exec_event = elim (as_dict exec_event) [
    | none ↦ ok none
    | some event ↦ elim (as_dict (get_or event "process" (obj end))) [
      | none ↦ ok none
      | some proc ↦ exec_process protected time proc
    ]
  ]

-- ===== src/Runtime/Collector.antt =====
-- src/cloudnative_threatguard/runtime/collector.py: the sensor's exported events of one pod, without those that
-- were exported twice, and with secrets masked. `loads` is `json.loads`, `str_of` is `str`, `dumps` is
-- `json.dumps` with sorted keys, `digest` the shortened SHA-256 of the UTF-8 encoding,
-- which raises a UnicodeEncodeError (a ValueError) on a lone surrogate, `mask` the substitution of secrets, and `dict_of`
-- is `dict` on a value that is no dict. The texts of the errors are left out.
pub mod Redaction
pub mod Target
use cloud_native_threat_guar.Prelude.{
  ℕ, zero, suc, String, Bool, true, false, not, ◌&&◌, ◌||◌, Option, none, some, List, [], ◌∷◌, ◌++◌,
  ◌==◌, eqb, is_empty, if◌then◌else◌,
}
use cloud_native_threat_guar.Prelude.Json.{
  Json, null, str, obj, Fields, end, field, is_truthy, or_json, find_field, field_or, set_field,
}
use cloud_native_threat_guar.Prelude.Python.{PyError, equals_text, strip}
use cloud_native_threat_guar.Prelude.Result.{Result, ok, err, ◌>>=◌}
use cloud_native_threat_guar.Prelude.Text.{truthy, member, upper, contains, join, concat}
use cloud_native_threat_guar.Detection.Exec.{as_dict}

abbrev pub event_keys : List String
event_keys = "process_exec" ∷ "process_exit" ∷ "process_kprobe" ∷ []

abbrev pub dict_at : Fields → String → Option Fields
dict_at fs key = as_dict (field_or fs key null)

abbrev pub pick : String → Option Fields → Option (String × Fields) → Option (String × Fields)
pick key none rest = rest
pick key (some body) rest = some (key, body)

-- The first key that holds a dict, and the dict.
unfoldable pub find_kind : Fields → List String → Option (String × Fields)
find_kind event [] = none
find_kind event (key ∷ keys) = pick key (dict_at event key) (find_kind event keys)

abbrev pub kind_of : Option (String × Fields) → String
kind_of none = ""
kind_of (some (key, body)) = key

abbrev pub body_of : Option (String × Fields) → Fields
body_of none = end
body_of (some (key, body)) = body

unfoldable pub event_kind : Fields → String
unfolding find_kind
event_kind event = kind_of (find_kind event event_keys)

-- `event.get(kind, {}) if kind else {}`
unfoldable pub event_body : Fields → Fields
unfolding find_kind
event_body event = body_of (find_kind event event_keys)

abbrev pub or_empty : Option Fields → Fields
or_empty none = end
or_empty (some fs) = fs

unfoldable pub event_process : Fields → Fields
unfolding event_body
event_process event = or_empty (dict_at (event_body event) "process")

abbrev pub names_of : Option Fields → Json × Json
names_of none = (str "", str "")
names_of (some pod) =
    (or_json (field_or pod "namespace" null) (str ""), or_json (field_or pod "name" null) (str ""))

unfoldable pub event_pod : Fields → Json × Json
unfolding event_process
event_pod event = names_of (dict_at (event_process event) "pod")

abbrev pub is_target : (namespace pod : String) → Fields → Bool
is_target namespace pod event =
    equals_text (event_pod event).0 namespace && equals_text (event_pod event).1 pod

-- `{k: d[k] for k in keys if k in d}`
unfoldable pub keep_keys : List String → Fields → Fields
keep_keys [] fs = end
keep_keys (key ∷ keys) fs =
    let rest = keep_keys keys fs in
    elim (find_field fs key) [ none ↦ rest | some v ↦ field key v rest ]

abbrev pub process_keys : List String
process_keys = "exec_id" ∷ "pid" ∷ "uid" ∷ "binary" ∷ "arguments" ∷ "pod" ∷ "start_time" ∷ []

abbrev pub body_keys : List String
body_keys = "function_name" ∷ "args" ∷ "action" ∷ "signal" ∷ "status" ∷ "policy_name" ∷ []

pub record CollectionResult : Type 0 where
  pub events : List Fields
  pub status : String
  pub parse_errors : ℕ
  pub duplicates_dropped : ℕ
  pub dropped_other_pods : ℕ

abbrev pub empty_result : CollectionResult
empty_result = record {
  events = [];
  status = "ok";
  parse_errors = 0;
  duplicates_dropped = 0;
  dropped_other_pods = 0;
}

module _ (loads : String → Option Json) (str_of dumps : Json → String)
    (digest : String → Result PyError String) (mask : String → String)
    (dict_of : Json → Result PyError Fields) where
  unfoldable pub source_identity : Fields → Result PyError String
  unfolding event_kind event_process event_body find_field join
  source_identity event =
      let process = event_process event in
      let body = event_body event in
      digest (
        join "|" (
          event_kind event
          ∷ str_of (field_or event "time" (str ""))
          ∷ str_of (field_or process "exec_id" (str ""))
          ∷ str_of (field_or process "pid" (str ""))
          ∷ str_of (field_or body "function_name" (str ""))
          ∷ dumps (field_or body "args" (str ""))
          ∷ str_of (field_or body "signal" (str ""))
          ∷ str_of (field_or process "binary" (str ""))
          ∷ str_of (field_or process "arguments" (str ""))
          ∷ []))

  -- `if isinstance(keep.get("arguments"), str): ...`
  abbrev pub masked : Fields → Json → Fields
  masked keep (str arguments) = set_field keep "arguments" (str (mask arguments))
  masked keep _ = keep

  -- `dict(body.get("process") or {})`
  abbrev pub process_dict : Json → Result PyError Fields
  process_dict (obj fs) = ok fs
  process_dict v = if is_truthy v then dict_of v else ok end

  unfoldable pub redact : Fields → Result PyError Fields
  unfolding event_kind event_body keep_keys set_field find_field
  redact event =
      let body = event_body event in
      if truthy (event_kind event)
      then (do
        process ← process_dict (field_or body "process" null)
        let keep = keep_keys process_keys process in
            ok (
              field "time" (field_or event "time" (str "")) (
                field "node_name" (field_or event "node_name" (str "")) (
                  field (event_kind event)
                    (obj (
                      field "process" (obj (masked keep (field_or keep "arguments" null)))
                        (keep_keys body_keys body)))
                    end))))
      else ok end

  abbrev pub add_parsed : Option Json → List Fields × ℕ → List Fields × ℕ
  add_parsed none (events, errors) = (events, suc errors)
  add_parsed (some (obj event)) (events, errors) =
      if truthy (event_kind event) then (event ∷ events, errors) else (events, errors)
  add_parsed (some _) (events, errors) = (events, errors)

  -- The events of the lines, and the number of malformed lines.
  unfoldable pub parse_event_lines : List String → List Fields × ℕ
  unfolding event_kind strip
  parse_event_lines [] = ([], 0)
  parse_event_lines (line ∷ lines) =
      let rest = parse_event_lines lines in
      if truthy (strip line) then add_parsed (loads (strip line)) rest else rest

  abbrev pub add_event : CollectionResult → Fields → CollectionResult
  add_event result end = result
  add_event result cleaned = record result { events = result.events ++ cleaned ∷ [] }

  -- The loop over the parsed events; `seen` holds the identities so far.
  unfoldable pub collect_loop :
      (namespace pod : String)
      → List String
      → CollectionResult
      → List Fields
      → Result PyError CollectionResult
  unfolding source_identity redact event_pod
  collect_loop namespace pod seen result [] = ok result
  collect_loop namespace pod seen result (event ∷ raw) =
      let other =
        collect_loop namespace pod seen
          (record result { dropped_other_pods = suc result.dropped_other_pods }) raw in
      let duplicate =
        collect_loop namespace pod seen
          (record result { duplicates_dropped = suc result.duplicates_dropped }) raw in
      let kept : String → Fields → Result PyError CollectionResult = λ identity cleaned.
        collect_loop namespace pod (identity ∷ seen) (add_event result cleaned) raw in
      let known : String → Result PyError CollectionResult =
        λ identity. if member identity seen then duplicate else redact event >>= kept identity in
      if not (is_target namespace pod event) then other else source_identity event >>= known

  -- `kubectl logs` returned this code and these lines.
  unfoldable pub collect_live_events :
      (namespace pod : String) → (code : ℕ) → List String → Result PyError CollectionResult
  unfolding parse_event_lines collect_loop
  collect_live_events namespace pod code lines =
      if not (eqb code 0)
      then ok (record empty_result { status = "unavailable" })
      else (let parsed = parse_event_lines lines in
          collect_loop namespace pod []
            (record empty_result {
              parse_errors = parsed.1;
              status = if eqb parsed.1 0 then "ok" else "degraded";
            })
            parsed.0)

module _ (str_of : Json → String) where
  abbrev pub is_kill : String → Fields → Bool
  is_kill kind body =
      (kind == "process_exit" && upper (str_of (field_or body "signal" (str ""))) == "SIGKILL")
      || (kind == "process_kprobe"
          && contains (upper (str_of (field_or body "action" (str "")))) "SIGKILL")

  unfoldable pub enforcement_observed : List Fields → Bool
  unfolding event_kind event_body upper
  enforcement_observed [] = false
  enforcement_observed (event ∷ events) =
      let rest = enforcement_observed events in
      if is_kill (event_kind event) (event_body event) then true else rest

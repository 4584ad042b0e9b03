-- ===== src/Runtime/Collector/Redaction.antt =====
-- What redaction leaves of an event: the pod it is of.
use cloud_native_threat_guar.Prelude.{
  String, Bool, true, false, ◌&&◌, Option, none, some, List, [], ◌∷◌, ◌==◌, ◌≡◌, inl, inr, refl,
  sym, ap, ◌∙◌, Bool-cases, Option-cases, arith, eq_iff, if◌then◌else◌, subst,
}
use cloud_native_threat_guar.Prelude.Json.{
  Json, null, bool, int, negative, real, str, arr, obj, Fields, end, field, find_field, field_or,
  set_field,
}
use cloud_native_threat_guar.Prelude.Python.{PyError, equals_text}
use cloud_native_threat_guar.Prelude.Result.{Result, ok}
use cloud_native_threat_guar.Prelude.Text.{truthy, member}
use cloud_native_threat_guar.Detection.Exec.{as_dict}
use cloud_native_threat_guar.Runtime.Collector.{
  event_keys, dict_at, find_kind, kind_of, event_kind, event_body, or_empty, event_process,
  names_of, event_pod, is_target, keep_keys, process_keys, body_keys, masked, redact,
}

find_field-keep_keys :
    (keys : List String) (fs : Fields) (k : String)
    → find_field (keep_keys keys fs) k ≡ (if member k keys then find_field fs k else none)
unfolding keep_keys find_field
find_field-keep_keys [] fs k = refl
find_field-keep_keys (key ∷ keys) fs k = elim (Option-cases (find_field fs key)) [
  | inl e ↦ ground (arith, e, find_field-keep_keys keys fs k, eq_iff k key)
  | inr v ↦ ground (arith, v.1, find_field-keep_keys keys fs k, eq_iff k key, eq_iff key k)
]

find_field-set_field :
    (fs : Fields) (k j : String) (v : Json)
    → find_field (set_field fs k v) j ≡ (if k == j then some v else find_field fs j)
unfolding set_field find_field
find_field-set_field end k j v = refl
find_field-set_field (field i w fs) k j v =
    ground (arith, eq_iff k j, eq_iff i k, eq_iff i j, find_field-set_field fs k j v)

kindless :
    (event : Fields) → find_kind event event_keys ≡ none → truthy (event_kind event) ≡ true → ⊥
unfolding event_kind
kindless event e h =
    let no_kind : false ≡ true = sym (ap (λ o. truthy (kind_of o)) e) ∙ h in ground (arith, no_kind)

-- An event with a kind has one of the three.
find_kind-cases :
    (event : Fields)
    → truthy (event_kind event) ≡ true
    → (key : String) × (body : Fields) × (find_kind event event_keys ≡ some (key, body))
      × (member key event_keys ≡ true)
unfolding event_kind find_kind
find_kind-cases event h = elim (Option-cases (dict_at event "process_exec")) [
  | inr b ↦ ("process_exec", b.0, rw (b.1) refl, refl)
  | inl e1 ↦ elim (Option-cases (dict_at event "process_exit")) [
    | inr b ↦ ("process_exit", b.0, rw (e1, b.1) refl, refl)
    | inl e2 ↦ elim (Option-cases (dict_at event "process_kprobe")) [
      | inr b ↦ ("process_kprobe", b.0, rw (e1, e2, b.1) refl, refl)
      | inl e3 ↦ elim (kindless event (rw (e1, e2, e3) refl) h) [ ]
    ]
  ]
]

abbrev is_pair : String → String → Json × Json → Bool
is_pair namespace pod (ns, name) = equals_text ns namespace && equals_text name pod

nowhere :
    (namespace pod : String) → truthy namespace ≡ true → ("" == namespace && "" == pod) ≡ true → ⊥
nowhere namespace pod ht h = ground (arith, ht, h, eq_iff "" namespace)

as_dict-obj : (v : Json) (fs : Fields) → as_dict v ≡ some fs → v ≡ obj fs
as_dict-obj (obj gs) fs e = ap obj (ap or_empty e)
as_dict-obj null fs e = ground (arith, e)
as_dict-obj (bool b) fs e = ground (arith, e)
as_dict-obj (int n) fs e = ground (arith, e)
as_dict-obj (negative n) fs e = ground (arith, e)
as_dict-obj (real x) fs e = ground (arith, e)
as_dict-obj (str x) fs e = ground (arith, e)
as_dict-obj (arr vs) fs e = ground (arith, e)

has_kind :
    (event : Fields)
    → truthy (event_kind event) ≡ true
    → member (event_kind event) event_keys ≡ true
unfolding event_kind
has_kind event h =
    let kind = find_kind-cases event h in
    subst (λ o. member (kind_of o) event_keys ≡ true) (sym (kind.2)) (kind.3)

-- An event of a pod with a namespace has a dict as its process.
target_process :
    (namespace pod : String) (event : Fields)
    → truthy namespace ≡ true
    → is_target namespace pod event ≡ true
    → (process : Fields) × (field_or (event_body event) "process" null ≡ obj process)
unfolding event_pod event_process find_field
target_process namespace pod event ht h =
    elim (Option-cases (dict_at (event_body event) "process")) [
      | inr fs ↦ (fs.0, as_dict-obj _ fs.0 fs.1)
      | inl e ↦
          let there : ("" == namespace && "" == pod) ≡ true =
            subst (λ o. is_pair namespace pod (names_of (dict_at (or_empty o) "pod")) ≡ true) e h in
          elim (nowhere namespace pod ht there) [ ]
    ]

-- The event that `redact` builds, and its pod.
abbrev pub built : String → Json → Json → Fields → Fields → Fields
built key time node process rest =
    field "time" time
      (field "node_name" node (field key (obj (field "process" (obj process) rest)) end))

built-event_pod :
    (key : String) (time node : Json) (process rest : Fields)
    → member key event_keys ≡ true
    → event_pod (built key time node process rest) ≡ names_of (dict_at process "pod")
unfolding event_pod event_process event_body find_kind find_field
built-event_pod key time node process rest h = elim (Bool-cases (key == "process_exec")) [
  | inl e ↦ rw ((eq_iff key "process_exec").0 e) refl
  | inr e1 ↦ elim (Bool-cases (key == "process_exit")) [
    | inl e ↦ rw ((eq_iff key "process_exit").0 e) refl
    | inr e2 ↦
        let last : key ≡ "process_kprobe" =
          ground (arith, h, e1, e2, eq_iff key "process_kprobe") in
        rw last refl
  ]
]

module _ (loads : String → Option Json) (str_of dumps : Json → String)
    (digest : String → Result PyError String) (mask : String → String)
    (dict_of : Json → Result PyError Fields) (namespace pod : String) where
  masked-pod :
      (keep : Fields) (v : Json)
      → find_field (masked loads str_of dumps digest mask dict_of keep v) "pod"
        ≡ find_field keep "pod"
  unfolding find_field
  masked-pod keep (str s) = find_field-set_field keep "arguments" "pod" (str (mask s))
  masked-pod keep null = refl
  masked-pod keep (bool b) = refl
  masked-pod keep (int n) = refl
  masked-pod keep (negative n) = refl
  masked-pod keep (real x) = refl
  masked-pod keep (arr vs) = refl
  masked-pod keep (obj fs) = refl

  abbrev pub kept : Fields → Fields
  kept process =
      let keep = keep_keys process_keys process in
      masked loads str_of dumps digest mask dict_of keep (field_or keep "arguments" null)

  kept-pod : (process : Fields) → dict_at (kept process) "pod" ≡ dict_at process "pod"
  kept-pod process =
      ap (λ o. as_dict (elim o [ none ↦ null | some v ↦ v ]))
        (masked-pod (keep_keys process_keys process) _
          ∙ find_field-keep_keys process_keys process "pod")

  abbrev pub cleaned_of : Fields → Fields → Fields
  cleaned_of event process =
      built (event_kind event) (field_or event "time" (str ""))
        (field_or event "node_name" (str "")) (kept process)
        (keep_keys body_keys (event_body event))

  own_pod :
      (event process : Fields)
      → field_or (event_body event) "process" null ≡ obj process
      → event_pod event ≡ names_of (dict_at process "pod")
  unfolding event_pod event_process
  own_pod event process e = rw e refl

  cleaned-event_pod :
      (event process : Fields)
      → truthy (event_kind event) ≡ true
      → field_or (event_body event) "process" null ≡ obj process
      → event_pod (cleaned_of event process) ≡ event_pod event
  cleaned-event_pod event process hk e =
      built-event_pod (event_kind event) _ _ (kept process) _ (has_kind event hk)
      ∙ ap names_of (kept-pod process)
      ∙ sym (own_pod event process e)

  pub redact-is_target :
      (event : Fields)
      → truthy namespace ≡ true
      → truthy (event_kind event) ≡ true
      → is_target namespace pod event ≡ true
      → (process : Fields) × (redact loads str_of dumps digest mask dict_of event
          ≡ ok (cleaned_of event process))
        × (is_target namespace pod (cleaned_of event process) ≡ true)
  unfolding redact
  redact-is_target event ht hk h =
      let process = target_process namespace pod event ht h in
      (
        process.0,
        rw (hk, process.1) refl,
        subst (λ p. is_pair namespace pod p ≡ true)
            (sym (cleaned-event_pod event process.0 hk process.1)) h,
      )

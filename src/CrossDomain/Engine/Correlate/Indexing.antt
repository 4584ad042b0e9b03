-- ===== src/CrossDomain/Engine/Correlate/Indexing.antt =====
-- What the index of the ingested events holds under a key.
use mathlib.Core.List.Memᴰ
use cloud_native_threat_guar.Prelude.{
  String, Bool, true, false, List, [], ◌∷◌, ◌++◌, ◌≡◌, ◌⊎◌, inl, inr, refl, sym, subst, ◌==◌,
  eq_iff, eq_refl, Memᴰ, Bool-cases, Option-cases, arith, if◌then◌else◌,
}
use cloud_native_threat_guar.Prelude.Dict
use cloud_native_threat_guar.Prelude.Dict.{Dict, get-put}
use cloud_native_threat_guar.CrossDomain.Event.{
  EventSource, cloudgraphguard, threatguard, UnifiedSecurityEvent,
}
use cloud_native_threat_guar.CrossDomain.Engine.{
  Index, append_at, events_at, role_key, workload_key, is_admission, file_event, index_events,
}

-- Filing an event adds it at the end of its key's list and leaves the other lists alone.
events_at-append_at :
    (index : Dict (List UnifiedSecurityEvent)) (key k : String) (ev : UnifiedSecurityEvent)
    → events_at (append_at index key ev) k
      ≡ (if key == k then events_at index k ++ ev ∷ [] else events_at index k)
unfolding append_at
events_at-append_at index key k ev = elim (Option-cases (Dict.get index key)) [
  | inl missing ↦ ground (arith, get-put index key k (ev ∷ []), eq_iff key k)
  | inr (es, at) ↦ ground (arith, get-put index key k (es ++ ev ∷ []), eq_iff key k)
]

-- The kind of event that each of the three indexes holds.
pub data Kind : Type 0 where
  iam runtime admission : Kind

abbrev pub kind_of : EventSource → Bool → Kind
kind_of cloudgraphguard b = iam
kind_of threatguard true = admission
kind_of threatguard false = runtime

abbrev pub kind : UnifiedSecurityEvent → Kind
kind ev = kind_of ev.source (is_admission ev.event_type)

abbrev pub index_of : Kind → Index → Dict (List UnifiedSecurityEvent)
index_of iam index = index.iam_by_role
index_of runtime index = index.runtime_by_workload
index_of admission index = index.admission_by_workload

abbrev pub key_of : Kind → UnifiedSecurityEvent → String
key_of iam ev = role_key ev
key_of runtime ev = workload_key ev
key_of admission ev = workload_key ev

abbrev stored : Kind → String → Index → List UnifiedSecurityEvent
stored k key index = events_at (index_of k index) key

abbrev filed : Index → UnifiedSecurityEvent → Index
filed index ev = file_event index ev ev.source

abbrev Appended :
    List UnifiedSecurityEvent → List UnifiedSecurityEvent → UnifiedSecurityEvent → Type 0 → Type 0
Appended new old ev P = (new ≡ old) ⊎ ((new ≡ old ++ ev ∷ []) × P)

append_at_cases :
    (index : Dict (List UnifiedSecurityEvent)) (key k : String) (ev : UnifiedSecurityEvent)
    → Appended (events_at (append_at index key ev) k) (events_at index k) ev (key ≡ k)
append_at_cases index key k ev = elim (Bool-cases (key == k)) [
  | inl same ↦ inr (ground (arith, events_at-append_at index key k ev), (eq_iff key k).0 same)
  | inr other ↦ inl (ground (arith, events_at-append_at index key k ev))
]

file_event_cases :
    (k : Kind) (key : String) (index : Index) (ev : UnifiedSecurityEvent) (source : EventSource)
    → Appended
        (stored k key (file_event index ev source))
        (stored k key index)
        ev
        ((kind_of source (is_admission ev.event_type) ≡ k) × (key_of k ev ≡ key))
unfolding file_event
file_event_cases iam key index ev cloudgraphguard =
    elim (append_at_cases index.iam_by_role (role_key ev) key ev) [
      | inl same ↦ inl same
      | inr (longer, e) ↦ inr (longer, (refl, e))
    ]
file_event_cases runtime key index ev cloudgraphguard = inl refl
file_event_cases admission key index ev cloudgraphguard = inl refl
file_event_cases iam key index ev threatguard = ground arith
file_event_cases runtime key index ev threatguard = elim (Bool-cases (is_admission ev.event_type)) [
  | inl adm ↦ rw adm (inl refl)
  | inr run ↦ elim (append_at_cases index.runtime_by_workload (workload_key ev) key ev) [
    | inl same ↦ rw run (inl same)
    | inr (longer, e) ↦ rw run (inr (longer, (refl, e)))
  ]
]
file_event_cases admission key index ev threatguard =
    elim (Bool-cases (is_admission ev.event_type)) [
      | inr run ↦ rw run (inl refl)
      | inl adm ↦ elim (append_at_cases index.admission_by_workload (workload_key ev) key ev) [
        | inl same ↦ rw adm (inl same)
        | inr (longer, e) ↦ rw adm (inr (longer, (refl, e)))
      ]
    ]

-- An event is filed under its own kind and key.
file_event_own :
    (index : Index) (ev : UnifiedSecurityEvent) (source : EventSource)
    → let k = kind_of source (is_admission ev.event_type) in
      stored k (key_of k ev) (file_event index ev source) ≡ stored k (key_of k ev) index ++ ev ∷ []
unfolding file_event
file_event_own index ev cloudgraphguard = ground (
  arith,
  events_at-append_at index.iam_by_role (role_key ev) (role_key ev) ev,
  eq_refl (role_key ev),
)
file_event_own index ev threatguard = elim (Bool-cases (is_admission ev.event_type)) [
  | inl adm ↦ rw adm (
      ground (
        arith,
        events_at-append_at index.admission_by_workload (workload_key ev) (workload_key ev) ev,
        eq_refl (workload_key ev),
      ))
  | inr run ↦ rw run (
      ground (
        arith,
        events_at-append_at index.runtime_by_workload (workload_key ev) (workload_key ev) ev,
        eq_refl (workload_key ev),
      ))
]

-- What was stored stays stored.
index_events-keeps :
    (k : Kind) (key : String) (index : Index) (events : List UnifiedSecurityEvent)
    (x : UnifiedSecurityEvent)
    → Memᴰ x (stored k key index)
    → Memᴰ x (stored k key (index_events index events))
unfolding index_events
index_events-keeps k key index [] x m = m
index_events-keeps k key index (ev ∷ events) x m =
    index_events-keeps k key (filed index ev) events x
      (elim (file_event_cases k key index ev ev.source) [
        | inl same ↦ rw same m
        | inr (longer, _) ↦ rw longer (Memᴰ.append_left _ m)
      ])

-- The index holds each event under its own kind and key.
pub index_events_complete :
    (index : Index) (events : List UnifiedSecurityEvent) (x : UnifiedSecurityEvent)
    → Memᴰ x events
    → Memᴰ x (stored (kind x) (key_of (kind x) x) (index_events index events))
unfolding index_events
index_events_complete index [] x m = absurd (Memᴰ.not-nil m)
index_events_complete index (ev ∷ events) x m = elim (Memᴰ.cases_cons m) [
  | inl same ↦
      index_events-keeps (kind x) (key_of (kind x) x) (filed index ev) events x
        (rw (← same) (rw (file_event_own index x x.source) (Memᴰ.append_right _ (Memᴰ.head refl))))
  | inr later ↦ index_events_complete (filed index ev) events x later
]

-- The index holds under a key only events of that kind and key that were ingested.
pub index_events_sound :
    (k : Kind) (key : String) (index : Index) (events : List UnifiedSecurityEvent)
    (x : UnifiedSecurityEvent)
    → Memᴰ x (stored k key (index_events index events))
    → Memᴰ x (stored k key index) ⊎ (Memᴰ x events × (kind x ≡ k) × (key_of k x ≡ key))
unfolding index_events
index_events_sound k key index [] x m = inl m
index_events_sound k key index (ev ∷ events) x m =
    elim (index_events_sound k key (filed index ev) events x m) [
      | inr (later, of_kind, at_key) ↦ inr (Memᴰ.tail later, of_kind, at_key)
      | inl before ↦ elim (file_event_cases k key index ev ev.source) [
        | inl same ↦ inl (rw same at before)
        | inr (longer, found) ↦ elim (Memᴰ.append_cases _ (rw longer at before)) [
          | inl old ↦ inl old
          | inr new ↦
              let e : x ≡ ev = Memᴰ.eq_of_singleton new in
              inr (
                Memᴰ.head e,
                subst (λ y. kind y ≡ k) (sym e) found.0,
                subst (λ y. key_of k y ≡ key) (sym e) found.1,
              )
        ]
      ]
    ]

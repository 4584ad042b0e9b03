-- ===== src/Correlation/Kubernetes/Grouping.antt =====
-- What the incidents of correlation/kubernetes.py hold of the events they are made from.
use mathlib.Core.List.Memᴰ
use cloud_native_threat_guar.Prelude.{
  ℕ, suc, ◌≤◌, String, false, List, [], ◌∷◌, ◌==◌, ◌≡◌, ◌⊎◌, inl, inr, refl, arith, ltb, ltb→lt,
  ltb-false, Memᴰ, Bool-cases,
}
use cloud_native_threat_guar.Prelude.Sort.{insert, sort_by}
use cloud_native_threat_guar.Prelude.Text.{text_leb, member}
use cloud_native_threat_guar.Runtime.Events.{SecurityEvent, SecurityIncident}
use cloud_native_threat_guar.Correlation.Kubernetes.{
  severity_index, severity_order, group_key, Groups, add_event, group_events, raise,
  highest_severity, max_confidence, incident_of, incidents_of, make_incidents, correlate_incidents,
}

module _ (key : SecurityEvent → String) where
  insert-new : (x : SecurityEvent) (xs : List SecurityEvent) → Memᴰ x (insert key x xs)
  unfolding insert
  insert-new x [] = Memᴰ.head refl
  insert-new x (y ∷ ys) = elim (Bool-cases (text_leb (key x) (key y))) [
    | inl e ↦ rw e (Memᴰ.head refl)
    | inr e ↦ rw e (Memᴰ.tail (insert-new x ys))
  ]

  insert-old :
      (x z : SecurityEvent) (xs : List SecurityEvent) → Memᴰ z xs → Memᴰ z (insert key x xs)
  unfolding insert
  insert-old x z [] m = Memᴰ.tail m
  insert-old x z (y ∷ ys) m = elim (Bool-cases (text_leb (key x) (key y))) [
    | inl e ↦ rw e (Memᴰ.tail m)
    | inr e ↦ rw e (elim (Memᴰ.cases_cons m) [
      | inl here ↦ Memᴰ.head here
      | inr there ↦ Memᴰ.tail (insert-old x z ys there)
    ])
  ]

  sort_by-mem : (z : SecurityEvent) (xs : List SecurityEvent) → Memᴰ z xs → Memᴰ z (sort_by key xs)
  unfolding sort_by
  sort_by-mem z [] m = m
  sort_by-mem z (x ∷ xs) m = elim (Memᴰ.cases_cons m) [
    | inl here ↦ rw here (insert-new x (sort_by key xs))
    | inr there ↦ insert-old x z (sort_by key xs) (sort_by-mem z xs there)
  ]

-- The event stands in one of the groups.
abbrev Grouped : SecurityEvent → Groups → Type 0
Grouped e [] = Memᴰ e []
Grouped e ((k, es) ∷ groups) = Memᴰ e es ⊎ Grouped e groups

add_event-new :
    (groups : Groups) (key : String) (ev : SecurityEvent) → Grouped ev (add_event groups key ev)
unfolding add_event
add_event-new [] key ev = inl (Memᴰ.head refl)
add_event-new ((j, es) ∷ groups) key ev = elim (Bool-cases (j == key)) [
  | inl e ↦ rw e (inl (Memᴰ.append_right es (Memᴰ.head refl)))
  | inr e ↦ rw e (inr (add_event-new groups key ev))
]

add_event-old :
    (groups : Groups) (key : String) (ev e : SecurityEvent)
    → Grouped e groups
    → Grouped e (add_event groups key ev)
unfolding add_event
add_event-old [] key ev e m = inr m
add_event-old ((j, es) ∷ groups) key ev e m = elim (Bool-cases (j == key)) [
  | inl same ↦ rw same (elim m [ inl here ↦ inl (Memᴰ.append_left _ here) | inr there ↦ inr there ])
  | inr other ↦
      rw other
        (elim m [ inl here ↦ inl here | inr there ↦ inr (add_event-old groups key ev e there) ])
]

group_events-old :
    (groups : Groups) (events : List SecurityEvent) (e : SecurityEvent)
    → Grouped e groups
    → Grouped e (group_events groups events)
unfolding group_events
group_events-old groups [] e m = m
group_events-old groups (ev ∷ events) e m =
    group_events-old (add_event groups (group_key ev) ev) events e
      (add_event-old groups (group_key ev) ev e m)

group_events-all :
    (groups : Groups) (events : List SecurityEvent) (e : SecurityEvent)
    → Memᴰ e events
    → Grouped e (group_events groups events)
unfolding group_events
group_events-all groups [] e m = absurd (Memᴰ.not-nil m)
group_events-all groups (ev ∷ events) e m = elim (Memᴰ.cases_cons m) [
  | inl here ↦ rw here (
      group_events-old (add_event groups (group_key ev) ev) events ev
        (add_event-new groups (group_key ev) ev))
  | inr there ↦ group_events-all (add_event groups (group_key ev) ev) events e there
]

severity_index-known : (s : String) → member s severity_order ≡ false → severity_index s ≡ 0
severity_index-known s h = ground arith

raise-above :
    (highest s : String)
    → (severity_index highest ≤ severity_index (raise highest s))
      × (severity_index s ≤ severity_index (raise highest s))
unfolding raise
raise-above highest s = elim (Bool-cases (member s severity_order)) [
  | inl known ↦ elim (Bool-cases (ltb (severity_index highest) (severity_index s))) [
    | inl more ↦ rw (known, more) (omega (arith, ltb→lt _ _ more))
    | inr less ↦ rw (known, less) (omega (arith, ltb-false _ _ less))
  ]
  | inr unknown ↦ rw unknown (omega (arith, severity_index-known s unknown))
]

highest-above :
    (highest : String) (events : List SecurityEvent)
    → (severity_index highest ≤ severity_index (highest_severity highest events))
      × ((e : SecurityEvent)
          → Memᴰ e events
          → severity_index e.severity ≤ severity_index (highest_severity highest events))
unfolding highest_severity
highest-above highest [] = (omega arith, λ e m. absurd (Memᴰ.not-nil m))
highest-above highest (x ∷ events) =
    let (start, all) = highest-above (raise highest x.severity) events in
    (
      omega (arith, (raise-above highest x.severity).0, start),
      λ e m. elim (Memᴰ.cases_cons m) [
        | inl here ↦ rw here (omega (arith, (raise-above highest x.severity).1, start))
        | inr there ↦ all e there
      ],
    )

max_confidence-above :
    (events : List SecurityEvent) (e : SecurityEvent)
    → Memᴰ e events
    → e.confidence ≤ max_confidence events
unfolding max_confidence
max_confidence-above [] e m = absurd (Memᴰ.not-nil m)
max_confidence-above (x ∷ events) e m = elim (Memᴰ.cases_cons m) [
  | inl here ↦ rw here (omega arith)
  | inr there ↦ omega (arith, max_confidence-above events e there)
]

-- The incident holds the event and is at least as severe and as sure.
pub record Covers (inc : SecurityIncident) (e : SecurityEvent) : Type 0 where
  pub holds : Memᴰ e inc.events
  pub severe : severity_index e.severity ≤ severity_index inc.severity
  pub sure : e.confidence ≤ inc.confidence

incidents_of-Covers :
    (incident_id created_at key : String) (events : List SecurityEvent) (e : SecurityEvent)
    → Memᴰ e events
    → (inc : SecurityIncident) × Memᴰ inc (incidents_of incident_id created_at key events)
      × Covers inc e
unfolding incident_of
incidents_of-Covers incident_id created_at key [] e m = absurd (Memᴰ.not-nil m)
incidents_of-Covers incident_id created_at key (x ∷ events) e m = (
  incident_of incident_id created_at key x events,
  Memᴰ.head refl,
  record {
    holds = m;
    severe = (highest-above "LOW" (x ∷ events)).1 e m;
    sure = max_confidence-above (x ∷ events) e m;
  },
)

make_incidents-Covers :
    (fresh : ℕ → String × String) (n : ℕ) (groups : Groups) (e : SecurityEvent)
    → Grouped e groups
    → (inc : SecurityIncident) × Memᴰ inc (make_incidents fresh n groups) × Covers inc e
unfolding make_incidents
make_incidents-Covers fresh n [] e m = absurd (Memᴰ.not-nil m)
make_incidents-Covers fresh n ((key, events) ∷ groups) e m = elim m [
  | inl here ↦
      let (inc, made, covers) =
        incidents_of-Covers (fresh n).0 (fresh n).1 key (sort_by (λ x. x.timestamp) events) e
          (sort_by-mem (λ x. x.timestamp) e events here) in
      (inc, Memᴰ.append_left _ made, covers)
  | inr there ↦
      let (inc, made, covers) = make_incidents-Covers fresh (suc n) groups e there in
      (inc, Memᴰ.append_right _ made, covers)
]

-- Every event stands in an incident that is at least as severe (in the order INFO, LOW, MEDIUM, HIGH,
-- CRITICAL, where another text counts as INFO) and has at least its confidence.
pub correlate_incidents-Covers :
    (fresh : ℕ → String × String) (events : List SecurityEvent) (e : SecurityEvent)
    → Memᴰ e events
    → (inc : SecurityIncident) × Memᴰ inc (correlate_incidents fresh events) × Covers inc e
unfolding correlate_incidents
correlate_incidents-Covers fresh events e m =
    make_incidents-Covers fresh 0 (group_events [] events) e (group_events-all [] events e m)

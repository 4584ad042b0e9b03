-- ===== src/Correlation/Kubernetes/Multiset.antt =====
-- The events of the incidents of correlation/kubernetes.py, with how often each one stands there.
use cloud_native_threat_guar.Prelude.{
  ℕ, suc, ◌+◌, String, Bool, List, [], ◌∷◌, ◌++◌, ◌≡◌, refl, arith, count_if,
}
use cloud_native_threat_guar.Prelude.Sort.{insert, sort_by}
use cloud_native_threat_guar.Runtime.Events.{SecurityEvent, SecurityIncident}
use cloud_native_threat_guar.Correlation.Kubernetes.{
  group_key, Groups, add_event, group_events, incident_of, incidents_of, make_incidents,
  correlate_incidents,
}

-- How many of the events of the incidents pass a test.
abbrev pub event_count : (SecurityEvent → Bool) → List SecurityIncident → ℕ
event_count test [] = 0
event_count test (inc ∷ incidents) = count_if test inc.events + event_count test incidents

module _ (test : SecurityEvent → Bool) where
  count_if-append :
      (xs ys : List SecurityEvent) → count_if test (xs ++ ys) ≡ count_if test xs + count_if test ys
  count_if-append [] ys = omega arith
  count_if-append (x ∷ xs) ys = ground (arith, count_if-append xs ys)

  count_if-insert :
      (key : SecurityEvent → String) (x : SecurityEvent) (xs : List SecurityEvent)
      → count_if test (insert key x xs) ≡ count_if test (x ∷ xs)
  unfolding insert
  count_if-insert key x [] = refl
  count_if-insert key x (y ∷ ys) = ground (arith, count_if-insert key x ys)

  count_if-sort_by :
      (key : SecurityEvent → String) (xs : List SecurityEvent)
      → count_if test (sort_by key xs) ≡ count_if test xs
  unfolding sort_by
  count_if-sort_by key [] = refl
  count_if-sort_by key (x ∷ xs) =
      ground (arith, count_if-insert key x (sort_by key xs), count_if-sort_by key xs)

  abbrev grouped_count : Groups → ℕ
  grouped_count [] = 0
  grouped_count ((key, events) ∷ groups) = count_if test events + grouped_count groups

  add_event-count :
      (groups : Groups) (key : String) (ev : SecurityEvent)
      → grouped_count (add_event groups key ev) ≡ grouped_count groups + count_if test (ev ∷ [])
  unfolding add_event
  add_event-count [] key ev = omega arith
  add_event-count ((j, es) ∷ groups) key ev =
      ground (arith, add_event-count groups key ev, count_if-append es (ev ∷ []))

  group_events-count :
      (groups : Groups) (events : List SecurityEvent)
      → grouped_count (group_events groups events) ≡ grouped_count groups + count_if test events
  unfolding group_events
  group_events-count groups [] = omega arith
  group_events-count groups (ev ∷ events) = ground (
    arith,
    group_events-count (add_event groups (group_key ev) ev) events,
    add_event-count groups (group_key ev) ev,
  )

  event_count-append :
      (xs ys : List SecurityIncident)
      → event_count test (xs ++ ys) ≡ event_count test xs + event_count test ys
  event_count-append [] ys = omega arith
  event_count-append (x ∷ xs) ys = omega (arith, event_count-append xs ys)

  event_count-incidents_of :
      (incident_id created_at key : String) (events : List SecurityEvent)
      → event_count test (incidents_of incident_id created_at key events) ≡ count_if test events
  unfolding incident_of
  event_count-incidents_of incident_id created_at key [] = refl
  event_count-incidents_of incident_id created_at key (e ∷ events) = omega arith

  event_count-make_incidents :
      (fresh : ℕ → String × String) (n : ℕ) (groups : Groups)
      → event_count test (make_incidents fresh n groups) ≡ grouped_count groups
  unfolding make_incidents
  event_count-make_incidents fresh n [] = refl
  event_count-make_incidents fresh n ((key, events) ∷ groups) =
      let sorted : List SecurityEvent = sort_by (λ x. x.timestamp) events in
      omega (
        arith,
        event_count-append (incidents_of (fresh n).0 (fresh n).1 key sorted)
            (make_incidents fresh (suc n) groups),
        event_count-incidents_of (fresh n).0 (fresh n).1 key sorted,
        count_if-sort_by (λ x. x.timestamp) events,
        event_count-make_incidents fresh (suc n) groups,
      )

-- The incidents together hold the given events as a multiset: every test on events, that of being one event
-- included, holds of as many events of the incidents as of the given ones.
pub correlate_incidents_count :
    (fresh : ℕ → String × String) (events : List SecurityEvent) (test : SecurityEvent → Bool)
    → event_count test (correlate_incidents fresh events) ≡ count_if test events
unfolding correlate_incidents
correlate_incidents_count fresh events test = omega (
  arith,
  event_count-make_incidents test fresh 0 (group_events [] events),
  group_events-count test [] events,
)

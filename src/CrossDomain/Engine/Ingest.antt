-- ===== src/CrossDomain/Engine/Ingest.antt =====
-- Ingestion drops an event whose id was seen before.
use cloud_native_threat_guar.Prelude.{
  ℕ, suc, ◌+◌, String, true, false, ◌||◌, List, [], ◌∷◌, ◌++◌, ◌≡◌, inl, inr, refl, ◌==◌, eq_iff,
  eq_refl, length, length-append, Bool-cases, arith, if◌then◌else◌,
}
use cloud_native_threat_guar.Prelude.Text.{member}
use cloud_native_threat_guar.CrossDomain.Event.{UnifiedSecurityEvent}
use cloud_native_threat_guar.CrossDomain.Engine.{
  CrossDomainCorrelationEngine, ingest_event, ingest_loop, ingest_events,
}

abbrev pub ids : List UnifiedSecurityEvent → List String
ids [] = []
ids (ev ∷ events) = ev.event_id ∷ ids events

abbrev pub IsDistinct : List String → Type 0
IsDistinct [] = Unit
IsDistinct (x ∷ xs) = (member x xs ≡ false) × IsDistinct xs

-- The set of seen ids is that of the events kept, and no id is kept twice.
pub record IsTracked (engine : CrossDomainCorrelationEngine) : Type 0 where
  pub same : (id : String) → member id engine.seen_event_ids ≡ member id (ids engine.events)
  pub distinct : IsDistinct (ids engine.events)

member-ids-append :
    (id : String) (events : List UnifiedSecurityEvent) (ev : UnifiedSecurityEvent)
    → member id (ids (events ++ ev ∷ [])) ≡ (id == ev.event_id || member id (ids events))
member-ids-append id [] ev = refl
member-ids-append id (x ∷ events) ev = ground (arith, member-ids-append id events ev)

IsDistinct-append :
    (events : List UnifiedSecurityEvent) (ev : UnifiedSecurityEvent)
    → IsDistinct (ids events)
    → member ev.event_id (ids events) ≡ false
    → IsDistinct (ids (events ++ ev ∷ []))
IsDistinct-append [] ev d new = (refl, tt)
IsDistinct-append (x ∷ events) ev d new = (
  ground (
    arith,
    member-ids-append x.event_id events ev,
    eq_iff x.event_id ev.event_id,
    eq_iff ev.event_id x.event_id,
    d.0,
  ),
  IsDistinct-append events ev d.1 (ground arith),
)

ingest_event-IsTracked :
    (engine : CrossDomainCorrelationEngine) (ev : UnifiedSecurityEvent)
    → IsTracked engine
    → IsTracked (ingest_event engine ev).1
unfolding ingest_event
ingest_event-IsTracked engine ev t = elim (Bool-cases (member ev.event_id engine.seen_event_ids)) [
  | inl old ↦ rw old t
  | inr new ↦ rw new (record {
    same = λ id. ground (arith, member-ids-append id engine.events ev, t.same id);
    distinct = IsDistinct-append engine.events ev t.distinct (ground (arith, t.same ev.event_id));
  })
]

ingest_loop-IsTracked :
    (n : ℕ) (engine : CrossDomainCorrelationEngine) (events : List UnifiedSecurityEvent)
    → IsTracked engine
    → IsTracked (ingest_loop n engine events).1
unfolding ingest_loop
ingest_loop-IsTracked n engine [] t = t
ingest_loop-IsTracked n engine (ev ∷ events) t =
    ingest_loop-IsTracked (if (ingest_event engine ev).0 then suc n else n)
      (ingest_event engine ev).1 events (ingest_event-IsTracked engine ev t)

length-ingest_event :
    (n : ℕ) (engine : CrossDomainCorrelationEngine) (ev : UnifiedSecurityEvent)
    → length (ingest_event engine ev).1.events + n
      ≡ length engine.events + (if (ingest_event engine ev).0 then suc n else n)
unfolding ingest_event
length-ingest_event n engine ev = ground (arith, length-append engine.events (ev ∷ []))

ingest_loop-count :
    (n : ℕ) (engine : CrossDomainCorrelationEngine) (events : List UnifiedSecurityEvent)
    → length (ingest_loop n engine events).1.events + n
      ≡ length engine.events + (ingest_loop n engine events).0
unfolding ingest_loop
ingest_loop-count n engine [] = refl
ingest_loop-count n engine (ev ∷ events) =
    let (added, engine') = ingest_event engine ev in
    omega (
      arith,
      length-ingest_event n engine ev,
      ingest_loop-count (if added then suc n else n) engine' events,
    )

-- Ids that were seen stay seen, and every id of the batch is seen at the end.
ingest_loop-seen :
    (n : ℕ) (engine : CrossDomainCorrelationEngine) (events : List UnifiedSecurityEvent)
    (id : String)
    → (member id engine.seen_event_ids || member id (ids events)) ≡ true
    → member id (ingest_loop n engine events).1.seen_event_ids ≡ true
unfolding ingest_loop ingest_event
ingest_loop-seen n engine [] id h = ground arith
ingest_loop-seen n engine (ev ∷ events) id h =
    ingest_loop-seen (if (ingest_event engine ev).0 then suc n else n) (ingest_event engine ev).1
      events id (ground (arith, eq_iff id ev.event_id))

-- A batch whose ids were all seen changes nothing.
ingest_loop-idle :
    (n : ℕ) (engine : CrossDomainCorrelationEngine) (events : List UnifiedSecurityEvent)
    → ((id : String) → member id (ids events) ≡ true → member id engine.seen_event_ids ≡ true)
    → ingest_loop n engine events ≡ (n, engine)
unfolding ingest_loop ingest_event
ingest_loop-idle n engine [] h = refl
ingest_loop-idle n engine (ev ∷ events) h =
    rw (h ev.event_id (ground (arith, eq_refl ev.event_id)))
      (ingest_loop-idle n engine events (λ id m. h id (ground arith)))

-- A batch leaves an engine that tracks its ids in such a state: no two events that are kept have one id.
-- The returned count is the number of events that were added, and the same batch again adds none.
pub ingest_events_lem :
    (engine : CrossDomainCorrelationEngine) (events : List UnifiedSecurityEvent)
    → IsTracked engine
    → IsTracked (ingest_events engine events).1
      × (length (ingest_events engine events).1.events
          ≡ length engine.events + (ingest_events engine events).0)
      × (ingest_events (ingest_events engine events).1 events
          ≡ (0, (ingest_events engine events).1))
unfolding ingest_events
ingest_events_lem engine events t = (
  ingest_loop-IsTracked 0 engine events t,
  omega (arith, ingest_loop-count 0 engine events),
  ingest_loop-idle 0 (ingest_loop 0 engine events).1 events
      (λ id m. ingest_loop-seen 0 engine events id (ground arith)),
)

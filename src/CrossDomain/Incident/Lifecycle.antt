-- ===== src/CrossDomain/Incident/Lifecycle.antt =====
-- What the incident manager of models/incident.py guarantees of creation and of status updates.
use cloud_native_threat_guar.Prelude.{
  ℕ, ◌≤◌, ◌<◌, String, Bool, true, false, Option, none, some, List, [], ◌∷◌, ◌==◌, ◌≡◌, ◌↔◌, le→leb,
  leb, ◌&&◌, ◌∙◌, Option-cases, inl, inr, refl, and→both, map, all, arith, if◌then◌else◌,
}
use cloud_native_threat_guar.Prelude.Points.{points}
use cloud_native_threat_guar.Prelude.Dict
use cloud_native_threat_guar.Prelude.Json.{
  Json, null, bool, int, negative, real, str, arr, obj, find_field,
}
use cloud_native_threat_guar.Prelude.Result.{Result, ok, err}
use cloud_native_threat_guar.CrossDomain.Event.{
  Severity, medium, high, critical, UnifiedSecurityEvent,
}
use cloud_native_threat_guar.CrossDomain.Engine.{CorrelatedCluster}
use cloud_native_threat_guar.CrossDomain.Incident.{
  ValidationError, validation_error, is_valid_risk, IncidentStatus, new, CrossDomainIncident,
  ContributingFinding, from_event, from_events, risk_of, severity_for, finding, technique_of,
}
use cloud_native_threat_guar.CrossDomain.Incident.Manager.{
  UnifiedIncidentManager, source_events, incident_of, register, create_from_cluster, get_incident,
  update_status,
}

-- What a finding keeps of its event.
abbrev pub Kept : Type 0
Kept = String × Severity

abbrev pub kept_event : UnifiedSecurityEvent → Kept
kept_event ev = (ev.event_id, ev.severity)

abbrev pub kept_finding : ContributingFinding → Kept
kept_finding f = (f.event_id, f.severity)

-- The technique that the evidence names is a text, null or missing.
unfoldable pub is_typed : UnifiedSecurityEvent → Bool
unfolding find_field
is_typed ev = elim (find_field ev.evidence "mitre_technique") [
  | none ↦ true
  | some null ↦ true
  | some (str s) ↦ true
  | some _ ↦ false
]

technique_of-typed :
    (o : Option Json)
    → (elim o [ none ↦ true | some null ↦ true | some (str s) ↦ true | some _ ↦ false ]) ≡ true
    → (t : Option String) × (technique_of o ≡ ok t)
unfolding technique_of
technique_of-typed none h = (none, refl)
technique_of-typed (some null) h = (none, refl)
technique_of-typed (some (bool b)) h = ground arith
technique_of-typed (some (int n)) h = ground arith
technique_of-typed (some (negative n)) h = ground arith
technique_of-typed (some (real x)) h = ground arith
technique_of-typed (some (str s)) h = (some s, refl)
technique_of-typed (some (arr xs)) h = ground arith
technique_of-typed (some (obj fs)) h = ground arith

from_event-typed :
    (ev : UnifiedSecurityEvent)
    → is_typed ev ≡ true
    → (f : ContributingFinding) × (from_event ev ≡ ok f) × (kept_finding f ≡ kept_event ev)
unfolding from_event is_typed
from_event-typed ev h =
    let (t, e) = technique_of-typed (find_field ev.evidence "mitre_technique") h in
    (finding ev t, rw (e, from_event) refl, refl)

from_events-typed :
    (events : List UnifiedSecurityEvent)
    → all is_typed events ≡ true
    → (fs : List ContributingFinding) × (from_events events ≡ ok fs)
      × (map kept_finding fs ≡ map kept_event events)
unfolding from_events
from_events-typed [] h = ([], refl, refl)
from_events-typed (ev ∷ events) h =
    let (here, there) = and→both (is_typed ev) (all is_typed events) h in
    let (f, made, same) = from_event-typed ev here in
    let (fs, rest, kept) = from_events-typed events there in
    (f ∷ fs, rw (made, rest, from_events) refl, rw (same, kept) refl)

-- The severity of an incident by its score.
abbrev pub Graded : ℕ → Severity → Type 0
Graded risk severity =
    ((severity ≡ critical) ↔ (points 85 ≤ risk))
    × ((severity ≡ high) ↔ ((points 50 ≤ risk) × (risk < points 85)))
    × ((severity ≡ medium) ↔ (risk < points 50))

severity_for-Graded : (risk : ℕ) → Graded risk (severity_for risk)
unfolding severity_for
severity_for-Graded risk = ground arith

-- If every event's evidence names its technique by a text, null or not at all, and the risk of the cluster's chain is
-- at most 100 points, the call returns an incident that lists the ids of all events of the cluster, has one finding for each with the
-- id and the severity of the event, has the severity of its score, and is new; the
-- manager then finds it under its id, and finds under every other id what it found before.
pub create_from_cluster_lem :
    (incident_id now : String) (manager : UnifiedIncidentManager) (c : CorrelatedCluster)
    → all is_typed (source_events c) ≡ true
    → risk_of c.attack_chain ≤ points 100
    → (i : CrossDomainIncident) × (after : UnifiedIncidentManager) × (create_from_cluster
          incident_id now manager c
        ≡ ok (i, after))
      × (i.source_event_ids ≡ map (λ ev. ev.event_id) (source_events c))
      × (map kept_finding i.contributing_findings ≡ map kept_event (source_events c))
      × Graded (risk_of c.attack_chain) i.severity
      × (i.status ≡ new)
      × ((j : String)
          → get_incident after j ≡ (if incident_id == j then some i else get_incident manager j))
unfolding create_from_cluster register get_incident
create_from_cluster_lem incident_id now manager c typed valid =
    let (fs, made, kept) = from_events-typed (source_events c) typed in
    let i : CrossDomainIncident = incident_of incident_id now c fs in
    (
      i,
      Dict.put manager incident_id i,
      rw (made, create_from_cluster, le→leb (risk_of c.attack_chain) (points 100) valid) refl,
      refl,
      kept,
      severity_for-Graded (risk_of c.attack_chain),
      refl,
      λ j. Dict.get-put manager incident_id j i,
    )

-- The call returned.
abbrev pub is_ok : {A : Type 0} → Result ValidationError A → Bool
is_ok (ok a) = true
is_ok (err e) = false

technique_of-is_ok :
    (o : Option Json)
    → is_ok (technique_of o)
      ≡ (elim o [ none ↦ true | some null ↦ true | some (str s) ↦ true | some _ ↦ false ])
unfolding technique_of
technique_of-is_ok none = refl
technique_of-is_ok (some null) = refl
technique_of-is_ok (some (bool b)) = refl
technique_of-is_ok (some (int n)) = refl
technique_of-is_ok (some (negative n)) = refl
technique_of-is_ok (some (real x)) = refl
technique_of-is_ok (some (str s)) = refl
technique_of-is_ok (some (arr xs)) = refl
technique_of-is_ok (some (obj fs)) = refl

from_event-is_ok : (ev : UnifiedSecurityEvent) → is_ok (from_event ev) ≡ is_typed ev
unfolding from_event is_typed
from_event-is_ok ev =
    made (technique_of (find_field ev.evidence "mitre_technique"))
    ∙ technique_of-is_ok (find_field ev.evidence "mitre_technique")
  where
    made :
        (r : Result ValidationError (Option String))
        → is_ok (elim r [ err e ↦ err e | ok technique ↦ ok (finding ev technique) ]) ≡ is_ok r
    made (ok technique) = refl
    made (err e) = refl

from_events-is_ok :
    (events : List UnifiedSecurityEvent) → is_ok (from_events events) ≡ all is_typed events
unfolding from_events
from_events-is_ok [] = refl
from_events-is_ok (ev ∷ events) =
    both (from_event ev) (from_events events)
    ∙ rw (from_event-is_ok ev, from_events-is_ok events) refl
  where
    both :
        (here : Result ValidationError ContributingFinding)
        (rest : Result ValidationError (List ContributingFinding))
        → is_ok
            (elim here [ err e ↦ err e | ok f ↦ elim rest [ err e ↦ err e | ok fs ↦ ok (f ∷ fs) ] ])
          ≡ (is_ok here && is_ok rest)
    both (ok f) (ok fs) = refl
    both (ok f) (err e) = refl
    both (err e) rest = refl

if-is_ok : {A : Type 0} (b : Bool) (a : A) → is_ok (if b then ok a else err validation_error) ≡ b
if-is_ok true a = refl
if-is_ok false a = refl

-- The call returns, rather than raises a ValidationError, exactly if the evidence of every event names its technique
-- by a text, null or not at all, and the risk of the cluster's chain is at most 100 points.
pub create_from_cluster-is_ok :
    (incident_id now : String) (manager : UnifiedIncidentManager) (c : CorrelatedCluster)
    → is_ok (create_from_cluster incident_id now manager c)
      ≡ (all is_typed (source_events c) && leb (risk_of c.attack_chain) (points 100))
unfolding create_from_cluster
create_from_cluster-is_ok incident_id now manager c =
    built (from_events (source_events c)) ∙ rw (from_events-is_ok (source_events c)) refl
  where
    built :
        (r : Result ValidationError (List ContributingFinding))
        → is_ok {A = CrossDomainIncident × UnifiedIncidentManager} (elim r [
          | err e ↦ err e
          | ok findings ↦
              if is_valid_risk (risk_of c.attack_chain)
              then ok (
                incident_of incident_id now c findings,
                register manager (incident_of incident_id now c findings),
              )
              else err validation_error
        ])
          ≡ (is_ok r && leb (risk_of c.attack_chain) (points 100))
    built (err e) = refl
    built (ok findings) = if-is_ok (leb (risk_of c.attack_chain) (points 100)) _

abbrev pub is_found : Option CrossDomainIncident → Bool
is_found none = false
is_found (some i) = true

-- What the manager finds under an id after the update of another one or of the same.
abbrev pub updated :
    (now : String)
    → IncidentStatus
    → Bool
    → Option CrossDomainIncident
    → Option CrossDomainIncident
    → Option CrossDomainIncident
updated now status same none other = other
updated now status same (some i) other =
    if same then some (record i { status = status; updated_at = now }) else other

-- An update returns True exactly if the incident is there. The manager then finds it with the new status
-- and time and everything else as it was, and finds under every other id what it found before; if the
-- incident is not there, it finds under every id what it found before. No transition is refused.
pub update_status_lem :
    (now : String) (manager : UnifiedIncidentManager) (id j : String) (status : IncidentStatus)
    → ((update_status now manager id status).0 ≡ is_found (get_incident manager id))
      × (get_incident (update_status now manager id status).1 j
          ≡ updated now status (id == j) (get_incident manager id) (get_incident manager j))
unfolding update_status get_incident
update_status_lem now manager id j status = elim (Option-cases (get_incident manager id)) [
  | inl missing ↦ rw (missing, update_status, get_incident) (refl, refl)
  | inr (i, found) ↦
      rw (found, update_status, get_incident)
        (refl, Dict.get-put manager id j (record i { status = status; updated_at = now }))
]

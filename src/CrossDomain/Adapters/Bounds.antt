-- ===== src/CrossDomain/Adapters/Bounds.antt =====
-- The events that the adapters make are within the bounds of the schema, and what that gives for attack chains.
use cloud_native_threat_guar.Prelude.{
  ℕ, ◌≤◌, ◌+◌, ◌*◌, String, Option, List, [], ◌∷◌, ◌≡◌, All, All-append, leb, leb→le, Bool-cases,
  inl, inr, arith,
}
use cloud_native_threat_guar.Prelude.Points.{points, tenth}
use cloud_native_threat_guar.Prelude.Int.{ℤ, pos, negsuc}
use cloud_native_threat_guar.Prelude.Json.{Json}
use cloud_native_threat_guar.Prelude.Python.{PyError}
use cloud_native_threat_guar.Prelude.Result.{
  Result, ok, ◌>>=◌, Returns, bind-Returns, always-Returns, value_of,
}
use cloud_native_threat_guar.Prelude.Sort.{sort_by-All}
use cloud_native_threat_guar.Runtime.Events.{SecurityEvent}
use cloud_native_threat_guar.CloudGraph.Iam.{IamFinding}
use cloud_native_threat_guar.CrossDomain.Event.{UnifiedSecurityEvent}
use cloud_native_threat_guar.CrossDomain.Mapping.{MappingMechanism}
use cloud_native_threat_guar.CrossDomain.Engine.{CorrelatedCluster}
use cloud_native_threat_guar.CrossDomain.Engine.Chain.{build_attack_chain}
use cloud_native_threat_guar.CrossDomain.Engine.Chain.Order.{in_order, build_attack_chain_risk}
use cloud_native_threat_guar.CrossDomain.Adapters.{validated, batch}
use cloud_native_threat_guar.CrossDomain.Adapters.ThreatGuard
use cloud_native_threat_guar.CrossDomain.Adapters.CloudGraphGuard

validated-Returns : (top : ℕ) (z : ℤ) → Returns (λ n. n ≤ top) (validated top z)
unfolding validated
validated-Returns top (negsuc n) = tt
validated-Returns top (pos n) = elim (Bool-cases (leb n top)) [
  | inl e ↦ rw e (leb→le n top e)
  | inr e ↦ rw e tt
]

batch-Returns :
    {A B : Type 0} (P : B → Type 0) (f : A → Result PyError B)
    → ((a : A) → Returns P (f a))
    → (items : List A) → Returns (All P) (batch f items)
unfolding batch
batch-Returns P f h [] = tt
batch-Returns P f h (a ∷ items) = bind-Returns P (All P) (f a) _ (h a) (λ b hb.
    bind-Returns (All P) (All P) (batch f items) _ (batch-Returns P f h items)
      (λ bs hbs. (hb, hbs)))

-- The bounds that the schema sets, in units and in hundredths.
abbrev pub IsInBounds : UnifiedSecurityEvent → Type 0
IsInBounds u = (u.risk_score ≤ points 100) × (u.confidence ≤ 100)

module _ (python_str : Json → String) (float_of : Json → Result PyError ℤ)
    (without_hashes without_hash : String → String) where
  -- A detection, with the id and the time of its new event.
  abbrev pub adapt_detection : SecurityEvent × String × String → Result PyError UnifiedSecurityEvent
  adapt_detection (event, id, time) =
      ThreatGuard.to_unified_event python_str float_of without_hashes without_hash id time event

  abbrev made : String → String → SecurityEvent → Option String → ℕ → ℕ → UnifiedSecurityEvent
  made id time event account risk confidence =
      ThreatGuard.unified python_str float_of without_hashes without_hash id time event account risk
        confidence

  validated_event-IsInBounds :
      (id time : String) (event : SecurityEvent) (score : ℤ) (account : Option String)
      → Returns IsInBounds (
          ThreatGuard.validated_event python_str float_of without_hashes without_hash id time event
            score account)
  unfolding ThreatGuard.validated_event ThreatGuard.unified
  validated_event-IsInBounds id time event score account =
      bind-Returns (λ n. n ≤ points 100) IsInBounds (validated (points 100) score)
        (λ risk.
          validated 100 (pos event.confidence) >>= (λ c. ok (made id time event account risk c)))
        (validated-Returns (points 100) score)
        (λ risk hr.
          bind-Returns (λ n. n ≤ 100) IsInBounds (validated 100 (pos event.confidence))
            (λ c. ok (made id time event account risk c))
            (validated-Returns 100 (pos event.confidence)) (λ c hc. (hr, hc)))

  detection-IsInBounds :
      (event : SecurityEvent × String × String) → Returns IsInBounds (adapt_detection event)
  unfolding ThreatGuard.to_unified_event
  detection-IsInBounds (event, id, time) =
      always-Returns IsInBounds
        (ThreatGuard.score_of python_str float_of without_hashes without_hash event) _
        (λ score.
          always-Returns IsInBounds _ _
            (λ account. validated_event-IsInBounds id time event score account))

-- A finding with its id, and the id and the time of its new event.
abbrev pub adapt_finding :
    IamFinding × String × String × String → Result PyError UnifiedSecurityEvent
adapt_finding (finding, finding_id, id, time) =
    CloudGraphGuard.to_unified_event finding_id id time finding

finding-IsInBounds :
    (finding : IamFinding × String × String × String) → Returns IsInBounds (adapt_finding finding)
unfolding CloudGraphGuard.to_unified_event CloudGraphGuard.unified
finding-IsInBounds (finding, finding_id, id, time) =
    bind-Returns (λ n. n ≤ points 100) IsInBounds (validated (points 100) (pos finding.risk_score))
      (λ risk. ok (CloudGraphGuard.unified finding_id id time finding risk))
      (validated-Returns (points 100) (pos finding.risk_score)) (λ risk hr. (hr, omega arith))

All-weaken :
    (P Q : UnifiedSecurityEvent → Type 0) (us : List UnifiedSecurityEvent)
    → ((u : UnifiedSecurityEvent) → P u → Q u)
    → All P us
    → All Q us
All-weaken P Q [] f h = tt
All-weaken P Q (u ∷ us) f h = (f u h.0, All-weaken P Q us f h.1)

scored :
    (us : List UnifiedSecurityEvent) → All IsInBounds us → All (λ u. u.risk_score ≤ points 100) us
scored us h = All-weaken IsInBounds (λ u. u.risk_score ≤ points 100) us (λ u b. b.0) h

-- A cluster whose events the adapters made of any findings and detections has an attack chain with a composite
-- risk of at most 100 points, and of at least the risk score of each of its events, less half a tenth by which it
-- may be rounded down.
pub adapted_chain_risk :
    (python_str : Json → String) (float_of : Json → Result PyError ℤ)
    (without_hashes without_hash : String → String) (format_mechanism : MappingMechanism → String)
    (findings : List (IamFinding × String × String × String))
    (admissions detections : List (SecurityEvent × String × String)) (c : CorrelatedCluster)
    → batch adapt_finding findings ≡ ok c.iam_events
    → batch (adapt_detection python_str float_of without_hashes without_hash) admissions
      ≡ ok c.admission_events
    → batch (adapt_detection python_str float_of without_hashes without_hash) detections
      ≡ ok c.runtime_events
    → ((build_attack_chain format_mechanism c).composite_risk ≤ points 100)
      × All
          (λ u.
            2 * u.risk_score ≤ 2 * (build_attack_chain format_mechanism c).composite_risk + tenth)
          (in_order format_mechanism c)
adapted_chain_risk python_str float_of without_hashes without_hash format_mechanism findings
      admissions detections c hi ha hd =
    let adapt = adapt_detection python_str float_of without_hashes without_hash in
    let fine = detection-IsInBounds python_str float_of without_hashes without_hash in
    let iam =
      value_of (All IsInBounds) _ _
        (batch-Returns IsInBounds adapt_finding finding-IsInBounds findings) hi in
    let admission =
      value_of (All IsInBounds) _ _ (batch-Returns IsInBounds adapt fine admissions) ha in
    let runtime =
      value_of (All IsInBounds) _ _ (batch-Returns IsInBounds adapt fine detections) hd in
    let risk = build_attack_chain_risk format_mechanism c (
      scored _ (
        All-append IsInBounds _ _ (All-append IsInBounds _ _ iam admission)
          (sort_by-All (λ u. u.timestamp) IsInBounds c.runtime_events runtime))) in
    (risk.1, risk.0)

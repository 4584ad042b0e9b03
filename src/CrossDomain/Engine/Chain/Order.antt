-- ===== src/CrossDomain/Engine/Chain/Order.antt =====
-- The stages of an attack chain are numbered from one, each event of the cluster stands in it once, and
-- the composite risk is bounded.
use cloud_native_threat_guar.Prelude.{
  ℕ, suc, ◌+◌, ◌*◌, ◌≤◌, ◌&&◌, leb, min, String, Bool, Option, none, some, List, [], ◌∷◌, ◌++◌, ◌≡◌,
  inl, inr, refl, ap, map, append-nil, append_assoc, length, All, Bool-cases, arith, if◌then◌else◌,
}
use cloud_native_threat_guar.Prelude.Points.{
  points, tenth, round_tenth-near, round_tenth-le, IsWhole, round_tenth-IsWhole,
}
use cloud_native_threat_guar.Prelude.Sort.{sort_by}
use cloud_native_threat_guar.CrossDomain.Event.{UnifiedSecurityEvent}
use cloud_native_threat_guar.CrossDomain.Mapping.{MappingMechanism, IdentityBinding}
use cloud_native_threat_guar.CrossDomain.Engine.{Stage, CorrelatedCluster}
use cloud_native_threat_guar.CrossDomain.Engine.Chain.{
  Building, nothing_built, add_events, add_transition, transition_stage, build_stages, iam_stage,
  admission_stage, runtime_stage, build_attack_chain, composite_of, max_score, is_cross,
}

-- The stages are numbered n, n + 1, and so on.
abbrev pub IsNumbered : ℕ → List Stage → Type 0
IsNumbered n [] = Unit
IsNumbered n (s ∷ stages) = (s.step ≡ n) × IsNumbered (suc n) stages

IsNumbered-append :
    (n : ℕ) (stages : List Stage) (s : Stage)
    → IsNumbered n stages
    → s.step ≡ length stages + n
    → IsNumbered n (stages ++ s ∷ [])
IsNumbered-append n [] s h e = (omega arith, tt)
IsNumbered-append n (x ∷ stages) s h e = (h.0, IsNumbered-append (suc n) stages s h.1 (omega arith))

-- What every part of the construction keeps: numbered stages, and the ids and scores of the events so far.
record IsBuilt (events : List UnifiedSecurityEvent) (b : Building) : Type 0 where
  numbered : IsNumbered 1 b.stages
  ids : b.event_ids ≡ map (λ ev. ev.event_id) events
  scores : b.scores ≡ map (λ ev. ev.risk_score) events

map-append_one :
    {B : Type 0} (f : UnifiedSecurityEvent → B) (events : List UnifiedSecurityEvent)
    (ev : UnifiedSecurityEvent)
    → map f (events ++ ev ∷ []) ≡ map f events ++ f ev ∷ []
map-append_one f [] ev = refl
map-append_one f (x ∷ events) ev = ap (λ l. f x ∷ l) (map-append_one f events ev)

add_events-IsBuilt :
    (stage : UnifiedSecurityEvent → ℕ → Stage)
    → ((ev : UnifiedSecurityEvent) (n : ℕ) → (stage ev n).step ≡ n)
    → (before events : List UnifiedSecurityEvent) (b : Building) → IsBuilt before b
    → IsBuilt (before ++ events) (add_events stage b events)
unfolding add_events
add_events-IsBuilt stage steps before [] b h = rw append-nil h
add_events-IsBuilt stage steps before (ev ∷ events) b h =
    rw (← append_assoc before (ev ∷ []) events) (
      add_events-IsBuilt stage steps (before ++ ev ∷ []) events _ (record {
        numbered =
            IsNumbered-append 1 b.stages _ h.numbered
              (omega (arith, steps ev (length b.stages + 1)));
        ids = rw map-append_one (ap (λ l. l ++ ev.event_id ∷ []) h.ids);
        scores = rw map-append_one (ap (λ l. l ++ ev.risk_score ∷ []) h.scores);
      }))

module _ (format_mechanism : MappingMechanism → String) where
  add_transition-IsBuilt :
      (events : List UnifiedSecurityEvent) (c : CorrelatedCluster)
      (binding : Option IdentityBinding) (b : Building)
      → IsBuilt events b
      → IsBuilt events (add_transition format_mechanism c binding b)
  unfolding add_transition transition_stage
  add_transition-IsBuilt events c none b h = h
  add_transition-IsBuilt events c (some binding) b h = elim (Bool-cases (is_cross c)) [
    | inr within ↦ rw within h
    | inl across ↦ rw across (record {
      numbered = IsNumbered-append 1 b.stages _ h.numbered (omega arith);
      ids = h.ids;
      scores = h.scores;
    })
  ]

  -- The events of a cluster in the order of its chain.
  abbrev pub in_order : CorrelatedCluster → List UnifiedSecurityEvent
  in_order c = (c.iam_events ++ c.admission_events) ++ sort_by (λ ev. ev.timestamp) c.runtime_events

  build_stages-IsBuilt :
      (c : CorrelatedCluster) → IsBuilt (in_order c) (build_stages format_mechanism c)
  unfolding build_stages
  build_stages-IsBuilt c =
      add_events-IsBuilt runtime_stage (λ ev n. refl) _ _ _
        (add_events-IsBuilt admission_stage (λ ev n. refl) _ _ _
          (add_transition-IsBuilt c.iam_events c c.binding _ (
            add_events-IsBuilt iam_stage (λ ev n. refl) [] c.iam_events nothing_built
              (record { numbered = tt; ids = refl; scores = refl }))))

  -- The stages of a chain are numbered from 1 in their order, and its event ids are those of the cloud
  -- events, then of the admission violations, then of the runtime events sorted by time.
  pub build_attack_chain_order :
      (c : CorrelatedCluster)
      → IsNumbered 1 (build_attack_chain format_mechanism c).stages
        × ((build_attack_chain format_mechanism c).event_ids ≡ map (λ ev. ev.event_id) (in_order c))
  unfolding build_attack_chain
  build_attack_chain_order c = let built = build_stages-IsBuilt c in (built.numbered, built.ids)

All-max_score :
    (n : ℕ) (events : List UnifiedSecurityEvent)
    → All (λ ev. ev.risk_score ≤ n) events
    → max_score (map (λ ev. ev.risk_score) events) ≤ n
unfolding max_score
All-max_score n [] h = omega arith
All-max_score n (ev ∷ events) h = omega (arith, All-max_score n events h.1)

All-below :
    (n : ℕ) (events : List UnifiedSecurityEvent)
    → 2 * max_score (map (λ ev. ev.risk_score) events) ≤ n
    → All (λ ev. 2 * ev.risk_score ≤ n) events
unfolding max_score
All-below n [] h = tt
All-below n (ev ∷ events) h = (omega arith, All-below n events (omega arith))

composite_of_bounds :
    (cross : Bool) (stages : ℕ) (scores : List ℕ)
    → max_score scores ≤ points 100
    → (2 * max_score scores ≤ 2 * composite_of cross stages scores + tenth)
      × (composite_of cross stages scores ≤ points 100)
      × (2 * composite_of cross stages scores
          ≤ 2 * (max_score scores + (if cross then points 5 else 0)) + tenth)
      × IsWhole (composite_of cross stages scores)
unfolding composite_of
composite_of_bounds cross stages scores h =
    let exact : ℕ =
      if cross && leb 3 stages
      then min (points 100) (max_score scores + points 5)
      else max_score scores in
    let near = round_tenth-near exact in
    let top = round_tenth-le exact 1000 in
    (ground arith, ground arith, ground arith, round_tenth-IsWhole exact)

-- With event scores of at most 100 points, the composite risk of a chain is a whole number of tenths and at most
-- 100; it is at least the score of each of its events, less half a tenth by which it may be rounded down; and it is
-- above the highest score by at most half a tenth, and 5 points more if the cluster is cross-domain.
pub build_attack_chain_risk :
    (format_mechanism : MappingMechanism → String) (c : CorrelatedCluster)
    → All (λ ev. ev.risk_score ≤ points 100) (in_order format_mechanism c)
    → All
        (λ ev.
          2 * ev.risk_score ≤ 2 * (build_attack_chain format_mechanism c).composite_risk + tenth)
        (in_order format_mechanism c)
      × ((build_attack_chain format_mechanism c).composite_risk ≤ points 100)
      × (2 * (build_attack_chain format_mechanism c).composite_risk
          ≤ 2
              * (max_score (map (λ ev. ev.risk_score) (in_order format_mechanism c))
                  + (if is_cross c then points 5 else 0))
            + tenth)
      × IsWhole (build_attack_chain format_mechanism c).composite_risk
unfolding build_attack_chain
build_attack_chain_risk format_mechanism c h =
    let (above, top, close, whole) =
      composite_of_bounds (is_cross c) (length (build_stages format_mechanism c).stages)
        (map (λ ev. ev.risk_score) (in_order format_mechanism c))
        (All-max_score (points 100) (in_order format_mechanism c) h) in
    rw (build_stages-IsBuilt format_mechanism c).scores
      (All-below _ (in_order format_mechanism c) above, top, close, whole)

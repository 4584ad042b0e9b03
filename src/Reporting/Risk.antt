-- ===== src/Reporting/Risk.antt =====
-- src/cloudnative_threatguard/reporting/risk.py: the assessment of a workload by its factors. The
-- composite score is in hundredths of a point, so the factor 0.75 is the multiplication by 75 and
-- nothing is rounded.
pub mod Attribution
pub mod Bounds
use cloud_native_threat_guar.Prelude.{
  ℕ, ◌+◌, ◌*◌, ◌/◌, min, max, String, Bool, true, false, not, ◌&&◌, ◌||◌, Option, none, some, List,
  [], ◌∷◌, ◌++◌, ◌==◌, leb, ltb, eqb, is_empty, length, take, if◌then◌else◌,
}
use cloud_native_threat_guar.Prelude.Dict
use cloud_native_threat_guar.Prelude.Dict.{Dict}
use cloud_native_threat_guar.Prelude.Json.{
  Json, null, bool, int, Fields, end, field, is_truthy, find_field, field_or,
}
use cloud_native_threat_guar.Prelude.Sort.{sort_by}
use cloud_native_threat_guar.Prelude.Text.{
  upper, contains, truthy, member, concat, join, decimal, first_part, utc_offset,
}
use cloud_native_threat_guar.Runtime.Events.{SecurityEvent}
use cloud_native_threat_guar.Reporting.Factors.{
  contributor, severity_part, asset_part, spec_part, network_part, mitre_part, RiskContributor,
}

pub data RiskTier : Type 0 where
  low medium high critical : RiskTier

-- The six entries of the dict `breakdown`.
pub record Breakdown : Type 0 where
  pub severity_points : ℕ
  pub asset_criticality : ℕ
  pub privilege_level : ℕ
  pub network_exposure : ℕ
  pub event_volume_clustering : ℕ
  pub mitre_technique_weight : ℕ

pub record RiskAssessment : Type 0 where
  pub composite_risk_score : ℕ
  pub risk_tier : RiskTier
  pub workload_ref : String
  pub top_risk_contributors : List RiskContributor
  pub factor_breakdown : Breakdown

-- What is used of `datetime`: reading a time stamp, and the distance of two times in microseconds.
-- `none` is an exception: a text that is no time, or a time with an offset less one without.
pub record Datetime : Type 1 where
  pub Instant : Type 0
  pub fromisoformat : String → Option Instant
  pub distance : Instant → Instant → Option ℕ

abbrev pub last_of : SecurityEvent → List SecurityEvent → SecurityEvent
last_of ev [] = ev
last_of ev (x ∷ xs) = last_of x xs

-- Insertion into a list in descending order of points: a new element that comes from the left goes
-- before its equals.
unfoldable pub insert : RiskContributor → List RiskContributor → List RiskContributor
insert c [] = c ∷ []
insert c (x ∷ xs) =
    let rest = insert c xs in if leb x.impact_points c.impact_points then c ∷ x ∷ xs else x ∷ rest

-- `contributors.sort(key=lambda c: c.impact_points, reverse=True)`, which is stable.
unfoldable pub sort_desc : List RiskContributor → List RiskContributor
unfolding insert
sort_desc [] = []
sort_desc (c ∷ cs) = insert c (sort_desc cs)

-- Scores are in hundredths.
unfoldable pub tier_of : ℕ → RiskTier
tier_of score =
    if leb 8500 score
    then critical
    else if leb 6500 score
    then high
    else if leb 3500 score
    then medium
    else low

abbrev pub total : Breakdown → ℕ
total b =
    b.severity_points + b.asset_criticality + b.privilege_level + b.network_exposure
    + b.event_volume_clustering + b.mitre_technique_weight

abbrev pub no_points : Breakdown
no_points = record {
  severity_points = 0;
  asset_criticality = 0;
  privilege_level = 0;
  network_exposure = 0;
  event_volume_clustering = 0;
  mitre_technique_weight = 0;
}

abbrev pub is_absent : Option Fields → Bool
is_absent none = true
is_absent (some end) = true
is_absent (some (field k v fs)) = false

module _ (dt : Datetime) where
  open dt use {fromisoformat, distance}

  -- The seconds between two time stamps, in microseconds.
  abbrev pub apart : String → String → Option ℕ
  apart s t = elim (fromisoformat (utc_offset s)) [
    | none ↦ none
    | some t0 ↦ elim (fromisoformat (utc_offset t)) [ none ↦ none | some t1 ↦ distance t0 t1 ]
  ]

  burst : ℕ → Option ℕ → ℕ × List RiskContributor
  burst count none = (0, [])
  burst count (some micros) =
      if ltb micros 120000000
      then (
        12,
        contributor "Temporal Clustering" 12 (
              concat (
                decimal count
                ∷ " events occurred within "
                ∷ decimal (micros / 1000000)
                ∷ " seconds (rapid attack burst)"
                ∷ []))
            ∷ [],
      )
      else (0, [])

  -- 6. Temporal clustering of two or more events.
  unfoldable pub clustering_part : List SecurityEvent → ℕ × List RiskContributor
  unfolding burst
  clustering_part [] = (0, [])
  clustering_part (ev ∷ []) = (0, [])
  clustering_part (ev ∷ next ∷ events) =
      burst (length (ev ∷ next ∷ events)) (apart ev.timestamp (last_of next events).timestamp)

  -- The breakdown and all contributors, in the order in which they are appended.
  unfoldable pub factors :
      List SecurityEvent → String → Option Fields → Breakdown × List RiskContributor
  factors events workload_ref spec =
      let (sev, c₁) = severity_part events in
      let (ns, c₂) = asset_part workload_ref in
      let (priv, c₃) = spec_part spec in
      let (net, c₄) = network_part events in
      let (mitre, c₅) = mitre_part events in
      let (cluster, c₆) = clustering_part events in
      (
        record {
          severity_points = sev;
          asset_criticality = ns;
          privilege_level = priv;
          network_exposure = net;
          event_volume_clustering = cluster;
          mitre_technique_weight = mitre;
        },
        c₁ ++ (c₂ ++ (c₃ ++ (c₄ ++ (c₅ ++ c₆)))),
      )

  assess : String → Breakdown × List RiskContributor → RiskAssessment
  assess workload_ref (breakdown, contributors) =
      let score : ℕ = min 10000 (total breakdown * 75) in
      record {
        composite_risk_score = score;
        risk_tier = tier_of score;
        workload_ref = workload_ref;
        top_risk_contributors = take 5 (sort_desc contributors);
        factor_breakdown = breakdown;
      }

  unfoldable pub evaluate_workload : List SecurityEvent → String → Option Fields → RiskAssessment
  unfolding factors assess tier_of
  evaluate_workload events workload_ref spec =
      if is_empty events && is_absent spec
      then record {
        composite_risk_score = 0;
        risk_tier = low;
        workload_ref = workload_ref;
        top_risk_contributors = [];
        factor_breakdown = no_points;
      }
      else assess workload_ref (factors events workload_ref spec)

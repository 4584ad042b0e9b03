-- ===== src/Reporting/Risk/Attribution.antt =====
-- Every point of the score is attributed to a contributor, and the five that are reported are the largest.
use cloud_native_threat_guar.Prelude.{
  ℕ, zero, suc, ◌+◌, ◌≤◌, String, Bool, true, false, Option, none, some, List, [], ◌∷◌, ◌++◌, ◌≡◌,
  ◌⊎◌, inl, inr, refl, ◌&&◌, is_empty, length, take, leb, Bool-cases, leb→le, All, ap, sym, subst,
  ◌∙◌, arith, count_if, if◌then◌else◌,
}
use cloud_native_threat_guar.Prelude.Json.{Fields, end, field}
use cloud_native_threat_guar.Runtime.Events.{SecurityEvent}
use cloud_native_threat_guar.Reporting.Factors.{
  RiskContributor, when, points_if, severity_part, asset_part, spec_part, network_part, mitre_part,
}
use cloud_native_threat_guar.Reporting.Risk.{
  Datetime, total, burst, apart, clustering_part, last_of, factors, evaluate_workload, is_absent,
  insert, sort_desc,
}

-- The sum of the contributors' points.
unfoldable pub impact : List RiskContributor → ℕ
impact [] = 0
impact (c ∷ cs) = c.impact_points + impact cs

impact-append : (xs ys : List RiskContributor) → impact (xs ++ ys) ≡ impact xs + impact ys
unfolding impact
impact-append [] ys = omega arith
impact-append (x ∷ xs) ys = omega (arith, impact-append xs ys)

impact-when : (b : Bool) (c : RiskContributor) → impact (when b c) ≡ points_if b c.impact_points
unfolding impact
impact-when true c = omega arith
impact-when false c = refl

-- A part of the evaluation lists contributors that carry exactly its points.
abbrev IsAttributed : ℕ × List RiskContributor → Type 0
IsAttributed (n, cs) = impact cs ≡ n

severity_part-IsAttributed : (events : List SecurityEvent) → IsAttributed (severity_part events)
unfolding severity_part impact
severity_part-IsAttributed events = ground arith

asset_part-IsAttributed : (workload_ref : String) → IsAttributed (asset_part workload_ref)
unfolding asset_part impact
asset_part-IsAttributed workload_ref = omega arith

spec_part-IsAttributed : (spec : Option Fields) → IsAttributed (spec_part spec)
unfolding spec_part impact
spec_part-IsAttributed none = refl
spec_part-IsAttributed (some end) = refl
spec_part-IsAttributed (some (field k v fs)) = simp (impact-append, impact-when)

network_part-IsAttributed : (events : List SecurityEvent) → IsAttributed (network_part events)
unfolding network_part impact
network_part-IsAttributed [] = refl
network_part-IsAttributed (ev ∷ events) = ground (arith, network_part-IsAttributed events)

mitre_part-IsAttributed : (events : List SecurityEvent) → IsAttributed (mitre_part events)
unfolding mitre_part impact
mitre_part-IsAttributed events = ground arith

burst-IsAttributed :
    (dt : Datetime) (count : ℕ) (micros : Option ℕ) → IsAttributed (burst dt count micros)
unfolding burst impact
burst-IsAttributed dt count none = refl
burst-IsAttributed dt count (some micros) = ground arith

clustering_part-IsAttributed :
    (dt : Datetime) (events : List SecurityEvent) → IsAttributed (clustering_part dt events)
unfolding clustering_part impact
clustering_part-IsAttributed dt [] = refl
clustering_part-IsAttributed dt (ev ∷ []) = refl
clustering_part-IsAttributed dt (ev ∷ next ∷ events) =
    burst-IsAttributed dt (length (ev ∷ next ∷ events))
      (apart dt ev.timestamp (last_of next events).timestamp)

factors-IsAttributed :
    (dt : Datetime) (events : List SecurityEvent) (workload_ref : String) (spec : Option Fields)
    → impact (factors dt events workload_ref spec).1 ≡ total (factors dt events workload_ref spec).0
unfolding factors
factors-IsAttributed dt events workload_ref spec = omega (
  arith,
  impact-append,
  severity_part-IsAttributed events,
  asset_part-IsAttributed workload_ref,
  spec_part-IsAttributed spec,
  network_part-IsAttributed events,
  mitre_part-IsAttributed events,
  clustering_part-IsAttributed dt events,
)

-- No contributor has fewer points than one behind it.
abbrev pub IsDescending : List RiskContributor → Type 0
IsDescending [] = Unit
IsDescending (c ∷ cs) = All (λ x. x.impact_points ≤ c.impact_points) cs × IsDescending cs

count_if-insert :
    (test : RiskContributor → Bool) (c : RiskContributor) (cs : List RiskContributor)
    → count_if test (insert c cs) ≡ count_if test (c ∷ cs)
unfolding insert
count_if-insert test c [] = refl
count_if-insert test c (x ∷ xs) = ground (arith, count_if-insert test c xs)

count_if-sort_desc :
    (test : RiskContributor → Bool) (cs : List RiskContributor)
    → count_if test (sort_desc cs) ≡ count_if test cs
unfolding sort_desc
count_if-sort_desc test [] = refl
count_if-sort_desc test (c ∷ cs) =
    ground (arith, count_if-insert test c (sort_desc cs), count_if-sort_desc test cs)

All-insert :
    (n : ℕ) (c : RiskContributor) (cs : List RiskContributor)
    → c.impact_points ≤ n
    → All (λ x. x.impact_points ≤ n) cs
    → All (λ x. x.impact_points ≤ n) (insert c cs)
unfolding insert
All-insert n c [] h hs = (h, tt)
All-insert n c (x ∷ xs) h hs = ground (arith, All-insert n c xs h)

All-weaken :
    (m n : ℕ) (cs : List RiskContributor)
    → m ≤ n
    → All (λ x. x.impact_points ≤ m) cs
    → All (λ x. x.impact_points ≤ n) cs
All-weaken m n [] h hs = tt
All-weaken m n (x ∷ xs) h hs = (omega arith, All-weaken m n xs h hs.1)

insert-IsDescending :
    (c : RiskContributor) (cs : List RiskContributor) → IsDescending cs → IsDescending (insert c cs)
unfolding insert
insert-IsDescending c [] d = (tt, tt)
insert-IsDescending c (x ∷ xs) d = elim (Bool-cases (leb x.impact_points c.impact_points)) [
  | inl before ↦ rw before (
    (leb→le _ _ before, All-weaken x.impact_points c.impact_points xs (leb→le _ _ before) d.0),
    d,
  )
  | inr after ↦
      rw after (All-insert x.impact_points c xs (ground arith) d.0, insert-IsDescending c xs d.1)
]

sort_desc-IsDescending : (cs : List RiskContributor) → IsDescending (sort_desc cs)
unfolding sort_desc
sort_desc-IsDescending [] = tt
sort_desc-IsDescending (c ∷ cs) = insert-IsDescending c (sort_desc cs) (sort_desc-IsDescending cs)

-- A list is its first elements and the rest, which is empty unless all `n` are there.
take_split :
    {A : Type 0} (n : ℕ) (xs : List A)
    → (rest : List A) × (xs ≡ take n xs ++ rest)
      × (length (take n xs) ≤ n)
      × ((rest ≡ []) ⊎ (length (take n xs) ≡ n))
take_split zero xs = (xs, refl, omega arith, inr refl)
take_split (suc n) [] = ([], refl, omega arith, inl refl)
take_split (suc n) (x ∷ xs) =
    let (rest, same, short, full) = take_split n xs in
    (rest, ap (λ l. x ∷ l) same, omega arith, ground arith)

-- The contributors that the factors list; there are none where nothing is given.
abbrev pub contributors_of :
    Datetime → List SecurityEvent → String → Option Fields → List RiskContributor
contributors_of dt events workload_ref spec =
    if is_empty events && is_absent spec then [] else (factors dt events workload_ref spec).1

-- The list has the same elements as the other, each as often: every test holds of as many.
abbrev pub IsRearranged : List RiskContributor → List RiskContributor → Type 0
IsRearranged xs ys = (test : RiskContributor → Bool) → count_if test xs ≡ count_if test ys

-- The reported contributors, with the others behind them, are a rearrangement of those that the factors list, in
-- descending order of their points, which add up to the six factors; at most five are reported, and fewer only if
-- there are no others.
pub evaluate_workload_attribution :
    (dt : Datetime) (events : List SecurityEvent) (workload_ref : String) (spec : Option Fields)
    → (rest : List RiskContributor) × IsRearranged
        ((evaluate_workload dt events workload_ref spec).top_risk_contributors ++ rest)
        (contributors_of dt events workload_ref spec)
      × IsDescending ((evaluate_workload dt events workload_ref spec).top_risk_contributors ++ rest)
      × (impact (contributors_of dt events workload_ref spec)
          ≡ total (evaluate_workload dt events workload_ref spec).factor_breakdown)
      × (length (evaluate_workload dt events workload_ref spec).top_risk_contributors ≤ 5)
      × ((rest ≡ [])
          ⊎ (length (evaluate_workload dt events workload_ref spec).top_risk_contributors ≡ 5))
unfolding evaluate_workload impact
evaluate_workload_attribution dt events workload_ref spec =
    elim (Bool-cases (is_empty events && is_absent spec)) [
      | inl nothing ↦ rw nothing ([], λ test. refl, tt, refl, omega arith, inl refl)
      | inr some_input ↦
          let cs : List RiskContributor = (factors dt events workload_ref spec).1 in
          let (rest, same, short, full) = take_split 5 (sort_desc cs) in
          rw some_input (
            rest,
            λ test. ap (count_if test) (sym same) ∙ count_if-sort_desc test cs,
            subst IsDescending same (sort_desc-IsDescending cs),
            factors-IsAttributed dt events workload_ref spec,
            short,
            full,
          )
    ]

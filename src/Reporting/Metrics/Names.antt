-- ===== src/Reporting/Metrics/Names.antt =====
-- The texts that the incidents of reporting/cross_domain_metrics.py name, and which incidents are open.
use cloud_native_threat_guar.Prelude.{
  ℕ, ◌+◌, String, Bool, true, false, not, ◌&&◌, ◌||◌, none, some, List, [], ◌∷◌, ◌++◌, ◌≡◌, refl,
  ap, ◌∙◌, filter, count_if, length, any, arith, Bool-cases, inl, inr, eqb, eq_iff,
}
use cloud_native_threat_guar.Prelude.Text.{distinct, member}
use cloud_native_threat_guar.CrossDomain.Event.{Severity, low, medium, high, critical, or_option}
use cloud_native_threat_guar.CrossDomain.Incident.{
  IncidentStatus, new, triaged, investigating, contained, resolved, CrossDomainIncident,
}
use cloud_native_threat_guar.Reporting.Metrics.{
  is_open, is_high_risk, is_cross_domain, texts_of, principals, workloads, targets, resources,
}

-- The incident still needs work.
pub unresolved : IncidentStatus → Bool
unresolved new = true
unresolved triaged = true
unresolved investigating = true
unresolved contained = true
unresolved resolved = false

pub severe : Severity → Bool
severe low = false
severe medium = false
severe high = true
severe critical = true

abbrev pub at_risk : CrossDomainIncident → Bool
at_risk i = unresolved i.status && severe i.severity

-- The list has each of its texts once.
abbrev pub Each : List String → Type 0
Each [] = Unit
Each (x ∷ xs) = (member x xs ≡ false) × Each xs

-- The number is that of the different texts that the chosen incidents name.
pub record IsNamed (names : CrossDomainIncident → List String) (chosen : CrossDomainIncident → Bool)
    (incidents : List CrossDomainIncident) (n : ℕ) : Type 0 where
  pub texts : List String
  pub number : n ≡ length texts
  pub once : Each texts
  pub exact : (t : String) → member t texts ≡ any (λ i. chosen i && member t (names i)) incidents

abbrev pub principal_of : CrossDomainIncident → List String
principal_of i = texts_of (or_option i.cloud_context.principal i.cloud_context.role)

abbrev pub workload_of : CrossDomainIncident → List String
workload_of i = texts_of (elim i.k8s_context [ none ↦ none | some context ↦ context.workload ])

abbrev pub resources_of : CrossDomainIncident → List String
resources_of i = targets i.remediation_proposals

pub is_open-unresolved : (i : CrossDomainIncident) → is_open i ≡ unresolved i.status
unfolding unresolved
is_open-unresolved i = go i.status
  where
    go : (s : IncidentStatus) → is_open (record i { status = s }) ≡ unresolved s
    go new = refl
    go triaged = refl
    go investigating = refl
    go contained = refl
    go resolved = refl

is_high_risk-severe : (s : Severity) → is_high_risk s ≡ severe s
unfolding severe
is_high_risk-severe low = refl
is_high_risk-severe medium = refl
is_high_risk-severe high = refl
is_high_risk-severe critical = refl

member-distinct : (t : String) (xs : List String) → member t (distinct xs) ≡ member t xs
unfolding distinct
member-distinct t [] = refl
member-distinct t (x ∷ xs) = ground (arith, member-distinct t xs, member-distinct x xs, eq_iff t x)

distinct-Each : (xs : List String) → Each (distinct xs)
unfolding distinct
distinct-Each [] = tt
distinct-Each (x ∷ xs) = elim (Bool-cases (member x (distinct xs))) [
  | inl e ↦ rw e (distinct-Each xs)
  | inr e ↦ rw e (e, distinct-Each xs)
]

member-append :
    (t : String) (xs ys : List String) → member t (xs ++ ys) ≡ (member t xs || member t ys)
member-append t [] ys = refl
member-append t (x ∷ xs) ys = ground (arith, member-append t xs ys)

pub count-filter :
    (p q : CrossDomainIncident → Bool) (is : List CrossDomainIncident)
    → count_if q (filter p is) ≡ count_if (λ i. p i && q i) is
count-filter p q [] = refl
count-filter p q (i ∷ is) = ground (arith, count-filter p q is)

any-filter :
    (p q : CrossDomainIncident → Bool) (is : List CrossDomainIncident)
    → any q (filter p is) ≡ any (λ i. p i && q i) is
any-filter p q [] = refl
any-filter p q (i ∷ is) = ground (arith, any-filter p q is)

any-same :
    (p q : CrossDomainIncident → Bool)
    → ((i : CrossDomainIncident) → p i ≡ q i)
    → (is : List CrossDomainIncident) → any p is ≡ any q is
any-same p q h [] = refl
any-same p q h (i ∷ is) = rw (h i, any-same p q h is) refl

pub count_if-same :
    (p q : CrossDomainIncident → Bool)
    → ((i : CrossDomainIncident) → p i ≡ q i)
    → (is : List CrossDomainIncident) → count_if p is ≡ count_if q is
count_if-same p q h [] = refl
count_if-same p q h (i ∷ is) = rw (h i, count_if-same p q h is) refl

pub principals-any :
    (t : String) (is : List CrossDomainIncident)
    → member t (principals is) ≡ any (λ i. member t (principal_of i)) is
unfolding principals
principals-any t [] = refl
principals-any t (i ∷ is) =
    member-append t (principal_of i) (principals is) ∙ rw (principals-any t is) refl

pub workloads-any :
    (t : String) (is : List CrossDomainIncident)
    → member t (workloads is) ≡ any (λ i. member t (workload_of i)) is
unfolding workloads
workloads-any t [] = refl
workloads-any t (i ∷ is) =
    member-append t (workload_of i) (workloads is) ∙ rw (workloads-any t is) refl

resources-any :
    (t : String) (is : List CrossDomainIncident)
    → member t (resources is) ≡ any (λ i. member t (resources_of i)) is
unfolding resources
resources-any t [] = refl
resources-any t (i ∷ is) =
    member-append t (resources_of i) (resources is) ∙ rw (resources-any t is) refl

open_is : (m : Bool) (i : CrossDomainIncident) → (is_open i && m) ≡ (unresolved i.status && m)
open_is m i = ap (λ b. b && m) (is_open-unresolved i)

risk_is :
    (m : Bool) (i : CrossDomainIncident)
    → (is_open i && (is_high_risk i.severity && m)) ≡ (at_risk i && m)
risk_is m i = ground (arith, is_open-unresolved i, is_high_risk-severe i.severity)

-- The texts of the incidents that two filters leave.
pub risk-IsNamed :
    (names : CrossDomainIncident → List String) (gather : List CrossDomainIncident → List String)
    (incidents : List CrossDomainIncident)
    → ((t : String) (is : List CrossDomainIncident)
        → member t (gather is) ≡ any (λ i. member t (names i)) is)
    → IsNamed names at_risk incidents (
        length
          (distinct (gather (filter (λ i. is_high_risk i.severity) (filter is_open incidents)))))
risk-IsNamed names gather incidents h =
    let high_risk : List CrossDomainIncident =
      filter (λ i. is_high_risk i.severity) (filter is_open incidents) in
    record {
      texts = distinct (gather high_risk);
      number = refl;
      once = distinct-Each (gather high_risk);
      exact = λ t.
          member-distinct t (gather high_risk)
          ∙ h t high_risk
          ∙ any-filter (λ i. is_high_risk i.severity) (λ i. member t (names i))
              (filter is_open incidents)
          ∙ any-filter is_open (λ i. is_high_risk i.severity && member t (names i)) incidents
          ∙ any-same _ _ (λ i. risk_is (member t (names i)) i) incidents;
    }

pub open-IsNamed :
    (incidents : List CrossDomainIncident)
    → IsNamed resources_of
        (λ i. unresolved i.status)
        incidents
        (length (distinct (resources (filter is_open incidents))))
open-IsNamed incidents = record {
  texts = distinct (resources (filter is_open incidents));
  number = refl;
  once = distinct-Each (resources (filter is_open incidents));
  exact = λ t.
      member-distinct t (resources (filter is_open incidents))
      ∙ resources-any t (filter is_open incidents)
      ∙ any-filter is_open (λ i. member t (resources_of i)) incidents
      ∙ any-same _ _ (λ i. open_is (member t (resources_of i)) i) incidents;
}

-- Events of the cloud, and of the runtime or of an admission.
pub crosses : CrossDomainIncident → Bool
crosses i =
    not (eqb i.evidence_summary.iam_events_count 0)
    && not (
        eqb (i.evidence_summary.runtime_events_count + i.evidence_summary.admission_events_count) 0)

pub open-crosses :
    (i : CrossDomainIncident)
    → (is_open i && is_cross_domain i) ≡ (unresolved i.status && crosses i)
unfolding crosses
open-crosses i = ground (arith, is_open-unresolved i)

-- ===== src/Reporting/Factors.antt =====
-- The factors of the score of a workload, in src/cloudnative_threatguard/reporting/risk.py, each with the
-- contributors that explain it. Points are whole numbers, as every weight in the source is.
use cloud_native_threat_guar.Prelude.{
  ℕ, ◌+◌, ◌*◌, min, max, String, Bool, false, not, ◌&&◌, ◌||◌, Option, none, some, List, [], ◌∷◌,
  ◌++◌, ◌==◌, ltb, eqb, length, if◌then◌else◌,
}
use cloud_native_threat_guar.Prelude.Dict
use cloud_native_threat_guar.Prelude.Dict.{Dict}
use cloud_native_threat_guar.Prelude.Json.{
  Json, null, bool, int, Fields, end, field, is_truthy, find_field, field_or,
}
use cloud_native_threat_guar.Prelude.Sort.{sort_by}
use cloud_native_threat_guar.Prelude.Text.{
  upper, contains, truthy, member, concat, join, decimal, first_part,
}
use cloud_native_threat_guar.Runtime.Events.{SecurityEvent}

pub record RiskContributor : Type 0 where
  pub factor_name : String
  pub impact_points : ℕ
  pub description : String

abbrev pub namespace_weights : Dict ℕ
namespace_weights =
    ("kube-system", 30) ∷ ("threatguard", 20) ∷ ("threatguard-lab", 10) ∷ ("default", 10) ∷ []

abbrev pub technique_weights : Dict ℕ
technique_weights =
    ("T1611", 25)
    ∷ ("T1068", 20)
    ∷ ("T1552.007", 22)
    ∷ ("T1003", 20)
    ∷ ("T1059.004", 18)
    ∷ ("T1071", 15)
    ∷ ("T1071.001", 15)
    ∷ ("T1105", 14)
    ∷ ("T1610", 16)
    ∷ ("T1082", 10)
    ∷ ("T1496", 22)
    ∷ []

-- `weights.get(key, 10.0)`
unfoldable pub weight_of : Dict ℕ → String → ℕ
unfolding Dict.get
weight_of weights key = elim (Dict.get weights key) [ none ↦ 10 | some w ↦ w ]

unfoldable pub raise_severity : ℕ → String → ℕ
raise_severity score sev =
    if sev == "CRITICAL"
    then max score 40
    else if sev == "HIGH"
    then max score 25
    else if sev == "MEDIUM"
    then max score 15
    else if sev == "LOW"
    then max score 5
    else score

unfoldable pub max_severity : ℕ → List SecurityEvent → ℕ
unfolding raise_severity
max_severity score [] = score
max_severity score (ev ∷ events) = max_severity (raise_severity score (upper ev.severity)) events

abbrev pub contributor : String → ℕ → String → RiskContributor
contributor name points text = record {
  factor_name = name;
  impact_points = points;
  description = text;
}

-- A contributor that is appended if a test holds.
abbrev pub when : Bool → RiskContributor → List RiskContributor
when b c = if b then c ∷ [] else []

abbrev pub points_if : Bool → ℕ → ℕ
points_if b n = if b then n else 0

-- 1. Base severity points.
unfoldable pub severity_part : List SecurityEvent → ℕ × List RiskContributor
unfolding max_severity
severity_part events =
    let points : ℕ = max_severity 0 events + min (length events * 4) 16 in
    (
      points,
      when (ltb 0 points) (
          contributor "Behavioral Severity" points (
            concat (
              "Accumulated from "
              ∷ decimal (length events)
              ∷ " security events with max severity"
              ∷ []))),
    )

-- `"/" in workload_ref` decides whether the text before the first slash is the namespace.
abbrev pub namespace_of : String → String
namespace_of workload_ref =
    if contains workload_ref "/" then first_part 47 workload_ref else "threatguard"

-- 2. Asset criticality.
unfoldable pub asset_part : String → ℕ × List RiskContributor
unfolding weight_of
asset_part workload_ref =
    let points : ℕ = weight_of namespace_weights (namespace_of workload_ref) in
    (
      points,
      contributor "Asset Criticality" points (
            concat
              ("Namespace '" ∷ namespace_of workload_ref ∷ "' asset sensitivity weighting" ∷ []))
          ∷ [],
    )

-- `d.get(k) == 0`: in Python `False` equals 0.
abbrev pub equals_zero : Option Json → Bool
equals_zero none = false
equals_zero (some (int n)) = eqb n 0
equals_zero (some (bool b)) = not b
equals_zero (some _) = false

-- `d.get(k) is False`
abbrev pub is_false : Option Json → Bool
is_false none = false
is_false (some (bool b)) = not b
is_false (some _) = false

abbrev pub is_set : Fields → String → Bool
is_set spec key = is_truthy (field_or spec key null)

-- 3. Workload privilege level, of a specification that is there and not empty.
unfoldable pub privilege_part : Fields → ℕ × List RiskContributor
privilege_part spec =
    let privileged = is_set spec "privileged" in
    let host = is_set spec "hostPID" || is_set spec "hostNetwork" || is_set spec "hostIPC" in
    let root =
      equals_zero (find_field spec "runAsUser") || is_false (find_field spec "runAsNonRoot") in
    let writable = is_false (find_field spec "readOnlyRootFilesystem") in
    (
      points_if privileged 25 + points_if host 20 + points_if root 15 + points_if writable 10,
      when privileged (
            contributor "Privileged Container" 25
              "Workload is configured with privileged: true container execution")
          ++ when host (
              contributor "Host Namespaces" 20
                "Workload shares host Linux namespaces (PID, IPC, or Network)")
          ++ when root (contributor "Root User Execution" 15 "Container runs with root UID (0)")
          ++ when writable
              (contributor "Writable Root Filesystem" 10 "Container root filesystem is writable"),
    )

unfoldable pub spec_part : Option Fields → ℕ × List RiskContributor
unfolding privilege_part
spec_part none = (0, [])
spec_part (some end) = (0, [])
spec_part (some (field k v fs)) = privilege_part (field k v fs)

abbrev pub is_outbound : SecurityEvent → Bool
is_outbound ev =
    member ev.action ("net_connect" ∷ "socket_connect" ∷ "outbound_egress_attempt" ∷ [])
    || contains ev.process "curl"
    || contains ev.process "wget"

-- 4. Network exposure: the loop breaks at the first outbound event.
unfoldable pub network_part : List SecurityEvent → ℕ × List RiskContributor
network_part [] = (0, [])
network_part (ev ∷ events) =
    let rest = network_part events in
    if is_outbound ev
    then (
      20,
      contributor "Outbound Network Activity" 20
            (concat ("Workload initiated external network traffic via " ∷ ev.process ∷ []))
          ∷ [],
    )
    else rest

-- The loop over the techniques: the set of those observed, and the points so far.
unfoldable pub observe : List String → ℕ → List SecurityEvent → List String × ℕ
unfolding weight_of
observe seen points [] = (seen, points)
observe seen points (ev ∷ events) =
    let new = truthy ev.mitre_technique && not (member ev.mitre_technique seen) in
    observe (if new then ev.mitre_technique ∷ seen else seen)
      (if new then points + weight_of technique_weights ev.mitre_technique else points) events

-- 5. Technique weights, capped at 35 points.
unfoldable pub mitre_part : List SecurityEvent → ℕ × List RiskContributor
unfolding observe
mitre_part events =
    let (seen, total) = observe [] 0 events in
    let points : ℕ = min total 35 in
    (
      points,
      when (ltb 0 points) (
          contributor "MITRE ATT&CK Alignment" points (
            concat (
              "Matched "
              ∷ decimal (length seen)
              ∷ " techniques: "
              ∷ join ", " (sort_by (λ s. s) seen)
              ∷ []))),
    )

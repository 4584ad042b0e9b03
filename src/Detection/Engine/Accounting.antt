-- ===== src/Detection/Engine/Accounting.antt =====
-- The engine's counters: events and detections over a file, and the counts of the summary.
use cloud_native_threat_guar.Prelude.{
  ℕ, suc, ◌+◌, ◌≤◌, String, Bool, true, false, Option, none, some, List, [], ◌∷◌, ◌++◌, ◌≡◌, refl,
  sym, ap, subst, ◌∙◌, length, length-append, append-nil, append_assoc, count_if, Option-cases,
  Bool-cases, inl, inr, arith, ◌==◌, eq_iff, if◌then◌else◌,
}
use cloud_native_threat_guar.Prelude.Dict
use cloud_native_threat_guar.Prelude.Dict.{Dict, get-put}
use cloud_native_threat_guar.Prelude.Json.{Json}
use cloud_native_threat_guar.Prelude.Python.{strip}
use cloud_native_threat_guar.Prelude.Result.{ok, err}
use cloud_native_threat_guar.Prelude.Text.{truthy}
use cloud_native_threat_guar.Detection.Events.{ThreatGuardDetection}
use cloud_native_threat_guar.Detection.Exec.{Outcome}
use cloud_native_threat_guar.Detection.Engine.{
  DetectionEngine, count_event, process_raw_tetragon_event, settled, appended, followed, Detections,
  count_of, ingest_line, with_new, ingest_lines, bump, tally, no_severities, get_summary,
}

count_of-bump :
    (counts : Dict ℕ) (k j : String)
    → count_of (bump counts k) j ≡ (if k == j then suc (count_of counts j) else count_of counts j)
unfolding count_of bump
count_of-bump counts k j = ground (arith, eq_iff k j, get-put counts k j (suc (count_of counts k)))

count_of-tally :
    {A : Type 0} (key : A → String) (counts : Dict ℕ) (ds : List A) (k : String)
    → count_of (tally key counts ds) k ≡ count_of counts k + count_if (λ d. key d == k) ds
unfolding tally
count_of-tally key counts [] k = omega arith
count_of-tally key counts (d ∷ ds) k =
    ground (arith, count_of-tally key (bump counts (key d)) ds k, count_of-bump counts (key d) k)

pub tally-count_if :
    {A : Type 0} (key : A → String) (counts : Dict ℕ) (ds : List A) (k : String)
    → count_of counts k ≡ 0
    → count_of (tally key counts ds) k ≡ count_if (λ d. key d == k) ds
tally-count_if key counts ds k h = omega (arith, h, count_of-tally key counts ds k)

pub count_of-empty : (k : String) → count_of [] k ≡ 0
unfolding count_of
count_of-empty k = refl

no_severities-zero : (k : String) → count_of no_severities k ≡ 0
unfolding count_of Dict.get
no_severities-zero k = ground arith

-- At most one detection per event.
abbrev pub IsAccounted : DetectionEngine → Type 0
IsAccounted engine = length engine.detections ≤ engine.total_events_processed

-- `after` is `before` with `ds` appended, and has counted an event for each of them.
abbrev pub Extended : DetectionEngine → DetectionEngine → List ThreatGuardDetection → Type 0
Extended before after ds =
    (after.detections ≡ before.detections ++ ds)
    × (after.protected_namespace ≡ before.protected_namespace)
    × (before.total_events_processed + length ds ≤ after.total_events_processed)

Extended-IsAccounted :
    (before after : DetectionEngine) (ds : List ThreatGuardDetection)
    → Extended before after ds
    → IsAccounted before
    → IsAccounted after
Extended-IsAccounted before after ds h hb =
    omega (arith, ap length h.0 ∙ length-append before.detections ds, h.2, hb)

Extended-refl : (engine : DetectionEngine) → Extended engine engine []
Extended-refl engine = (sym (append-nil engine.detections), refl, omega arith)

Extended-trans :
    (a b c : DetectionEngine) (ds es : List ThreatGuardDetection)
    → Extended a b ds
    → Extended b c es
    → Extended a c (ds ++ es)
Extended-trans a b c ds es h g = (
  g.0 ∙ ap (λ l. l ++ es) (h.0) ∙ append_assoc a.detections ds es,
  g.1 ∙ h.1,
  omega (arith, h.2, g.2, length-append ds es),
)

-- What one call and the loop do to the engine, whether they return or raise.
Stepped : DetectionEngine → Outcome × DetectionEngine → Type 0
Stepped engine (ok d, after) = Extended engine after (with_new d [])
Stepped engine (err e, after) = Extended engine after []

appended-Stepped :
    (engine : DetectionEngine) (outcome : Outcome)
    → Stepped engine (appended (settled false (count_event engine) outcome))
unfolding Stepped
appended-Stepped engine (ok none) = (sym (append-nil engine.detections), refl, omega arith)
appended-Stepped engine (ok (some d)) = (refl, refl, omega arith)
appended-Stepped engine (err e) = (sym (append-nil engine.detections), refl, omega arith)

recorded-IsAccounted :
    (keep : Bool) (engine : DetectionEngine) (outcome : Outcome)
    → IsAccounted engine
    → IsAccounted (settled keep (count_event engine) outcome).1
recorded-IsAccounted true engine (ok (some d)) h =
    omega (arith, h, length-append engine.detections (d ∷ []))
recorded-IsAccounted true engine (ok none) h = omega (arith, h)
recorded-IsAccounted false engine (ok d) h = omega (arith, h)
recorded-IsAccounted keep engine (err e) h = omega (arith, h)

module _ (python_str : Json → String) (now : String) (loads : String → Option Json) where
  ingest_line-Stepped :
      (engine : DetectionEngine) (line : String)
      → Stepped engine (ingest_line python_str now loads engine line)
  unfolding Stepped ingest_line process_raw_tetragon_event
  ingest_line-Stepped engine line = elim (Bool-cases (truthy (strip line))) [
    | inr e ↦ rw e (Extended-refl engine)
    | inl e ↦ elim (Option-cases (loads (strip line))) [
      | inl missing ↦ rw (e, missing) (Extended-refl engine)
      | inr event ↦ rw (e, event.1) (appended-Stepped engine _)
    ]
  ]

  abbrev found : Detections → List ThreatGuardDetection
  found (ok ds) = ds
  found (err e) = []

  -- The new detections, those before an exception included.
  Grown : DetectionEngine → Detections × DetectionEngine → Type 0
  Grown engine (ok ds, after) = Extended engine after ds
  Grown engine (err e, after) = (ds : List ThreatGuardDetection) × Extended engine after ds

  followed-Grown :
      (engine : DetectionEngine) (here : Outcome × DetectionEngine)
      (rest : Detections × DetectionEngine)
      → Stepped engine here
      → Grown here.1 rest
      → Grown engine (followed here rest)
  unfolding Stepped Grown
  followed-Grown engine (err e, mid) rest h g = ([], h)
  followed-Grown engine (ok d, mid) (err e, after) h g =
      (with_new d [] ++ g.0, Extended-trans engine mid after (with_new d []) g.0 h g.1)
  followed-Grown engine (ok none, mid) (ok ds, after) h g =
      Extended-trans engine mid after [] ds h g
  followed-Grown engine (ok (some d), mid) (ok ds, after) h g =
      Extended-trans engine mid after (d ∷ []) ds h g

  ingest_lines-Grown :
      (engine : DetectionEngine) (lines : List String)
      → Grown engine (ingest_lines python_str now loads engine lines)
  unfolding Grown ingest_lines
  ingest_lines-Grown engine [] = Extended-refl engine
  ingest_lines-Grown engine (line ∷ lines) =
      let here = ingest_line python_str now loads engine line in
      followed-Grown engine here _ (ingest_line-Stepped engine line)
        (ingest_lines-Grown here.1 lines)

  Grown-IsAccounted :
      (engine : DetectionEngine) (result : Detections × DetectionEngine)
      → Grown engine result
      → IsAccounted engine
      → IsAccounted result.1
  unfolding Grown
  Grown-IsAccounted engine (ok ds, after) g h = Extended-IsAccounted engine after ds g h
  Grown-IsAccounted engine (err e, after) g h = Extended-IsAccounted engine after g.0 g.1 h

  Grown-Extended :
      (engine : DetectionEngine) (result : Detections × DetectionEngine)
      (ds : List ThreatGuardDetection)
      → Grown engine result
      → result.0 ≡ ok ds
      → Extended engine result.1 ds
  unfolding Grown
  Grown-Extended engine (ok es, after) ds g e = subst (λ l. Extended engine after l) (ap found e) g
  Grown-Extended engine (err e', after) ds g e = ground (arith, e)

-- Processing an event, recorded or not, and ingesting the lines of a file keep at most one detection per
-- processed event, also where an exception leaves the loop.
pub engine-IsAccounted :
    (python_str : Json → String) (now : String) (loads : String → Option Json) (keep : Bool)
    (engine : DetectionEngine) (raw : Json) (lines : List String)
    → IsAccounted engine
    → IsAccounted (process_raw_tetragon_event python_str now keep engine raw).1
      × IsAccounted (ingest_lines python_str now loads engine lines).1
unfolding process_raw_tetragon_event
engine-IsAccounted python_str now loads keep engine raw lines h = (
  recorded-IsAccounted keep engine _ h,
  Grown-IsAccounted python_str now loads engine _
      (ingest_lines-Grown python_str now loads engine lines) h,
)

-- Where the ingestion of a file returns, the detections it returns are what it appended to the engine's, in
-- their order, the protected namespace is as before, and each of them has its own counted event.
pub ingest_lines-Extended :
    (python_str : Json → String) (now : String) (loads : String → Option Json)
    (engine : DetectionEngine) (lines : List String) (ds : List ThreatGuardDetection)
    → (ingest_lines python_str now loads engine lines).0 ≡ ok ds
    → Extended engine (ingest_lines python_str now loads engine lines).1 ds
ingest_lines-Extended python_str now loads engine lines ds e =
    Grown-Extended python_str now loads engine _ ds
      (ingest_lines-Grown python_str now loads engine lines) e

-- In the summary the total is the number of the detections, and each severity, rule and technique is counted
-- as often as it occurs among them.
pub get_summary-counts :
    (engine : DetectionEngine) (k : String)
    → ((get_summary engine).total_detections ≡ length engine.detections)
      × (count_of (get_summary engine).by_severity k
          ≡ count_if (λ d. d.severity == k) engine.detections)
      × (count_of (get_summary engine).by_rule k
          ≡ count_if (λ d. d.detection_rule == k) engine.detections)
      × (count_of (get_summary engine).by_technique k
          ≡ count_if (λ d. d.mitre_technique == k) engine.detections)
unfolding get_summary
get_summary-counts engine k = (
  refl,
  tally-count_if (λ d. d.severity) no_severities engine.detections k (no_severities-zero k),
  tally-count_if (λ d. d.detection_rule) [] engine.detections k (count_of-empty k),
  tally-count_if (λ d. d.mitre_technique) [] engine.detections k (count_of-empty k),
)

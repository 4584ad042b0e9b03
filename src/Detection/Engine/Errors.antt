-- ===== src/Detection/Engine/Errors.antt =====
-- What the engine does with a line of a file that is JSON but no object.
use cloud_native_threat_guar.Prelude.{
  String, Bool, true, false, Option, some, List, [], ◌∷◌, ◌++◌, ◌≡◌, refl, ap, arith,
}
use cloud_native_threat_guar.Prelude.Json.{Json, null, bool, int, negative, real, str, arr, obj}
use cloud_native_threat_guar.Prelude.Python.{PyError, attribute_error, strip}
use cloud_native_threat_guar.Prelude.Result.{ok, err}
use cloud_native_threat_guar.Prelude.Text.{truthy}
use cloud_native_threat_guar.Detection.Events.{ThreatGuardDetection}
use cloud_native_threat_guar.Detection.Exec.{Outcome}
use cloud_native_threat_guar.Detection.Engine.{
  DetectionEngine, Detections, followed, count_event, evaluate_raw_event,
  process_raw_tetragon_event, ingest_line, ingest_lines,
}

-- `isinstance(v, dict)`
abbrev pub is_object : Json → Bool
is_object (obj fs) = true
is_object _ = false

no_object :
    (python_str : Json → String) (now protected : String) (value : Json)
    → is_object value ≡ false
    → evaluate_raw_event python_str now protected value ≡ err attribute_error
unfolding evaluate_raw_event
no_object python_str now protected null h = refl
no_object python_str now protected (bool b) h = refl
no_object python_str now protected (int n) h = refl
no_object python_str now protected (negative n) h = refl
no_object python_str now protected (real x) h = refl
no_object python_str now protected (str s) h = refl
no_object python_str now protected (arr vs) h = refl
no_object python_str now protected (obj fs) h = ground (arith, h)

-- What comes after lines that were ingested, where it raises.
followed-err :
    (here : Outcome × DetectionEngine) (rest : Detections × DetectionEngine)
    (ds : List ThreatGuardDetection) (after : DetectionEngine)
    → followed here rest ≡ (ok ds, after)
    → (d : Option ThreatGuardDetection) × (seen : List ThreatGuardDetection) × (here.0 ≡ ok d)
      × (rest ≡ (ok seen, after))
followed-err (err e, engine) rest ds after h = elim (raised (ap (λ r. r.0) h)) [ ]
  where
    raised : ◌≡◌ {A = Detections} (err e) (ok ds) → ⊥
    raised q = ground (arith, q)
followed-err (ok d, engine) (err e, last) ds after h = elim (raised (ap (λ r. r.0) h)) [ ]
  where
    raised : ◌≡◌ {A = Detections} (err e) (ok ds) → ⊥
    raised q = ground (arith, q)
followed-err (ok d, engine) (ok seen, last) ds after h =
    (d, seen, refl, ap (λ e. (ok seen, e)) (ap (λ r. r.1) h))

followed-raises :
    (here : Outcome × DetectionEngine) (d : Option ThreatGuardDetection) (e : PyError)
    (after : DetectionEngine)
    → here.0 ≡ ok d
    → followed here (err e, after) ≡ (err e, after)
followed-raises (err f, engine) d e after h = elim (raised h) [ ]
  where
    raised : ◌≡◌ {A = Outcome} (err f) (ok d) → ⊥
    raised q = ground (arith, q)
followed-raises (ok c, engine) d e after h = refl

module _ (python_str : Json → String) (now : String) (loads : String → Option Json) where
  first-not_object :
      (engine : DetectionEngine) (line : String) (lines : List String) (value : Json)
      → truthy (strip line) ≡ true
      → loads (strip line) ≡ some value
      → is_object value ≡ false
      → ingest_lines python_str now loads engine (line ∷ lines)
        ≡ (err attribute_error, count_event engine)
  unfolding ingest_lines ingest_line process_raw_tetragon_event
  first-not_object engine line lines value ht hl hv =
      rw (ht, hl, no_object python_str now engine.protected_namespace value hv) refl

  -- A line that is JSON but no object, wherever it stands, ends the ingestion of a file whose lines before it are
  -- ingested: an AttributeError is raised, the event is counted, and the engine is else as those lines left it. The
  -- detections that they appended are kept but not returned, and no line after it has an effect.
  pub ingest_lines-not_object :
      (engine after : DetectionEngine) (before lines : List String) (line : String)
      (ds : List ThreatGuardDetection) (value : Json)
      → ingest_lines python_str now loads engine before ≡ (ok ds, after)
      → truthy (strip line) ≡ true
      → loads (strip line) ≡ some value
      → is_object value ≡ false
      → ingest_lines python_str now loads engine (before ++ line ∷ lines)
        ≡ (err attribute_error, count_event after)
  unfolding ingest_lines
  ingest_lines-not_object engine after [] lines line ds value hb ht hl hv =
      rw (← ap (λ r. r.1) hb) (first-not_object engine line lines value ht hl hv)
  ingest_lines-not_object engine after (b ∷ before) lines line ds value hb ht hl hv =
      let here = ingest_line python_str now loads engine b in
      let split = followed-err here (ingest_lines python_str now loads here.1 before) ds after hb in
      rw (ingest_lines-not_object here.1 after before lines line split.1 value split.3 ht hl hv)
        (followed-raises here split.0 attribute_error (count_event after) split.2)

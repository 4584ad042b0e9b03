-- ===== src/Reporting/Scorecard/Verdict.antt =====
-- When the scorecard passes, and what its counts add up to.
use cloud_native_threat_guar.Prelude.{
  ℕ, ◌+◌, ◌≤◌, String, Bool, true, false, not, ◌&&◌, ◌||◌, Option, none, some, List, [], ◌∷◌, ◌++◌,
  ◌==◌, ◌≡◌, refl, sym, ap, ◌∙◌, eqb, length, is_empty, all, any, count_if, count_if-le-length,
  Bool-cases, Option-cases, inl, inr, arith, eq_iff, and→both, if◌then◌else◌,
}
use cloud_native_threat_guar.Reporting.Scorecard.{
  AdmissionResults, ScenarioRow, RunManifest, EventRow, no_manifest, is_missing, given, is_text,
  admission_ok, note, issues_of, pass, fail, incomplete, stale, is_pass, with_status, never_ran,
  count_never_ran, required_rows, required_passed, collector_ok, overall_of, parse_ts, is_older,
  generate_scorecard,
}

passed_ran : (row : ScenarioRow) → with_status "passed" row ≡ true → never_ran row ≡ false
passed_ran row h = elim (Option-cases row.status) [
  | inl e ↦ rw e refl
  | inr status ↦
      rw
        (status.1, (eq_iff status.0 "passed").0 (sym (ap (λ o. is_text o "passed") (status.1)) ∙ h))
        refl
]

required_ran :
    (rows : List ScenarioRow)
    → all (with_status "passed") (required_rows rows) ≡ true
    → any (λ row. row.required && never_ran row) rows ≡ false
required_ran [] h = refl
required_ran (row ∷ rows) h = elim (Bool-cases row.required) [
  | inr e ↦ ground (arith, h, e, required_ran rows)
  | inl e ↦
      let parts =
        and→both (with_status "passed" row) (all (with_status "passed") (required_rows rows))
          (ground (arith, h, e)) in
      rw (e, passed_ran row parts.0) (required_ran rows parts.1)
]

required_some :
    (rows : List ScenarioRow) → is_empty (required_rows rows) ≡ false → is_empty rows ≡ false
required_some [] h = h
required_some (row ∷ rows) h = refl

-- The decision on its tests: no issue, no scenario, stale, some that never ran, one of them required, the admission,
-- the required scenarios and the collector.
decided :
    (i e s n v a g c : Bool)
    → (g ≡ true → v ≡ false)
    → (g ≡ true → e ≡ false)
    → is_pass (
        if not i || e
        then incomplete
        else if s
        then stale
        else if n && v
        then incomplete
        else if a && (g && c)
        then pass
        else fail)
      ≡ ((i && not s) && (a && (g && c)))
decided i e s n v a true c hv he = rw (hv refl, he refl) (ground arith)
decided i e s n v a false c hv he = ground arith

-- What the scorecard asks for, in one test.
abbrev pub accepts : List String → Bool → AdmissionResults → RunManifest → Bool
accepts issues is_stale admission manifest =
    (is_empty issues && not is_stale)
    && ((admission.is_filled && admission_ok admission)
        && (required_passed manifest.scenarios && collector_ok manifest))

is_pass-overall_of :
    (issues : List String) (is_stale : Bool) (admission : AdmissionResults) (manifest : RunManifest)
    → is_pass (overall_of issues is_stale admission manifest)
      ≡ accepts issues is_stale admission manifest
unfolding overall_of
is_pass-overall_of issues is_stale admission manifest =
    decided (is_empty issues) (is_empty manifest.scenarios) is_stale
      (not (eqb (count_never_ran manifest.scenarios) 0))
      (any (λ row. row.required && never_ran row) manifest.scenarios)
      (admission.is_filled && admission_ok admission) (required_passed manifest.scenarios)
      (collector_ok manifest) (λ h. required_ran manifest.scenarios ((and→both _ _ h).1))
      (λ h. required_some manifest.scenarios (ground (arith, h)))

is_empty-note :
    (b : Bool) (t : String) (rest : List String)
    → is_empty (note b t ++ rest) ≡ (not b && is_empty rest)
is_empty-note true t rest = refl
is_empty-note false t rest = refl

last_note : (b : Bool) (t : String) → is_empty (note b t) ≡ not b
last_note true t = refl
last_note false t = refl

-- The evidence of both kinds is there and captured at a known time, it is of one run, and live evidence is paired
-- with live evidence.
abbrev pub is_consistent : AdmissionResults → RunManifest → Option ℕ → Bool
is_consistent admission manifest captured =
    not (is_missing captured)
    && (is_text admission.run_id manifest.run_id
        && (not (is_text manifest.evidence_mode "live") || is_text admission.evidence_mode "live"))

-- Every check that the acceptance of a live run asks for.
abbrev pub is_acceptable : Option AdmissionResults → Option RunManifest → Option ℕ → Bool → Bool
is_acceptable none loaded_manifest captured older = false
is_acceptable (some admission) none captured older = false
is_acceptable (some admission) (some manifest) captured older =
    (is_consistent admission manifest captured && not older)
    && ((admission.is_filled && admission_ok admission)
        && ((required_passed manifest.scenarios && collector_ok manifest)
            && manifest.origin == "LIVE"))

no_issues :
    (admission : AdmissionResults) (manifest : RunManifest) (captured : Option ℕ)
    → is_empty (issues_of (some admission) (some manifest) captured) ≡ (
        not (
          (admission.is_filled && manifest.is_filled)
          && not (is_text admission.run_id manifest.run_id))
        && (not (
              (admission.is_filled && manifest.is_filled)
              && (is_text manifest.evidence_mode "live"
                  && not (is_text admission.evidence_mode "live")))
            && not (manifest.is_filled && is_missing captured)))
unfolding issues_of
no_issues admission manifest captured =
    rw (is_empty-note, is_empty-note, is_empty-note, is_empty-note, last_note) refl

filled :
    (manifest : RunManifest)
    → (manifest.is_filled || is_empty manifest.scenarios) ≡ true
    → required_passed manifest.scenarios ≡ true
    → manifest.is_filled ≡ true
unfolding required_passed
filled manifest h passed =
    let some_row = required_some manifest.scenarios (ground (arith, passed)) in
    ground (arith, h, some_row)

checked :
    (f m r l k x o a g c z : Bool)
    → (g ≡ true → m ≡ true)
    → (((not ((f && m) && not r) && (not ((f && m) && (l && not k)) && not (m && x))) && not o)
          && ((f && a) && (g && c)))
        && z
      ≡ ((not x && (r && (not l || k))) && not o) && ((f && a) && ((g && c) && z))
checked f m r l k x o a true c z h = rw (h refl) (ground arith)
checked f m r l k x o a false c z h = ground arith

-- The scorecard accepts a run as live exactly if the admission results and the run manifest are both there, the
-- manifest has a capture time that is not older than the allowed age, both are of one run, live runtime evidence
-- comes with live admission evidence, the admission check passed, there are required scenarios and all of them
-- passed, the collector was fine, and the origin is LIVE. A manifest without keys has no scenarios.
pub generate_scorecard_lem :
    (parse_time : String → Option ℕ) (rate : ℕ → ℕ → ℕ) (now max_age : ℕ)
    (admission : Option AdmissionResults) (manifest : Option RunManifest) (events : List EventRow)
    → ((given no_manifest manifest).is_filled || is_empty (given no_manifest manifest).scenarios)
      ≡ true
    → (generate_scorecard parse_time rate now max_age admission manifest events).live_acceptance
      ≡ is_acceptable admission manifest
          (parse_ts parse_time rate now max_age (given no_manifest manifest).captured_at)
          (is_older parse_time rate now max_age
            (parse_ts parse_time rate now max_age (given no_manifest manifest).captured_at))
unfolding generate_scorecard
generate_scorecard_lem parse_time rate now max_age none none events h = refl
generate_scorecard_lem parse_time rate now max_age none (some m) events h = refl
generate_scorecard_lem parse_time rate now max_age (some a) none events h = refl
generate_scorecard_lem parse_time rate now max_age (some a) (some m) events h =
    rw (is_pass-overall_of, no_issues)
      (checked a.is_filled m.is_filled (is_text a.run_id m.run_id) (is_text m.evidence_mode "live")
        (is_text a.evidence_mode "live")
        (is_missing (parse_ts parse_time rate now max_age m.captured_at)) _ (admission_ok a)
        (required_passed m.scenarios) (collector_ok m) (m.origin == "LIVE") (filled m h))

abbrev bit : Bool → ℕ
bit true = 1
bit false = 0

-- A status is at most one of the five.
one_status :
    (s : String)
    → bit (s == "passed")
        + (bit (s == "failed")
            + (bit (s == "blocked") + (bit (s == "skipped") + (bit (s == "not_run")))))
      ≤ 1
one_status s = elim (Bool-cases (s == "passed")) [
  | inl e ↦ rw ((eq_iff s "passed").0 e) (omega arith)
  | inr e0 ↦ elim (Bool-cases (s == "failed")) [
    | inl e ↦ rw ((eq_iff s "failed").0 e) (omega arith)
    | inr e1 ↦ elim (Bool-cases (s == "blocked")) [
      | inl e ↦ rw ((eq_iff s "blocked").0 e) (omega arith)
      | inr e2 ↦ elim (Bool-cases (s == "skipped")) [
        | inl e ↦ rw ((eq_iff s "skipped").0 e) (omega arith)
        | inr e3 ↦ elim (Bool-cases (s == "not_run")) [
          | inl e ↦ rw ((eq_iff s "not_run").0 e) (omega arith)
          | inr e4 ↦ rw (e0, e1, e2, e3, e4) (omega arith)
        ]
      ]
    ]
  ]
]

statuses_apart :
    (rows : List ScenarioRow)
    → count_if (with_status "passed") rows
        + (count_if (with_status "failed") rows
            + (count_if (with_status "blocked") rows
                + (count_if (with_status "skipped") rows + count_if (with_status "not_run") rows)))
      ≤ length rows
statuses_apart [] = omega arith
statuses_apart (row ∷ rows) = elim (Option-cases row.status) [
  | inl e ↦ rw e (omega (arith, statuses_apart rows))
  | inr (s, e) ↦ rw e (ground (arith, one_status s, statuses_apart rows))
]

-- The scenarios counted as passed, failed, blocked, skipped and not run are together at most those that were
-- planned, and detected and missed together are all of them.
generate_scorecard_counts :
    (parse_time : String → Option ℕ) (rate : ℕ → ℕ → ℕ) (now max_age : ℕ)
    (admission : Option AdmissionResults) (manifest : Option RunManifest) (events : List EventRow)
    → let card = generate_scorecard parse_time rate now max_age admission manifest events in
      (card.detected + (card.failed + (card.blocked + (card.skipped + card.not_run)))
        ≤ card.total_scenarios)
      × (card.detected + card.missed ≡ card.total_scenarios)
unfolding generate_scorecard
generate_scorecard_counts parse_time rate now max_age admission manifest events =
    let rows = (given no_manifest manifest).scenarios in
    (statuses_apart rows, omega (arith, count_if-le-length (with_status "passed") rows))

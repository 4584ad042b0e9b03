-- ===== src/Examples/Scorecards.antt =====
-- The scorecard of a live run.
use cloud_native_threat_guar.Prelude.{
  ℕ, String, true, false, Option, none, some, [], ◌∷◌, ◌≡◌, refl,
}
use cloud_native_threat_guar.Reporting.Scorecard.{
  AdmissionResults, RunManifest, parse_ts, is_older, generate_scorecard,
}
use cloud_native_threat_guar.Reporting.Scorecard.Verdict.{is_acceptable, generate_scorecard_lem}

abbrev time_of : String → Option ℕ
time_of s = some 1000

abbrev rate : ℕ → ℕ → ℕ
rate part whole = 1000

abbrev results : AdmissionResults
results = record {
  is_filled = true;
  status = none;
  run_id = some "r1";
  evidence_mode = some "live";
  total = 3;
  blocked = 3;
  allowed = 0;
}

abbrev manifest : RunManifest
manifest = record {
  is_filled = true;
  scenarios =
      record {
        status = some "passed";
        required = true;
        expected_rules = "RUNTIME-001" ∷ [];
        detected_rules = "RUNTIME-001" ∷ [];
      }
      ∷ record {
        status = some "skipped";
        required = false;
        expected_rules = [];
        detected_rules = [];
      }
      ∷ [];
  origin = "LIVE";
  run_id = "r1";
  evidence_mode = some "live";
  captured_at = some "2025-01-01T00:00:00Z";
  collector_status = "ok";
}

accepted :
    (generate_scorecard time_of rate 1010 86400 (some results) (some manifest) []).live_acceptance
    ≡ true
unfolding generate_scorecard
accepted = refl

too_old :
    (generate_scorecard time_of rate 99999 86400 (some results) (some manifest) []).live_acceptance
    ≡ false
unfolding generate_scorecard
too_old = refl

generate_scorecard_lem_example :
    (generate_scorecard time_of rate 1010 86400 (some results) (some manifest) []).live_acceptance
    ≡ is_acceptable
        (some results)
        (some manifest)
        (parse_ts time_of rate 1010 86400 manifest.captured_at)
        (is_older time_of rate 1010 86400 (parse_ts time_of rate 1010 86400 manifest.captured_at))
generate_scorecard_lem_example =
    generate_scorecard_lem time_of rate 1010 86400 (some results) (some manifest) [] refl

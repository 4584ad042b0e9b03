-- ===== src/Examples/Histories.antt =====
-- Calls of the incident manager: a creation, a valid change of the status and a refused one.
use cloud_native_threat_guar.Prelude.{none, List, [], ◌∷◌, ◌≡◌, refl, map}
use cloud_native_threat_guar.Prelude.Json.{end}
use cloud_native_threat_guar.Runtime.Events.{SecurityIncident}
use cloud_native_threat_guar.Reporting.Incidents.{IncidentManager}
use cloud_native_threat_guar.Reporting.Incidents.History.{
  Call, create, update, AllLogged, run, run-AllLogged,
}
use cloud_native_threat_guar.Examples.Incidents.{shell}
use cloud_native_threat_guar.Examples.Scores.{clock}

abbrev correlated : SecurityIncident
correlated = record {
  incident_id = "#TG-000001";
  created_at = "2025-01-01T00:01:00Z";
  cluster = "kind";
  namespace = "threatguard";
  pod = "web-1";
  container = "";
  severity = "CRITICAL";
  confidence = 90;
  title = "shell";
  summary = "";
  tactics = "Execution" ∷ [];
  techniques = "T1059" ∷ [];
  events = shell ∷ [];
  status = "OPEN";
  metadata = end;
}

abbrev new_manager : IncidentManager
new_manager = record { incidents = []; audit_log = [] }

abbrev calls : List Call
calls =
    create "t0" correlated none
    ∷ update "t1" "#TG-000001" "triaged" "" "analyst"
    ∷ update "t2" "#TG-000001" "closed" "" "analyst"
    ∷ []

run-AllLogged_example : AllLogged (run clock "node-1" new_manager calls).incidents
run-AllLogged_example = run-AllLogged clock "node-1" new_manager calls tt

-- The third call raises, so that the audit log has two entries.
two_entries :
    map (λ a. a.action) (run clock "node-1" new_manager calls).audit_log
    ≡ "CREATE_INCIDENT" ∷ "UPDATE_INCIDENT_STATUS" ∷ []
unfolding run
two_entries = refl

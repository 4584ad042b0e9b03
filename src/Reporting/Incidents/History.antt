-- ===== src/Reporting/Incidents/History.antt =====
-- The histories of the incidents that reporting/incidents.py keeps, after any calls of the manager.
use cloud_native_threat_guar.Prelude.{
  String, Bool, true, false, Option, none, some, List, [], ◌∷◌, ◌++◌, ◌==◌, ◌≡◌, refl, subst, arith,
  inl, inr, eq_refl, Bool-cases, Option-cases, if◌then◌else◌,
}
use cloud_native_threat_guar.Prelude.Dict
use cloud_native_threat_guar.Prelude.Dict.{Dict}
use cloud_native_threat_guar.Prelude.Json.{Fields}
use cloud_native_threat_guar.Prelude.Result.{Result, ok, err}
use cloud_native_threat_guar.Prelude.Text.{upper, member}
use cloud_native_threat_guar.Runtime.Events.{SecurityIncident}
use cloud_native_threat_guar.Reporting.Risk.{Datetime}
use cloud_native_threat_guar.Reporting.Incidents.{
  valid_statuses, HistoryEntry, created, changed, IncidentRecord, IncidentManager, ValueError,
  incident_record, create_incident_from_correlation, with_status, update_status,
}

abbrev follows : Option String → String → Bool
follows none previous = false
follows (some current) previous = current == previous

-- The status that a history leads to; a change that does not start from the status before it leads to none.
unfoldable pub replay : Option String → List HistoryEntry → Option String
replay current [] = current
replay current (created time status notes ∷ rest) = replay (some status) rest
replay current (changed time actor action previous status notes ∷ rest) =
    replay (if follows current previous then some status else none) rest

replay-append :
    (current : Option String) (history more : List HistoryEntry)
    → replay current (history ++ more) ≡ replay (replay current history) more
unfolding replay
replay-append current [] more = refl
replay-append current (created time status notes ∷ rest) more =
    replay-append (some status) rest more
replay-append current (changed time actor action previous status notes ∷ rest) more =
    replay-append (if follows current previous then some status else none) rest more

-- The history leads to the status, which is one of the six.
pub record IsLogged (inc : IncidentRecord) : Type 0 where
  pub leads : replay none inc.history ≡ some inc.status
  pub valid : member inc.status valid_statuses ≡ true

with_status-IsLogged :
    (now status notes actor : String) (inc : IncidentRecord)
    → IsLogged inc
    → member (upper status) valid_statuses ≡ true
    → IsLogged (with_status now status notes actor inc)
unfolding with_status replay
with_status-IsLogged now status notes actor inc logged valid = record {
  leads = rw (replay-append, logged.leads) (rw (eq_refl inc.status) refl);
  valid = valid;
}

incident_record-IsLogged :
    (dt : Datetime) (node now : String) (c : SecurityIncident) (spec : Option Fields)
    → IsLogged (incident_record dt node now c spec)
unfolding incident_record replay
incident_record-IsLogged dt node now c spec = record { leads = refl; valid = refl }

abbrev pub AllLogged : Dict IncidentRecord → Type 0
AllLogged [] = Unit
AllLogged ((id, inc) ∷ incidents) = IsLogged inc × AllLogged incidents

put-AllLogged :
    (d : Dict IncidentRecord) (id : String) (inc : IncidentRecord)
    → AllLogged d
    → IsLogged inc
    → AllLogged (Dict.put d id inc)
unfolding Dict.put
put-AllLogged [] id inc all logged = (logged, tt)
put-AllLogged ((j, other) ∷ d) id inc all logged = elim (Bool-cases (j == id)) [
  | inl same ↦ rw same (logged, all.1)
  | inr differs ↦ rw differs (all.0, put-AllLogged d id inc all.1 logged)
]

get-IsLogged :
    (d : Dict IncidentRecord) (id : String) (inc : IncidentRecord)
    → AllLogged d
    → Dict.get d id ≡ some inc
    → IsLogged inc
unfolding Dict.get
get-IsLogged [] id inc all found = cc
get-IsLogged ((j, other) ∷ d) id inc all found = elim (Bool-cases (j == id)) [
  | inl same ↦ subst IsLogged (ground arith) all.0
  | inr differs ↦ get-IsLogged d id inc all.1 (rw differs at found)
]

-- A call of the manager, with the time at which it is made.
pub data Call : Type 0 where
  create : (now : String) → SecurityIncident → Option Fields → Call
  update : (now incident_id new_status notes actor : String) → Call

-- A call that raises leaves the manager as it was.
abbrev after :
    IncidentManager → Result ValueError (Option IncidentRecord × IncidentManager) → IncidentManager
after manager (ok (answer, manager')) = manager'
after manager (err e) = manager

unfoldable pub call : Datetime → String → IncidentManager → Call → IncidentManager
unfolding create_incident_from_correlation update_status
call dt node manager (create now c spec) =
    (create_incident_from_correlation dt node now manager c spec).1
call dt node manager (update now id status notes actor) =
    after manager (update_status now manager id status notes actor)

unfoldable pub run : Datetime → String → IncidentManager → List Call → IncidentManager
unfolding call
run dt node manager [] = manager
run dt node manager (c ∷ calls) = run dt node (call dt node manager c) calls

update-AllLogged :
    (manager : IncidentManager) (now id status notes actor : String)
    → AllLogged manager.incidents
    → AllLogged (after manager (update_status now manager id status notes actor)).incidents
unfolding update_status
update-AllLogged manager now id status notes actor all =
    elim (Option-cases (Dict.get manager.incidents id)) [
      | inl missing ↦ rw (missing, update_status) all
      | inr (inc, found) ↦ elim (Bool-cases (member (upper status) valid_statuses)) [
        | inl valid ↦
            rw (found, valid, update_status)
              (put-AllLogged manager.incidents id (with_status now status notes actor inc) all (
                with_status-IsLogged now status notes actor inc
                  (get-IsLogged manager.incidents id inc all found) valid))
        | inr invalid ↦ rw (found, invalid, update_status) all
      ]
    ]

call-AllLogged :
    (dt : Datetime) (node : String) (manager : IncidentManager) (c : Call)
    → AllLogged manager.incidents
    → AllLogged (call dt node manager c).incidents
unfolding call create_incident_from_correlation
call-AllLogged dt node manager (create now c spec) all =
    put-AllLogged manager.incidents c.incident_id (incident_record dt node now c spec) all
      (incident_record-IsLogged dt node now c spec)
call-AllLogged dt node manager (update now id status notes actor) all =
    update-AllLogged manager now id status notes actor all

-- Whatever calls are made of a manager whose incidents are logged, be it a new one, each incident that it then
-- holds has one of the six statuses and a history that leads to it: every change starts from the status
-- before it and the last one ends in the present status. A call that raises leaves the manager as it was.
pub run-AllLogged :
    (dt : Datetime) (node : String) (manager : IncidentManager) (calls : List Call)
    → AllLogged manager.incidents
    → AllLogged (run dt node manager calls).incidents
unfolding run
run-AllLogged dt node manager [] all = all
run-AllLogged dt node manager (c ∷ calls) all =
    run-AllLogged dt node (call dt node manager c) calls (call-AllLogged dt node manager c all)

-- ===== src/Examples/Sensors.antt =====
-- The diagnosis of the sensor.
use cloud_native_threat_guar.Prelude.{
  String, not, Option, none, some, List, [], ◌∷◌, ◌==◌, ◌≡◌, refl, if◌then◌else◌,
}
use cloud_native_threat_guar.Prelude.Dict.{Dict}
use cloud_native_threat_guar.Prelude.Int.{ℤ, pos}
use cloud_native_threat_guar.Prelude.Json.{obj, end, field, find_field}
use cloud_native_threat_guar.Runtime.Collector.{CollectionResult, empty_result}
use cloud_native_threat_guar.Runtime.SensorCheck.{
  PolicyCounters, parse_policy_table, diagnose, exit_code,
}
use cloud_native_threat_guar.Runtime.SensorCheck.Exit.{code_for, moved, exported, exit_code_lem}

abbrev int_of : String → Option ℤ
int_of text = if text == "3" then some (pos 3) else if text == "0" then some (pos 0) else none

abbrev heading : List String
heading = "ID" ∷ "NAME" ∷ "STATE" ∷ "NPOST" ∷ "NENFORCE" ∷ "NMONITOR" ∷ []

abbrev row : String → List String
row posted = "1" ∷ "block-shell" ∷ "enabled" ∷ posted ∷ "0" ∷ "0" ∷ []

abbrev before : Dict PolicyCounters
before = parse_policy_table int_of (heading ∷ row "0" ∷ [])

abbrev after : Dict PolicyCounters
after = parse_policy_table int_of (heading ∷ row "3" ∷ ("too" ∷ "short" ∷ []) ∷ row "x" ∷ [])

abbrev captured : CollectionResult
captured = record empty_result { events = field "process_kprobe" (obj end) end ∷ [] }

exit_code_lem_example :
    exit_code (diagnose before after captured)
    ≡ code_for (not (captured.status == "unavailable")) (moved before after) (exported captured)
exit_code_lem_example = exit_code_lem before after captured

stream_carries : exit_code (diagnose before after captured) ≡ 0
unfolding parse_policy_table diagnose exit_code find_field
stream_carries = refl

not_exported : exit_code (diagnose before after empty_result) ≡ 1
unfolding parse_policy_table diagnose exit_code
not_exported = refl

nothing_moved : exit_code (diagnose before before captured) ≡ 3
unfolding parse_policy_table diagnose exit_code find_field
nothing_moved = refl

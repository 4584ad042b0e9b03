-- ===== src/Runtime/Pipeline/Verdict.antt =====
-- What the result of a run says of its scenarios.
use cloud_native_threat_guar.Prelude.{ℕ, String, Option, none, some, List, ◌≡◌}
use cloud_native_threat_guar.Prelude.Dict.{Dict}
use cloud_native_threat_guar.Prelude.Json.{Json}
use cloud_native_threat_guar.Prelude.Python.{PyError}
use cloud_native_threat_guar.Prelude.Result.{Result, Returns}
use cloud_native_threat_guar.Runtime.Collector.{CollectionResult}
use cloud_native_threat_guar.Runtime.Scenarios.{Scenario}
use cloud_native_threat_guar.Runtime.Pipeline.Run.{Attempt}
use cloud_native_threat_guar.Runtime.Pipeline.Outcomes.{ids, planned}

-- What a run that was not cut off and raised nothing has.
abbrev Holds : {A : Type 0} → (A → Type 0) → Option (Result PyError A) → Type 0
Holds P none = Unit
Holds P (some r) = Returns P r

module _ (python_str : Json → String) (now : String) (parse_time : String → Option ℕ)
    (collect : ℕ → CollectionResult) (namespace : String) (catalog : List Scenario)
    (wait_seconds : ℕ) where
  abbrev HasPlan : Attempt → Type 0
  HasPlan a = ids a.1.outcomes ≡ planned catalog

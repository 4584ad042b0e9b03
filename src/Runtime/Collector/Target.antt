-- ===== src/Runtime/Collector/Target.antt =====
-- What the collector returns of the sensor's stream.
use cloud_native_threat_guar.Prelude.{
  ℕ, ◌+◌, String, true, Option, List, ◌≡◌, All, Memᴰ, ◌⊎◌, length,
}
use cloud_native_threat_guar.Prelude.Json.{Json, Fields}
use cloud_native_threat_guar.Prelude.Python.{PyError}
use cloud_native_threat_guar.Prelude.Result.{Result, ok, err}
use cloud_native_threat_guar.Runtime.Collector.{is_target, CollectionResult, source_identity}

module _ (loads : String → Option Json) (str_of dumps : Json → String)
    (digest : String → Result PyError String) (mask : String → String)
    (dict_of : Json → Result PyError Fields) (namespace pod : String) where
  abbrev counted : CollectionResult → ℕ
  counted result = length result.events + (result.duplicates_dropped + result.dropped_other_pods)

  abbrev AllTarget : List Fields → Type 0
  AllTarget events = All (λ event. is_target namespace pod event ≡ true) events

  -- The loop returns, with events of the pod only, and has counted each event once.
  abbrev Collected : CollectionResult → ℕ → Result PyError CollectionResult → Type 0
  Collected before n outcome =
      (after : CollectionResult) × (outcome ≡ ok after)
      × AllTarget after.events
      × (counted after ≡ counted before + n)
      × (after.parse_errors ≡ before.parse_errors)

  -- The digest of an event of the pod raises, and so does the loop.
  abbrev Fails : List Fields → Result PyError CollectionResult → Type 0
  Fails raw outcome =
      (event : Fields) × (e : PyError) × Memᴰ event raw
      × (is_target namespace pod event ≡ true)
      × (source_identity loads str_of dumps digest mask dict_of event ≡ err e)
      × (outcome ≡ err e)

  abbrev Ends : CollectionResult → List Fields → Result PyError CollectionResult → Type 0
  Ends before raw outcome = Collected before (length raw) outcome ⊎ Fails raw outcome

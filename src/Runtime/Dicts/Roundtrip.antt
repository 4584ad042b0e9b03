-- ===== src/Runtime/Dicts/Roundtrip.antt =====
-- What is left of an event that is written as a dict and read again.
use cloud_native_threat_guar.Prelude.{String, true, ◌≡◌, refl}
use cloud_native_threat_guar.Prelude.Json.{
  Json, str, int, obj, Fields, is_truthy, or_json-same, or_json-empty, find_field,
}
use cloud_native_threat_guar.Prelude.Python.{PyError, get_of}
use cloud_native_threat_guar.Prelude.Result.{Result, ok, ◌>>=◌}
use cloud_native_threat_guar.Prelude.Text.{upper}
use cloud_native_threat_guar.Runtime.Dicts.{DictEvent, asdict, to_dict, upper_of, from_dict}

-- The event without the file and the destination.
abbrev pub without_network : DictEvent → DictEvent
without_network e = record e {
  file_path = str "";
  destination_ip = str "";
  destination_port = int 0;
}

-- An event whose id and time are truthy, whose metadata is a dict, whose severity is a text in upper case, whose
-- confidence `float` leaves alone and whose tactic is a text, is read back from its dict unchanged, but for the file
-- path and the destination, which are always lost.
pub from_dict-to_dict :
    (to_float : Json → Result PyError Json) (event_id timestamp cluster node : String)
    (e : DictEvent) (metadata : Fields) (severity tactic : String)
    → is_truthy e.event_id ≡ true
    → is_truthy e.timestamp ≡ true
    → e.metadata ≡ obj metadata
    → e.severity ≡ str severity
    → upper severity ≡ severity
    → to_float e.confidence ≡ ok e.confidence
    → e.mitre_tactic ≡ str tactic
    → (to_dict e >>= from_dict to_float event_id timestamp cluster node) ≡ ok (without_network e)
unfolding to_dict from_dict asdict get_of find_field upper_of
from_dict-to_dict to_float event_id timestamp cluster node e metadata severity tactic hi ht hm hs hu
      hc hk =
    rw
      (
        hm,
        hs,
        hu,
        hc,
        hi,
        ht,
        hk,
        or_json-same e.detection_rule,
        or_json-same e.mitre_technique,
        or_json-same e.description,
        or_json-same (obj metadata),
        or_json-empty tactic,
      )
      refl

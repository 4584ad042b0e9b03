-- ===== src/CrossDomain/Adapters.antt =====
-- src/cloudnative_threatguard/correlation/cross_domain/adapters: detections and findings as unified events. The
-- validation that the schema does raises a `ValidationError`, which is a `ValueError`.
pub mod ThreatGuard
pub mod CloudGraphGuard
pub mod Bounds
pub mod Delivery
use cloud_native_threat_guar.Prelude.{
  ℕ, String, Bool, true, false, Option, none, some, List, [], ◌∷◌, leb, ◌∷◌, if◌then◌else◌,
}
use cloud_native_threat_guar.Prelude.Int.{ℤ, pos, negsuc}
use cloud_native_threat_guar.Prelude.Json.{Json, null, str, Items, nil, cons}
use cloud_native_threat_guar.Prelude.Python.{PyError, value_error}
use cloud_native_threat_guar.Prelude.Result.{Result, ok, err, ◌>>=◌}

-- `Field(ge=0.0, le=...)` on a number in the units of the field.
unfoldable pub validated : ℕ → ℤ → Result PyError ℕ
validated top (pos n) = if leb n top then ok n else err value_error
validated top (negsuc n) = err value_error

-- A field `str | None`.
unfoldable pub optional_text : Json → Result PyError (Option String)
optional_text null = ok none
optional_text (str s) = ok (some s)
optional_text _ = err value_error

-- A list of texts as JSON holds it.
unfoldable pub texts : List String → Items
texts [] = nil
texts (s ∷ ss) = cons (str s) (texts ss)

-- `[cls.to_unified_event(e) for e in events]`
unfoldable pub batch : {A B : Type 0} → (A → Result PyError B) → List A → Result PyError (List B)
batch f [] = ok []
batch f (a ∷ as') = do b ← f a; bs ← batch f as'; ok (b ∷ bs)

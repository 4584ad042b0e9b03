-- ===== src/Prelude/Json.antt =====
-- Values of parsed JSON, as `json.loads` returns them, and what the program reads of them.
use Prim.Native.Char.{code}
use cloud_native_threat_guar.Prelude.{
  ℕ, String, Bool, true, false, not, ◌&&◌, ◌||◌, Option, none, some, ◌==◌, ◌≡◌, refl, eq_iff, inl,
  inr, Bool-cases, eqb, if◌then◌else◌,
}

-- `int n` is n, `negative n` is -(n + 1), and `real` is a float, by the text that `repr` gives of it.
mutual
  pub data Json : Type 0 where
    null : Json
    bool : Bool → Json
    int negative : ℕ → Json
    real : String → Json
    str : String → Json
    arr : Items → Json
    obj : Fields → Json

  pub data Items : Type 0 where
    nil : Items
    cons : Json → Items → Items

  pub data Fields : Type 0 where
    end : Fields
    field : String → Json → Fields → Fields

abbrev is_zero_char : ℕ → Bool
is_zero_char c = eqb c 45 || eqb c 46 || eqb c 48

-- The text of a float that is zero, `0.0` or `-0.0`, has no other signs than these.
unfoldable pub is_zero_text : String → Bool
is_zero_text String.[] = true
is_zero_text (String.◌∷◌ c s) = is_zero_char (code c) && is_zero_text s

-- Python's truth value.
abbrev pub is_truthy : Json → Bool
is_truthy null = false
is_truthy (bool b) = b
is_truthy (int n) = not (eqb n 0)
is_truthy (negative n) = true
is_truthy (real x) = not (is_zero_text x)
is_truthy (str s) = not (s == "")
is_truthy (arr nil) = false
is_truthy (arr (cons x xs)) = true
is_truthy (obj end) = false
is_truthy (obj (field k v fs)) = true

-- `x or y`
abbrev pub or_json : Json → Json → Json
or_json x y = if is_truthy x then x else y

-- `d.get(k)` of a JSON object. JSON objects as parsed hold each key once.
unfoldable pub find_field : Fields → String → Option Json
find_field end k = none
find_field (field j v fs) k = let rest = find_field fs k in if j == k then some v else rest

-- `d.get(k, default)`
abbrev pub field_or : Fields → String → Json → Json
field_or fs k default = elim (find_field fs k) [ none ↦ default | some v ↦ v ]

-- `d[k] = v`
unfoldable pub set_field : Fields → String → Json → Fields
set_field end k v = field k v end
set_field (field j w fs) k v =
    let rest = set_field fs k v in if j == k then field j v fs else field j w rest

abbrev pub is_some_json : Option Json → Bool
is_some_json none = false
is_some_json (some v) = true

pub or_json-same : (j : Json) → or_json j j ≡ j
or_json-same j = elim (Bool-cases (is_truthy j)) [ inl e ↦ rw e refl | inr e ↦ rw e refl ]

-- An empty text for the empty text.
pub or_json-empty : (s : String) → or_json (str s) (str "") ≡ str s
or_json-empty s = elim (Bool-cases (s == "")) [
  | inl e ↦ rw (e, (eq_iff s "").0 e) refl
  | inr e ↦ rw e refl
]

zero_samples :
    (is_zero_text "0.0" ≡ true)
    × (is_zero_text "-0.0" ≡ true)
    × (is_zero_text "0.5" ≡ false)
    × (is_zero_text "1e-05" ≡ false)
    × (is_zero_text "nan" ≡ false)
unfolding is_zero_text
zero_samples = (refl, refl, refl, refl, refl)

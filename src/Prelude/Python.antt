-- ===== src/Prelude/Python.antt =====
-- Operations of Python on the values that `json.loads` returns, which raise on values of another type.
use Prim.Native.Char.{code}
use Prim.Native.String.{String}
use mathlib.Core.Bool.{Bool, false, ◌&&◌, ◌||◌}
use mathlib.Core.Path.{◌≡◌, refl}
use Prim.Native.Nat.{ℕ}
use text.Mathlib.Text.{◌==◌}
use cloud_native_threat_guar.Prelude.Tests.{leb, eqb, if◌then◌else◌}
use cloud_native_threat_guar.Prelude.Text.{contains, last_part}
use cloud_native_threat_guar.Prelude.Json.{
  Json, str, arr, obj, Items, nil, cons, Fields, find_field, field_or, is_some_json,
}
use cloud_native_threat_guar.Prelude.Result.{Result, ok, err}

pub data PyError : Type 0 where
  attribute_error type_error value_error : PyError

-- `v.get(key, default)`: only a dict has the method.
unfoldable pub get_of : Json → String → Json → Result PyError Json
get_of (obj fs) key default = ok (field_or fs key default)
get_of _ key default = err attribute_error

abbrev pub has_key : Fields → String → Bool
has_key fs key = is_some_json (find_field fs key)

-- `v == text`
abbrev pub equals_text : Json → String → Bool
equals_text (str s) t = s == t
equals_text _ t = false

unfoldable pub item_in : String → Items → Bool
item_in t nil = false
item_in t (cons v vs) = equals_text v t || item_in t vs

-- `text in v`
unfoldable pub text_in : String → Json → Result PyError Bool
unfolding item_in
text_in t (str s) = ok (contains s t)
text_in t (arr vs) = ok (item_in t vs)
text_in t (obj fs) = ok (has_key fs t)
text_in t _ = err type_error

-- `os.path.basename(v)`
unfoldable pub basename : Json → Result PyError String
unfolding last_part
basename (str s) = ok (last_part 47 s)
basename _ = err type_error

-- What `str.strip` takes for a space.
abbrev is_space : ℕ → Bool
is_space c =
    (leb 9 c && leb c 13)
    || (leb 28 c && leb c 32)
    || eqb c 133
    || eqb c 160
    || eqb c 5760
    || (leb 8192 c && leb c 8202)
    || eqb c 8232
    || eqb c 8233
    || eqb c 8239
    || eqb c 8287
    || eqb c 12288

unfoldable pub strip_left : String → String
strip_left String.[] = String.[]
strip_left (String.◌∷◌ c s) =
    let rest = strip_left s in if is_space (code c) then rest else String.◌∷◌ c s

abbrev add_front : Prim.Native.Char.Char → String → String
add_front c String.[] = if is_space (code c) then String.[] else String.◌∷◌ c String.[]
add_front c (String.◌∷◌ d s) = String.◌∷◌ c (String.◌∷◌ d s)

unfoldable pub strip_right : String → String
strip_right String.[] = String.[]
strip_right (String.◌∷◌ c s) = add_front c (strip_right s)

-- `s.strip()`
unfoldable pub strip : String → String
unfolding strip_left strip_right
strip s = strip_right (strip_left s)

strip_samples : (strip "  /bin/sh -c " ≡ "/bin/sh -c") × (strip " " ≡ "")
unfolding strip
strip_samples = (refl, refl)

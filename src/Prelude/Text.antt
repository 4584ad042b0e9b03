-- ===== src/Prelude/Text.antt =====
-- What the program uses of Python's `str`. Case folding is that of ASCII letters; comparison is
-- by code points, as Python's is.
use Prim.Native.Nat.{ℕ, zero, suc, ◌-◌, ◌/◌, ◌%◌, Ordering}
use Prim.Native.Char.{Char, code}
use Prim.Native.String.{String, char_at, compare, ◌++◌}
use mathlib.Core.Path.{◌≡◌, refl}
use mathlib.Core.Bool.{Bool, true, false, not, ◌&&◌, ◌||◌}
use mathlib.Core.Option.{none, some}
use mathlib.Core.List.{List, [], ◌∷◌}
use text.Mathlib.Text.{◌==◌, find?}
use cloud_native_threat_guar.Prelude.Tests.{leb, eqb, if◌then◌else◌}

unfoldable pub lower_char : Char → Char
lower_char c =
    if leb 65 (code c) && leb (code c) 90
    then char_at "abcdefghijklmnopqrstuvwxyz" (code c - 65)
    else c

-- `s.lower()`
unfoldable pub lower : String → String
unfolding lower_char
lower String.[] = String.[]
lower (String.◌∷◌ c s) = String.◌∷◌ (lower_char c) (lower s)

upper_char : Char → Char
upper_char c =
    if leb 97 (code c) && leb (code c) 122
    then char_at "ABCDEFGHIJKLMNOPQRSTUVWXYZ" (code c - 97)
    else c

-- `s.upper()`
unfoldable pub upper : String → String
unfolding upper_char
upper String.[] = String.[]
upper (String.◌∷◌ c s) = String.◌∷◌ (upper_char c) (upper s)

-- `t in s`
abbrev pub contains : String → String → Bool
contains s t = elim (find? s t) [ none ↦ false | some _ ↦ true ]

-- The truth value of a text: it is not empty.
abbrev pub truthy : String → Bool
truthy s = not (s == "")

-- `s or t`
abbrev pub or_else : String → String → String
or_else s t = if truthy s then s else t

unfoldable pub after_last : ℕ → String → String → String
after_last sep best String.[] = best
after_last sep best (String.◌∷◌ c s) = after_last sep (if eqb (code c) sep then s else best) s

-- `s.split(sep)[-1]`, and `os.path.basename` at `/`
unfoldable pub last_part : ℕ → String → String
unfolding after_last
last_part sep s = after_last sep s s

-- `x in [...]` of a list of texts
abbrev pub member : String → List String → Bool
member x [] = false
member x (y ∷ ys) = x == y || member x ys

-- `set(xs)`: each text once.
unfoldable pub distinct : List String → List String
distinct [] = []
distinct (x ∷ xs) = let rest = distinct xs in if member x rest then rest else x ∷ rest

-- `s[:n]`
unfoldable pub prefix : ℕ → String → String
prefix zero s = String.[]
prefix (suc n) String.[] = String.[]
prefix (suc n) (String.◌∷◌ c s) = String.◌∷◌ c (prefix n s)

-- `s <= t`
abbrev pub text_leb : String → String → Bool
text_leb s t = elim (compare s t) [ Ordering.gt ↦ false | _ ↦ true ]

-- The parts of an f-string, joined.
unfoldable pub concat : List String → String
concat [] = ""
concat (s ∷ parts) = s ++ concat parts

-- `sep.join(parts)`
unfoldable pub join : String → List String → String
join sep [] = ""
join sep (s ∷ []) = s
join sep (s ∷ t ∷ parts) = s ++ (sep ++ join sep (t ∷ parts))

digit : ℕ → String
digit d = String.◌∷◌ (char_at "0123456789" (d % 10)) String.[]

decimal_digits : ℕ → ℕ → String
decimal_digits zero n = ""
decimal_digits (suc fuel) n =
    let more = decimal_digits fuel (n / 10) in if leb n 9 then digit n else more ++ digit n

-- `str(n)` of a number that is not negative. Each round drops a digit, so n + 1 rounds are enough.
unfoldable pub decimal : ℕ → String
unfolding digit decimal_digits
decimal n = decimal_digits (suc n) n

before_first : ℕ → String → String
before_first sep String.[] = String.[]
before_first sep (String.◌∷◌ c s) =
    let rest = before_first sep s in if eqb (code c) sep then String.[] else String.◌∷◌ c rest

-- `s.split(sep)[0]`
unfoldable pub first_part : ℕ → String → String
unfolding before_first
first_part sep s = before_first sep s

-- `s.replace("Z", "+00:00")`
unfoldable pub utc_offset : String → String
utc_offset String.[] = String.[]
utc_offset (String.◌∷◌ c s) =
    if eqb (code c) 90 then "+00:00" ++ utc_offset s else String.◌∷◌ c (utc_offset s)

text_samples :
    (lower "AWS:Role-1" ≡ "aws:role-1")
    × (upper "High" ≡ "HIGH")
    × (last_part 47 "/usr/bin/nc" ≡ "nc")
    × (last_part 47 "nc" ≡ "nc")
    × (contains "iam:PassRole" "PassRole" ≡ true)
    × (decimal 1290 ≡ "1290")
    × (first_part 47 "ns/pod" ≡ "ns")
    × (utc_offset "10:00Z" ≡ "10:00+00:00")
    × (join ", " ("a" ∷ "b" ∷ []) ≡ "a, b")
    × (contains "PassRole" "iam:PassRole" ≡ false)
    × (prefix 2 "abc" ≡ "ab")
unfolding lower upper last_part decimal first_part utc_offset join prefix
text_samples = (refl, refl, refl, refl, refl, refl, refl, refl, refl, refl, refl)

-- `s.startswith(t)`
unfoldable pub starts_with : String → String → Bool
starts_with s String.[] = true
starts_with String.[] (String.◌∷◌ d t) = false
starts_with (String.◌∷◌ c s) (String.◌∷◌ d t) = eqb (code c) (code d) && starts_with s t

-- ===== src/Prelude/Paths.antt =====
-- The base name of a path has no separator, and folding its case keeps it so.
use Prim.Native.Nat.{ℕ, zero, suc, ◌-◌, ◌<◌}
use Prim.Native.Char.{Char, code}
use Prim.Native.String.{String, char_at}
use mathlib.Core.Path.{◌≡◌, refl}
use mathlib.Core.Logic.{◌⊎◌, inl, inr}
use mathlib.Core.Bool.{Bool, true, false, not, ◌&&◌, ◌||◌}
use mathlib.Core.List.{List, [], ◌∷◌}
use native.Mathlib.Omega.{arith}
use text.Mathlib.TextEquality.{eq_iff}
use cloud_native_threat_guar.Prelude.Tests.{leb, eqb, if◌then◌else◌, Bool-cases}
use cloud_native_threat_guar.Prelude.Lists.{all}
use cloud_native_threat_guar.Prelude.Text.{lower, lower_char, after_last, last_part, member}

-- A text with the character of this code.
unfoldable pub has_char : ℕ → String → Bool
has_char n String.[] = false
has_char n (String.◌∷◌ c s) = eqb (code c) n || has_char n s

after_last-has_char :
    (sep : ℕ) (best s : String)
    → (has_char sep best ≡ false) ⊎ (has_char sep s ≡ true)
    → has_char sep (after_last sep best s) ≡ false
unfolding after_last has_char
after_last-has_char sep best String.[] (inl h) = h
after_last-has_char sep best String.[] (inr h) = ground (arith, h)
after_last-has_char sep best (String.◌∷◌ c s) h =
    after_last-has_char sep (if eqb (code c) sep then s else best) s
      (elim (Bool-cases (eqb (code c) sep)) [
        | inl e ↦ elim (Bool-cases (has_char sep s)) [ inl e2 ↦ inr e2 | inr e2 ↦ rw e (inl e2) ]
        | inr e ↦ elim h [ inl hb ↦ rw e (inl hb) | inr hs ↦ inr (ground (arith, hs, e)) ]
      ])

pub last_part-has_char : (sep : ℕ) (s : String) → has_char sep (last_part sep s) ≡ false
unfolding last_part
last_part-has_char sep s =
    after_last-has_char sep s s
      (elim (Bool-cases (has_char sep s)) [ inl e ↦ inr e | inr e ↦ inl e ])

all_below : ℕ → (ℕ → Bool) → Bool
all_below zero p = true
all_below (suc n) p = p n && all_below n p

all_below-lt : (n : ℕ) (p : ℕ → Bool) (m : ℕ) → all_below n p ≡ true → m < n → p m ≡ true
unfolding all_below
all_below-lt zero p m h l = ground (arith, l)
all_below-lt (suc n) p m h l = ground (arith, h, l, all_below-lt n p m)

no_slash_letter :
    (n : ℕ) → n < 26 → not (eqb (code (char_at "abcdefghijklmnopqrstuvwxyz" n)) 47) ≡ true
unfolding all_below
no_slash_letter n l =
    all_below-lt 26 (λ m. not (eqb (code (char_at "abcdefghijklmnopqrstuvwxyz" m)) 47)) n refl l

lower_char-slash : (c : Char) → eqb (code (lower_char c)) 47 ≡ eqb (code c) 47
unfolding lower_char
lower_char-slash c = elim (Bool-cases (leb 65 (code c) && leb (code c) 90)) [
  | inr e ↦ rw e refl
  | inl e ↦ rw e (ground (arith, e, no_slash_letter (code c - 65)))
]

pub lower-has_char : (s : String) → has_char 47 (lower s) ≡ has_char 47 s
unfolding lower has_char
lower-has_char String.[] = refl
lower-has_char (String.◌∷◌ c s) = rw (lower_char-slash c, lower-has_char s) refl

-- A test that holds of all texts of a list holds of each one that is in it.
pub all-member :
    (p : String → Bool) (x : String) (xs : List String)
    → all p xs ≡ true
    → member x xs ≡ true
    → p x ≡ true
all-member p x [] h m = ground (arith, m)
all-member p x (y ∷ ys) h m = ground (arith, eq_iff x y, all-member p x ys)

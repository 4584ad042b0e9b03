-- ===== src/Prelude/Points.antt =====
-- Scores, which Python keeps as floats, as whole numbers of a small unit: 2 ^ 100 units are a tenth of a point. Every
-- float that is a multiple of 2 ^ -100, so every float from 2 ^ -48 on, is a whole number of units; sums and products
-- are exact here, without the rounding of float arithmetic, and so are the tenths that `round` gives.
use cloud_native_threat_guar.Prelude.{
  ℕ, ◌+◌, ◌*◌, ◌/◌, ◌%◌, ◌≤◌, ◌≡◌, refl, arith, ltb, eqb, Bool-cases, inl, inr, if◌then◌else◌,
}

abbrev pub tenth : ℕ
tenth = 1267650600228229401496703205376

abbrev pub points : ℕ → ℕ
points n = n * (10 * tenth)

-- `round(x, 1)`: the nearest whole number of tenths, and of two that are equally near the even one.
unfoldable pub round_tenth : ℕ → ℕ
round_tenth x =
    let whole = x / tenth in
    let left = x % tenth in
    if ltb (2 * left) tenth
    then whole * tenth
    else if ltb tenth (2 * left)
    then (whole + 1) * tenth
    else if eqb (whole % 2) 0
    then whole * tenth
    else (whole + 1) * tenth

pub round_tenth-near :
    (x : ℕ) → (2 * x ≤ 2 * round_tenth x + tenth) × (2 * round_tenth x ≤ 2 * x + tenth)
unfolding round_tenth
round_tenth-near x = ground arith

pub round_tenth-le : (x n : ℕ) → x ≤ n * tenth → round_tenth x ≤ n * tenth
unfolding round_tenth
round_tenth-le x n h = ground arith

-- The number of tenths is whole.
abbrev pub IsWhole : ℕ → Type 0
IsWhole x = (n : ℕ) × (x ≡ n * tenth)

pub round_tenth-IsWhole : (x : ℕ) → IsWhole (round_tenth x)
unfolding round_tenth
round_tenth-IsWhole x = elim (Bool-cases (ltb (2 * (x % tenth)) tenth)) [
  | inl e ↦ rw e (x / tenth, refl)
  | inr e ↦ elim (Bool-cases (ltb tenth (2 * (x % tenth)))) [
    | inl f ↦ rw (e, f) (x / tenth + 1, refl)
    | inr f ↦ elim (Bool-cases (eqb (x / tenth % 2) 0)) [
      | inl g ↦ rw (e, f, g) (x / tenth, refl)
      | inr g ↦ rw (e, f, g) (x / tenth + 1, refl)
    ]
  ]
]

round_samples :
    (round_tenth (8734 * tenth / 10 + 1) ≡ 873 * tenth)
    × (round_tenth (points 75) ≡ points 75)
    × (round_tenth (5 * (tenth / 2)) ≡ 2 * tenth)
unfolding round_tenth
round_samples = (refl, refl, refl)

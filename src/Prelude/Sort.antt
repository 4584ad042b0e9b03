-- ===== src/Prelude/Sort.antt =====
-- `sorted(xs, key=...)` for a text key: stable, by insertion.
use Prim.Native.String.{String}
use mathlib.Core.List.{List, [], ◌∷◌}
use cloud_native_threat_guar.Prelude.Tests.{if◌then◌else◌, Bool-cases}
use cloud_native_threat_guar.Prelude.Lists.{All}
use mathlib.Core.Logic.{inl, inr}
use cloud_native_threat_guar.Prelude.Text.{text_leb}

module _ {ℓ} {A : Type ℓ} (key : A → String) where
  -- An element goes before the first one with a key that is not smaller.
  unfoldable pub insert : A → List A → List A
  insert x [] = x ∷ []
  insert x (y ∷ ys) =
      let rest = insert x ys in if text_leb (key x) (key y) then x ∷ y ∷ ys else y ∷ rest

  unfoldable pub sort_by : List A → List A
  unfolding insert
  sort_by [] = []
  sort_by (x ∷ xs) = insert x (sort_by xs)

  insert-All : (P : A → Type 0) (x : A) (xs : List A) → P x → All P xs → All P (insert x xs)
  unfolding insert
  insert-All P x [] h hs = (h, tt)
  insert-All P x (y ∷ ys) h hs = elim (Bool-cases (text_leb (key x) (key y))) [
    | inl e ↦ rw e (h, hs)
    | inr e ↦ rw e (hs.0, insert-All P x ys h hs.1)
  ]

  -- Sorting keeps what holds of all elements.
  pub sort_by-All : (P : A → Type 0) (xs : List A) → All P xs → All P (sort_by xs)
  unfolding sort_by
  sort_by-All P [] hs = tt
  sort_by-All P (x ∷ xs) hs = insert-All P x (sort_by xs) hs.0 (sort_by-All P xs hs.1)

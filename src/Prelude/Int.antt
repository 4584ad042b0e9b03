-- ===== src/Prelude/Int.antt =====
-- Integers over the native numbers, for exit codes: `negsuc n` is -(n + 1).
use Prim.Native.Nat.{ℕ, suc}
use Prim.Native.String.{String, ◌++◌}
use mathlib.Core.Bool.{Bool, false}
use cloud_native_threat_guar.Prelude.Tests.{eqb}
use cloud_native_threat_guar.Prelude.Text.{decimal}

pub data ℤ : Type 0 where
  pos negsuc : ℕ → ℤ

-- `z == n`
abbrev pub is_pos : ℤ → ℕ → Bool
is_pos (pos m) n = eqb m n
is_pos (negsuc m) n = false

-- `str(z)`
unfoldable pub decimal_int : ℤ → String
unfolding decimal
decimal_int (pos n) = decimal n
decimal_int (negsuc n) = "-" ++ decimal (suc n)

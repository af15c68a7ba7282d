-- ===== src/Base/Int.antt =====
-- The integers of C, `negsuc n` being -(n + 1), and their tests.
use Prim.Native.Nat.{ℕ}
use mathlib.Core.Path.{◌≡◌}
use mathlib.Core.Logic.{◌↔◌}
use mathlib.Core.Bool.{Bool, true, false}
use native.Mathlib.Omega.{arith}
use ssu_operating_system.Base.Tests.{◌==◌}

pub data ℤ : Type 0 where
  pos : ℕ → ℤ
  negsuc : ℕ → ℤ

-- `a == b` on `int`.
abbrev pub eqb : ℤ → ℤ → Bool
eqb (pos a) (pos b) = a == b
eqb (negsuc a) (negsuc b) = a == b
eqb _ _ = false

-- `a < 0`.
abbrev pub is_negative : ℤ → Bool
is_negative (pos _) = false
is_negative (negsuc _) = true

pub eqb_iff : (a b : ℤ) → (eqb a b ≡ true) ↔ (a ≡ b)
eqb_iff (pos a) (pos b) = ground arith
eqb_iff (pos a) (negsuc b) = ground arith
eqb_iff (negsuc a) (pos b) = ground arith
eqb_iff (negsuc a) (negsuc b) = ground arith

-- ===== src/Base/Int.antt =====
-- Signed integers over the native numbers: error codes and `int64_t` ids.
use Prim.Native.Nat.{ℕ, zero, suc, ◌^◌, ◌<◌}
use mathlib.Core.Path.{◌≡◌}
use mathlib.Core.Logic.{◌↔◌}
use mathlib.Core.Bool.{Bool, true, false}
use native.Mathlib.Omega.{arith}
use cppmcp.Base.Tests.{Eq, nat_beq}

-- `negsuc n` is -(n + 1).
pub data ℤ : Type 0 where
  pos : ℕ → ℤ
  negsuc : ℕ → ℤ

abbrev pub neg : ℕ → ℤ
neg zero = pos 0
neg (suc n) = negsuc n

abbrev pub ℤ_beq : ℤ → ℤ → Bool
ℤ_beq (pos a) (pos b) = nat_beq a b
ℤ_beq (negsuc a) (negsuc b) = nat_beq a b
ℤ_beq (pos a) (negsuc b) = false
ℤ_beq (negsuc a) (pos b) = false

pub ℤ_beq_iff : (a b : ℤ) → (ℤ_beq a b ≡ true) ↔ (a ≡ b)
ℤ_beq_iff (pos a) (pos b) = ground arith
ℤ_beq_iff (negsuc a) (negsuc b) = ground arith
ℤ_beq_iff (pos a) (negsuc b) = ground arith
ℤ_beq_iff (negsuc a) (pos b) = ground arith

instance abbrev pub ℤ_eq : Eq ℤ
ℤ_eq = record { same = ℤ_beq; same_iff = ℤ_beq_iff }

-- The range of `int` (k = 31) and of `int64_t` (k = 63).
abbrev pub FitsIn : ℕ → ℤ → Type 0
FitsIn k (pos n) = n < 2 ^ k
FitsIn k (negsuc n) = n < 2 ^ k

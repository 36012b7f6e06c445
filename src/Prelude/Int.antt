-- ===== src/Prelude/Int.antt =====
-- Whole numbers: days that may have passed already, and the -1 of a key that does not expire.
use Prim.Native.Nat.{ℕ, ◌+◌, ◌-◌, ◌*◌, ◌/◌}
use mathlib.Core.Path.{◌≡◌}
use mathlib.Core.Logic.{◌↔◌}
use mathlib.Core.Bool.{Bool, true, false}
use native.Mathlib.Omega.{arith}
use lemur.Prelude.Tests.{Eq, leb, nat_beq, if◌then◌else◌}

-- `negsuc n` is -(n + 1).
pub data ℤ : Type 0 where
  pos : ℕ → ℤ
  negsuc : ℕ → ℤ

abbrev pub int_beq : ℤ → ℤ → Bool
int_beq (pos a) (pos b) = nat_beq a b
int_beq (negsuc a) (negsuc b) = nat_beq a b
int_beq _ _ = false

pub int_beq_iff : (a b : ℤ) → (int_beq a b ≡ true) ↔ (a ≡ b)
int_beq_iff (pos a) (pos b) = ground arith
int_beq_iff (negsuc a) (negsuc b) = ground arith
int_beq_iff _ _ = ground arith

instance abbrev pub int_eq : Eq ℤ
int_eq = record { same = int_beq; same_iff = int_beq_iff }

abbrev pub day : ℕ
day = 86400

-- `(b - a).days` for two moments in seconds: the floor, which is below 0 once `b` has passed.
unfoldable pub days_between : ℕ → ℕ → ℤ
days_between a b = if leb a b then pos ((b - a) / day) else negsuc ((a - b - 1) / day)

-- `t + timedelta(days=n)`
unfoldable pub shift_days : ℕ → ℤ → ℕ
shift_days t (pos n) = t + n * day
shift_days t (negsuc n) = t - (n + 1) * day

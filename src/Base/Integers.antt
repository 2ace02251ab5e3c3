-- ===== src/Base/Integers.antt =====
-- The integers of the configuration, over the native numbers: tests and loops that count on them.
use Prim.Native.Nat.{ℕ, suc, ◌+◌, ◌-◌, ◌≤◌, ◌<◌}
use mathlib.Core.Path.{◌≡◌, refl}
use mathlib.Core.Bool.{Bool, true, false}
use native.Mathlib.Omega.{arith}
use aws_virtual_kubelet.Base.Tests.{ltb}

-- `negsuc n` is -1 - n.
pub data ℤ : Type 0 where
  pos negsuc : ℕ → ℤ

-- `a < b`
unfoldable pub int_ltb : ℤ → ℤ → Bool
int_ltb (pos a) (pos b) = ltb a b
int_ltb (pos a) (negsuc b) = false
int_ltb (negsuc a) (pos b) = true
int_ltb (negsuc a) (negsuc b) = ltb b a

-- the rounds of `for i := 0; i < a - b; i++`
unfoldable pub rounds : ℤ → ℤ → ℕ
rounds (pos a) (pos b) = a - b
rounds (pos a) (negsuc b) = a + suc b
rounds (negsuc a) (pos b) = 0
rounds (negsuc a) (negsuc b) = b - a

-- The number, or 0 for a negative one.
unfoldable pub to_nat : ℤ → ℕ
to_nat (pos n) = n
to_nat (negsuc n) = 0

pub int_ltb-to_nat : (n : ℕ) (d : ℤ) → int_ltb (pos n) d ≡ ltb n (to_nat d)
unfolding int_ltb to_nat
int_ltb-to_nat n (pos m) = refl
int_ltb-to_nat n (negsuc m) = ground arith

pub rounds-to_nat : (n : ℕ) (d : ℤ) → rounds d (pos n) ≡ to_nat d - n
unfolding rounds to_nat
rounds-to_nat n (pos m) = refl
rounds-to_nat n (negsuc m) = ground arith

-- What is not below is at most as much.
pub to_nat-le : (n : ℕ) (d : ℤ) → int_ltb d (pos n) ≡ false → n ≤ to_nat d
unfolding int_ltb to_nat
to_nat-le n (pos m) h = ground arith
to_nat-le n (negsuc m) h = absurd (cc h)

-- That many rounds, each of which takes one away while there is one, lead down to `to_nat`.
pub minus-rounds : (n : ℕ) (d : ℤ) → int_ltb d (pos n) ≡ true → n - rounds (pos n) d ≡ to_nat d
unfolding int_ltb rounds to_nat
minus-rounds n (pos m) h = ground arith
minus-rounds n (negsuc m) h = ground arith

pub le-int_ltb : (n : ℕ) (d : ℤ) → to_nat d < n → int_ltb d (pos n) ≡ true
unfolding int_ltb to_nat
le-int_ltb n (pos m) h = ground arith
le-int_ltb n (negsuc m) h = refl

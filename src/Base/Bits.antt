-- ===== src/Base/Bits.antt =====
-- Single bits of a word, and what `&` and `|` do to them.
use Prim.Native.Nat.{ℕ, zero, suc, ◌+◌, ◌*◌, ◌/◌, ◌%◌, ◌≤◌, min, max, bit_and, bit_or}
use Prim.Native.Nat.{digits, bit_and-bitwise, bit_or-bitwise}
use mathlib.Core.Path.{◌≡◌, refl}
use mathlib.Core.Bool.{Bool}
use native.Mathlib.Omega.{arith}
use graphene.Base.Tests.{◌==◌}

-- Bit `k` of a word, 0 or 1.
unfoldable pub bit : ℕ → ℕ → ℕ
bit zero w = w % 2
bit (suc k) w = bit k (w / 2)

-- `w & (1 << k)`, as a condition.
abbrev pub test_bit : ℕ → ℕ → Bool
test_bit k w = bit k w == 1

bit-zero : (k : ℕ) → bit k 0 ≡ 0
unfolding bit
bit-zero zero = refl
bit-zero (suc k) = bit-zero k

pub bit-le-one : (k w : ℕ) → bit k w ≤ 1
unfolding bit
bit-le-one zero w = omega arith
bit-le-one (suc k) w = bit-le-one k (w / 2)

-- The native operations recur on the digits of the first operand; a bit of the result is read off
-- with any fuel that is enough, so the fuels need not be compared.
bit-digits-min : (k n a b : ℕ) → a ≤ n → bit k (digits (λ _. 0) min n a b) ≡ min (bit k a) (bit k b)
unfolding bit
bit-digits-min k n zero b h = ground (arith, bit-zero k, nothing n)
  where
    nothing : (m : ℕ) → digits (λ _. 0) min m 0 b ≡ 0
    nothing zero = refl
    nothing (suc m) = refl
bit-digits-min k zero (suc a) b h = absurd (omega arith)
bit-digits-min zero (suc n) (suc a) b h = omega arith
bit-digits-min (suc k) (suc n) (suc a) b h =
    let d = digits (λ _. 0) min n (suc a / 2) (b / 2) in
    let e : (d * 2 + min (suc a % 2) (b % 2)) / 2 ≡ d = omega arith in
    rw e (bit-digits-min k n (suc a / 2) (b / 2) (omega arith))

bit-digits-max : (k n a b : ℕ) → a ≤ n → bit k (digits (λ c. c) max n a b) ≡ max (bit k a) (bit k b)
unfolding bit
bit-digits-max k n zero b h = ground (arith, bit-zero k, all n)
  where
    all : (m : ℕ) → digits (λ c. c) max m 0 b ≡ b
    all zero = refl
    all (suc m) = refl
bit-digits-max k zero (suc a) b h = absurd (omega arith)
bit-digits-max zero (suc n) (suc a) b h = omega arith
bit-digits-max (suc k) (suc n) (suc a) b h =
    let d = digits (λ c. c) max n (suc a / 2) (b / 2) in
    let e : (d * 2 + max (suc a % 2) (b % 2)) / 2 ≡ d = omega arith in
    rw e (bit-digits-max k n (suc a / 2) (b / 2) (omega arith))

-- A bit of `a & b` and of `a | b`.
pub bit-bit_and : (k a b : ℕ) → bit k (bit_and a b) ≡ min (bit k a) (bit k b)
bit-bit_and k a b = rw (bit_and-bitwise a b) (bit-digits-min k a a b (omega arith))

pub bit-bit_or : (k a b : ℕ) → bit k (bit_or a b) ≡ max (bit k a) (bit k b)
bit-bit_or k a b = rw (bit_or-bitwise a b) (bit-digits-max k a a b (omega arith))

-- The three lowest bits make up a number below eight.
low_three : (w : ℕ) → w % 8 ≡ bit 0 w + 2 * bit 1 w + 4 * bit 2 w
unfolding bit
low_three w = omega arith

-- `a & 7`
pub bit_and-mod_eight : (a : ℕ) → bit_and a 7 % 8 ≡ a % 8
unfolding bit
bit_and-mod_eight a = omega (
  arith,
  low_three a,
  low_three (bit_and a 7),
  bit-bit_and 0 a 7,
  bit-bit_and 1 a 7,
  bit-bit_and 2 a 7,
)

-- ===== src/Common/Bits.antt =====
-- The binary digits of a number, and what `&`, `|` and `^` of a machine word do to each digit.
use Prim.Native.Nat.{bit_and-bitwise, bit_or-bitwise, bit_xor-bitwise, digits, bitwise, differ}
use Prim.Native.Nat.{
  ℕ, zero, suc, ◌+◌, ◌-◌, ◌*◌, ◌/◌, ◌%◌, ◌^◌, ◌≤◌, ◌<◌, min, max, bit_and, bit_or, bit_xor,
}
use mathlib.Core.Path.{◌≡◌, refl, ap}
use native.Mathlib.Omega.{arith}
use native.Mathlib.Nat.{pow-suc}
use os_kernel_from_scratch.Common.Tests.{◌==◌, if◌then◌else◌}

-- Digit `k` of `x`, the lowest first.
abbrev pub bit : ℕ → ℕ → ℕ
bit x zero = x % 2
bit x (suc k) = bit (x / 2) k

pub bit-le-one : (x k : ℕ) → bit x k ≤ 1
bit-le-one x zero = omega arith
bit-le-one x (suc k) = bit-le-one (x / 2) k

-- One round of the recursion by which the library defines a bitwise operation, without its fuel.
module _ (rest : ℕ → ℕ) (op : ℕ → ℕ → ℕ) where
  any_fuel : (f g x y : ℕ) → x ≤ f → x ≤ g → digits rest op f x y ≡ digits rest op g x y
  any_fuel zero zero x y p q = refl
  any_fuel (suc f) (suc g) zero y p q = refl
  any_fuel (suc f) (suc g) (suc x) y p q =
      rw (any_fuel f g (suc x / 2) (y / 2) (omega arith) (omega arith))
  any_fuel zero (suc g) zero y p q = refl
  any_fuel zero (suc g) (suc x) y p q = absurd (omega arith)
  any_fuel (suc f) zero zero y p q = refl
  any_fuel (suc f) zero (suc x) y p q = absurd (omega arith)

  round :
      (x y : ℕ)
      → bitwise rest op (suc x) y ≡ bitwise rest op (suc x / 2) (y / 2) * 2 + op (suc x % 2) (y % 2)
  round x y = rw (any_fuel x (suc x / 2) (suc x / 2) (y / 2) (omega arith) (omega arith))

pub bit_and-halves : (x y : ℕ) → bit_and x y ≡ bit_and (x / 2) (y / 2) * 2 + min (x % 2) (y % 2)
bit_and-halves zero y = simp bit_and-bitwise (omega arith)
bit_and-halves (suc x) y = simp bit_and-bitwise (round (λ _. 0) min x y)

pub bit_or-halves : (x y : ℕ) → bit_or x y ≡ bit_or (x / 2) (y / 2) * 2 + max (x % 2) (y % 2)
bit_or-halves zero y = simp bit_or-bitwise (omega arith)
bit_or-halves (suc x) y = simp bit_or-bitwise (round (λ b. b) max x y)

pub bit_xor-halves : (x y : ℕ) → bit_xor x y ≡ bit_xor (x / 2) (y / 2) * 2 + differ (x % 2) (y % 2)
bit_xor-halves zero y = simp bit_xor-bitwise (omega arith)
bit_xor-halves (suc x) y = simp bit_xor-bitwise (round (λ b. b) differ x y)

differ_lem : (x y : ℕ) → x ≤ 1 → y ≤ 1 → differ x y ≡ (x + y) % 2
differ_lem zero y p q = omega arith
differ_lem (suc zero) zero p q = refl
differ_lem (suc zero) (suc zero) p q = refl
differ_lem (suc zero) (suc (suc y)) p q = absurd (omega arith)
differ_lem (suc (suc x)) y p q = absurd (omega arith)

-- Digit by digit.
pub bit-bit_and : (x y k : ℕ) → bit (bit_and x y) k ≡ min (bit x k) (bit y k)
bit-bit_and x y zero = omega (arith, bit_and-halves x y)
bit-bit_and x y (suc k) = rw (half) (bit-bit_and (x / 2) (y / 2) k)
  where
    half : bit_and x y / 2 ≡ bit_and (x / 2) (y / 2)
    half = omega (arith, bit_and-halves x y)

pub bit-bit_or : (x y k : ℕ) → bit (bit_or x y) k ≡ max (bit x k) (bit y k)
bit-bit_or x y zero = omega (arith, bit_or-halves x y)
bit-bit_or x y (suc k) = rw (half) (bit-bit_or (x / 2) (y / 2) k)
  where
    half : bit_or x y / 2 ≡ bit_or (x / 2) (y / 2)
    half = omega (arith, bit_or-halves x y)

pub bit_xor-sums : (x y : ℕ) → bit_xor x y ≡ bit_xor (x / 2) (y / 2) * 2 + (x + y) % 2
bit_xor-sums x y =
    omega (arith, bit_xor-halves x y, differ_lem (x % 2) (y % 2) (omega arith) (omega arith))

pub bit-bit_xor : (x y k : ℕ) → bit (bit_xor x y) k ≡ (bit x k + bit y k) % 2
bit-bit_xor x y zero = omega (arith, bit_xor-sums x y)
bit-bit_xor x y (suc k) = rw (half) (bit-bit_xor (x / 2) (y / 2) k)
  where
    half : bit_xor x y / 2 ≡ bit_xor (x / 2) (y / 2)
    half = omega (arith, bit_xor-sums x y)

pub bit_and-zero : (x : ℕ) → bit_and x 0 ≡ 0
bit_and-zero x = zero_fuel x x (omega arith)
  where
    zero_fuel : (n x : ℕ) → x ≤ n → bit_and x 0 ≡ 0
    zero_fuel n zero h = refl
    zero_fuel zero (suc x) h = absurd (omega arith)
    zero_fuel (suc n) (suc x) h =
        omega (arith, bit_and-halves (suc x) 0, zero_fuel n (suc x / 2) (omega arith))

half-pow-suc : (b : ℕ) → (2 ^ suc b / 2 ≡ 2 ^ b) × (2 ^ suc b % 2 ≡ 0)
half-pow-suc b = omega (arith, pow-suc 2 b)

pub bit-zero : (k : ℕ) → bit 0 k ≡ 0
bit-zero zero = refl
bit-zero (suc k) = bit-zero k

-- `1UL << b` has the digit `b` alone.
pub bit-pow : (b k : ℕ) → bit (2 ^ b) k ≡ (if b == k then 1 else 0)
bit-pow zero zero = refl
bit-pow zero (suc k) = ground (arith, bit-zero k)
bit-pow (suc b) zero = ground (arith, half-pow-suc b)
bit-pow (suc b) (suc k) = rw ((half-pow-suc b).0) (ground (arith, bit-pow b k))

-- `~x` in a word of `w` bits.
pub bit-complement : (w x k : ℕ) → x < 2 ^ w → k < w → bit (2 ^ w - 1 - x) k ≡ 1 - bit x k
bit-complement zero x k h l = absurd (omega arith)
bit-complement (suc w) x zero h l = omega (arith, pow-suc 2 w)
bit-complement (suc w) x (suc k) h l =
    rw (half) (bit-complement w (x / 2) k (omega (arith, pow-suc 2 w)) (omega arith))
  where
    half : (2 ^ suc w - 1 - x) / 2 ≡ 2 ^ w - 1 - x / 2
    half = omega (arith, pow-suc 2 w)

-- A number below `2 ^ w` is its first `w` digits.
pub bit_ext : (w x y : ℕ) → x < 2 ^ w → y < 2 ^ w → ((k : ℕ) → k < w → bit x k ≡ bit y k) → x ≡ y
bit_ext zero x y p q h = omega arith
bit_ext (suc w) x y p q h = omega (
  arith,
  h 0 (omega arith),
  bit_ext w (x / 2) (y / 2) (omega (arith, pow-suc 2 w)) (omega (arith, pow-suc 2 w))
      (λ k l. h (suc k) (omega arith)),
)

-- A bitwise result of `w`-bit words is a `w`-bit word.
pub bit_and-lt : (w x y : ℕ) → x < 2 ^ w → bit_and x y < 2 ^ w
bit_and-lt zero zero y h = simp bit_and-bitwise (omega arith)
bit_and-lt zero (suc x) y h = absurd (omega arith)
bit_and-lt (suc w) x y h = omega (
  arith,
  pow-suc 2 w,
  bit_and-halves x y,
  bit_and-lt w (x / 2) (y / 2) (omega (arith, pow-suc 2 w)),
)

pub bit_or-lt : (w x y : ℕ) → x < 2 ^ w → y < 2 ^ w → bit_or x y < 2 ^ w
bit_or-lt zero zero y h k = simp bit_or-bitwise k
bit_or-lt zero (suc x) y h k = absurd (omega arith)
bit_or-lt (suc w) x y h k = omega (
  arith,
  pow-suc 2 w,
  bit_or-halves x y,
  bit_or-lt w (x / 2) (y / 2) (omega (arith, pow-suc 2 w)) (omega (arith, pow-suc 2 w)),
)

pub bit_xor-lt : (w x y : ℕ) → x < 2 ^ w → y < 2 ^ w → bit_xor x y < 2 ^ w
bit_xor-lt zero zero y h k = simp bit_xor-bitwise k
bit_xor-lt zero (suc x) y h k = absurd (omega arith)
bit_xor-lt (suc w) x y h k = omega (
  arith,
  pow-suc 2 w,
  bit_xor-sums x y,
  bit_xor-lt w (x / 2) (y / 2) (omega (arith, pow-suc 2 w)) (omega (arith, pow-suc 2 w)),
)

-- Masking with one digit leaves that digit in its place.
pub bit_and-pow : (x b : ℕ) → bit_and x (2 ^ b) ≡ bit x b * 2 ^ b
bit_and-pow x zero = omega (arith, bit_and-halves x 1, bit_and-zero (x / 2))
bit_and-pow x (suc b) =
    rw (bit_and-halves x (2 ^ suc b), (half-pow-suc b).0, (half-pow-suc b).1, bit_and-pow (x / 2) b)
      (omega (arith, ap (λ (t : ℕ). bit (x / 2) b * t) (pow-suc 2 b)))

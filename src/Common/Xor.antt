-- ===== src/Common/Xor.antt =====
-- Exclusive or as a commutative group in which each element is its own inverse.
use Prim.Native.Nat.{ℕ, zero, suc, ◌+◌, ◌^◌, ◌<◌, bit_xor}
use mathlib.Core.Path.{◌≡◌, sym, ◌∙◌, ap}
use native.Mathlib.Omega.{arith}
use native.Mathlib.Nat.{pow-suc}
use os_kernel_from_scratch.Common.Bits.{bit-zero, bit, bit-bit_xor, bit-le-one, bit_ext}

-- Any two numbers fit some width.
fits : (x : ℕ) → x < 2 ^ x
fits zero = omega arith
fits (suc x) = omega (arith, pow-suc 2 x, fits x)

fits_add : (x y : ℕ) → x < 2 ^ (y + x)
fits_add x zero = simp add-zero (fits x)
  where
    add-zero : 0 + x ≡ x
    add-zero = omega arith
fits_add x (suc y) = rw (suc-add) (omega (arith, pow-suc 2 (y + x), fits_add x y))
  where
    suc-add : suc y + x ≡ suc (y + x)
    suc-add = omega arith

-- Numbers with the same digits are the same.
pub eq_of_bit : (x y : ℕ) → ((k : ℕ) → bit x k ≡ bit y k) → x ≡ y
eq_of_bit x y h = bit_ext (y + x) x y (fits_add x y) (rw (swap) (fits_add y x)) (λ k _. h k)
  where
    swap : y + x ≡ x + y
    swap = omega arith

pub bit_xor_comm : (x y : ℕ) → bit_xor x y ≡ bit_xor y x
bit_xor_comm x y = eq_of_bit _ _ (λ k. omega (arith, bit-bit_xor x y k, bit-bit_xor y x k))

pub bit_xor_assoc : (x y z : ℕ) → bit_xor (bit_xor x y) z ≡ bit_xor x (bit_xor y z)
bit_xor_assoc x y z = eq_of_bit _ _ λ k. omega (
  arith,
  bit-bit_xor (bit_xor x y) z k,
  bit-bit_xor x y k,
  bit-bit_xor x (bit_xor y z) k,
  bit-bit_xor y z k,
)

pub bit_xor-zero : (x : ℕ) → bit_xor x 0 ≡ x
bit_xor-zero x = eq_of_bit _ _ (λ k. omega (arith, bit-bit_xor x 0 k, bit-zero k, bit-le-one x k))

pub bit_xor_self : (x : ℕ) → bit_xor x x ≡ 0
bit_xor_self x = eq_of_bit _ _ (λ k. omega (arith, bit-bit_xor x x k, bit-zero k))

pub zero-bit_xor : (x : ℕ) → bit_xor 0 x ≡ x
zero-bit_xor x = bit_xor_comm 0 x ∙ bit_xor-zero x

-- Adding `x` twice changes nothing.
pub bit_xor_cancel : (x y : ℕ) → bit_xor x (bit_xor x y) ≡ y
bit_xor_cancel x y =
    sym (bit_xor_assoc x x y) ∙ (ap (λ z. bit_xor z y) (bit_xor_self x) ∙ zero-bit_xor y)

pub bit_xor_left_comm : (x y z : ℕ) → bit_xor x (bit_xor y z) ≡ bit_xor y (bit_xor x z)
bit_xor_left_comm x y z =
    sym (bit_xor_assoc x y z) ∙ (ap (λ w. bit_xor w z) (bit_xor_comm x y) ∙ bit_xor_assoc y x z)

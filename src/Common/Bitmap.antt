-- ===== src/Common/Bitmap.antt =====
-- A bitmap as the C code keeps it: an array of 64-bit words, bit `i % 64` of word `i / 64` for item
-- `i`, tested by `word & (1UL << bit)`, set by `|=` and cleared by `&= ~`.
use Prim.Native.Nat.{ℕ, ◌-◌, ◌*◌, ◌/◌, ◌%◌, ◌^◌, ◌<◌, bit_and, bit_or}
use mathlib.Core.Path.{◌≡◌}
use mathlib.Core.Bool.{Bool, true, false, not}
use mathlib.Core.List.{List}
use native.Mathlib.Omega.{arith}
use native.Mathlib.Decide.{ℕ_discrete}
use native.Mathlib.Nat.{pow-le-pow_right, one-le-pow}
use os_kernel_from_scratch.Common.Tests.{◌==◌, if◌then◌else◌}
use os_kernel_from_scratch.Common.Lists.{
  length, get_or, set, replicate, length-set, get_or-set_self, get_or-set_ne, get_or-replicate,
}
use os_kernel_from_scratch.Common.Bits.{
  bit, bit-le-one, bit-bit_and, bit-bit_or, bit-pow, bit-complement, bit_and-pow, bit-zero,
}

-- `word & (1UL << b)`, as a truth value.
unfoldable pub test_word : ℕ → ℕ → Bool
test_word word b = not (bit_and word (2 ^ b) == 0)

-- `~(1UL << b)` of an `unsigned long`.
unfoldable pub others : ℕ → ℕ
others b = 2 ^ 64 - 1 - 2 ^ b

unfoldable pub test_bit : List ℕ → ℕ → Bool
test_bit ws i = test_word (get_or ws (i / 64) 0) (i % 64)

unfoldable pub set_bit : List ℕ → ℕ → List ℕ
set_bit ws i = set ws (i / 64) (bit_or (get_or ws (i / 64) 0) (2 ^ (i % 64)))

unfoldable pub clear_bit : List ℕ → ℕ → List ℕ
clear_bit ws i = set ws (i / 64) (bit_and (get_or ws (i / 64) 0) (others (i % 64)))

test_word_lem : (w b : ℕ) → test_word w b ≡ (bit w b == 1)
unfolding test_word
test_word_lem w b = ground (arith, bit_and-pow w b, bit-le-one w b, one-le-pow b 2)

pow-lt-word : (b : ℕ) → b < 64 → 2 ^ b < 2 ^ 64
pow-lt-word b h =
    omega (arith, pow-le-pow_right {n = 2} (omega arith) {i = b} {j = 63} (omega arith))

test_word-set :
    (w b c : ℕ) → test_word (bit_or w (2 ^ b)) c ≡ (if b == c then true else test_word w c)
test_word-set w b c =
    rw (test_word_lem (bit_or w (2 ^ b)) c, test_word_lem w c)
      (ground (arith, bit-bit_or w (2 ^ b) c, bit-pow b c, bit-le-one w c))

test_word-clear :
    (w b c : ℕ)
    → b < 64
    → c < 64
    → test_word (bit_and w (others b)) c ≡ (if b == c then false else test_word w c)
unfolding others
test_word-clear w b c p q =
    rw (test_word_lem (bit_and w (2 ^ 64 - 1 - 2 ^ b)) c, test_word_lem w c)
      (ground (
        arith,
        bit-bit_and w (2 ^ 64 - 1 - 2 ^ b) c,
        bit-complement 64 (2 ^ b) c (pow-lt-word b p) q,
        bit-pow b c,
        bit-le-one w c,
      ))

-- Setting item `i` changes the test of `i` alone.
pub test_bit-set_bit :
    (ws : List ℕ) (i j : ℕ)
    → i < 64 * length ws
    → test_bit (set_bit ws i) j ≡ (if i == j then true else test_bit ws j)
unfolding test_bit set_bit
test_bit-set_bit ws i j h = elim (ℕ_discrete (i / 64) (j / 64)) [
  | yes e ↦
      rw
        (
          ← e,
          get_or-set_self ws (i / 64) (bit_or (get_or ws (i / 64) 0) (2 ^ (i % 64))) 0
              (omega arith),
          test_word-set,
        )
        (ground arith)
  | no ne ↦ rw (get_or-set_ne ws (i / 64) (j / 64) _ 0 ne) (ground arith)
]

-- Clearing item `i` changes the test of `i` alone.
pub test_bit-clear_bit :
    (ws : List ℕ) (i j : ℕ)
    → i < 64 * length ws
    → test_bit (clear_bit ws i) j ≡ (if i == j then false else test_bit ws j)
unfolding test_bit clear_bit
test_bit-clear_bit ws i j h = elim (ℕ_discrete (i / 64) (j / 64)) [
  | yes e ↦
      rw
        (
          ← e,
          get_or-set_self ws (i / 64) (bit_and (get_or ws (i / 64) 0) (others (i % 64))) 0
              (omega arith),
          test_word-clear _ (i % 64) (j % 64) (omega arith) (omega arith),
        )
        (ground arith)
  | no ne ↦ rw (get_or-set_ne ws (i / 64) (j / 64) _ 0 ne) (ground arith)
]

pub length-set_bit : (ws : List ℕ) (i : ℕ) → length (set_bit ws i) ≡ length ws
unfolding set_bit
length-set_bit ws i = length-set ws (i / 64) _

pub length-clear_bit : (ws : List ℕ) (i : ℕ) → length (clear_bit ws i) ≡ length ws
unfolding clear_bit
length-clear_bit ws i = length-set ws (i / 64) _

-- A cleared array (`calloc`, `memset`) has no bit set.
pub test_bit-zeros : (n i : ℕ) → test_bit (replicate n 0) i ≡ false
unfolding test_bit
test_bit-zeros n i =
    rw (get_or-replicate {A = ℕ} n (i / 64) 0, test_word_lem 0 (i % 64))
      (ground (arith, bit-zero (i % 64)))

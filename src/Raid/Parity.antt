-- ===== src/Raid/Parity.antt =====
-- The parity of a stripe, and what is rebuilt from it.
use os_kernel_from_scratch.Common.{ℕ, zero, suc, ◌+◌, ◌<◌, bit_xor}
use os_kernel_from_scratch.Common.{◌≡◌, sym, ap, ◌∙◌}
use os_kernel_from_scratch.Common.{List, [], ◌∷◌, ◌++◌}
use os_kernel_from_scratch.Common.{arith}
use os_kernel_from_scratch.Common.{get_or}
use os_kernel_from_scratch.Common.Xor.{
  bit_xor_assoc, bit_xor_left_comm, bit_xor-zero, bit_xor_self, zero-bit_xor,
}
use os_kernel_from_scratch.Raid.{xor_column, parity_from, raid5_calc_parity}

pub xor_column-append :
    (a b : List (List ℕ)) (i : ℕ)
    → xor_column (a ++ b) i ≡ bit_xor (xor_column a i) (xor_column b i)
unfolding xor_column
xor_column-append [] b i = sym (zero-bit_xor (xor_column b i))
xor_column-append (x ∷ a) b i =
    rw (xor_column-append a b i)
      (sym (bit_xor_assoc (get_or x i 0) (xor_column a i) (xor_column b i)))

pub get_or-parity_from :
    (blocks : List (List ℕ)) (i len k : ℕ)
    → k < len
    → get_or (parity_from blocks i len) k 0 ≡ xor_column blocks (i + k)
unfolding parity_from
get_or-parity_from blocks i zero k h = elim h [ ]
get_or-parity_from blocks i (suc len) zero h = ap (xor_column blocks) (omega arith)
get_or-parity_from blocks i (suc len) (suc k) h =
    get_or-parity_from blocks (i + 1) len k (omega arith) ∙ ap (xor_column blocks) (omega arith)

cancel : (x y z : ℕ) → bit_xor (bit_xor x (bit_xor y z)) (bit_xor x z) ≡ y
cancel x y z =
    ap (λ u. bit_xor u (bit_xor x z)) (bit_xor_left_comm x y z)
    ∙ (bit_xor_assoc y (bit_xor x z) (bit_xor x z)
        ∙ (ap (bit_xor y) (bit_xor_self (bit_xor x z)) ∙ bit_xor-zero y))

pub parity_byte :
    (blocks : List (List ℕ)) (len k : ℕ)
    → k < len
    → get_or (raid5_calc_parity blocks len) k 0 ≡ xor_column blocks k
unfolding raid5_calc_parity
parity_byte blocks len k h =
    get_or-parity_from blocks 0 len k h ∙ ap (xor_column blocks) (omega arith)

-- Each byte of a block, within the parity's length, is the exclusive or of the bytes of the
-- other blocks and of the parity, so that any one block of a stripe can be rebuilt.
pub raid5_calc_parity_recovers :
    (before after : List (List ℕ)) (lost : List ℕ) (len k : ℕ)
    → k < len
    → bit_xor
        (get_or (raid5_calc_parity (before ++ lost ∷ after) len) k 0)
        (xor_column (before ++ after) k)
      ≡ get_or lost k 0
unfolding xor_column
raid5_calc_parity_recovers before after lost len k h =
    rw
      (
        parity_byte (before ++ lost ∷ after) len k h,
        xor_column-append before (lost ∷ after) k,
        xor_column-append before after k,
      )
      (cancel (xor_column before k) (get_or lost k 0) (xor_column after k))

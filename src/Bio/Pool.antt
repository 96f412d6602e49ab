-- ===== src/Bio/Pool.antt =====
-- demos/bio/bio.c: the pool that bios come from, bio_pools_init, bio_alloc and bio_free. An access
-- outside `bio_pool_used` gives `none`.
pub mod Words
use os_kernel_from_scratch.Common.{
  ℕ, zero, suc, ◌+◌, ◌/◌, ◌%◌, ◌^◌, Option, none, some, List, [], Bool, true, false, ltb,
  if◌then◌else◌, get_elem?, set, replicate, bit_or, bit_and, ◌==◌,
}
use os_kernel_from_scratch.Common.Bitmap.{test_word, others}
use os_kernel_from_scratch.Bio.{Bio}

abbrev pub bio_pool_size : ℕ
bio_pool_size = 32

-- The bio of a place of the pool, and whether its `bi_io_vec` has memory.
pub record PoolBio : Type 0 where
  pub bio : Bio
  pub vecs : Bool

pub record BioPool : Type 0 where
  pub bios : List PoolBio
  pub used : List ℕ

abbrev pub zero_bio : Bio
zero_bio = record {
  bi_sector = 0;
  bi_io_vec = [];
  bi_max_vecs = 0;
  bi_size = 0;
  bi_idx = 0;
  bi_op = 0;
  bi_flags = 0;
}

-- `bio_pool_used` is declared with BIO_POOL_SIZE / 64 words.
unfoldable pub bio_pools_init : BioPool
bio_pools_init = record {
  bios = replicate bio_pool_size (record { bio = zero_bio; vecs = false });
  used = replicate (bio_pool_size / 64) 0;
}

-- What the loop for a free place finds.
pub data Found : Type 0 where
  outside : Found
  exhausted : Found
  place : ℕ → Found

-- The loop from `i` on for `n` rounds.
unfoldable pub find_place : List ℕ → ℕ → ℕ → Found
find_place used i zero = exhausted
find_place used i (suc n) =
    let rest = find_place used (i + 1) n in
    elim (get_elem? used (i / 64)) [
      | none ↦ outside
      | some word ↦ if test_word word (i % 64) then rest else place i
    ]

-- `bio_pool_used[i / 64] |= (1UL << (i % 64))`, and `&= ~`.
unfoldable pub mark : List ℕ → ℕ → Option (List ℕ)
mark used i = elim (get_elem? used (i / 64)) [
  | none ↦ none
  | some word ↦ some (set used (i / 64) (bit_or word (2 ^ (i % 64))))
]

unfoldable pub unmark : List ℕ → ℕ → Option (List ℕ)
unmark used i = elim (get_elem? used (i / 64)) [
  | none ↦ none
  | some word ↦ some (set used (i / 64) (bit_and word (others (i % 64))))
]

-- The bio at a place that has been marked. Without memory for its entries the place goes back.
unfoldable pub set_up : BioPool → ℕ → ℕ → Bool → Option (Option ℕ × BioPool)
unfolding unmark
set_up pool i nr_vecs memory =
    let bio : Bio = record zero_bio { bi_max_vecs = nr_vecs % 2 ^ 16 } in
    let vecs = if ltb 0 nr_vecs then memory else false in
    let pool' = record pool { bios = set pool.bios i (record { bio = bio; vecs = vecs }) } in
    if ltb 0 nr_vecs
    then if memory then some (some i, pool') else elim (unmark pool'.used i) [
      | none ↦ none
      | some used ↦ some (none, record pool' { used = used })
    ]
    else some (some i, pool')

-- The place of the new bio, or NULL. `memory` is whether kmalloc succeeds.
unfoldable pub bio_alloc : BioPool → ℕ → Bool → Option (Option ℕ × BioPool)
unfolding set_up mark
bio_alloc pool nr_vecs memory = elim (find_place pool.used 0 bio_pool_size) [
  | outside ↦ none
  | exhausted ↦ some (none, pool)
  | place i ↦ elim (mark pool.used i) [
    | none ↦ none
    | some used ↦ set_up (record pool { used = used }) i nr_vecs memory
  ]
]

-- Of the bio at place `i`.
unfoldable pub bio_free : BioPool → ℕ → Option BioPool
unfolding unmark
bio_free pool i = elim (get_elem? pool.bios i) [
  | none ↦ none
  | some b ↦ elim (unmark pool.used i) [
    | none ↦ none
    | some used ↦ some (record { bios = set pool.bios i (record b { vecs = false }); used = used })
  ]
]

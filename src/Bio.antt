-- ===== src/Bio.antt =====
-- demos/bio/bio.h and bio.c: a bio with its scatter list, and its growth, advance, completion, clone
-- and split. The pointers that are only copied are left out.
pub mod Grow
pub mod Halves
pub mod Pool
pub mod Queues
use os_kernel_from_scratch.Common.{
  ℕ, zero, suc, ◌+◌, ◌-◌, ◌*◌, ◌/◌, ◌%◌, ◌^◌, ◌≤◌, ◌<◌, min, max, bit_and, bit_or, bit_xor,
}
use os_kernel_from_scratch.Common.{◌≡◌, refl, sym, ap, ap₂, ◌∙◌, ◌≢◌, ◌↔◌, ◌⊎◌, inl, inr}
use os_kernel_from_scratch.Common.{Bool, true, false, not, ◌&&◌, ◌||◌}
use mathlib.Core.Option
use os_kernel_from_scratch.Common.{Option, none, some, List, [], ◌∷◌, ◌++◌, map}
use os_kernel_from_scratch.Common.{arith, dec_lt, ℕ_discrete, ltb, leb, ◌==◌, if◌then◌else◌}
use os_kernel_from_scratch.Common.{Bool-cases, Option-cases, length, get_elem?, get_or, set}
use os_kernel_from_scratch.Common.{take, drop, replicate, length-set, length-append}

pub record BioVec : Type 0 where
  pub bv_page : ℕ
  pub bv_len : ℕ
  pub bv_offset : ℕ

-- `bi_io_vec` is the used part of the array, and `bi_vcnt` its length.
pub record Bio : Type 0 where
  pub bi_sector : ℕ
  pub bi_io_vec : List BioVec
  pub bi_max_vecs : ℕ
  pub bi_size : ℕ
  pub bi_idx : ℕ
  pub bi_op : ℕ
  pub bi_flags : ℕ

-- `none` for -ENOMEM.
unfoldable pub bio_add_page : Bio → ℕ → ℕ → ℕ → Option Bio
bio_add_page bio page len offset =
    if leb bio.bi_max_vecs (length bio.bi_io_vec)
    then none
    else some (record bio {
      bi_io_vec = bio.bi_io_vec ++ record { bv_page = page; bv_len = len; bv_offset = offset } ∷ [];
      bi_size = (bio.bi_size + len) % 2 ^ 32;
    })

unfoldable pub bio_add_pc_page : Bio → ℕ → ℕ → ℕ → Option Bio
bio_add_pc_page bio page len offset = bio_add_page bio page len offset

-- The loop that passes the empty entries from `idx` on, in an array of `max_vecs` entries. It reads the
-- length of the entry behind the last as well, before it looks at the index; `none` where that read
-- leaves the array. Within the array the index ends the loop, whatever is read.
unfoldable pub pass_empty : ℕ → List BioVec → ℕ → Option ℕ
pass_empty max_vecs [] idx = if ltb idx max_vecs then some idx else none
pass_empty max_vecs (bv ∷ bvs) idx =
    let next = pass_empty max_vecs bvs (idx + 1) in if bv.bv_len == 0 then next else some idx

unfoldable pub advance_vec : BioVec → ℕ → BioVec
advance_vec bv bytes = record bv {
  bv_offset = (bv.bv_offset + bytes) % 2 ^ 32;
  bv_len = (bv.bv_len + 2 ^ 32 - bytes) % 2 ^ 32;
}

-- `none` where the index is behind the last entry, or the loop leaves the array.
unfoldable pub bio_advance : Bio → ℕ → Option Bio
bio_advance bio bytes = elim (get_elem? bio.bi_io_vec bio.bi_idx) [
  | none ↦ none
  | some bv ↦
      let vecs = set bio.bi_io_vec bio.bi_idx (advance_vec bv bytes) in
      Option.map
        (λ idx. record bio {
          bi_io_vec = vecs;
          bi_size = (bio.bi_size + 2 ^ 32 - bytes) % 2 ^ 32;
          bi_idx = idx;
        })
        (pass_empty bio.bi_max_vecs (drop bio.bi_idx vecs) bio.bi_idx)
]

-- `failed` is `error < 0`; the callback is the caller's.
unfoldable pub bio_endio : Bio → Bool → Bio
bio_endio bio failed = if failed then record bio { bi_flags = bit_or bio.bi_flags 1 } else bio

-- `memory` is whether `bio_alloc` gives a bio; `none` for NULL. It is an argument since bio_alloc of
-- bio.c leaves its bitmap (Bio/Pool/Words.antt), so that its result is open.
unfoldable pub bio_clone : Bool → Bio → Option Bio
bio_clone memory bio = if memory then some (record bio { bi_idx = 0; bi_flags = 0 }) else none

-- What `bio_split` leaves: the old bio alone, or the new one and the old one.
pub data Split : Type 0 where
  whole : Bio → Split
  parts : Bio → Bio → Split

-- The new bio, and the old one advanced; `none` where the advance leaves the array.
unfoldable pub split_off : Bio → Option Bio → ℕ → Option Split
split_off bio none sectors = some (whole bio)
split_off bio (some clone) sectors =
    let bytes = sectors * 2 ^ 9 % 2 ^ 32 in
    let new_bio = record clone {
      bi_sector = (clone.bi_sector + sectors) % 2 ^ 64;
      bi_size = (clone.bi_size + 2 ^ 32 - bytes) % 2 ^ 32;
    } in
    elim (bio_advance bio bytes) [ none ↦ none | some old ↦ some (parts new_bio old) ]

unfoldable pub bio_split : Bool → Bio → ℕ → Option Split
bio_split memory bio sectors =
    let cut = split_off bio (bio_clone memory bio) sectors in
    if leb bio.bi_size (sectors * 2 ^ 9 % 2 ^ 32) then some (whole bio) else cut

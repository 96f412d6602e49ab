-- ===== src/Bio/Grow.antt =====
-- The size of a bio is that of its scatter list.
use os_kernel_from_scratch.Common.{ℕ, ◌+◌, ◌%◌, ◌^◌, ◌≤◌, ◌<◌}
use os_kernel_from_scratch.Common.{◌≡◌, refl, ◌⊎◌, inl, inr}
use os_kernel_from_scratch.Common.{none, some, [], ◌∷◌, ◌++◌}
use os_kernel_from_scratch.Common.{arith, leb}
use os_kernel_from_scratch.Common.{Bool-cases, length}
use os_kernel_from_scratch.Common.{length-append}
use os_kernel_from_scratch.Common.{total, total-append}
use os_kernel_from_scratch.Bio.{BioVec, Bio, bio_add_page}

-- The entries fit the array, and their lengths add up to the size.
pub record IsValid (bio : Bio) : Type 0 where
  pub room : length bio.bi_io_vec ≤ bio.bi_max_vecs
  pub sum : bio.bi_size ≡ total (λ bv. bv.bv_len) bio.bi_io_vec

-- `bio_add_page` fails exactly if the array is full, and else keeps the bio valid and adds `len` to
-- its size, if that still fits 32 bits.
pub bio_add_page_lem :
    (bio : Bio) (page len offset : ℕ)
    → IsValid bio
    → bio.bi_size + len < 2 ^ 32
    → ((bio_add_page bio page len offset ≡ none) × (length bio.bi_io_vec ≡ bio.bi_max_vecs))
      ⊎ ((bio' : Bio) × (bio_add_page bio page len offset ≡ some bio')
          × IsValid bio'
          × (bio'.bi_size ≡ bio.bi_size + len)
          × (length bio'.bi_io_vec ≡ length bio.bi_io_vec + 1))
unfolding bio_add_page total
bio_add_page_lem bio page len offset v h =
    elim (Bool-cases (leb bio.bi_max_vecs (length bio.bi_io_vec))) [
      | inl full ↦ inl (rw full refl, ground (arith, v.room))
      | inr free ↦ inr (
        grown,
        rw (free, bio_add_page) refl,
        record {
          room = ground (arith, longer);
          sum = omega (arith, v.sum, total-append (λ bv. bv.bv_len) bio.bi_io_vec (entry ∷ []));
        },
        omega arith,
        longer,
      )
    ]
  where
    entry : BioVec
    entry = record { bv_page = page; bv_len = len; bv_offset = offset }

    grown : Bio
    grown = record bio {
      bi_io_vec = bio.bi_io_vec ++ entry ∷ [];
      bi_size = (bio.bi_size + len) % 2 ^ 32;
    }

    longer : length (bio.bi_io_vec ++ entry ∷ []) ≡ length bio.bi_io_vec + 1
    longer = length-append bio.bi_io_vec (entry ∷ [])

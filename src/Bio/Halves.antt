-- ===== src/Bio/Halves.antt =====
-- What `bio_split` makes of a bio.
use os_kernel_from_scratch.Common.{ℕ, ◌+◌, ◌-◌, ◌*◌, ◌%◌, ◌^◌, ◌<◌}
use os_kernel_from_scratch.Common.{◌≡◌, refl, ap, ◌∙◌}
use os_kernel_from_scratch.Common.{true, false}
use os_kernel_from_scratch.Common.{some, List, ◌∷◌}
use os_kernel_from_scratch.Common.{arith, leb}
use os_kernel_from_scratch.Bio.{
  BioVec, Bio, advance_vec, bio_advance, bio_clone, parts, split_off, bio_split, pass_empty,
}

-- The advance within the first entry.
advance_first :
    (bio : Bio) (k : ℕ) (bv : BioVec) (bvs : List BioVec)
    → bio.bi_io_vec ≡ bv ∷ bvs
    → bio.bi_idx ≡ 0
    → k < bv.bv_len
    → k < bio.bi_size
    → bio.bi_size < 2 ^ 32
    → bv.bv_len < 2 ^ 32
    → bv.bv_offset + k < 2 ^ 32
    → bio_advance bio k
      ≡ some (record bio {
        bi_io_vec = record bv { bv_offset = bv.bv_offset + k; bv_len = bv.bv_len - k } ∷ bvs;
        bi_size = bio.bi_size - k;
        bi_idx = 0;
      })
unfolding bio_advance advance_vec pass_empty
advance_first bio k bv bvs e z a b c f g = ground (arith, e, z)

split_off-parts :
    (bio : Bio) (sectors k : ℕ) (old : Bio)
    → sectors * 2 ^ 9 % 2 ^ 32 ≡ k
    → bio_advance bio k ≡ some old
    → split_off bio (bio_clone true bio) sectors
      ≡ some (
          parts
            (record bio {
              bi_sector = (bio.bi_sector + sectors) % 2 ^ 64;
              bi_size = (bio.bi_size + 2 ^ 32 - k) % 2 ^ 32;
              bi_idx = 0;
              bi_flags = 0;
            })
            old)
unfolding split_off bio_clone
split_off-parts bio sectors k old e h = rw (split_off, e) (rw h (rw e refl))

-- A split, with memory for the clone, of a bio whose fields fit their widths, at `sectors`
-- within its first entry and before its end, gives two bios of `size - sectors * 512` bytes
-- each. The new one starts `sectors` further on the disk but has the old scatter list, and the
-- old one starts at the old sector but `sectors * 512` bytes further in its first entry.
pub bio_split_lem :
    (bio : Bio) (sectors : ℕ) (bv : BioVec) (bvs : List BioVec)
    → bio.bi_io_vec ≡ bv ∷ bvs
    → bio.bi_idx ≡ 0
    → sectors * 512 < bv.bv_len
    → sectors * 512 < bio.bi_size
    → bio.bi_size < 2 ^ 32
    → bio.bi_sector + sectors < 2 ^ 64
    → bv.bv_len < 2 ^ 32
    → bv.bv_offset + sectors * 512 < 2 ^ 32
    → (new old : Bio) × (bio_split true bio sectors ≡ some (parts new old))
      × (new.bi_sector ≡ bio.bi_sector + sectors)
      × (new.bi_io_vec ≡ bio.bi_io_vec)
      × (old.bi_sector ≡ bio.bi_sector)
      × (old.bi_io_vec
          ≡ record bv {
            bv_offset = bv.bv_offset + sectors * 512;
            bv_len = bv.bv_len - sectors * 512;
          }
            ∷ bvs)
      × (new.bi_size + sectors * 512 ≡ bio.bi_size)
      × (old.bi_size ≡ new.bi_size)
unfolding bio_split
bio_split_lem bio sectors bv bvs e z a b c d f g = (
  new,
  old,
  rw long (
      split_off-parts bio sectors (sectors * 512) old bytes advanced
      ∙ ap (λ n. some (parts n old)) same),
  refl,
  refl,
  refl,
  refl,
  omega arith,
  refl,
)
  where
    new : Bio
    new = record bio {
      bi_sector = bio.bi_sector + sectors;
      bi_size = bio.bi_size - sectors * 512;
      bi_idx = 0;
      bi_flags = 0;
    }

    rest : BioVec
    rest = record bv {
      bv_offset = bv.bv_offset + sectors * 512;
      bv_len = bv.bv_len - sectors * 512;
    }

    old : Bio
    old = record bio { bi_io_vec = rest ∷ bvs; bi_size = bio.bi_size - sectors * 512; bi_idx = 0 }

    bytes : sectors * 2 ^ 9 % 2 ^ 32 ≡ sectors * 512
    bytes = omega arith

    long : leb bio.bi_size (sectors * 2 ^ 9 % 2 ^ 32) ≡ false
    long = ground arith

    same :
        record bio {
          bi_sector = (bio.bi_sector + sectors) % 2 ^ 64;
          bi_size = (bio.bi_size + 2 ^ 32 - sectors * 512) % 2 ^ 32;
          bi_idx = 0;
          bi_flags = 0;
        }
        ≡ new
    same = ground arith

    advanced : bio_advance bio (sectors * 512) ≡ some old
    advanced = advance_first bio (sectors * 512) bv bvs e z a b c f g

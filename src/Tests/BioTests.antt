-- ===== src/Tests/BioTests.antt =====
-- demos/bio/bio.c with a bio of one page.
use os_kernel_from_scratch.Common.{
  ◌+◌, ◌-◌, ◌*◌, ◌≡◌, refl, true, some, List, [], ◌∷◌, arith, total,
}
use os_kernel_from_scratch.Bio.{BioVec, Bio, parts, bio_split, bio_endio}
use os_kernel_from_scratch.Bio.Grow
use os_kernel_from_scratch.Bio.Grow.{bio_add_page_lem}
use os_kernel_from_scratch.Bio.Halves.{bio_split_lem}
use os_kernel_from_scratch.Bio.Queues.{
  RequestQueue, zero_queue, find_queue, blk_alloc_queue, blk_queue_make_request, BlockDevice, ended,
  handed, submit_bio, blk_alloc_queue-twice,
}

abbrev page_vec : BioVec
page_vec = record { bv_page = 7; bv_len = 4096; bv_offset = 0 }

abbrev one_page : Bio
one_page = record {
  bi_sector = 100;
  bi_io_vec = page_vec ∷ [];
  bi_max_vecs = 4;
  bi_size = 4096;
  bi_idx = 0;
  bi_op = 0;
  bi_flags = 0;
}

one_page-IsValid : Grow.IsValid one_page
unfolding total
one_page-IsValid = record { room = ground arith; sum = refl }

bio_split_lem_example :
    (new old : Bio) × (bio_split true one_page 2 ≡ some (parts new old))
    × (new.bi_sector ≡ one_page.bi_sector + 2)
    × (new.bi_io_vec ≡ one_page.bi_io_vec)
    × (old.bi_sector ≡ one_page.bi_sector)
    × (old.bi_io_vec
        ≡ record page_vec {
          bv_offset = page_vec.bv_offset + 2 * 512;
          bv_len = page_vec.bv_len - 2 * 512;
        }
          ∷ [])
    × (new.bi_size + 2 * 512 ≡ one_page.bi_size)
    × (old.bi_size ≡ new.bi_size)
bio_split_lem_example =
    bio_split_lem one_page 2 page_vec [] refl refl (ground arith) (ground arith) (ground arith)
      (ground arith) (ground arith) (ground arith)

abbrev device : BlockDevice
device = record { bd_queue = some 0; bd_block_size = 512; bd_io_opt = 4096 }

blk_alloc_queue-twice_example :
    (owned : List RequestQueue) × (blk_queue_make_request (blk_alloc_queue (zero_queue ∷ [])).1 0 9
      ≡ some owned)
    × (submit_bio owned (some device) one_page ≡ some (handed 9 one_page))
    × ((blk_alloc_queue owned).0 ≡ some 0)
    × (submit_bio (blk_alloc_queue owned).1 (some device) one_page
        ≡ some (ended (bio_endio one_page true)))
unfolding blk_alloc_queue find_queue
blk_alloc_queue-twice_example =
    blk_alloc_queue-twice (zero_queue ∷ []) 0 9 device one_page refl refl

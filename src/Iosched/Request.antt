-- ===== src/Iosched/Request.antt =====
-- demos/iosched/iosched.h and iosched.c, `struct request`. A request is known by its address; the
-- list nodes inside it are the schedulers' lists.
pub mod Merge
use os_kernel_from_scratch.Common.{
  ℕ, zero, suc, ◌+◌, ◌-◌, ◌*◌, ◌/◌, ◌%◌, ◌^◌, ◌≤◌, ◌<◌, min, max, bit_and, bit_or, bit_xor,
}
use os_kernel_from_scratch.Common.{◌≡◌, refl, sym, ap, ap₂, ◌∙◌, ◌≢◌, ◌↔◌, ◌⊎◌, inl, inr}
use os_kernel_from_scratch.Common.{Bool, true, false, not, ◌&&◌, ◌||◌}
use os_kernel_from_scratch.Common.{Option, none, some, List, [], ◌∷◌, ◌++◌, map}
use os_kernel_from_scratch.Common.{arith, dec_lt, ℕ_discrete, ltb, leb, ◌==◌, if◌then◌else◌}
use os_kernel_from_scratch.Common.{Bool-cases, Option-cases, length, get_elem?, get_or, set}
use os_kernel_from_scratch.Common.{take, drop, replicate, length-set, length-append}

pub record Request : Type 0 where
  pub address : ℕ
  pub sector : ℕ  -- sector_t, 64 bits
  pub nr_sectors : ℕ  -- unsigned int
  pub bytes : ℕ  -- unsigned int
  pub op : ℕ
  pub bio : ℕ
  pub jiffies : ℕ  -- unsigned long
  pub refcount : ℕ

abbrev pub bio_op_read : ℕ
bio_op_read = 0

-- What `alloc_request` reads of a bio.
pub record BioView : Type 0 where
  pub bio : ℕ
  pub bi_sector : ℕ
  pub bi_size : ℕ
  pub bi_op : ℕ

-- `kmalloc` gives the address, or `none` for NULL; `now` is `get_jiffies()`.
unfoldable pub alloc_request : Option ℕ → ℕ → BioView → Option Request
alloc_request none now b = none
alloc_request (some address) now b = some (record {
  address = address;
  sector = b.bi_sector;
  nr_sectors = b.bi_size / 2 ^ 9;
  bytes = b.bi_size;
  op = b.bi_op;
  bio = b.bio;
  jiffies = now;
  refcount = 1;
})

-- The first sector behind a request, a 64-bit sum.
unfoldable pub request_end : Request → ℕ
request_end r = (r.sector + r.nr_sectors) % 2 ^ 64

unfoldable pub request_can_merge : Request → Request → Bool
unfolding request_end
request_can_merge a b =
    if a.op == b.op then (request_end a == b.sector) || (request_end b == a.sector) else false

-- The 32-bit `max` of the sum of the lengths and of the distance to the end of `b`.
unfoldable pub request_merge : Request → Request → Request
request_merge a b =
    let first = if ltb b.sector a.sector then b.sector else a.sector in
    record a {
      sector = first;
      nr_sectors =
          max ((a.nr_sectors + b.nr_sectors) % 2 ^ 32)
            ((b.sector + b.nr_sectors + 2 ^ 64 - first) % 2 ^ 64 % 2 ^ 32);
      bytes = (a.bytes + b.bytes) % 2 ^ 32;
    }

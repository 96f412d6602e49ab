-- ===== src/Raid/Striping.antt =====
-- The maps of RAID 0, 5 and 10.
use os_kernel_from_scratch.Common.{ℕ, ◌+◌, ◌*◌, ◌/◌, ◌%◌, ◌^◌, ◌≤◌, ◌<◌}
use os_kernel_from_scratch.Common.{◌≡◌, refl, ◌∙◌}
use os_kernel_from_scratch.Common.{arith}
use native.Mathlib.Nat.{
  mod-lt, div-eq_of_lt, mod-eq_of_lt, mul-add-div_right, mul-add-mod_self_right, div-add-mod',
  div-le_self, mul-le-mul_right,
}
use os_kernel_from_scratch.Raid.{Raid, raid0_map, raid5_map, raid10_map}

-- The sector that is on disk `disk` of `n` at sector `s`, with stripes of `chunk` sectors.
abbrev pub unstripe : ℕ → ℕ → ℕ → ℕ → ℕ
unstripe n chunk disk s = (s / chunk * n + disk) * chunk + s % chunk

-- A multiple of the chunk and a rest, taken apart.
div_chunk : (chunk a x : ℕ) → x < chunk → (a * chunk + x) / chunk ≡ a
div_chunk chunk a x h =
    omega
      (arith, mul-add-div_right {m = chunk} (omega arith) a x, div-eq_of_lt {n = x} {m = chunk} h)

mod_chunk : (chunk a x : ℕ) → x < chunk → (a * chunk + x) % chunk ≡ x
mod_chunk chunk a x h = mul-add-mod_self_right a chunk x ∙ mod-eq_of_lt h

unstripe_lem :
    (n chunk sector : ℕ)
    → 0 < n
    → 0 < chunk
    → unstripe n chunk (sector / chunk % n) (sector / chunk / n * chunk + sector % chunk) ≡ sector
unstripe_lem n chunk sector p q =
    rw
      (
        div_chunk chunk (sector / chunk / n) (sector % chunk) (mod-lt sector q),
        mod_chunk chunk (sector / chunk / n) (sector % chunk) (mod-lt sector q),
        div-add-mod' (sector / chunk) n,
      )
      (div-add-mod' sector chunk)

-- No sector of a member disk is larger than that of the volume.
no_wrap :
    (n chunk sector : ℕ)
    → sector < 2 ^ 64
    → (sector / chunk / n * chunk + sector % chunk) % 2 ^ 64
      ≡ sector / chunk / n * chunk + sector % chunk
no_wrap n chunk sector h = mod-eq_of_lt (
    omega
      (arith, mul-le-mul_right chunk (div-le_self (sector / chunk) n), div-add-mod' sector chunk))

-- For a sector below 2 ^ 64, striping over `n > 0` disks in chunks of at least one sector loses
-- nothing: from the disk and the sector on it the sector of the volume comes back, and the disk
-- is one of the `n`.
pub raid0_map_inverse :
    (r : Raid) (sector : ℕ)
    → 0 < r.data_disks
    → 0 < r.chunk_sectors
    → sector < 2 ^ 64
    → let (disk, s) = raid0_map r sector in
      (disk < r.data_disks) × (unstripe r.data_disks r.chunk_sectors disk s ≡ sector)
unfolding raid0_map
raid0_map_inverse r sector p q h = (
  mod-lt (sector / r.chunk_sectors) p,
  rw (no_wrap r.data_disks r.chunk_sectors sector h)
      (unstripe_lem r.data_disks r.chunk_sectors sector p q),
)

-- Likewise a RAID 10 of at least two disks stripes over the first disks of its mirrored pairs.
pub raid10_map_inverse :
    (r : Raid) (sector : ℕ)
    → 2 ≤ r.data_disks
    → 0 < r.chunk_sectors
    → sector < 2 ^ 64
    → let (disk, s) = raid10_map r sector in
      (disk + 1 < r.data_disks)
      × (disk % 2 ≡ 0)
      × (unstripe (r.data_disks / 2) r.chunk_sectors (disk / 2) s ≡ sector)
unfolding raid10_map
raid10_map_inverse r sector p q h = (
  omega (arith, pair_lt),
  omega arith,
  rw (no_wrap pairs r.chunk_sectors sector h, halved)
      (unstripe_lem pairs r.chunk_sectors sector (omega arith) q),
)
  where
    pairs : ℕ
    pairs = r.data_disks / 2

    pair_lt : sector / r.chunk_sectors % pairs < pairs
    pair_lt = mod-lt (sector / r.chunk_sectors) (omega arith)

    halved : sector / r.chunk_sectors % pairs * 2 / 2 ≡ sector / r.chunk_sectors % pairs
    halved = omega arith

-- With two data disks, the sectors at one offset below the chunk size in the stripes 1 and 2 of
-- a RAID 5 go to one place.
pub raid5_map_collides :
    (r : Raid) (o : ℕ)
    → r.data_disks ≡ 2
    → o < r.chunk_sectors
    → raid5_map r (1 * r.chunk_sectors + o) ≡ raid5_map r (2 * r.chunk_sectors + o)
unfolding raid5_map
raid5_map_collides r o e h =
    rw
      (
        e,
        div_chunk r.chunk_sectors 1 o h,
        div_chunk r.chunk_sectors 2 o h,
        mod_chunk r.chunk_sectors 1 o h,
        mod_chunk r.chunk_sectors 2 o h,
      )
      refl

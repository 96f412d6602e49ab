-- ===== src/Raid.antt =====
-- demos/raid/raid.c: where the RAID levels put a sector, the parity of a stripe and its use to rebuild a
-- disk. A member disk is kept with `faulty` and its count of reads.
pub mod Striping
pub mod Parity
use os_kernel_from_scratch.Common.{
  ℕ, zero, suc, ◌+◌, ◌-◌, ◌*◌, ◌/◌, ◌%◌, ◌^◌, ◌≤◌, ◌<◌, min, max, bit_and, bit_or, bit_xor,
}
use os_kernel_from_scratch.Common.{◌≡◌, refl, sym, ap, ap₂, ◌∙◌, ◌≢◌, ◌↔◌, ◌⊎◌, inl, inr}
use os_kernel_from_scratch.Common.{Bool, true, false, not, ◌&&◌, ◌||◌}
use os_kernel_from_scratch.Common.{Option, none, some, List, [], ◌∷◌, ◌++◌, map}
use os_kernel_from_scratch.Common.{arith, dec_lt, ℕ_discrete, ltb, leb, ◌==◌, if◌then◌else◌}
use os_kernel_from_scratch.Common.{Bool-cases, Option-cases, length, get_elem?, get_or, set}
use os_kernel_from_scratch.Common.{take, drop, replicate, length-set, length-append}

-- The fields of `struct raid` that the maps read.
pub record Raid : Type 0 where
  pub data_disks : ℕ
  pub chunk_sectors : ℕ

-- `*out_disk` and `*out_sector`.
unfoldable pub raid0_map : Raid → ℕ → ℕ × ℕ
raid0_map r sector =
    let stripe = sector / r.chunk_sectors in
    (
      stripe % r.data_disks,
      ((stripe / r.data_disks) * r.chunk_sectors + sector % r.chunk_sectors) % 2 ^ 64,
    )

unfoldable pub raid1_map : Raid → ℕ → ℕ × ℕ
raid1_map r sector = (0, sector)

-- `*out_disk`, `*out_sector` and `*out_is_parity`.
unfoldable pub raid5_map : Raid → ℕ → ℕ × ℕ × Bool
raid5_map r sector =
    let stripe = sector / r.chunk_sectors in
    let data_in_stripe = sector % r.chunk_sectors in
    let p_disk = (stripe + stripe % r.data_disks) % 2 ^ 64 % (r.data_disks + 1) in
    let out_sector = ((stripe / (r.data_disks + 1)) * r.chunk_sectors + data_in_stripe) % 2 ^ 64 in
    if p_disk == r.data_disks then (r.data_disks, out_sector, true) else (p_disk, out_sector, false)

unfoldable pub raid10_map : Raid → ℕ → ℕ × ℕ
raid10_map r sector =
    let stripe = sector / r.chunk_sectors in
    let mirror_pair = stripe % (r.data_disks / 2) in
    let chunk_in_stripe = sector % r.chunk_sectors in
    (mirror_pair * 2, ((stripe / (r.data_disks / 2)) * r.chunk_sectors + chunk_in_stripe) % 2 ^ 64)

-- `p ^= data[j][i]` over the blocks `data`, for byte `i`.
unfoldable pub xor_column : List (List ℕ) → ℕ → ℕ
xor_column [] i = 0
xor_column (block ∷ blocks) i = bit_xor (get_or block i 0) (xor_column blocks i)

-- The bytes from `i` on, `len` of them.
unfoldable pub parity_from : List (List ℕ) → ℕ → ℕ → List ℕ
parity_from blocks i zero = []
parity_from blocks i (suc len) = xor_column blocks i ∷ parity_from blocks (i + 1) len

unfoldable pub raid5_calc_parity : List (List ℕ) → ℕ → List ℕ
raid5_calc_parity blocks stripe_len = parity_from blocks 0 stripe_len

-- `qq ^= data[j][i] * (n - j)`, in bytes, over the blocks from `j` on.
unfoldable pub weigh_column : List (List ℕ) → ℕ → ℕ
weigh_column [] i = 0
weigh_column (block ∷ blocks) i =
    bit_xor (get_or block i 0 * length (block ∷ blocks) % 2 ^ 8) (weigh_column blocks i)

unfoldable pub weighed_from : List (List ℕ) → ℕ → ℕ → List ℕ
weighed_from blocks i zero = []
weighed_from blocks i (suc len) = weigh_column blocks i ∷ weighed_from blocks (i + 1) len

unfoldable pub raid6_calc_double_parity : List (List ℕ) → ℕ → List ℕ × List ℕ
raid6_calc_double_parity blocks stripe_len =
    (raid5_calc_parity blocks stripe_len, weighed_from blocks 0 stripe_len)

-- What the operations read or write of a mock disk, which holds no data.
pub record MockDisk : Type 0 where
  pub faulty : Bool
  pub read_count : ℕ

-- The disk and the buffer afterwards: a healthy disk leaves the buffer as it is.
unfoldable pub disk_read : MockDisk → List ℕ → ℕ → MockDisk × List ℕ
disk_read d buf len =
    if d.faulty
    then (d, replicate len 0 ++ drop len buf)
    else (record d { read_count = d.read_count + 1 }, buf)

-- The disks from number `i` on, of which some may be NULL, after the loop, with the buffers and the
-- number of those that have been read.
unfoldable pub collect :
    ℕ
    → ℕ
    → List (Option MockDisk)
    → ℕ
    → List (List ℕ)
    → ℕ
    → List (Option MockDisk) × List (List ℕ) × ℕ
unfolding disk_read
collect len failed_disk [] i buffers available = ([], buffers, available)
collect len failed_disk (none ∷ disks) i buffers available =
    let (disks', buffers', read) = collect len failed_disk disks (i + 1) buffers available in
    (none ∷ disks', buffers', read)
collect len failed_disk (some d ∷ disks) i buffers available = elim (i == failed_disk || d.faulty) [
  | true ↦
      let (disks', buffers', read) = collect len failed_disk disks (i + 1) buffers available in
      (some d ∷ disks', buffers', read)
  | false ↦
      let (d', buf) = disk_read d (get_or buffers available []) len in
      let (disks', buffers', read) =
        collect len failed_disk disks (i + 1) (set buffers available buf) (available + 1) in
      (some d' ∷ disks', buffers', read)
]

-- `disks` are the disks 0 to `data_disks`, and `buffers` what stands on the stack before. The block,
-- or `none` if the output is not written, and the disks afterwards.
unfoldable pub raid5_rebuild_stripe :
    Raid → List (Option MockDisk) → ℕ → List (List ℕ) → ℕ → Option (List ℕ) × List (Option MockDisk)
unfolding collect
raid5_rebuild_stripe r disks failed_disk buffers len =
    let (disks', buffers', available_disks) = collect len failed_disk disks 0 buffers 0 in
    (
      if leb r.data_disks available_disks
          then some (parity_from (take (available_disks - 1) buffers') 0 len)
          else none,
      disks',
    )

-- ===== src/Tests/RaidTests.antt =====
-- demos/raid/raid.c with small disks.
use os_kernel_from_scratch.Common.{◌<◌, bit_xor}
use os_kernel_from_scratch.Common.{◌≡◌}
use os_kernel_from_scratch.Common.{[], ◌∷◌}
use os_kernel_from_scratch.Common.{arith}
use os_kernel_from_scratch.Common.{get_or}
use os_kernel_from_scratch.Raid.{Raid, raid0_map, xor_column, raid5_calc_parity}
use os_kernel_from_scratch.Raid.Striping.{unstripe, raid0_map_inverse}
use os_kernel_from_scratch.Raid.Parity.{raid5_calc_parity_recovers}

abbrev two_disks : Raid
two_disks = record { data_disks = 2; chunk_sectors = 128 }

raid0_map_inverse_example :
    let (disk, s) = raid0_map two_disks 300 in
    (disk < two_disks.data_disks)
    × (unstripe two_disks.data_disks two_disks.chunk_sectors disk s ≡ 300)
raid0_map_inverse_example =
    raid0_map_inverse two_disks 300 (ground arith) (ground arith) (ground arith)

raid5_calc_parity_recovers_example :
    bit_xor
      (get_or (raid5_calc_parity ((17 ∷ []) ∷ (34 ∷ []) ∷ (51 ∷ []) ∷ []) 1) 0 0)
      (xor_column ((17 ∷ []) ∷ (51 ∷ []) ∷ []) 0)
    ≡ get_or (34 ∷ []) 0 0
raid5_calc_parity_recovers_example =
    raid5_calc_parity_recovers ((17 ∷ []) ∷ []) ((51 ∷ []) ∷ []) (34 ∷ []) 1 0 (ground arith)

-- ===== src/Tests/LvmTests.antt =====
-- demos/lvm/lvm.c at small volumes.
use os_kernel_from_scratch.Common.{ℕ, ◌+◌, ◌^◌}
use os_kernel_from_scratch.Common.{◌≡◌, refl}
use os_kernel_from_scratch.Common.{none, some, [], ◌∷◌}
use os_kernel_from_scratch.Common.{arith, dec_lt}
use os_kernel_from_scratch.Common.{length}
use os_kernel_from_scratch.Common.Bitmap.{test_bit, set_bit}
use os_kernel_from_scratch.Lvm.Pv.{Pv, pv_alloc, scan, run_start, mark}
use os_kernel_from_scratch.Lvm.Pv.Scan.{FreeRun}
use os_kernel_from_scratch.Lvm.Pv.Invariant
use os_kernel_from_scratch.Lvm.Pv.Invariant.{free_count, pv_create-IsValid}
use os_kernel_from_scratch.Lvm.Pv.Alloc.{Allocated, pv_alloc_sound}
use os_kernel_from_scratch.Lvm.Vg.{Vg, alloc_from, vg_alloc_pe}
use os_kernel_from_scratch.Lvm.Vg.Books
use os_kernel_from_scratch.Lvm.Vg.Books.{Taken}
use os_kernel_from_scratch.Lvm.Vg.Alloc.{vg_alloc_pe_sound}
use os_kernel_from_scratch.Lvm.Lv.{Lv, LeMap, lv_create}
use os_kernel_from_scratch.Lvm.Lv.Create.{AllFresh, Distinct}
use os_kernel_from_scratch.Lvm.Lv.Whole.{lv_create_full}
use os_kernel_from_scratch.Lvm.Lv.Sector.{IsMapped, lv_map_sector_injective}
use os_kernel_from_scratch.Common.Bitmap.{test_word}

-- Four extents, the first in use.
abbrev pv4 : Pv
pv4 = record { name = 1 ∷ []; size = 8192; pe_count = 4; pe_bitmap = 1 ∷ []; free_pe = 3 }

-- After the allocation of two more.
abbrev pv4_less : Pv
pv4_less = record pv4 { pe_bitmap = 7 ∷ []; free_pe = 1 }

pv4-IsValid : Invariant.IsValid pv4
unfolding free_count test_bit test_word
pv4-IsValid = record { covered = ground arith; counted = refl }

pv4_allocated : pv_alloc pv4 2 ≡ some (1, pv4_less)
unfolding pv_alloc scan test_bit test_word run_start mark set_bit
pv4_allocated = refl

pv_alloc_sound_example : Allocated pv4 2 1 pv4_less
pv_alloc_sound_example = pv_alloc_sound pv4 2 1 pv4_less pv4-IsValid (omega arith) pv4_allocated

pv4_run : FreeRun pv4.pe_bitmap 2 2 4
unfolding test_bit test_word
pv4_run = record {
  within = omega arith;
  free = λ j a b. elim (dec_lt j 3) [
    | yes l ↦ let e : j ≡ 2 = omega arith in rw e refl
    | no l ↦ let e : j ≡ 3 = omega arith in rw e refl
  ];
}

-- A group of that volume alone, and after the allocation of two extents.
abbrev vg3 : Vg
vg3 = record { name = 5 ∷ []; pvs = pv4 ∷ []; total_pe = 4; free_pe = 3 }

abbrev vg3_less : Vg
vg3_less = record vg3 { pvs = pv4_less ∷ []; free_pe = 1 }

vg3-IsValid : Books.IsValid vg3
vg3-IsValid = record { each = (pv4-IsValid, tt); total = refl; books = refl; few = ground arith }

vg3_allocated : vg_alloc_pe vg3 2 ≡ some (0, 1, vg3_less)
unfolding vg_alloc_pe alloc_from pv_alloc scan test_bit test_word run_start mark set_bit
vg3_allocated = refl

vg_alloc_pe_sound_example :
    Taken vg3.pvs 2 0 1 vg3_less.pvs × Books.IsValid vg3_less × (vg3_less.free_pe + 2 ≡ vg3.free_pe)
vg_alloc_pe_sound_example =
    vg_alloc_pe_sound vg3 2 0 1 vg3_less vg3-IsValid (omega arith) vg3_allocated

lv_create_full_example :
    let (l, g') = lv_create vg3 (9 ∷ []) 2 in
    (length l.le_map ≡ 2)
    × AllFresh vg3 g' l.le_map
    × Distinct l.le_map
    × Books.IsValid g'
    × (g'.free_pe + 2 ≡ vg3.free_pe)
lv_create_full_example = lv_create_full vg3 (9 ∷ []) 2 vg3-IsValid (omega arith)

-- A volume of two extents, at places 3 and 1 of a physical volume.
abbrev lv2 : Lv
lv2 = record {
  name = 9 ∷ [];
  vg_name = 5 ∷ [];
  le_count = 2;
  le_map = record { pv_index = 0; pe_start = 3 } ∷ record { pv_index = 0; pe_start = 1 } ∷ [];
  origin = none;
  cow_bitmap = [];
  cow_pe_start = 0;
  cow_pe_count = 0;
}

lv2-IsMapped : IsMapped lv2
lv2-IsMapped = record {
  complete = refl;
  counted = ground arith;
  small = (ground arith, (ground arith, tt));
}

lv2-Distinct : Distinct lv2.le_map
lv2-Distinct = (((λ e. ground arith), tt), (tt, tt))

lv_map_sector_injective_example : ◌≡◌ {A = ℕ} 2100 2100
lv_map_sector_injective_example =
    lv_map_sector_injective lv2 2100 2100 lv2-IsMapped lv2-Distinct (ground arith) (ground arith)
      refl

-- The extent at place 2 ^ 20.
abbrev far : LeMap
far = record { pv_index = 0; pe_start = 2 ^ 20 }

abbrev lv_far : Lv
lv_far = record lv2 { le_count = 1; le_map = far ∷ [] }

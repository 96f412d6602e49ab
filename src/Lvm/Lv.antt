-- ===== src/Lvm/Lv.antt =====
-- demos/lvm/lvm.c, `struct lv`: logical volumes map logical extents to physical ones, and a snapshot
-- remembers in a bitmap which extents have been copied. A pointer to a logical volume is an address.
pub mod Create
pub mod Whole
pub mod Sector
use os_kernel_from_scratch.Common.{
  ℕ, zero, suc, ◌+◌, ◌-◌, ◌*◌, ◌/◌, ◌%◌, ◌^◌, ◌≤◌, ◌<◌, min, max, bit_and, bit_or, bit_xor,
}
use os_kernel_from_scratch.Common.{◌≡◌, refl, sym, ap, ap₂, ◌∙◌, ◌≢◌, ◌↔◌, ◌⊎◌, inl, inr}
use os_kernel_from_scratch.Common.{Bool, true, false, not, ◌&&◌, ◌||◌}
use os_kernel_from_scratch.Common.{Option, none, some, List, [], ◌∷◌, ◌++◌, map}
use os_kernel_from_scratch.Common.{arith, dec_lt, ℕ_discrete, ltb, leb, ◌==◌, if◌then◌else◌}
use os_kernel_from_scratch.Common.{Bool-cases, Option-cases, length, get_elem?, get_or, set}
use os_kernel_from_scratch.Common.{take, drop, replicate, length-set, length-append}
use os_kernel_from_scratch.Common.Bitmap.{test_bit, set_bit}
use os_kernel_from_scratch.Lvm.Pv.{pe_size_sectors, name_31}
use os_kernel_from_scratch.Lvm.Vg.{Vg, vg_alloc_pe}

pub record LeMap : Type 0 where
  pub pv_index : ℕ
  pub pe_start : ℕ

pub record Lv : Type 0 where
  pub name : List ℕ
  pub vg_name : List ℕ
  pub le_count : ℕ
  pub le_map : List LeMap
  pub origin : Option ℕ
  pub cow_bitmap : List ℕ
  pub cow_pe_start : ℕ
  pub cow_pe_count : ℕ

-- An entry as `calloc` leaves it.
abbrev pub unmapped : LeMap
unmapped = record { pv_index = 0; pe_start = 0 }

-- The `while` loop of `lv_create`: `remaining` extents are still to be mapped.
unfoldable pub fill : ℕ → ℕ → Vg → List LeMap → List LeMap × Vg
fill le_count zero g le_map = (le_map, g)
fill le_count (suc remaining) g le_map = elim (vg_alloc_pe g 1) [
  | none ↦ (le_map, g)
  | some (pv_idx, pe_start, g') ↦
      fill le_count remaining g'
        (set le_map (le_count - suc remaining) (record { pv_index = pv_idx; pe_start = pe_start }))
]

unfoldable pub lv_create : Vg → List ℕ → ℕ → Lv × Vg
lv_create g name le_count =
    let (le_map, g') = fill le_count le_count g (replicate le_count unmapped) in
    (
      record {
        name = name_31 name;
        vg_name = name_31 g.name;
        le_count = le_count;
        le_map = le_map;
        origin = none;
        cow_bitmap = [];
        cow_pe_start = 0;
        cow_pe_count = 0;
      },
      g',
    )

-- A 32-bit `int` product, then its conversion to `sector_t` (sign extension).
unfoldable pub int_product : ℕ → ℕ → ℕ
int_product a b = let p = a * b % 2 ^ 32 in if ltb p (2 ^ 31) then p else p + (2 ^ 64 - 2 ^ 32)

-- An index of 2 ^ 31 or more is a negative `int`, which passes the test for the end of the volume.
-- `none` for a read outside the map, else the sector returned and `*out_pv_idx`.
unfoldable pub lv_map_sector : Lv → ℕ → Option (ℕ × ℕ)
lv_map_sector l lv_sector =
    let quotient = lv_sector / pe_size_sectors % 2 ^ 32 in
    let le_idx =
      if ltb quotient (2 ^ 31) && leb l.le_count quotient then l.le_count - 1 else quotient in
    elim (get_elem? l.le_map le_idx) [
      | none ↦ none
      | some m ↦ some (
        (int_product m.pe_start pe_size_sectors + lv_sector % pe_size_sectors) % 2 ^ 64,
        m.pv_index,
      )
    ]

-- The loop of `lv_extend`: the entries written behind the old ones, whether all requests were met,
-- and the group afterwards.
unfoldable pub extend : ℕ → Vg → Bool × List LeMap × Vg
extend zero g = (true, [], g)
extend (suc n) g = elim (vg_alloc_pe g 1) [
  | none ↦ (false, [], g)
  | some (pv_idx, pe_start, g') ↦
      let (done, rest, g'') = extend n g' in
      (done, record { pv_index = pv_idx; pe_start = pe_start } ∷ rest, g'')
]

-- `true` for the result 0. `le_count` grows only then.
unfoldable pub lv_extend : Lv → Vg → ℕ → Bool × Lv × Vg
lv_extend l g additional_le =
    let (done, new, g') = extend additional_le g in
    let mapped = record l { le_map = l.le_map ++ new } in
    (done, if done then record mapped { le_count = l.le_count + additional_le } else mapped, g')

-- Both results of `vg_alloc_pe` go to `&cow_start`, the start last; `none` for NULL.
unfoldable pub lv_create_snapshot : Vg → List ℕ → ℕ → Lv → ℕ → Option (Lv × Vg)
lv_create_snapshot g snap_name origin_address origin cow_pe_count =
    elim (vg_alloc_pe g cow_pe_count) [
      | none ↦ none
      | some (pv_idx, cow_start, g') ↦ some (
        record {
          name = name_31 snap_name;
          vg_name = name_31 g.name;
          le_count = origin.le_count;
          le_map = origin.le_map;
          origin = some origin_address;
          cow_bitmap = replicate ((origin.le_count + 63) / 64) 0;
          cow_pe_start = cow_start;
          cow_pe_count = cow_pe_count;
        },
        g',
      )
    ]

-- The number of the extent is cut to an `int`; `none` where that is negative or behind the bitmap.
unfoldable pub snapshot_write : Lv → ℕ → Option Lv
snapshot_write snap lv_sector = elim snap.origin [
  | none ↦ some snap
  | some _ ↦
      let le_idx = lv_sector / pe_size_sectors % 2 ^ 32 in
      if ltb le_idx (2 ^ 31) && ltb le_idx (64 * length snap.cow_bitmap)
      then if test_bit snap.cow_bitmap le_idx
        then some snap
        else some (record snap { cow_bitmap = set_bit snap.cow_bitmap le_idx })
      else none
]

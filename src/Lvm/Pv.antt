-- ===== src/Lvm/Pv.antt =====
-- demos/lvm/lvm.c, `struct pv`: a physical volume is an array of physical extents with a bitmap of
-- those in use. An `int` of the source is a number here; -1 as a start is its 32-bit pattern.
pub mod Scan
pub mod Invariant
pub mod Alloc
use os_kernel_from_scratch.Common.{
  ℕ, zero, suc, ◌+◌, ◌-◌, ◌*◌, ◌/◌, ◌%◌, ◌^◌, ◌≤◌, ◌<◌, min, max, bit_and, bit_or, bit_xor,
}
use os_kernel_from_scratch.Common.{◌≡◌, refl, sym, ap, ap₂, ◌∙◌, ◌≢◌, ◌↔◌, ◌⊎◌, inl, inr}
use os_kernel_from_scratch.Common.{Bool, true, false, not, ◌&&◌, ◌||◌}
use os_kernel_from_scratch.Common.{Option, none, some, List, [], ◌∷◌, ◌++◌, map}
use os_kernel_from_scratch.Common.{arith, dec_lt, ℕ_discrete, ltb, leb, ◌==◌, if◌then◌else◌}
use os_kernel_from_scratch.Common.{Bool-cases, Option-cases, length, get_elem?, get_or, set}
use os_kernel_from_scratch.Common.{take, drop, replicate, length-set, length-append}
use os_kernel_from_scratch.Common.Bitmap.{test_bit, set_bit, clear_bit}

-- 1 MB in sectors of 512 bytes.
abbrev pub pe_size_sectors : ℕ
pe_size_sectors = 1024 * 1024 / 512

abbrev pub minus_one : ℕ
minus_one = 2 ^ 32 - 1

pub record Pv : Type 0 where
  pub name : List ℕ
  pub size : ℕ
  pub pe_count : ℕ
  pub pe_bitmap : List ℕ
  pub free_pe : ℕ

-- `strncpy(p->name, name, 31)` into a cleared array.
abbrev pub name_31 : List ℕ → List ℕ
name_31 s = take 31 s

-- The division is cut to the `int` that holds it; `none` where that is negative, for which the volume has
-- no extents and no bitmap.
unfoldable pub pv_create : List ℕ → ℕ → Option Pv
pv_create name size_sectors =
    let count = size_sectors / pe_size_sectors % 2 ^ 32 in
    if ltb count (2 ^ 31)
    then some (record {
      name = name_31 name;
      size = size_sectors;
      pe_count = count;
      pe_bitmap = replicate ((count + 63) / 64) 0;
      free_pe = count;
    })
    else none

-- `if (found == 0) start = i;`
unfoldable pub run_start : ℕ → ℕ → ℕ → ℕ
run_start zero i start = i
run_start (suc found) i start = start

-- The search loop of `pv_alloc`: `n` extents are left from `i` on, `found` free ones in a row stand
-- behind `i`, from `start` on. It returns `found` and `start`.
unfoldable pub scan : List ℕ → ℕ → ℕ → ℕ → ℕ → ℕ → ℕ × ℕ
scan bitmap count zero i found start = (found, start)
scan bitmap count (suc n) i found start =
    let busy = scan bitmap count n (i + 1) 0 minus_one in
    let start' = run_start found i start in
    let more = scan bitmap count n (i + 1) (found + 1) start' in
    if test_bit bitmap i then busy else if found + 1 == count then (found + 1, start') else more

-- The loop that sets the bits of the extents from `i` on.
unfoldable pub mark : List ℕ → ℕ → ℕ → List ℕ
mark bitmap i zero = bitmap
mark bitmap i (suc count) = mark (set_bit bitmap i) (i + 1) count

-- The loop that clears them.
unfoldable pub unmark : List ℕ → ℕ → ℕ → List ℕ
unmark bitmap i zero = bitmap
unmark bitmap i (suc count) = unmark (clear_bit bitmap i) (i + 1) count

-- `none` for the result -1; else `*out_start` and the volume afterwards.
unfoldable pub pv_alloc : Pv → ℕ → Option (ℕ × Pv)
pv_alloc p count =
    let (found, start) = scan p.pe_bitmap count p.pe_count 0 0 minus_one in
    if ltb found count
    then none
    else some
        (start, record p { pe_bitmap = mark p.pe_bitmap start count; free_pe = p.free_pe - count })

unfoldable pub pv_free : Pv → ℕ → ℕ → Pv
pv_free p start count = record p {
  pe_bitmap = unmark p.pe_bitmap start count;
  free_pe = p.free_pe + count;
}

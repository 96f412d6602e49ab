-- ===== src/Lvm/Vg.antt =====
-- demos/lvm/lvm.c, `struct vg`: a volume group allocates extents from the first of its physical
-- volumes that has room. The group owns its volumes; `pv_count` is the length of the list. The
-- fields `lvs` and `lv_count`, which no function of the file uses, are left out.
pub mod Books
pub mod Alloc
use os_kernel_from_scratch.Common.{
  ℕ, zero, suc, ◌+◌, ◌-◌, ◌*◌, ◌/◌, ◌%◌, ◌^◌, ◌≤◌, ◌<◌, min, max, bit_and, bit_or, bit_xor,
}
use os_kernel_from_scratch.Common.{◌≡◌, refl, sym, ap, ap₂, ◌∙◌, ◌≢◌, ◌↔◌, ◌⊎◌, inl, inr}
use os_kernel_from_scratch.Common.{Bool, true, false, not, ◌&&◌, ◌||◌}
use os_kernel_from_scratch.Common.{Option, none, some, List, [], ◌∷◌, ◌++◌, map}
use os_kernel_from_scratch.Common.{arith, dec_lt, ℕ_discrete, ltb, leb, ◌==◌, if◌then◌else◌}
use os_kernel_from_scratch.Common.{Bool-cases, Option-cases, length, get_elem?, get_or, set}
use os_kernel_from_scratch.Common.{take, drop, replicate, length-set, length-append}
use mathlib.Core.Option
use os_kernel_from_scratch.Common.Bitmap.{test_bit}
use os_kernel_from_scratch.Lvm.Pv.{Pv, pv_alloc, name_31}

abbrev pub max_pvs : ℕ
max_pvs = 16

pub record Vg : Type 0 where
  pub name : List ℕ
  pub pvs : List Pv
  pub total_pe : ℕ
  pub free_pe : ℕ

unfoldable pub vg_create : List ℕ → Vg
vg_create name = record { name = name_31 name; pvs = []; total_pe = 0; free_pe = 0 }

-- `none` for the result -1.
unfoldable pub vg_add_pv : Vg → Pv → Option Vg
vg_add_pv g p =
    if leb max_pvs (length g.pvs)
    then none
    else some (record g {
      pvs = g.pvs ++ p ∷ [];
      total_pe = g.total_pe + p.pe_count;
      free_pe = g.free_pe + p.free_pe;
    })

-- An allocation one volume further down the list.
abbrev pub further : Pv → ℕ × ℕ × List Pv → ℕ × ℕ × List Pv
further p (i, start, ps) = (i + 1, start, p ∷ ps)

-- The loop over the volumes: the index and the start of the allocation, and the volumes after it.
unfoldable pub alloc_from : List Pv → ℕ → Option (ℕ × ℕ × List Pv)
alloc_from [] count = none
alloc_from (p ∷ ps) count =
    let rest = Option.map (further p) (alloc_from ps count) in
    if leb count p.free_pe
    then elim (pv_alloc p count) [ some (start, p') ↦ some (0, start, p' ∷ ps) | none ↦ rest ]
    else rest

-- `none` for the result -1; else `*out_pv_idx`, `*out_pe_start` and the group afterwards.
unfoldable pub vg_alloc_pe : Vg → ℕ → Option (ℕ × ℕ × Vg)
vg_alloc_pe g count = elim (alloc_from g.pvs count) [
  | none ↦ none
  | some (i, start, ps) ↦ some (i, start, record g { pvs = ps; free_pe = g.free_pe - count })
]

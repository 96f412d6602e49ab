-- ===== src/Lvm/Vg/Alloc.antt =====
-- The operations of a volume group keep its books; an allocation takes free extents, and one extent
-- is found as long as the group counts a free one.
use os_kernel_from_scratch.Common.{ℕ, ◌+◌, ◌-◌, ◌<◌}
use os_kernel_from_scratch.Common.{◌≡◌, refl, ◌↔◌, inl, inr}
use os_kernel_from_scratch.Common.{true, false}
use os_kernel_from_scratch.Common.{Option, none, some, List, [], ◌∷◌, ◌++◌}
use os_kernel_from_scratch.Common.{arith, dec_lt, leb}
use os_kernel_from_scratch.Common.{Option-cases, length}
use os_kernel_from_scratch.Common.{length-append}
use mathlib.Core.Option
use os_kernel_from_scratch.Lvm.Pv.{Pv}
use os_kernel_from_scratch.Lvm.Pv.Scan.{FreeRun}
use os_kernel_from_scratch.Lvm.Pv.Invariant.{some_free}
use os_kernel_from_scratch.Lvm.Pv.Invariant
use os_kernel_from_scratch.Lvm.Pv.Alloc.{pv_alloc_complete}
use os_kernel_from_scratch.Common.Bitmap.{test_bit}
use os_kernel_from_scratch.Lvm.Vg.{Vg, max_pvs, vg_add_pv, further, alloc_from, vg_alloc_pe}
use os_kernel_from_scratch.Lvm.Vg.Books.{
  AllValid, sum_free, sum_pe, IsValid, Taken, alloc_from_sound,
}

AllValid-append :
    (ps : List Pv) (p : Pv) → AllValid ps → Invariant.IsValid p → AllValid (ps ++ p ∷ [])
AllValid-append [] p vs v = (v, tt)
AllValid-append (q ∷ ps) p vs v = (vs.0, AllValid-append ps p vs.1 v)

sum_free-append : (ps : List Pv) (p : Pv) → sum_free (ps ++ p ∷ []) ≡ sum_free ps + p.free_pe
sum_free-append [] p = omega arith
sum_free-append (q ∷ ps) p = omega (arith, sum_free-append ps p)

sum_pe-append : (ps : List Pv) (p : Pv) → sum_pe (ps ++ p ∷ []) ≡ sum_pe ps + p.pe_count
sum_pe-append [] p = omega arith
sum_pe-append (q ∷ ps) p = omega (arith, sum_pe-append ps p)

-- `vg_add_pv` refuses exactly a seventeenth volume, and else keeps the books of the group.
pub vg_add_pv_lem :
    (g : Vg) (p : Pv)
    → IsValid g
    → Invariant.IsValid p
    → ((vg_add_pv g p ≡ none) ↔ (length g.pvs ≡ max_pvs))
      × ((g' : Vg) → vg_add_pv g p ≡ some g' → IsValid g' × (g'.free_pe ≡ g.free_pe + p.free_pe))
unfolding vg_add_pv
vg_add_pv_lem g p v vp = ((λ e. ground (arith, v.few), λ e. ground arith), added)
  where
    joined : Vg
    joined = record g {
      pvs = g.pvs ++ p ∷ [];
      total_pe = g.total_pe + p.pe_count;
      free_pe = g.free_pe + p.free_pe;
    }

    added : (g' : Vg) → vg_add_pv g p ≡ some g' → IsValid g' × (g'.free_pe ≡ g.free_pe + p.free_pe)
    added g' e =
        let eq : g' ≡ joined = ground arith in
        rw eq (
          record {
            each = AllValid-append g.pvs p v.each vp;
            total = omega (arith, v.total, sum_pe-append g.pvs p);
            books = omega (arith, v.books, sum_free-append g.pvs p);
            few = ground (arith, length-append g.pvs (p ∷ []));
          },
          refl,
        )

-- What `vg_alloc_pe` hands out from a valid group, for a count above 0, are `count` free extents
-- in a row of one volume of the group; only those are marked, and the group stays valid with
-- `count` free extents less.
pub vg_alloc_pe_sound :
    (g : Vg) (count i start : ℕ) (g' : Vg)
    → IsValid g
    → 0 < count
    → vg_alloc_pe g count ≡ some (i, start, g')
    → Taken g.pvs count i start g'.pvs × IsValid g' × (g'.free_pe + count ≡ g.free_pe)
unfolding vg_alloc_pe
vg_alloc_pe_sound g count i start g' v pos e = elim (Option-cases (alloc_from g.pvs count)) [
  | inl gone ↦ absurd (Option.none-ne-some _ (rw (gone, vg_alloc_pe) at e))
  | inr ((j, s, qs), found) ↦
      let moved : ◌≡◌ {A = Option (ℕ × ℕ × Vg)}
          (some (j, s, record g { pvs = qs; free_pe = g.free_pe - count })) (some (i, start, g')) =
        rw (found, vg_alloc_pe) at e in
      let t : Taken g.pvs count j s qs = alloc_from_sound g.pvs count j s qs pos v.each found in
      let ei : i ≡ j = ground arith in
      let es : start ≡ s = ground arith in
      let eg : g' ≡ record g { pvs = qs; free_pe = g.free_pe - count } = ground arith in
      rw (ei, es, eg)
        (
          t,
          record {
            each = t.each;
            total = omega (arith, v.total, t.same_total);
            books = omega (arith, v.books, t.books);
            few = omega (arith, v.few, t.same_length);
          },
          omega (arith, v.books, t.books),
        )
]

alloc_one :
    (ps : List Pv)
    → AllValid ps
    → 0 < sum_free ps
    → (r : ℕ × ℕ × List Pv) × (alloc_from ps 1 ≡ some r)
unfolding alloc_from
alloc_one [] v h = elim h [ ]
alloc_one (p ∷ ps) v h = elim (dec_lt 0 p.free_pe) [
  | yes here ↦
      let (s, l, f) = some_free p.pe_bitmap p.pe_count (omega (arith, v.0.counted)) in
      let (start, p', ok, _) = pv_alloc_complete p 1 s (omega arith) (single s l f) in
      ((0, start, p' ∷ ps), rw (ok, enough here) refl)
  | no not_here ↦
      let (r, ok) = alloc_one ps v.1 (omega arith) in (further p r, rw (ok, short not_here) refl)
]
  where
    single :
        (s : ℕ)
        → s < p.pe_count
        → test_bit p.pe_bitmap s ≡ false
        → FreeRun p.pe_bitmap s 1 p.pe_count
    single s l f = record {
      within = omega arith;
      free = λ j a b. let e : j ≡ s = omega arith in rw e f;
    }

    enough : 0 < p.free_pe → leb 1 p.free_pe ≡ true
    enough q = ground arith

    short : ¬ (0 < p.free_pe) → leb 1 p.free_pe ≡ false
    short q = ground arith

-- While the group counts a free extent, a request for one succeeds.
pub vg_alloc_pe_one :
    (g : Vg)
    → IsValid g
    → 0 < g.free_pe
    → (i : ℕ) × (start : ℕ) × (g' : Vg) × (vg_alloc_pe g 1 ≡ some (i, start, g'))
unfolding vg_alloc_pe
vg_alloc_pe_one g v h =
    let ((i, start, ps), ok) = alloc_one g.pvs v.each (omega (arith, v.books)) in
    (i, start, record g { pvs = ps; free_pe = g.free_pe - 1 }, rw (ok, vg_alloc_pe) refl)

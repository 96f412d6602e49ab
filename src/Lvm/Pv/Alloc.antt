-- ===== src/Lvm/Pv/Alloc.antt =====
-- `pv_alloc` is a first-fit search for a run of free extents, and `pv_free` undoes it.
use os_kernel_from_scratch.Common.{ℕ, ◌+◌, ◌-◌, ◌≤◌, ◌<◌}
use os_kernel_from_scratch.Common.{◌≡◌, refl, inl}
use os_kernel_from_scratch.Common.{true, false, ◌&&◌}
use os_kernel_from_scratch.Common.{none, some}
use os_kernel_from_scratch.Common.{arith, ltb, leb, if◌then◌else◌}
use os_kernel_from_scratch.Common.Bitmap.{test_bit}
use os_kernel_from_scratch.Lvm.Pv.{Pv, mark, unmark, scan, minus_one, pv_alloc, pv_free}
use os_kernel_from_scratch.Lvm.Pv.Scan.{FreeRun, scan_sound, scan_complete}
use os_kernel_from_scratch.Lvm.Pv.Invariant.{
  free_count, IsUsed, IsValid, length-mark, length-unmark, test_bit-mark, test_bit-unmark,
  free_count-mark, free_count-unmark,
}

-- `p'` is `p` with the extents `[start, start + count)` taken, which were free.
pub record Allocated (p : Pv) (count start : ℕ) (p' : Pv) : Type 0 where
  pub run : FreeRun p.pe_bitmap start count p.pe_count
  pub same_size : p'.pe_count ≡ p.pe_count
  pub bits :
      (j : ℕ)
      → test_bit p'.pe_bitmap j
        ≡ (if leb start j && ltb j (start + count) then true else test_bit p.pe_bitmap j)
  pub books : p'.free_pe + count ≡ p.free_pe
  pub valid : IsValid p'

marked : Pv → ℕ → ℕ → Pv
marked p start count = record p {
  pe_bitmap = mark p.pe_bitmap start count;
  free_pe = p.free_pe - count;
}

marked-Allocated :
    (p : Pv) (count start : ℕ)
    → IsValid p
    → FreeRun p.pe_bitmap start count p.pe_count
    → Allocated p count start (marked p start count)
unfolding marked
marked-Allocated p count start v run = record {
  run = run;
  same_size = refl;
  bits = λ j. test_bit-mark p.pe_bitmap start count j (omega (arith, run.within, v.covered));
  books = omega (arith, taken, v.counted);
  valid = record {
    covered = omega (arith, length-mark p.pe_bitmap start count, v.covered);
    counted = omega (arith, taken, v.counted);
  };
}
  where
    taken :
        free_count (mark p.pe_bitmap start count) p.pe_count + count
        ≡ free_count p.pe_bitmap p.pe_count
    taken = free_count-mark p.pe_bitmap p.pe_count start count v.covered run

-- The two outcomes of the search.
search : Pv → ℕ → ℕ × ℕ
search p count = scan p.pe_bitmap count p.pe_count 0 0 minus_one

pv_alloc_lem :
    (p : Pv) (count : ℕ)
    → pv_alloc p count ≡ (
        if ltb (search p count).0 count
        then none
        else some ((search p count).1, marked p (search p count).1 count))
unfolding pv_alloc marked search
pv_alloc_lem p count = refl

-- Whatever `pv_alloc` hands out from a valid volume, for a count above 0, is a run of `count`
-- extents of the volume that were free; they and no others are marked, and the volume stays
-- valid.
pub pv_alloc_sound :
    (p : Pv) (count start : ℕ) (p' : Pv)
    → IsValid p
    → 0 < count
    → pv_alloc p count ≡ some (start, p')
    → Allocated p count start p'
unfolding search
pv_alloc_sound p count start p' v pos e =
    let es : start ≡ s0 = ground (arith, pv_alloc_lem p count) in
    let ep : p' ≡ marked p s0 count = ground (arith, pv_alloc_lem p count) in
    rw (es, ep) (marked-Allocated p count s0 v (found (ground (arith, pv_alloc_lem p count))))
  where
    s0 : ℕ
    s0 = (search p count).1

    found : ltb (search p count).0 count ≡ false → FreeRun p.pe_bitmap s0 count p.pe_count
    found long =
        let (_, run) =
          scan_sound p.pe_bitmap count p.pe_count 0 0 minus_one pos (inl refl) (ground arith) in
        record { within = omega (arith, run.within); free = run.free }

-- For a count above 0 `pv_alloc` finds a run of free extents if there is one, and none that
-- stands further right.
pub pv_alloc_complete :
    (p : Pv) (count s : ℕ)
    → 0 < count
    → FreeRun p.pe_bitmap s count p.pe_count
    → (start : ℕ) × (p' : Pv) × (pv_alloc p count ≡ some (start, p')) × (start ≤ s)
unfolding search
pv_alloc_complete p count s pos run =
    let (e, first) =
      scan_complete p.pe_bitmap count p.pe_count 0 0 minus_one s pos (inl refl) (omega arith)
        (record { within = omega (arith, run.within); free = run.free }) in
    (
      (search p count).1,
      marked p (search p count).1 count,
      rw (pv_alloc_lem p count) (ground arith),
      first,
    )

-- A failed `pv_alloc` means that no run of `count` free extents exists.
pub pv_alloc_fails :
    (p : Pv) (count s : ℕ)
    → 0 < count
    → pv_alloc p count ≡ none
    → ¬ FreeRun p.pe_bitmap s count p.pe_count
pv_alloc_fails p count s pos e run =
    let (start, p', ok, _) = pv_alloc_complete p count s pos run in cc

-- `pv_free` of a range that is in use keeps the books, and clears that range alone.
pub pv_free-IsValid :
    (p : Pv) (start count : ℕ)
    → IsValid p
    → start + count ≤ p.pe_count
    → IsUsed p.pe_bitmap start count
    → IsValid (pv_free p start count)
unfolding pv_free
pv_free-IsValid p start count v w used = record {
  covered = omega (arith, length-unmark p.pe_bitmap start count, v.covered);
  counted =
      omega
        (arith, free_count-unmark p.pe_bitmap p.pe_count start count v.covered w used, v.counted);
}

-- Freeing what `pv_alloc` handed out from a valid volume, for a count above 0, gives the volume
-- back as it was: every extent's bit, the number of free extents, and a valid state.
pub pv_free-pv_alloc :
    (p : Pv) (count start : ℕ) (p' : Pv)
    → IsValid p
    → 0 < count
    → pv_alloc p count ≡ some (start, p')
    → ((j : ℕ) → test_bit (pv_free p' start count).pe_bitmap j ≡ test_bit p.pe_bitmap j)
      × ((pv_free p' start count).free_pe ≡ p.free_pe)
      × IsValid (pv_free p' start count)
unfolding pv_free
pv_free-pv_alloc p count start p' v pos e =
    (back, a.books, pv_free-IsValid p' start count a.valid fits used)
  where
    a : Allocated p count start p'
    a = pv_alloc_sound p count start p' v pos e

    fits : start + count ≤ p'.pe_count
    fits = omega (arith, a.run.within, a.same_size)

    used : IsUsed p'.pe_bitmap start count
    used j l r = ground (arith, a.bits j)

    back : (j : ℕ) → test_bit (unmark p'.pe_bitmap start count) j ≡ test_bit p.pe_bitmap j
    back j = ground (
      arith,
      test_bit-unmark p'.pe_bitmap start count j (omega (arith, a.valid.covered, fits)),
      a.bits j,
      a.run.free j,
    )

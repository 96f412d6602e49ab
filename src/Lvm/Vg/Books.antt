-- ===== src/Lvm/Vg/Books.antt =====
-- The books of a volume group, and what an allocation from it gives.
use os_kernel_from_scratch.Common.{ℕ, zero, suc, ◌+◌, ◌≤◌, ◌<◌}
use os_kernel_from_scratch.Common.{◌≡◌, refl, ap, ap₂, ◌∙◌, inl, inr}
use os_kernel_from_scratch.Common.{Bool, true, false, ◌&&◌}
use os_kernel_from_scratch.Common.{Option, some, List, [], ◌∷◌}
use os_kernel_from_scratch.Common.{arith, ltb, leb, ◌==◌, if◌then◌else◌}
use os_kernel_from_scratch.Common.{Bool-cases, Option-cases, length}
use native.Mathlib.Numerals.{towards_suc}
use mathlib.Core.Option
use mathlib.Core.Option.{none-ne-some}
use os_kernel_from_scratch.Common.Bitmap.{test_bit}
use os_kernel_from_scratch.Lvm.Pv.{Pv, pv_alloc}
use os_kernel_from_scratch.Lvm.Pv.Invariant.{free_count, vacancy}
use os_kernel_from_scratch.Lvm.Pv.Invariant
use os_kernel_from_scratch.Lvm.Pv.Alloc.{Allocated, pv_alloc_sound}
use os_kernel_from_scratch.Lvm.Vg.{Vg, max_pvs, further, alloc_from}

abbrev pub AllValid : List Pv → Type 0
AllValid [] = Unit
AllValid (p ∷ ps) = Invariant.IsValid p × AllValid ps

abbrev pub sum_free : List Pv → ℕ
sum_free [] = 0
sum_free (p ∷ ps) = p.free_pe + sum_free ps

abbrev pub sum_pe : List Pv → ℕ
sum_pe [] = 0
sum_pe (p ∷ ps) = p.pe_count + sum_pe ps

-- Each volume is valid, and the group's two totals are those of its volumes.
pub record IsValid (g : Vg) : Type 0 where
  pub each : AllValid g.pvs
  pub total : g.total_pe ≡ sum_pe g.pvs
  pub books : g.free_pe ≡ sum_free g.pvs
  pub few : length g.pvs ≤ max_pvs

-- Extent `e` of volume `i` is in use (extents of no volume count as used).
abbrev pub occupied : List Pv → ℕ → ℕ → Bool
occupied [] i e = true
occupied (p ∷ ps) zero e = test_bit p.pe_bitmap e
occupied (p ∷ ps) (suc i) e = occupied ps i e

-- The number of extents of volume `i`.
abbrev pub extents : List Pv → ℕ → ℕ
extents [] i = 0
extents (p ∷ ps) zero = p.pe_count
extents (p ∷ ps) (suc i) = extents ps i

-- `ps'` is `ps` with `count` extents of volume `i` taken from `start` on, which were free.
pub record Taken (ps : List Pv) (count i start : ℕ) (ps' : List Pv) : Type 0 where
  pub index : i < length ps
  pub within : start + count ≤ extents ps i
  pub was_free : (e : ℕ) → start ≤ e → e < start + count → occupied ps i e ≡ false
  pub now :
      (j e : ℕ)
      → occupied ps' j e
        ≡ (if j == i && (leb start e && ltb e (start + count)) then true else occupied ps j e)
  pub same_length : length ps' ≡ length ps
  pub same_extents : (j : ℕ) → extents ps' j ≡ extents ps j
  pub same_total : sum_pe ps' ≡ sum_pe ps
  pub books : sum_free ps' + count ≡ sum_free ps
  pub each : AllValid ps'

here-Taken :
    (p p' : Pv) (ps : List Pv) (count start : ℕ)
    → AllValid ps
    → Allocated p count start p'
    → Taken (p ∷ ps) count 0 start (p' ∷ ps)
here-Taken p p' ps count start vs a = record {
  index = omega arith;
  within = a.run.within;
  was_free = a.run.free;
  now = now;
  same_length = refl;
  same_extents = same;
  same_total = omega (arith, a.same_size);
  books = omega (arith, a.books);
  each = (a.valid, vs);
}
  where
    now :
        (j e : ℕ)
        → occupied (p' ∷ ps) j e ≡ (
            if j == 0 && (leb start e && ltb e (start + count))
            then true
            else occupied (p ∷ ps) j e)
    now zero e = a.bits e
    now (suc j) e = ground arith

    same : (j : ℕ) → extents (p' ∷ ps) j ≡ extents (p ∷ ps) j
    same zero = a.same_size
    same (suc j) = refl

further-Taken :
    (p : Pv) (ps ps' : List Pv) (count i start : ℕ)
    → Invariant.IsValid p
    → Taken ps count i start ps'
    → Taken (p ∷ ps) count (i + 1) start (p ∷ ps')
further-Taken p ps ps' count i start v t = simp towards_suc record {
  index = omega (arith, t.index);
  within = t.within;
  was_free = t.was_free;
  now = now;
  same_length = ap suc t.same_length;
  same_extents = same;
  same_total = omega (arith, t.same_total);
  books = omega (arith, t.books);
  each = (v, t.each);
}
  where
    now :
        (j e : ℕ)
        → occupied (p ∷ ps') j e ≡ (
            if j == suc i && (leb start e && ltb e (start + count))
            then true
            else occupied (p ∷ ps) j e)
    now zero e = ground arith
    now (suc j) e = ground (arith, t.now j e)

    same : (j : ℕ) → extents (p ∷ ps') j ≡ extents (p ∷ ps) j
    same zero = refl
    same (suc j) = t.same_extents j

-- Where a successful allocation was made.
data Placed (p : Pv) (ps : List Pv) (count i start : ℕ) (ps' : List Pv) : Type 0 where
  first :
      (p' : Pv)
      → pv_alloc p count ≡ some (start, p')
      → i ≡ 0
      → ps' ≡ p' ∷ ps
      → Placed p ps count i start ps'
  later :
      (j : ℕ) (qs : List Pv)
      → alloc_from ps count ≡ some (j, start, qs)
      → i ≡ j + 1
      → ps' ≡ p ∷ qs
      → Placed p ps count i start ps'

after :
    (p : Pv) (ps : List Pv) (count i start : ℕ) (ps' : List Pv)
    → Option.map (further p) (alloc_from ps count) ≡ some (i, start, ps')
    → Placed p ps count i start ps'
after p ps count i start ps' e = elim (Option-cases (alloc_from ps count)) [
  | inl gone ↦ absurd (none-ne-some _ (rw gone at e))
  | inr ((j, s, qs), found) ↦
      let moved : some (further p (j, s, qs)) ≡ some (i, start, ps') = rw found at e in
      later j qs (found ∙ ap some (ap₂ (λ (a : ℕ) (b : List Pv). (j, a, b)) (ground arith) refl))
        (ground arith) (ground arith)
]

placed :
    (p : Pv) (ps : List Pv) (count i start : ℕ) (ps' : List Pv)
    → alloc_from (p ∷ ps) count ≡ some (i, start, ps')
    → Placed p ps count i start ps'
unfolding alloc_from
placed p ps count i start ps' e = elim (Bool-cases (leb count p.free_pe)) [
  | inl fits ↦ elim (Option-cases (pv_alloc p count)) [
    | inl gone ↦ after p ps count i start ps' (rw (fits, gone) at e)
    | inr ((s, p'), found) ↦
        let moved : ◌≡◌ {A = Option (ℕ × ℕ × List Pv)} (some (0, s, p' ∷ ps))
            (some (i, start, ps')) =
          rw (fits, found) at e in
        first p' (ground (arith, found)) (ground arith) (ground arith)
  ]
  | inr full ↦ after p ps count i start ps' (rw full at e)
]

-- An allocation from the list takes free extents of one volume, and leaves the rest alone.
pub alloc_from_sound :
    (ps : List Pv) (count i start : ℕ) (ps' : List Pv)
    → 0 < count
    → AllValid ps
    → alloc_from ps count ≡ some (i, start, ps')
    → Taken ps count i start ps'
unfolding alloc_from
alloc_from_sound [] count i start ps' pos v e = cc
alloc_from_sound (p ∷ ps) count i start ps' pos v e = elim (placed p ps count i start ps' e) [
  | first p' ok zi eq ↦
      rw (zi, eq) (here-Taken p p' ps count start v.1 (pv_alloc_sound p count start p' v.0 pos ok))
  | later j qs ok si eq ↦
      rw (si, eq)
        (further-Taken p ps qs count j start v.0 (alloc_from_sound ps count j start qs pos v.1 ok))
]

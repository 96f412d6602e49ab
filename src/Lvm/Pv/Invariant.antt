-- ===== src/Lvm/Pv/Invariant.antt =====
-- The books of a physical volume: what `mark` and `unmark` do to the bitmap and to the number of
-- free extents, and the invariant of `struct pv`.
use os_kernel_from_scratch.Common.{ℕ, zero, suc, ◌+◌, ◌*◌, ◌/◌, ◌%◌, ◌^◌, ◌≤◌, ◌<◌}
use os_kernel_from_scratch.Common.{◌≡◌, refl, sym, ◌∙◌, inl, inr}
use os_kernel_from_scratch.Common.{Bool, true, false, ◌&&◌}
use os_kernel_from_scratch.Common.{List, none, some}
use os_kernel_from_scratch.Common.{arith, ltb, leb, if◌then◌else◌}
use os_kernel_from_scratch.Common.{Bool-cases, length}
use os_kernel_from_scratch.Common.{replicate}
use mathlib.Core.Path.{subst}
use os_kernel_from_scratch.Common.Bitmap.{
  test_bit, set_bit, clear_bit, test_bit-set_bit, test_bit-clear_bit, length-set_bit,
  length-clear_bit, test_bit-zeros,
}
use os_kernel_from_scratch.Common.{length-replicate}
use os_kernel_from_scratch.Lvm.Pv.{Pv, name_31, pv_create, mark, unmark, pe_size_sectors}
use os_kernel_from_scratch.Lvm.Pv.Scan.{IsFree, FreeRun}

-- 1 for an extent that is not in use.
abbrev pub vacancy : Bool → ℕ
vacancy true = 0
vacancy false = 1

-- The free extents below `n`.
unfoldable pub free_count : List ℕ → ℕ → ℕ
free_count bitmap zero = 0
free_count bitmap (suc n) = free_count bitmap n + vacancy (test_bit bitmap n)

-- All extents of `[s, s + c)` are in use.
abbrev pub IsUsed : List ℕ → ℕ → ℕ → Type 0
IsUsed bitmap s c = (j : ℕ) → s ≤ j → j < s + c → test_bit bitmap j ≡ true

free_count-set :
    (bitmap : List ℕ) (n i : ℕ)
    → i < 64 * length bitmap
    → test_bit bitmap i ≡ false
    → free_count (set_bit bitmap i) n + (if ltb i n then 1 else 0) ≡ free_count bitmap n
unfolding free_count
free_count-set bitmap zero i h e = ground arith
free_count-set bitmap (suc n) i h e =
    ground (arith, free_count-set bitmap n i h e, test_bit-set_bit bitmap i n h)

free_count-clear :
    (bitmap : List ℕ) (n i : ℕ)
    → i < 64 * length bitmap
    → test_bit bitmap i ≡ true
    → free_count (clear_bit bitmap i) n ≡ free_count bitmap n + (if ltb i n then 1 else 0)
unfolding free_count
free_count-clear bitmap zero i h e = ground arith
free_count-clear bitmap (suc n) i h e =
    ground (arith, free_count-clear bitmap n i h e, test_bit-clear_bit bitmap i n h)

pub length-mark : (bitmap : List ℕ) (i c : ℕ) → length (mark bitmap i c) ≡ length bitmap
unfolding mark
length-mark bitmap i zero = refl
length-mark bitmap i (suc c) = length-mark (set_bit bitmap i) (i + 1) c ∙ length-set_bit bitmap i

pub length-unmark : (bitmap : List ℕ) (i c : ℕ) → length (unmark bitmap i c) ≡ length bitmap
unfolding unmark
length-unmark bitmap i zero = refl
length-unmark bitmap i (suc c) =
    length-unmark (clear_bit bitmap i) (i + 1) c ∙ length-clear_bit bitmap i

-- `mark` sets the extents of its range and no other.
pub test_bit-mark :
    (bitmap : List ℕ) (i c j : ℕ)
    → i + c ≤ 64 * length bitmap
    → test_bit (mark bitmap i c) j ≡ (if leb i j && ltb j (i + c) then true else test_bit bitmap j)
unfolding mark
test_bit-mark bitmap i zero j h = ground arith
test_bit-mark bitmap i (suc c) j h = ground (
  arith,
  test_bit-mark (set_bit bitmap i) (i + 1) c j,
  test_bit-set_bit bitmap i j,
  length-set_bit bitmap i,
)

-- `unmark` clears the extents of its range and no other.
pub test_bit-unmark :
    (bitmap : List ℕ) (i c j : ℕ)
    → i + c ≤ 64 * length bitmap
    → test_bit (unmark bitmap i c) j
      ≡ (if leb i j && ltb j (i + c) then false else test_bit bitmap j)
unfolding unmark
test_bit-unmark bitmap i zero j h = ground arith
test_bit-unmark bitmap i (suc c) j h = ground (
  arith,
  test_bit-unmark (clear_bit bitmap i) (i + 1) c j,
  test_bit-clear_bit bitmap i j,
  length-clear_bit bitmap i,
)

pub free_count-mark :
    (bitmap : List ℕ) (n i c : ℕ)
    → n ≤ 64 * length bitmap
    → FreeRun bitmap i c n
    → free_count (mark bitmap i c) n + c ≡ free_count bitmap n
unfolding mark
free_count-mark bitmap n i zero h run = omega arith
free_count-mark bitmap n i (suc c) h run = ground (
  arith,
  free_count-mark (set_bit bitmap i) n (i + 1) c (rw (length-set_bit bitmap i) h) rest,
  free_count-set bitmap n i (omega (arith, run.within)) here,
  run.within,
)
  where
    here : test_bit bitmap i ≡ false
    here = run.free i (omega arith) (omega arith)

    rest : FreeRun (set_bit bitmap i) (i + 1) c n
    rest = record {
      within = omega (arith, run.within);
      free = λ j p q. ground (
        arith,
        test_bit-set_bit bitmap i j (omega (arith, run.within)),
        run.free j (omega arith) (omega arith),
      );
    }

pub free_count-unmark :
    (bitmap : List ℕ) (n i c : ℕ)
    → n ≤ 64 * length bitmap
    → i + c ≤ n
    → IsUsed bitmap i c
    → free_count (unmark bitmap i c) n ≡ free_count bitmap n + c
unfolding unmark
free_count-unmark bitmap n i zero h w used = omega arith
free_count-unmark bitmap n i (suc c) h w used = ground (
  arith,
  free_count-unmark (clear_bit bitmap i) n (i + 1) c (rw (length-clear_bit bitmap i) h)
      (omega arith) rest,
  free_count-clear bitmap n i (omega arith) (used i (omega arith) (omega arith)),
)
  where
    rest : IsUsed (clear_bit bitmap i) (i + 1) c
    rest j p q =
        ground
          (arith, test_bit-clear_bit bitmap i j (omega arith), used j (omega arith) (omega arith))

-- The bitmap covers every extent, and `free_pe` is the number of those that it shows free.
pub record IsValid (p : Pv) : Type 0 where
  pub covered : p.pe_count ≤ 64 * length p.pe_bitmap
  pub counted : p.free_pe ≡ free_count p.pe_bitmap p.pe_count

free_count-zeros : (w n : ℕ) → free_count (replicate w 0) n ≡ n
unfolding free_count
free_count-zeros w zero = refl
free_count-zeros w (suc n) = ground (arith, free_count-zeros w n, test_bit-zeros w n)

-- A new volume is valid, and all its extents are free.
pub pv_create-IsValid :
    (name : List ℕ) (size : ℕ) (p : Pv)
    → pv_create name size ≡ some p
    → IsValid p × IsFree p.pe_bitmap 0 p.pe_count
unfolding pv_create
pv_create-IsValid name size p made = elim (Bool-cases (ltb c (2 ^ 31))) [
  | inr e ↦ absurd (let none_made : pv_create name size ≡ none = rw (pv_create, e) in cc)
  | inl e ↦
      let here : fresh ≡ p =
        let is_made : pv_create name size ≡ some fresh = rw (pv_create, e) in cc in
      subst (λ q. IsValid q × IsFree q.pe_bitmap 0 q.pe_count) here
        (
          record {
            covered = omega (arith, length-replicate {A = ℕ} ((c + 63) / 64) 0);
            counted = sym (free_count-zeros ((c + 63) / 64) c);
          },
          λ j p q. test_bit-zeros ((c + 63) / 64) j,
        )
]
  where
    c : ℕ
    c = size / pe_size_sectors % 2 ^ 32

    fresh : Pv
    fresh = record {
      name = name_31 name;
      size = size;
      pe_count = c;
      pe_bitmap = replicate ((c + 63) / 64) 0;
      free_pe = c;
    }

-- A volume that counts a free extent has one.
pub some_free :
    (bitmap : List ℕ) (n : ℕ)
    → 0 < free_count bitmap n
    → (s : ℕ) × (s < n) × (test_bit bitmap s ≡ false)
unfolding free_count
some_free bitmap zero h = elim h [ ]
some_free bitmap (suc n) h = elim (Bool-cases (test_bit bitmap n)) [
  | inl used ↦ let (s, l, f) = some_free bitmap n (ground arith) in (s, omega arith, f)
  | inr free ↦ (n, omega arith, free)
]

-- ===== src/Lvm/Lv/Sector.antt =====
-- The address translation `lv_map_sector`, and the copy-on-write bits of a snapshot.
use os_kernel_from_scratch.Common.{ℕ, zero, suc, ◌+◌, ◌*◌, ◌/◌, ◌%◌, ◌^◌, ◌≤◌, ◌<◌}
use os_kernel_from_scratch.Common.{◌≡◌, refl, sym, ap, ◌∙◌, ◌≢◌, inl, inr}
use os_kernel_from_scratch.Common.{true, false, ◌&&◌}
use os_kernel_from_scratch.Common.{Option, some, List, [], ◌∷◌}
use os_kernel_from_scratch.Common.{arith, ltb, leb, ◌==◌, if◌then◌else◌}
use os_kernel_from_scratch.Common.{Bool-cases, length, get_elem?}
use os_kernel_from_scratch.Common.Bitmap.{test_bit, set_bit, test_bit-set_bit}
use os_kernel_from_scratch.Lvm.Pv.{pe_size_sectors}
use os_kernel_from_scratch.Lvm.Lv.{LeMap, Lv, int_product, lv_map_sector, snapshot_write}
use os_kernel_from_scratch.Lvm.Lv.Create.{All, Distinct}

-- Extents below 2 ^ 20: those of volumes of at most 1 TB.
abbrev pub IsSmall : LeMap → Type 0
IsSmall m = m.pe_start < 2 ^ 20

-- A map with an entry for each logical extent, as `lv_create` and `lv_extend` make it.
pub record IsMapped (l : Lv) : Type 0 where
  pub complete : length l.le_map ≡ l.le_count
  pub counted : l.le_count < 2 ^ 31
  pub small : All IsSmall l.le_map

int_product_small : (a : ℕ) → a < 2 ^ 20 → int_product a pe_size_sectors ≡ a * 2048
unfolding int_product
int_product_small a h = ground arith

get_elem?-All :
    (P : LeMap → Type 0) (ms : List LeMap) (k : ℕ)
    → k < length ms
    → All P ms
    → (m : LeMap) × (get_elem? ms k ≡ some m) × P m
get_elem?-All P [] k h a = elim h [ ]
get_elem?-All P (m ∷ ms) zero h a = (m, refl, a.0)
get_elem?-All P (m ∷ ms) (suc k) h a = get_elem?-All P ms k (omega arith) a.1

-- A sector of the volume goes to the same offset in the physical extent of its logical extent.
pub lv_map_sector_lem :
    (l : Lv) (s : ℕ)
    → IsMapped l
    → s < l.le_count * pe_size_sectors
    → (m : LeMap) × (get_elem? l.le_map (s / pe_size_sectors) ≡ some m)
      × (lv_map_sector l s ≡ some (m.pe_start * pe_size_sectors + s % pe_size_sectors, m.pv_index))
      × (m.pe_start < 2 ^ 20)
unfolding lv_map_sector
lv_map_sector_lem l s w h =
    let (m, e, small) =
      get_elem?-All IsSmall l.le_map (s / 2048) (omega (arith, w.complete)) w.small in
    (
      m,
      e,
      rw (lv_map_sector, index, inside, e) (rw (int_product_small m.pe_start small) (fits m small)),
      small,
    )
  where
    index : s / 2048 % 2 ^ 32 ≡ s / 2048
    index = omega (arith, w.counted)

    inside : (ltb (s / 2048) (2 ^ 31) && leb l.le_count (s / 2048)) ≡ false
    inside = ground arith

    fits :
        (m : LeMap)
        → m.pe_start < 2 ^ 20
        → ◌≡◌ {A = Option (ℕ × ℕ)}
            (some ((m.pe_start * 2048 + s % 2048) % 2 ^ 64, m.pv_index))
            (some (m.pe_start * 2048 + s % 2048, m.pv_index))
    fits m small = ap (λ (t : ℕ). some (t, m.pv_index)) (omega arith)

All-get_elem? :
    (P : LeMap → Type 0) (ms : List LeMap) (k : ℕ) (m : LeMap)
    → All P ms
    → get_elem? ms k ≡ some m
    → P m
All-get_elem? P [] k m a e = cc
All-get_elem? P (x ∷ ms) zero m a e = let q : m ≡ x = ground arith in rw q a.0
All-get_elem? P (x ∷ ms) (suc k) m a e = All-get_elem? P ms k m a.1 e

get_elem?-Distinct :
    (ms : List LeMap) (j k : ℕ) (m : LeMap)
    → Distinct ms
    → get_elem? ms j ≡ some m
    → get_elem? ms k ≡ some m
    → j ≡ k
get_elem?-Distinct [] j k m d p q = cc
get_elem?-Distinct (x ∷ ms) zero zero m d p q = refl
get_elem?-Distinct (x ∷ ms) zero (suc k) m d p q =
    absurd (All-get_elem? (λ y. x ≢ y) ms k m d.0 q (ground arith))
get_elem?-Distinct (x ∷ ms) (suc j) zero m d p q =
    absurd (All-get_elem? (λ y. x ≢ y) ms j m d.0 p (ground arith))
get_elem?-Distinct (x ∷ ms) (suc j) (suc k) m d p q = ap suc (get_elem?-Distinct ms j k m d.1 p q)

-- In a complete map of pairwise different extents below 2 ^ 20, for fewer than 2 ^ 31 logical
-- extents, no two sectors of a volume share a physical sector.
pub lv_map_sector_injective :
    (l : Lv) (s t : ℕ)
    → IsMapped l
    → Distinct l.le_map
    → s < l.le_count * pe_size_sectors
    → t < l.le_count * pe_size_sectors
    → lv_map_sector l s ≡ lv_map_sector l t
    → s ≡ t
lv_map_sector_injective l s t w d hs ht e =
    let (m, em, rm, _) = lv_map_sector_lem l s w hs in
    let (k, ek, rk, _) = lv_map_sector_lem l t w ht in
    let same : ◌≡◌ {A = Option (ℕ × ℕ)} (some (m.pe_start * 2048 + s % 2048, m.pv_index))
        (some (k.pe_start * 2048 + t % 2048, k.pv_index)) =
      sym rm ∙ (e ∙ rk) in
    let parts : (m.pe_start ≡ k.pe_start) × (s % 2048 ≡ t % 2048) × (m.pv_index ≡ k.pv_index) =
      ground arith in
    let mk : m ≡ k = ground arith in
    let quotients : s / 2048 ≡ t / 2048 =
      get_elem?-Distinct l.le_map (s / 2048) (t / 2048) k d (em ∙ ap some mk) ek in
    omega arith

int_product_large :
    (a r : ℕ)
    → 2 ^ 20 ≤ a
    → a < 2 ^ 31
    → r < 2048
    → (int_product a 2048 + r) % 2 ^ 64 ≢ a * 2048 + r
unfolding int_product
int_product_large a r h k l = ground arith

-- For a sector of a volume of fewer than 2 ^ 31 logical extents whose physical extent is 2 ^ 20
-- or more (in a volume of more than 1 TB), and an `int`, the product of two `int`s wraps, and
-- the sector returned is never that of the extent.
pub lv_map_sector_wraps :
    (l : Lv) (s : ℕ) (m : LeMap)
    → s / pe_size_sectors < l.le_count
    → l.le_count < 2 ^ 31
    → get_elem? l.le_map (s / pe_size_sectors) ≡ some m
    → 2 ^ 20 ≤ m.pe_start
    → m.pe_start < 2 ^ 31
    → lv_map_sector l s ≢ some (m.pe_start * pe_size_sectors + s % pe_size_sectors, m.pv_index)
unfolding lv_map_sector
lv_map_sector_wraps l s m h c e big int =
    rw (lv_map_sector, index, inside, e)
      (λ q. int_product_large m.pe_start (s % 2048) big int (omega arith) (ground arith))
  where
    index : s / 2048 % 2 ^ 32 ≡ s / 2048
    index = omega arith

    inside : (ltb (s / 2048) (2 ^ 31) && leb l.le_count (s / 2048)) ≡ false
    inside = ground arith

-- Writing to a snapshot, at a sector that its bitmap covers and whose extent number is an `int`,
-- records that its extent has been copied, forgets no other record, and changes nothing when the
-- extent was copied before.
pub snapshot_write_lem :
    (snap : Lv) (s address : ℕ)
    → snap.origin ≡ some address
    → s / pe_size_sectors < 2 ^ 31
    → s / pe_size_sectors < 64 * length snap.cow_bitmap
    → (snap' : Lv) × (snapshot_write snap s ≡ some snap')
      × ((j : ℕ)
          → test_bit snap'.cow_bitmap j
            ≡ (if s / pe_size_sectors == j then true else test_bit snap.cow_bitmap j))
unfolding snapshot_write
snapshot_write_lem snap s address o int h =
    elim (Bool-cases (test_bit snap.cow_bitmap (s / 2048))) [
      | inl old ↦ (
        snap,
        simp (snapshot_write, o, index, inside, old) refl,
        λ j. elim (Bool-cases (s / 2048 == j)) [
          | inl e ↦
              let here : s / 2048 ≡ j = ground arith in
              rw e (ap (test_bit snap.cow_bitmap) (sym here) ∙ old)
          | inr e ↦ rw e refl
        ],
      )
      | inr new ↦ (
        record snap { cow_bitmap = set_bit snap.cow_bitmap (s / 2048) },
        simp (snapshot_write, o, index, inside, new) refl,
        λ j. test_bit-set_bit snap.cow_bitmap (s / 2048) j h,
      )
    ]
  where
    index : s / 2048 % 2 ^ 32 ≡ s / 2048
    index = omega arith

    within : (k n : ℕ) → k < 2 ^ 31 → k < n → (ltb k (2 ^ 31) && ltb k n) ≡ true
    within k n p q = ground arith

    inside : (ltb (s / 2048) (2 ^ 31) && ltb (s / 2048) (64 * length snap.cow_bitmap)) ≡ true
    inside = within (s / 2048) (64 * length snap.cow_bitmap) int h

-- ===== src/Lvm/Lv/Whole.antt =====
-- What a caller gets from `lv_create` and `lv_extend`, when the group has room and when it has not.
use os_kernel_from_scratch.Common.{ℕ, zero, suc, ◌+◌, ◌-◌, ◌≤◌, ◌<◌}
use os_kernel_from_scratch.Common.{◌≡◌, refl, ap, ◌↔◌, inl, inr}
use os_kernel_from_scratch.Common.{true, false}
use os_kernel_from_scratch.Common.{some, List, [], ◌∷◌, ◌++◌}
use os_kernel_from_scratch.Common.{arith}
use os_kernel_from_scratch.Common.{Bool-cases, Option-cases, length, get_elem?, set}
use os_kernel_from_scratch.Common.{drop, replicate, length-append}
use mathlib.Core.List.{append_assoc, append-nil}
use os_kernel_from_scratch.Common.{length-replicate}
use os_kernel_from_scratch.Lvm.Vg.{Vg, vg_alloc_pe}
use os_kernel_from_scratch.Lvm.Vg.Books
use os_kernel_from_scratch.Lvm.Lv.{LeMap, Lv, unmapped, fill, lv_create, extend, lv_extend}
use os_kernel_from_scratch.Lvm.Lv.Create.{
  Extended, AllFresh, Distinct, extend-Extended, extend-none, extend-some, entry,
}

set-append :
    (pre suf : List LeMap) (x v : LeMap)
    → set (pre ++ x ∷ suf) (length pre) v ≡ (pre ++ v ∷ []) ++ suf
set-append [] suf x v = refl
set-append (y ∷ pre) suf x v = ap (λ l. y ∷ l) (set-append pre suf x v)

-- The array loop of `lv_create` writes what the loop of `lv_extend` appends.
fill-extend :
    (r le : ℕ) (g : Vg) (pre suf : List LeMap)
    → length suf ≡ r
    → length pre + r ≡ le
    → fill le r g (pre ++ suf)
      ≡ (pre ++ ((extend r g).1 ++ drop (length (extend r g).1) suf), (extend r g).2)
unfolding fill extend
fill-extend zero le g pre suf e f = refl
fill-extend (suc r) le g pre [] e f = absurd (omega arith)
fill-extend (suc r) le g pre (x ∷ suf) e f = elim (Option-cases (vg_alloc_pe g 1)) [
  | inl gone ↦ rw (extend-none r g gone) (rw (gone, fill) refl)
  | inr ((i, start, g'), ok) ↦ rw (extend-some r g i start g' ok) (
      rw (ok, fill)
        (rw
          (
            index,
            set-append pre suf x (entry i start),
            fill-extend r le g' (pre ++ entry i start ∷ []) suf (omega arith)
                (omega (arith, length-append pre (entry i start ∷ []))),
          )
          (rw (append_assoc pre) refl)))
]
  where
    index : le - suc r ≡ length pre
    index = omega arith

-- The whole outcome of `lv_create`: the new extents come first in the map, and what is left of the
-- map is as `calloc` made it.
lv_create_shape :
    (g : Vg) (name : List ℕ) (n : ℕ)
    → ((lv_create g name n).0.le_map
        ≡ (extend n g).1 ++ drop (length (extend n g).1) (replicate n unmapped))
      × ((lv_create g name n).1 ≡ (extend n g).2)
      × ((lv_create g name n).0.le_count ≡ n)
unfolding lv_create
lv_create_shape g name n = (ap (λ r. r.0) whole, ap (λ r. r.1) whole, refl)
  where
    whole :
        fill n n g (replicate n unmapped)
        ≡ ((extend n g).1 ++ drop (length (extend n g).1) (replicate n unmapped), (extend n g).2)
    whole = fill-extend n n g [] (replicate n unmapped) (length-replicate n unmapped) (omega arith)

drop-all : (n m : ℕ) → n ≤ m → drop m (replicate n unmapped) ≡ []
drop-all zero zero h = refl
drop-all zero (suc m) h = refl
drop-all (suc n) zero h = absurd (omega arith)
drop-all (suc n) (suc m) h = drop-all n m (omega arith)

-- With at least `n` extents free in a valid group, `lv_create` maps all `n` logical extents, to
-- physical extents that exist, were free, are in use now and differ from one another; the group
-- stays valid and has `n` free extents less.
pub lv_create_full :
    (g : Vg) (name : List ℕ) (n : ℕ)
    → Books.IsValid g
    → n ≤ g.free_pe
    → let (l, g') = lv_create g name n in
      (length l.le_map ≡ n)
      × AllFresh g g' l.le_map
      × Distinct l.le_map
      × Books.IsValid g'
      × (g'.free_pe + n ≡ g.free_pe)
lv_create_full g name n v room =
    let (em, eg, _) = lv_create_shape g name n in
    rw (em, eg)
      (rw (drop-all n (length new) (omega (arith, all)), append-nil)
        (all, x.fresh, x.distinct, x.valid, omega (arith, x.books, all)))
  where
    new : List LeMap
    new = (extend n g).1

    x : Extended n g (extend n g).0 new (extend n g).2
    x = extend-Extended n g v

    all : length new ≡ n
    all = elim (Bool-cases (extend n g).0) [
      | inl done ↦ x.full done
      | inr cut ↦ omega (arith, x.short cut, x.books, x.at_most)
    ]

get_elem?-replicate : (n k : ℕ) → k < n → get_elem? (replicate n unmapped) k ≡ some unmapped
get_elem?-replicate zero k h = elim h [ ]
get_elem?-replicate (suc n) zero h = refl
get_elem?-replicate (suc n) (suc k) h = get_elem?-replicate n k (omega arith)

get_elem?-rest :
    (new : List LeMap) (n k : ℕ)
    → length new ≤ k
    → k < n
    → get_elem? (new ++ drop (length new) (replicate n unmapped)) k ≡ some unmapped
get_elem?-rest [] n k h l = get_elem?-replicate n k l
get_elem?-rest (x ∷ new) zero k h l = elim l [ ]
get_elem?-rest (x ∷ new) (suc n) zero h l = absurd (omega arith)
get_elem?-rest (x ∷ new) (suc n) (suc k) h l = get_elem?-rest new n k (omega arith) (omega arith)

-- With fewer than `n` extents free in a valid group, `lv_create` still reports `n` logical extents:
-- each from number `free_pe` on reads as extent 0 of volume 0, and the group is left with none.
pub lv_create_short :
    (g : Vg) (name : List ℕ) (n : ℕ)
    → Books.IsValid g
    → g.free_pe < n
    → let (l, g') = lv_create g name n in
      (l.le_count ≡ n)
      × ((k : ℕ) → g.free_pe ≤ k → k < n → get_elem? l.le_map k ≡ some unmapped)
      × (g'.free_pe ≡ 0)
lv_create_short g name n v lack =
    let (em, eg, ec) = lv_create_shape g name n in
    rw (em, eg, ec)
      (refl, λ k a b. get_elem?-rest (extend n g).1 n k (omega (arith, x.books)) b, empty)
  where
    x : Extended n g (extend n g).0 (extend n g).1 (extend n g).2
    x = extend-Extended n g v

    empty : (extend n g).2.free_pe ≡ 0
    empty = elim (Bool-cases (extend n g).0) [
      | inl done ↦ absurd (omega (arith, x.full done, x.books))
      | inr cut ↦ (x.short cut).0
    ]

-- `lv_extend` on a valid group succeeds exactly if `n` extents are free. The old part of the map
-- stays, behind it stand extents that were free and differ from one another; `le_count` grows by
-- `n` on success, and on failure it stays although every free extent of the group has been taken.
pub lv_extend_lem :
    (l : Lv) (g : Vg) (n : ℕ)
    → Books.IsValid g
    → let (done, l', g') = lv_extend l g n in
      ((done ≡ true) ↔ (n ≤ g.free_pe))
      × ((new : List LeMap) × (l'.le_map ≡ l.le_map ++ new)
          × AllFresh g g' new
          × Distinct new
          × (g'.free_pe + length new ≡ g.free_pe))
      × (done ≡ true → (l'.le_count ≡ l.le_count + n) × (g'.free_pe + n ≡ g.free_pe))
      × (done ≡ false → (l'.le_count ≡ l.le_count) × (g'.free_pe ≡ 0))
      × Books.IsValid g'
unfolding lv_extend
lv_extend_lem l g n v = elim (Bool-cases (extend n g).0) [
  | inl done ↦
      rw (done, lv_extend)
        (
          (λ _. omega (arith, x.full done, x.books), λ _. refl),
          ((extend n g).1, refl, x.fresh, x.distinct, x.books),
          (λ _. (refl, omega (arith, x.full done, x.books))),
          (λ e. cc),
          x.valid,
        )
  | inr cut ↦
      rw (cut, lv_extend)
        (
          (λ e. cc, λ room. absurd (omega (arith, x.short cut, x.books))),
          ((extend n g).1, refl, x.fresh, x.distinct, x.books),
          (λ e. cc),
          (λ _. (refl, (x.short cut).0)),
          x.valid,
        )
]
  where
    x : Extended n g (extend n g).0 (extend n g).1 (extend n g).2
    x = extend-Extended n g v

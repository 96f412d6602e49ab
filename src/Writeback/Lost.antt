-- ===== src/Writeback/Lost.antt =====
-- demos/writeback/wb_sim.c: a page that is written to between the write to the device and the change of
-- its flags.
use os_kernel_from_scratch.Common.{
  ℕ, zero, suc, ◌+◌, ◌≤◌, ◌<◌, ◌≡◌, refl, sym, ap, ◌∙◌, inl, inr, Bool, true, false, List, [], ◌∷◌,
  arith, ltb, ◌==◌, if◌then◌else◌, Bool-cases, length, length-set, get_or-set, get_or-out, total,
  dec_lt,
}
use mathlib.Core.Path.{subst}
use os_kernel_from_scratch.Common.Nodes.{count, list_del}
use os_kernel_from_scratch.Writeback.{
  InodeWbState, Writeback, no_inode, page_at, inode_at, drop_dirty, mark_page_dirty, take_page,
  device_write, settle_page, write_page, write_pages, set_in_progress, writeback_inode,
  writeback_if_dirty, writeback_from, writeback_all_inodes,
}
use os_kernel_from_scratch.Writeback.Books.{IsValid, holds_page, le-inode}
use os_kernel_from_scratch.Writeback.Races.{taken_dirty, written_clean, written_unlisted}

-- How often the device has got a page.
unfoldable pub writes_of : ℕ → List (ℕ × ℕ) → ℕ
writes_of p [] = 0
writes_of p (w ∷ log) = (if w.0 == p then 1 else 0) + writes_of p log

count-list_del_zero : (p q : ℕ) (xs : List ℕ) → count p xs ≡ 0 → count p (list_del q xs) ≡ 0
unfolding count list_del
count-list_del_zero p q [] h = refl
count-list_del_zero p q (x ∷ xs) h = ground (arith, count-list_del_zero p q xs)

-- No list holds page `p`.
abbrev Absent : ℕ → Writeback → Type 0
Absent p wb = (j : ℕ) → count p (inode_at wb j).dirty_pages ≡ 0

-- From a state with no list that holds `p` to another, with no write of `p`.
record Passes (p : ℕ) (wb wb' : Writeback) : Type 0 where
  absent : Absent p wb'
  size : length wb'.inodes ≡ length wb.inodes
  log : writes_of p wb'.written ≡ writes_of p wb.written

Passes-trans : (p : ℕ) (a b c : Writeback) → Passes p a b → Passes p b c → Passes p a c
Passes-trans p a b c x y = record { absent = y.absent; size = y.size ∙ x.size; log = y.log ∙ x.log }

module _ (p i : ℕ) where
  page-Passes :
      (wb : Writeback) (q : ℕ)
      → i < length wb.inodes
      → Absent p wb
      → (q == p) ≡ false
      → Passes p wb (write_page (take_page wb i q) q)
  unfolding write_page device_write settle_page take_page drop_dirty writes_of
  page-Passes wb q inside h other = record {
    absent = λ j.
        ap (λ d. count p d.dirty_pages)
          (get_or-set wb.inodes i j (drop_dirty (inode_at wb i) q) no_inode inside)
        ∙ elim (Bool-cases (j == i)) [
          | inl e ↦ rw e (count-list_del_zero p q (inode_at wb i).dirty_pages (h i))
          | inr e ↦ rw e (h j)
        ];
    size = length-set wb.inodes i (drop_dirty (inode_at wb i) q);
    log = ground (arith, other);
  }

  pages-Passes :
      (wb : Writeback) (qs : List ℕ)
      → i < length wb.inodes
      → Absent p wb
      → count p qs ≡ 0
      → Passes p wb (write_pages wb i qs)
  unfolding write_pages count
  pages-Passes wb [] inside h c = record { absent = h; size = refl; log = refl }
  pages-Passes wb (q ∷ qs) inside h c =
      let first = page-Passes wb q inside h (ground arith) in
      Passes-trans p wb (write_page (take_page wb i q) q) (write_pages wb i (q ∷ qs)) first (
        pages-Passes (write_page (take_page wb i q) q) qs (omega (arith, first.size)) first.absent
          (ground arith))

  progress-Passes :
      (b : Bool) (wb : Writeback)
      → i < length wb.inodes
      → Absent p wb
      → Passes p wb (set_in_progress b wb i)
  unfolding set_in_progress
  progress-Passes b wb inside h = record {
    absent = λ j.
        ap (λ d. count p d.dirty_pages)
          (get_or-set wb.inodes i j (record (inode_at wb i) { writeback_in_progress = b }) no_inode
            inside)
        ∙ elim (Bool-cases (j == i)) [ inl e ↦ rw e (h i) | inr e ↦ rw e (h j) ];
    size = length-set wb.inodes i (record (inode_at wb i) { writeback_in_progress = b });
    log = refl;
  }

  inode-Passes :
      (wb : Writeback) → i < length wb.inodes → Absent p wb → Passes p wb (writeback_if_dirty wb i)
  unfolding writeback_if_dirty writeback_inode
  inode-Passes wb inside h = elim (Bool-cases (ltb 0 (inode_at wb i).nr_dirty)) [
    | inr e ↦ rw e (record { absent = h; size = refl; log = refl })
    | inl e ↦
        let a = progress-Passes true wb inside h in
        let b =
          pages-Passes (set_in_progress true wb i) (inode_at wb i).dirty_pages
            (omega (arith, a.size)) a.absent (h i) in
        let c =
          progress-Passes false
            (write_pages (set_in_progress true wb i) i (inode_at wb i).dirty_pages)
            (omega (arith, a.size, b.size)) b.absent in
        rw e (Passes-trans p _ _ _ a (Passes-trans p _ _ _ b c))
  ]

from-Passes :
    (p : ℕ) (wb : Writeback) (i k : ℕ)
    → i + k ≤ length wb.inodes
    → Absent p wb
    → Passes p wb (writeback_from wb i k)
unfolding writeback_from
from-Passes p wb i zero le h = record { absent = h; size = refl; log = refl }
from-Passes p wb i (suc k) le h =
    let first = inode-Passes p i wb (omega arith) h in
    Passes-trans p wb (writeback_if_dirty wb i) (writeback_from wb i (suc k)) first
      (from-Passes p (writeback_if_dirty wb i) (i + 1) k (omega (arith, first.size)) first.absent)

unlisted-Absent : (p : ℕ) (wb : Writeback) → total (holds_page p) wb.inodes ≡ 0 → Absent p wb
unfolding count
unlisted-Absent p wb h j = elim (dec_lt j (length wb.inodes)) [
  | yes lt ↦ omega (arith, h, le-inode wb j lt (holds_page p))
  | no ge ↦
      ap (λ (d : InodeWbState). count p d.dirty_pages)
        (get_or-out wb.inodes j no_inode (omega arith))
]

-- What write-back has done when it has handed the page to the device.
abbrev handed : Writeback → ℕ → ℕ → Writeback
handed wb i p = device_write (take_page wb i p) p

module _ (wb : Writeback) (i p : ℕ) (inside : i < length wb.inodes) (v : IsValid wb)
    (listed : 1 ≤ count p (inode_at wb i).dirty_pages) where
  mark-handed : (page_size : ℕ) → mark_page_dirty page_size (handed wb i p) p i ≡ handed wb i p
  unfolding mark_page_dirty device_write
  mark-handed page_size = rw (taken_dirty wb i p inside v listed) refl

  writes_of-handed : writes_of p (handed wb i p).written ≡ writes_of p wb.written + 1
  unfolding device_write take_page writes_of
  writes_of-handed = ground arith

  written-settle_page : (settle_page (handed wb i p) p).written ≡ (handed wb i p).written
  unfolding settle_page
  written-settle_page = refl

  settled_clean : (page_at (settle_page (handed wb i p) p) p).dirty ≡ false
  unfolding write_page
  settled_clean = written_clean wb i p inside v listed

  settled_unlisted : total (holds_page p) (settle_page (handed wb i p) p).inodes ≡ 0
  unfolding write_page
  settled_unlisted = written_unlisted wb i p inside v listed

  settled_Passes :
      Passes p
        (settle_page (handed wb i p) p)
        (writeback_all_inodes (settle_page (handed wb i p) p))
  unfolding writeback_all_inodes
  settled_Passes =
      from-Passes p (settle_page (handed wb i p) p) 0
        (length (settle_page (handed wb i p) p).inodes) (omega arith)
        (unlisted-Absent p (settle_page (handed wb i p) p) settled_unlisted)

-- A dirty page of an inode, in a state whose counts, lists and flags agree. Write-back takes the page
-- and hands it to the device; then, before write-back goes on, another thread writes to the page
-- and marks it dirty; then write-back changes the flags. The mark has no effect: the page is clean,
-- on no list, and has been handed to the device once, before the other thread's write; and writing
-- all inodes back from there does not hand it to the device again. That write is lost.
pub write_during_io_lost :
    (wb : Writeback) (i p page_size : ℕ)
    → i < length wb.inodes
    → IsValid wb
    → 1 ≤ count p (inode_at wb i).dirty_pages
    → let handed = device_write (take_page wb i p) p in
      let done = settle_page (mark_page_dirty page_size handed p i) p in
      (done.written ≡ handed.written)
      × (writes_of p handed.written ≡ writes_of p wb.written + 1)
      × ((page_at done p).dirty ≡ false)
      × (total (holds_page p) done.inodes ≡ 0)
      × (writes_of p (writeback_all_inodes done).written ≡ writes_of p handed.written)
write_during_io_lost wb i p page_size inside v listed =
    subst
      (λ m.
        ((settle_page m p).written ≡ (handed wb i p).written)
        × (writes_of p (handed wb i p).written ≡ writes_of p wb.written + 1)
        × ((page_at (settle_page m p) p).dirty ≡ false)
        × (total (holds_page p) (settle_page m p).inodes ≡ 0)
        × (writes_of p (writeback_all_inodes (settle_page m p)).written
            ≡ writes_of p (handed wb i p).written))
      (sym (mark-handed wb i p inside v listed page_size))
      (
        written-settle_page wb i p inside v listed,
        writes_of-handed wb i p inside v listed,
        settled_clean wb i p inside v listed,
        settled_unlisted wb i p inside v listed,
        (settled_Passes wb i p inside v listed).log
            ∙ ap (writes_of p) (written-settle_page wb i p inside v listed),
      )

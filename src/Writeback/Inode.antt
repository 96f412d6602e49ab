-- ===== src/Writeback/Inode.antt =====
-- demos/writeback/wb_sim.c: what writeback_inode and fsync_inode leave.
use os_kernel_from_scratch.Common.{ℕ, ◌<◌}
use os_kernel_from_scratch.Common.{◌≡◌, refl, sym, ap, ◌∙◌, ◌≢◌, inl, inr}
use os_kernel_from_scratch.Common.{true, false}
use os_kernel_from_scratch.Common.{List, [], ◌∷◌}
use os_kernel_from_scratch.Common.{arith, ltb, ◌==◌, if◌then◌else◌}
use os_kernel_from_scratch.Common.{Bool-cases, length, set}
use os_kernel_from_scratch.Common.{length-set}
use os_kernel_from_scratch.Common.{get_or-set, total, get_or-set_self, get_or-set_ne}
use os_kernel_from_scratch.Common.Nodes.{count}
use os_kernel_from_scratch.Writeback.{
  InodeWbState, Writeback, no_inode, page_at, inode_at, write_pages, set_in_progress,
  writeback_inode,
}
use os_kernel_from_scratch.Writeback.Books.{IsValid, dirty_length, holds_page, total-inode}
use os_kernel_from_scratch.Writeback.Flush.{cleaned, writes, Flushed, write_pages-Flushed}

-- An inode whose flags change, its list and count not.
module _ (wb : Writeback) (i : ℕ) (state : InodeWbState) (inside : i < length wb.inodes)
    (v : IsValid wb) (lists : state.dirty_pages ≡ (inode_at wb i).dirty_pages)
    (nr : state.nr_dirty ≡ (inode_at wb i).nr_dirty) where
  pub flags-IsValid : IsValid (record wb { inodes = set wb.inodes i state })
  flags-IsValid = record {
    counted = λ j. rw (get_or-set wb.inodes i j state no_inode inside) (elim (Bool-cases (j == i)) [
      | inl e ↦ rw e (nr ∙ v.counted i ∙ ap (λ (l : List ℕ). length l) (sym lists))
      | inr e ↦ rw e (v.counted j)
    ]);
    summed = omega (
      arith,
      v.summed,
      total-inode wb i inside dirty_length state,
      ap (λ (l : List ℕ). length l) lists,
    );
    flagged = λ q. kept q ∙ v.flagged q;
    small = v.small;
  }
    where
      kept : (q : ℕ) → total (holds_page q) (set wb.inodes i state) ≡ total (holds_page q) wb.inodes
      kept q = omega (arith, total-inode wb i inside (holds_page q) state, ap (count q) lists)

-- `wb'` is `wb` with the dirty pages of inode `i` clean and on the device.
pub record Written (wb : Writeback) (i : ℕ) (wb' : Writeback) : Type 0 where
  pub valid : IsValid wb'
  pub pages :
      (q : ℕ)
      → page_at wb' q ≡ (
          if ltb 0 (count q (inode_at wb i).dirty_pages)
          then cleaned (page_at wb q)
          else page_at wb q)
  pub own :
      inode_at wb' i
      ≡ record (inode_at wb i) { dirty_pages = []; nr_dirty = 0; writeback_in_progress = false }
  pub others : (j : ℕ) → j ≢ i → inode_at wb' j ≡ inode_at wb j
  pub size : length wb'.inodes ≡ length wb.inodes
  pub log : wb'.written ≡ writes wb (inode_at wb i).dirty_pages wb.written

module _ (wb : Writeback) (i : ℕ) (inside : i < length wb.inodes) (v : IsValid wb) where
  begun : Writeback
  begun = set_in_progress true wb i

  begun_own : inode_at begun i ≡ record (inode_at wb i) { writeback_in_progress = true }
  unfolding begun set_in_progress
  begun_own =
      get_or-set_self wb.inodes i (record (inode_at wb i) { writeback_in_progress = true }) no_inode
        inside

  begun_size : length begun.inodes ≡ length wb.inodes
  unfolding begun set_in_progress
  begun_size = length-set wb.inodes i (record (inode_at wb i) { writeback_in_progress = true })

  flushed :
      Flushed begun i (inode_at wb i).dirty_pages (write_pages begun i (inode_at wb i).dirty_pages)
  unfolding begun set_in_progress
  flushed =
      write_pages-Flushed begun i (inode_at wb i).dirty_pages (omega (arith, begun_size))
        (flags-IsValid wb i (record (inode_at wb i) { writeback_in_progress = true }) inside v refl
          refl)
        (ap (λ (d : InodeWbState). d.dirty_pages) begun_own)

  -- Write-back of an inode, in a state whose counts, lists and flags agree, hands each dirty page of
  -- the inode to the device with its offset, in the order of the list, leaves these pages clean
  -- and synced and the inode with none, touches no other page and no other inode, and counts,
  -- lists and flags agree again.
  pub writeback_inode_lem : Written wb i (writeback_inode wb i)
  unfolding writeback_inode begun set_in_progress
  writeback_inode_lem = record {
    valid =
        flags-IsValid flat i (record (inode_at flat i) { writeback_in_progress = false }) room
          flushed.valid refl refl;
    pages = flushed.pages;
    own =
        get_or-set_self flat.inodes i (record (inode_at flat i) { writeback_in_progress = false })
          no_inode room
        ∙ ap (λ (d : InodeWbState). record d { writeback_in_progress = false })
            (flushed.own
              ∙ ap (λ (d : InodeWbState). record d { dirty_pages = []; nr_dirty = 0 }) begun_own);
    others = λ j n.
        get_or-set_ne flat.inodes i j (record (inode_at flat i) { writeback_in_progress = false })
          no_inode (λ e. n (sym e))
        ∙ flushed.others j n
        ∙ get_or-set_ne wb.inodes i j (record (inode_at wb i) { writeback_in_progress = true })
            no_inode (λ e. n (sym e));
    size =
        length-set flat.inodes i (record (inode_at flat i) { writeback_in_progress = false })
        ∙ flushed.size
        ∙ begun_size;
    log = flushed.log ∙ same_writes (inode_at wb i).dirty_pages wb.written;
  }
    where
      flat : Writeback
      flat = write_pages begun i (inode_at wb i).dirty_pages

      room : i < length flat.inodes
      room = omega (arith, flushed.size, begun_size)

      same_writes : (ps : List ℕ) (l : List (ℕ × ℕ)) → writes begun ps l ≡ writes wb ps l
      same_writes [] l = refl
      same_writes (p ∷ ps) l = same_writes ps ((p, (page_at wb p).offset) ∷ l)

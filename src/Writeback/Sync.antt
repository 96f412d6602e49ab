-- ===== src/Writeback/Sync.antt =====
-- demos/writeback/wb_sim.c: fsync_inode, writeback_all_inodes, the threshold and the flush thread.
use os_kernel_from_scratch.Common.{ℕ, suc, ◌<◌}
use os_kernel_from_scratch.Common.{◌≡◌, refl, sym, ap, ◌∙◌, inl, inr}
use os_kernel_from_scratch.Common.{true, false, not, ◌&&◌}
use os_kernel_from_scratch.Common.{some, List, [], ◌∷◌}
use os_kernel_from_scratch.Common.{arith, ltb, ◌==◌, if◌then◌else◌}
use os_kernel_from_scratch.Common.{Bool-cases, length}
use os_kernel_from_scratch.Common.{length-set}
use os_kernel_from_scratch.Common.{get_or-set_self}
use os_kernel_from_scratch.Common.Nodes.{count}
use os_kernel_from_scratch.Writeback.{
  InodeWbState, Writeback, no_inode, page_at, inode_at, writeback_if_dirty, fsync_wait,
  set_flush_pending, fsync_inode,
}
use os_kernel_from_scratch.Writeback.Books.{IsValid}
use os_kernel_from_scratch.Writeback.Flush.{cleaned, writes}
use os_kernel_from_scratch.Writeback.Inode.{Written, writeback_inode_lem, flags-IsValid}

length_zero {ℓ} : {A : Type ℓ} (xs : List A) → length xs ≡ 0 → xs ≡ []
length_zero [] h = refl
length_zero (x ∷ xs) h = absurd (omega arith)

own_same :
    (state : InodeWbState)
    → state.dirty_pages ≡ []
    → state.nr_dirty ≡ 0
    → state.writeback_in_progress ≡ false
    → state ≡ record state { dirty_pages = []; nr_dirty = 0; writeback_in_progress = false }
own_same state e f g =
    λ k. record state { dirty_pages = e k; nr_dirty = f k; writeback_in_progress = g k }

-- An inode with nothing to write is as write-back leaves it.
clean-Written :
    (wb : Writeback) (i : ℕ)
    → IsValid wb
    → (inode_at wb i).writeback_in_progress ≡ false
    → (inode_at wb i).nr_dirty ≡ 0
    → Written wb i wb
unfolding count
clean-Written wb i v calm e = record {
  valid = v;
  pages = λ q. none_listed q (inode_at wb i).dirty_pages empty;
  own = own_same (inode_at wb i) empty e calm;
  others = λ j n. refl;
  size = refl;
  log = sym (ap (λ (l : List ℕ). writes wb l wb.written) empty);
}
  where
    empty : (inode_at wb i).dirty_pages ≡ []
    empty = length_zero (inode_at wb i).dirty_pages (sym (v.counted i) ∙ e)

    nothing :
        (q : ℕ)
        → page_at wb q ≡ (if ltb 0 (count q []) then cleaned (page_at wb q) else page_at wb q)
    nothing q = refl

    none_listed :
        (q : ℕ) (l : List ℕ)
        → l ≡ []
        → page_at wb q ≡ (if ltb 0 (count q l) then cleaned (page_at wb q) else page_at wb q)
    none_listed q l h = rw h (nothing q)

pub writeback_if_dirty-Written :
    (wb : Writeback) (i : ℕ)
    → i < length wb.inodes
    → IsValid wb
    → (inode_at wb i).writeback_in_progress ≡ false
    → Written wb i (writeback_if_dirty wb i)
unfolding writeback_if_dirty
writeback_if_dirty-Written wb i inside v calm = elim (Bool-cases (ltb 0 (inode_at wb i).nr_dirty)) [
  | inl e ↦ rw e (writeback_inode_lem wb i inside v)
  | inr e ↦ rw e (clean-Written wb i v calm (ground arith))
]

wait_over :
    (other : ℕ → Writeback → Writeback) (fuel : ℕ) (wb : Writeback) (i : ℕ)
    → (inode_at wb i).nr_dirty ≡ 0
    → (inode_at wb i).writeback_in_progress ≡ false
    → fsync_wait other (suc fuel) wb i ≡ some wb
unfolding fsync_wait
wait_over other fuel wb i e f =
    let b : ((inode_at wb i).nr_dirty == 0 && not (inode_at wb i).writeback_in_progress) ≡ true =
      ground arith in
    rw (b, fsync_wait) refl

module _ (other : ℕ → Writeback → Writeback) (fuel : ℕ) (wb : Writeback) (i : ℕ) where
  pending : Writeback
  pending = set_flush_pending wb i

  pending_own :
      i < length wb.inodes → inode_at pending i ≡ record (inode_at wb i) { flush_pending = true }
  unfolding pending set_flush_pending
  pending_own inside =
      get_or-set_self wb.inodes i (record (inode_at wb i) { flush_pending = true }) no_inode inside

  pending-Written :
      i < length wb.inodes
      → IsValid wb
      → (inode_at wb i).writeback_in_progress ≡ false
      → Written pending i (writeback_if_dirty pending i)
  unfolding pending set_flush_pending
  pending-Written inside v calm =
      writeback_if_dirty-Written pending i
        (omega (arith, length-set wb.inodes i (record (inode_at wb i) { flush_pending = true })))
        (flags-IsValid wb i (record (inode_at wb i) { flush_pending = true }) inside v refl refl)
        (ap (λ (d : InodeWbState). d.writeback_in_progress) (pending_own inside) ∙ calm)

  -- fsync of an inode that nobody is writing back returns in the first round of its wait, in a state
  -- whose counts, lists and flags agree, with no dirty page left in the inode. The dirty pages
  -- that it had are clean and on the device, in the order of the list. `flush_pending` stays set.
  pub fsync_inode_lem :
      i < length wb.inodes
      → IsValid wb
      → (inode_at wb i).writeback_in_progress ≡ false
      → (wb' : Writeback) × (fsync_inode other (suc fuel) wb i ≡ some wb')
        × IsValid wb'
        × (inode_at wb' i ≡ record (inode_at wb i) {
          dirty_pages = [];
          nr_dirty = 0;
          writeback_in_progress = false;
          flush_pending = true;
        })
        × ((q : ℕ)
            → page_at wb' q ≡ (
                if ltb 0 (count q (inode_at wb i).dirty_pages)
                then cleaned (page_at wb q)
                else page_at wb q))
        × (wb'.written ≡ writes wb (inode_at wb i).dirty_pages wb.written)
  unfolding fsync_inode pending set_flush_pending
  fsync_inode_lem inside v calm = (
    writeback_if_dirty pending i,
    wait_over other fuel (writeback_if_dirty pending i) i
        (ap (λ (d : InodeWbState). d.nr_dirty) now)
        (ap (λ (d : InodeWbState). d.writeback_in_progress) now),
    w.valid,
    now,
    (λ q.
        w.pages q
        ∙ ap (λ (l : List ℕ). if ltb 0 (count q l) then cleaned (page_at wb q) else page_at wb q)
            lists),
    w.log
        ∙ ap (λ (l : List ℕ). writes pending l wb.written) lists
        ∙ same_writes (inode_at wb i).dirty_pages wb.written,
  )
    where
      w : Written pending i (writeback_if_dirty pending i)
      w = pending-Written inside v calm

      lists : (inode_at pending i).dirty_pages ≡ (inode_at wb i).dirty_pages
      lists = ap (λ (d : InodeWbState). d.dirty_pages) (pending_own inside)

      now : inode_at (writeback_if_dirty pending i) i ≡ record (inode_at wb i) {
        dirty_pages = [];
        nr_dirty = 0;
        writeback_in_progress = false;
        flush_pending = true;
      }
      now =
          w.own
          ∙ ap
              (λ (d : InodeWbState). record d {
                dirty_pages = [];
                nr_dirty = 0;
                writeback_in_progress = false;
              })
              (pending_own inside)

      same_writes : (ps : List ℕ) (l : List (ℕ × ℕ)) → writes pending ps l ≡ writes wb ps l
      same_writes [] l = refl
      same_writes (p ∷ ps) l = same_writes ps ((p, (page_at wb p).offset) ∷ l)

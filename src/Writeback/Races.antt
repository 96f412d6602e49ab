-- ===== src/Writeback/Races.antt =====
-- demos/writeback/wb_sim.c: what other threads may do while writeback_inode has released the lock
-- to write a page.
use os_kernel_from_scratch.Common.{ℕ, zero, suc, ◌-◌, ◌^◌, ◌≤◌, ◌<◌}
use os_kernel_from_scratch.Common.{◌≡◌, refl, ap, ◌∙◌, ◌≢◌}
use os_kernel_from_scratch.Common.{true, false, not, ◌&&◌}
use os_kernel_from_scratch.Common.{none, List, [], ◌∷◌}
use os_kernel_from_scratch.Common.{arith, ◌==◌}
use os_kernel_from_scratch.Common.{length}
use os_kernel_from_scratch.Common.{length-set}
use os_kernel_from_scratch.Common.{total, get_or-set_self}
use os_kernel_from_scratch.Common.Nodes.{count, count-list_del}
use os_kernel_from_scratch.Writeback.{
  Page, InodeWbState, Writeback, no_page, no_inode, page_at, inode_at, drop_dirty,
  unmark_page_dirty, remove_dirty, take_page, write_page, device_write, settle_page, fsync_wait,
}
use os_kernel_from_scratch.Writeback.Books.{IsValid, holds_page, listed_dirty, total-inode}

module _ (wb : Writeback) (i p : ℕ) (inside : i < length wb.inodes) (v : IsValid wb)
    (listed : 1 ≤ count p (inode_at wb i).dirty_pages) where
  taken_page : page_at (take_page wb i p) p ≡ record (page_at wb p) { synced = false }
  unfolding take_page
  taken_page =
      get_or-set_self wb.pages p (record (page_at wb p) { synced = false }) no_page
        (listed_dirty wb i inside v p listed).1

  pub taken_dirty : (page_at (take_page wb i p) p).dirty ≡ true
  taken_dirty = ap (λ (g : Page). g.dirty) taken_page ∙ (listed_dirty wb i inside v p listed).0

  taken_inode : inode_at (take_page wb i p) i ≡ drop_dirty (inode_at wb i) p
  unfolding take_page
  taken_inode = get_or-set_self wb.inodes i (drop_dirty (inode_at wb i) p) no_inode inside

  pub written_clean : (page_at (write_page (take_page wb i p) p) p).dirty ≡ false
  unfolding write_page device_write settle_page take_page
  written_clean =
      ap (λ (g : Page). g.dirty)
        (get_or-set_self (take_page wb i p).pages p
          (record (page_at (take_page wb i p) p) { synced = true; dirty = false }) no_page
          (omega (
            arith,
            listed_dirty wb i inside v p listed,
            length-set wb.pages p (record (page_at wb p) { synced = false }),
          )))

  pub written_unlisted : total (holds_page p) (write_page (take_page wb i p) p).inodes ≡ 0
  unfolding write_page device_write settle_page take_page drop_dirty
  written_unlisted = ground (
    arith,
    total-inode wb i inside (holds_page p) (drop_dirty (inode_at wb i) p),
    count-list_del p p (inode_at wb i).dirty_pages listed,
    v.flagged p,
    (listed_dirty wb i inside v p listed).0,
  )

take_size : (wb : Writeback) (i p : ℕ) → length (take_page wb i p).inodes ≡ length wb.inodes
unfolding take_page
take_size wb i p = length-set wb.inodes i (drop_dirty (inode_at wb i) p)

dropped_twice :
    (d : InodeWbState) (p : ℕ)
    → d.nr_dirty ≡ 1
    → (drop_dirty (drop_dirty d p) p).nr_dirty ≡ 2 ^ 32 - 1
unfolding drop_dirty
dropped_twice d p e = omega (arith, e)

unmarked_twice :
    (wb : Writeback) (i p : ℕ)
    → i < length wb.inodes
    → IsValid wb
    → (inode_at wb i).dirty_pages ≡ p ∷ []
    → (inode_at (write_page (unmark_page_dirty (take_page wb i p) p i) p) i).nr_dirty ≡ 2 ^ 32 - 1
unfolding unmark_page_dirty remove_dirty write_page device_write settle_page count
unmarked_twice wb i p inside v one = rw (taken_dirty wb i p inside v on) (
    ap (λ (d : InodeWbState). d.nr_dirty)
      (get_or-set_self (take_page wb i p).inodes i (drop_dirty (inode_at (take_page wb i p) i) p)
        no_inode room)
    ∙ ap (λ (d : InodeWbState). (drop_dirty d p).nr_dirty) (taken_inode wb i p inside v on)
    ∙ dropped_twice (inode_at wb i) p (v.counted i ∙ ap (λ (l : List ℕ). length l) one))
  where
    on : 1 ≤ count p (inode_at wb i).dirty_pages
    on = rw one (ground arith)

    room : i < length (take_page wb i p).inodes
    room = omega (arith, take_size wb i p)

-- A wait for an inode whose count is not 0, while no other thread does anything, does not end.
wait_stuck :
    (fuel : ℕ) (wb : Writeback) (i : ℕ)
    → (inode_at wb i).nr_dirty ≢ 0
    → fsync_wait (λ _ w. w) fuel wb i ≡ none
unfolding fsync_wait
wait_stuck zero wb i h = refl
wait_stuck (suc fuel) wb i h =
    let b : ((inode_at wb i).nr_dirty == 0 && not (inode_at wb i).writeback_in_progress) ≡ false =
      ground arith in
    rw (b, fsync_wait) (wait_stuck fuel wb i h)

-- The only dirty page of an inode, in a state whose counts, lists and flags agree. When a thread
-- takes the mark off the page while write-back is writing it, it is counted out twice: the
-- inode's count is 2 ^ 32 - 1 when the write is over, and from then on a wait for it to be 0
-- ends after no number of rounds unless another thread changes the state.
pub unmark_during_io_stuck :
    (wb : Writeback) (i p : ℕ)
    → i < length wb.inodes
    → IsValid wb
    → (inode_at wb i).dirty_pages ≡ p ∷ []
    → ((inode_at (write_page (unmark_page_dirty (take_page wb i p) p i) p) i).nr_dirty ≡ 2 ^ 32 - 1)
      × ((fuel : ℕ)
          → fsync_wait (λ _ w. w) fuel (write_page (unmark_page_dirty (take_page wb i p) p i) p) i
            ≡ none)
unmark_during_io_stuck wb i p inside v one = (
  twice,
  λ fuel.
      wait_stuck fuel (write_page (unmark_page_dirty (take_page wb i p) p i) p) i
        (λ e. absurd (omega (arith, e, twice))),
)
  where
    twice :
        (inode_at (write_page (unmark_page_dirty (take_page wb i p) p i) p) i).nr_dirty ≡ 2 ^ 32 - 1
    twice = unmarked_twice wb i p inside v one

-- ===== src/Tests/WritebackTests.antt =====
-- Runs of demos/writeback/wb_sim.c, and the theorems about it at two pages of two inodes.
use os_kernel_from_scratch.Common.{◌+◌, ℕ, zero, suc, ◌*◌, ◌/◌, ◌≤◌, ◌<◌}
use os_kernel_from_scratch.Common.{◌≡◌, refl, ◌⊎◌}
use os_kernel_from_scratch.Common.{true, false}
use os_kernel_from_scratch.Common.{some, [], ◌∷◌}
use os_kernel_from_scratch.Common.{arith, ltb, if◌then◌else◌}
use os_kernel_from_scratch.Common.{length}
use os_kernel_from_scratch.Common.{total}
use os_kernel_from_scratch.Common.Nodes.{count}
use os_kernel_from_scratch.Writeback.{
  Page, Writeback, page_at, inode_at, inode_wb_state_init, add_dirty, mark_page_dirty, drop_dirty,
  take_page, device_write, settle_page, write_page, write_pages, set_in_progress, writeback_inode,
  writeback_all_inodes, fsync_inode, flush_round,
}
use os_kernel_from_scratch.Writeback.Books.{IsValid, holds_page, mark_page_dirty-IsValid}
use os_kernel_from_scratch.Writeback.Flush.{cleaned, writes}
use os_kernel_from_scratch.Writeback.Inode.{Written, writeback_inode_lem}
use os_kernel_from_scratch.Writeback.Sync.{fsync_inode_lem}
use os_kernel_from_scratch.Writeback.Global.{Calm, writeback_all_inodes_lem, flush_round_lem}
use os_kernel_from_scratch.Writeback.Lost.{writes_of, write_during_io_lost}

abbrev page : ℕ → Page
page index = record { index = index; dirty = false; owner = 0; offset = 0; synced = false }

abbrev clean : Writeback
unfolding inode_wb_state_init
clean = record {
  pages = page 0 ∷ page 3 ∷ [];
  inodes = inode_wb_state_init ∷ inode_wb_state_init ∷ [];
  g_dirty_count = 0;
  written = [];
}

abbrev one_dirty : Writeback
unfolding clean mark_page_dirty add_dirty
one_dirty = mark_page_dirty 4096 clean 1 0

clean-IsValid : IsValid clean
unfolding clean total count inode_wb_state_init
clean-IsValid = record {
  counted = λ i. counted' i;
  summed = refl;
  flagged = λ p. flagged' p;
  small = omega arith;
}
  where
    counted' : (i : ℕ) → (inode_at clean i).nr_dirty ≡ length (inode_at clean i).dirty_pages
    counted' zero = refl
    counted' (suc zero) = refl
    counted' (suc (suc i)) = refl

    flagged' :
        (p : ℕ) → total (holds_page p) clean.inodes ≡ (if (page_at clean p).dirty then 1 else 0)
    flagged' zero = refl
    flagged' (suc zero) = refl
    flagged' (suc (suc p)) = refl

one_dirty-IsValid : IsValid one_dirty
unfolding one_dirty clean
one_dirty-IsValid =
    mark_page_dirty-IsValid clean 0 (omega arith) clean-IsValid 4096 1 (omega arith) (omega arith)

one_dirty-Calm : Calm one_dirty
unfolding one_dirty clean inode_wb_state_init mark_page_dirty add_dirty
one_dirty-Calm zero = refl
one_dirty-Calm (suc zero) = refl
one_dirty-Calm (suc (suc i)) = refl

-- The page at index 3 goes to the device at offset 3 * 4096.
one_dirty_written : (writeback_inode one_dirty 0).written ≡ (1, 12288) ∷ []
unfolding one_dirty clean inode_wb_state_init mark_page_dirty add_dirty writeback_inode write_pages
    write_page take_page drop_dirty set_in_progress
one_dirty_written = refl

writeback_inode_lem_example : Written one_dirty 0 (writeback_inode one_dirty 0)
unfolding one_dirty clean inode_wb_state_init mark_page_dirty add_dirty
writeback_inode_lem_example = writeback_inode_lem one_dirty 0 (omega arith) one_dirty-IsValid

fsync_inode_lem_example :
    (wb' : Writeback) × (fsync_inode (λ _ w. w) 1 one_dirty 0 ≡ some wb')
    × IsValid wb'
    × (inode_at wb' 0 ≡ record (inode_at one_dirty 0) {
      dirty_pages = [];
      nr_dirty = 0;
      writeback_in_progress = false;
      flush_pending = true;
    })
    × ((q : ℕ)
        → page_at wb' q ≡ (
            if ltb 0 (count q (inode_at one_dirty 0).dirty_pages)
            then cleaned (page_at one_dirty q)
            else page_at one_dirty q))
    × (wb'.written ≡ writes one_dirty (inode_at one_dirty 0).dirty_pages one_dirty.written)
unfolding one_dirty clean inode_wb_state_init mark_page_dirty add_dirty
fsync_inode_lem_example =
    fsync_inode_lem (λ _ w. w) 0 one_dirty 0 (omega arith) one_dirty-IsValid (one_dirty-Calm 0)

writeback_all_inodes_lem_example :
    IsValid (writeback_all_inodes one_dirty)
    × ((writeback_all_inodes one_dirty).g_dirty_count ≡ 0)
    × ((q : ℕ)
        → page_at (writeback_all_inodes one_dirty) q ≡ (
            if (page_at one_dirty q).dirty
            then cleaned (page_at one_dirty q)
            else page_at one_dirty q))
writeback_all_inodes_lem_example =
    writeback_all_inodes_lem one_dirty one_dirty-IsValid one_dirty-Calm

flush_round_lem_example :
    ((40 ≤ 10 * (one_dirty.g_dirty_count * (4096 / 1024)))
      × ((flush_round 4096 40 one_dirty).g_dirty_count ≡ 0)
      × ((q : ℕ) → (page_at (flush_round 4096 40 one_dirty) q).dirty ≡ false))
    ⊎ ((10 * (one_dirty.g_dirty_count * (4096 / 1024)) < 40)
        × (flush_round 4096 40 one_dirty ≡ one_dirty))
unfolding one_dirty clean mark_page_dirty add_dirty
flush_round_lem_example =
    flush_round_lem 4096 40 one_dirty one_dirty-IsValid one_dirty-Calm (omega arith)

write_during_io_lost_example :
    let handed = device_write (take_page one_dirty 0 1) 1 in
    let done = settle_page (mark_page_dirty 4096 handed 1 0) 1 in
    (done.written ≡ handed.written)
    × (writes_of 1 handed.written ≡ writes_of 1 one_dirty.written + 1)
    × ((page_at done 1).dirty ≡ false)
    × (total (holds_page 1) done.inodes ≡ 0)
    × (writes_of 1 (writeback_all_inodes done).written ≡ writes_of 1 handed.written)
unfolding one_dirty clean inode_wb_state_init mark_page_dirty add_dirty count
write_during_io_lost_example =
    write_during_io_lost one_dirty 0 1 4096 (omega arith) one_dirty-IsValid (omega arith)

-- ===== src/Writeback.antt =====
-- demos/writeback/wb_sim.c and wb_sim.h: dirty pages, the dirty lists of inodes, write-back, fsync
-- and the rounds of the flush thread.
pub mod Books
pub mod Flush
pub mod Inode
pub mod Sync
pub mod Global
pub mod Races
pub mod Lost
use os_kernel_from_scratch.Common.{
  ℕ, zero, suc, ◌+◌, ◌-◌, ◌*◌, ◌/◌, ◌%◌, ◌^◌, ◌≤◌, ◌<◌, min, max, bit_and, bit_or, bit_xor,
}
use os_kernel_from_scratch.Common.{◌≡◌, refl, sym, ap, ap₂, ◌∙◌, ◌≢◌, ◌↔◌, ◌⊎◌, inl, inr}
use os_kernel_from_scratch.Common.{Bool, true, false, not, ◌&&◌, ◌||◌}
use os_kernel_from_scratch.Common.{Option, none, some, List, [], ◌∷◌, ◌++◌, map}
use os_kernel_from_scratch.Common.{arith, dec_lt, ℕ_discrete, ltb, leb, ◌==◌, if◌then◌else◌}
use os_kernel_from_scratch.Common.{Bool-cases, Option-cases, length, get_elem?, get_or, set}
use os_kernel_from_scratch.Common.{take, drop, replicate, length-set, length-append}
use os_kernel_from_scratch.Common.Nodes.{list_del}

-- A page with its `struct dirty_page`, to which `private` points.
pub record Page : Type 0 where
  pub index : ℕ
  pub dirty : Bool
  pub owner : ℕ
  pub offset : ℕ
  pub synced : Bool

-- `struct inode_wb_state`; the list holds the numbers of pages.
pub record InodeWbState : Type 0 where
  pub dirty_pages : List ℕ
  pub nr_dirty : ℕ
  pub writeback_in_progress : Bool
  pub flush_pending : Bool

-- All pages, `all_inodes`, `g_dirty_count`, and the calls of `block_device_write_page`, each with
-- the page and the offset, the latest first.
pub record Writeback : Type 0 where
  pub pages : List Page
  pub inodes : List InodeWbState
  pub g_dirty_count : ℕ
  pub written : List (ℕ × ℕ)

unfoldable pub inode_wb_state_init : InodeWbState
inode_wb_state_init = record {
  dirty_pages = [];
  nr_dirty = 0;
  writeback_in_progress = false;
  flush_pending = false;
}

abbrev pub no_page : Page
no_page = record { index = 0; dirty = false; owner = 0; offset = 0; synced = false }

abbrev pub no_inode : InodeWbState
no_inode = record {
  dirty_pages = [];
  nr_dirty = 0;
  writeback_in_progress = false;
  flush_pending = false;
}

abbrev pub page_at : Writeback → ℕ → Page
page_at wb p = get_or wb.pages p no_page

abbrev pub inode_at : Writeback → ℕ → InodeWbState
inode_at wb i = get_or wb.inodes i no_inode

-- Put the page at the end of the inode's list, with the offset in `u64`.
unfoldable pub add_dirty : ℕ → Writeback → ℕ → ℕ → Writeback
add_dirty page_size wb p i = record wb {
  pages = set wb.pages p (record (page_at wb p) {
    dirty = true;
    owner = i;
    offset = (page_at wb p).index * page_size % 2 ^ 64;
    synced = false;
  });
  inodes = set wb.inodes i (record (inode_at wb i) {
    dirty_pages = (inode_at wb i).dirty_pages ++ p ∷ [];
    nr_dirty = ((inode_at wb i).nr_dirty + 1) % 2 ^ 32;
  });
  g_dirty_count = (wb.g_dirty_count + 1) % 2 ^ 64;
}

unfoldable pub mark_page_dirty : ℕ → Writeback → ℕ → ℕ → Writeback
mark_page_dirty page_size wb p i = if (page_at wb p).dirty then wb else add_dirty page_size wb p i

-- `list_del` and `nr_dirty--`.
unfoldable pub drop_dirty : InodeWbState → ℕ → InodeWbState
drop_dirty state p = record state {
  dirty_pages = list_del p state.dirty_pages;
  nr_dirty = (state.nr_dirty + 2 ^ 32 - 1) % 2 ^ 32;
}

unfoldable pub remove_dirty : Writeback → ℕ → ℕ → Writeback
remove_dirty wb p i = record wb {
  pages = set wb.pages p (record (page_at wb p) { dirty = false });
  inodes = set wb.inodes i (drop_dirty (inode_at wb i) p);
  g_dirty_count = (wb.g_dirty_count + 2 ^ 64 - 1) % 2 ^ 64;
}

unfoldable pub unmark_page_dirty : Writeback → ℕ → ℕ → Writeback
unmark_page_dirty wb p i = if (page_at wb p).dirty then remove_dirty wb p i else wb

-- `get_available_memory_kb` gives `available`.
unfoldable pub should_start_writeback : ℕ → ℕ → Writeback → Bool
should_start_writeback page_size available wb =
    if available == 0
    then true
    else leb 10 ((wb.g_dirty_count * (page_size / 1024) % 2 ^ 64) * 100 % 2 ^ 64 / available)

-- The round of `writeback_inode` for one page: the part under the lock of the inode, and, after it is
-- released, the write to the device and then the change of the flags and the count.
unfoldable pub take_page : Writeback → ℕ → ℕ → Writeback
take_page wb i p = record wb {
  pages = set wb.pages p (record (page_at wb p) { synced = false });
  inodes = set wb.inodes i (drop_dirty (inode_at wb i) p);
}

unfoldable pub device_write : Writeback → ℕ → Writeback
device_write wb p = record wb { written = (p, (page_at wb p).offset) ∷ wb.written }

unfoldable pub settle_page : Writeback → ℕ → Writeback
settle_page wb p = record wb {
  pages = set wb.pages p (record (page_at wb p) { synced = true; dirty = false });
  g_dirty_count = (wb.g_dirty_count + 2 ^ 64 - 1) % 2 ^ 64;
}

unfoldable pub write_page : Writeback → ℕ → Writeback
unfolding device_write settle_page
write_page wb p = settle_page (device_write wb p) p

unfoldable pub write_pages : Writeback → ℕ → List ℕ → Writeback
write_pages wb i [] = wb
write_pages wb i (p ∷ ps) = write_pages (write_page (take_page wb i p) p) i ps

unfoldable pub set_in_progress : Bool → Writeback → ℕ → Writeback
set_in_progress b wb i = record wb {
  inodes = set wb.inodes i (record (inode_at wb i) { writeback_in_progress = b });
}

unfoldable pub writeback_inode : Writeback → ℕ → Writeback
writeback_inode wb i =
    set_in_progress false (write_pages (set_in_progress true wb i) i (inode_at wb i).dirty_pages) i

-- The body of the loops over `all_inodes`.
unfoldable pub writeback_if_dirty : Writeback → ℕ → Writeback
writeback_if_dirty wb i = if ltb 0 (inode_at wb i).nr_dirty then writeback_inode wb i else wb

-- `k` inodes from number `i` on.
unfoldable pub writeback_from : Writeback → ℕ → ℕ → Writeback
writeback_from wb i zero = wb
writeback_from wb i (suc k) = writeback_from (writeback_if_dirty wb i) (i + 1) k

unfoldable pub writeback_all_inodes : Writeback → Writeback
writeback_all_inodes wb = writeback_from wb 0 (length wb.inodes)

-- The wait of `fsync_inode`, with `fuel` rounds; `other n` is what other threads do while the
-- n-th `schedule` lets them run.
unfoldable pub fsync_wait : (ℕ → Writeback → Writeback) → ℕ → Writeback → ℕ → Option Writeback
fsync_wait other zero wb i = none
fsync_wait other (suc fuel) wb i =
    elim ((inode_at wb i).nr_dirty == 0 && not (inode_at wb i).writeback_in_progress) [
      | true ↦ some wb
      | false ↦ fsync_wait other fuel (other fuel wb) i
    ]

unfoldable pub set_flush_pending : Writeback → ℕ → Writeback
set_flush_pending wb i = record wb {
  inodes = set wb.inodes i (record (inode_at wb i) { flush_pending = true });
}

unfoldable pub fsync_inode : (ℕ → Writeback → Writeback) → ℕ → Writeback → ℕ → Option Writeback
fsync_inode other fuel wb i =
    fsync_wait other fuel (writeback_if_dirty (set_flush_pending wb i) i) i

-- One round of `flush_thread_entry`, after its sleep.
unfoldable pub flush_round : ℕ → ℕ → Writeback → Writeback
flush_round page_size available wb =
    if should_start_writeback page_size available wb then writeback_all_inodes wb else wb

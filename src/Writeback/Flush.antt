-- ===== src/Writeback/Flush.antt =====
-- demos/writeback/wb_sim.c: what write-back of an inode, of all inodes, fsync and a round of the
-- flush thread leave.
use os_kernel_from_scratch.Common.{ℕ, ◌+◌, ◌-◌, ◌%◌, ◌^◌, ◌≤◌, ◌<◌}
use os_kernel_from_scratch.Common.{get_or-set}
use os_kernel_from_scratch.Common.{◌≡◌, refl, ap, ap₂, ◌∙◌, ◌≢◌, ◌⊎◌, inl, inr}
use os_kernel_from_scratch.Common.{Bool, true, false}
use os_kernel_from_scratch.Common.{List, [], ◌∷◌}
use os_kernel_from_scratch.Common.{arith, ltb, ◌==◌, if◌then◌else◌}
use os_kernel_from_scratch.Common.{Bool-cases, length, set}
use os_kernel_from_scratch.Common.{length-set}
use os_kernel_from_scratch.Common.{set-set, get_or-set_self}
use os_kernel_from_scratch.Common.Nodes.{count, list_del}
use os_kernel_from_scratch.Writeback.{
  Page, InodeWbState, Writeback, no_page, no_inode, page_at, inode_at, drop_dirty, take_page,
  write_page, write_pages,
}
use os_kernel_from_scratch.Writeback.Books.{IsValid, drop-IsValid, listed_dirty}

-- What the block device got: the pages of the list with their offsets, the last one first.
abbrev pub writes : Writeback → List ℕ → List (ℕ × ℕ) → List (ℕ × ℕ)
writes wb [] log = log
writes wb (p ∷ ps) log = writes wb ps ((p, (page_at wb p).offset) ∷ log)

-- A page that has been written.
abbrev pub cleaned : Page → Page
cleaned g = record g { synced = true; dirty = false }

-- Inode `i` has lost the page at the head of its list, the page is clean and written.
module _ (wb : Writeback) (i p : ℕ) (ps : List ℕ) (inside : i < length wb.inodes) (v : IsValid wb)
    (listed : (inode_at wb i).dirty_pages ≡ p ∷ ps) where
  head_count : 1 ≤ count p (inode_at wb i).dirty_pages
  unfolding count
  head_count = rw listed (ground arith)

  head_del : list_del p (p ∷ ps) ≡ ps
  unfolding list_del
  head_del = ground arith

  after : Writeback
  after = write_page (take_page wb i p) p

  known : p < length wb.pages
  known = (listed_dirty wb i inside v p head_count).1

  after_lem : after ≡ record wb {
    pages = set wb.pages p (cleaned (page_at wb p));
    inodes = set wb.inodes i (drop_dirty (inode_at wb i) p);
    g_dirty_count = (wb.g_dirty_count + 2 ^ 64 - 1) % 2 ^ 64;
    written = (p, (page_at wb p).offset) ∷ wb.written;
  }
  unfolding after write_page take_page
  after_lem =
      rw (get_or-set_self wb.pages p (record (page_at wb p) { synced = false }) no_page known) (
        rw (set-set wb.pages p (record (page_at wb p) { synced = false }) (cleaned (page_at wb p)))
          refl)

  after-IsValid : IsValid after
  unfolding drop_dirty
  after-IsValid =
      drop-IsValid wb i inside v p after (drop_dirty (inode_at wb i) p) (cleaned (page_at wb p))
        head_count refl refl refl (ap (λ (w : Writeback). w.pages) after_lem)
        (ap (λ (w : Writeback). w.inodes) after_lem)
        (ap (λ (w : Writeback). w.g_dirty_count) after_lem)

  after_page : (q : ℕ) → page_at after q ≡ (if q == p then cleaned (page_at wb p) else page_at wb q)
  after_page q =
      ap (λ (w : Writeback). page_at w q) after_lem
      ∙ get_or-set wb.pages p q (cleaned (page_at wb p)) no_page known

  after_inode :
      (j : ℕ)
      → inode_at after j ≡ (
          if j == i
          then record (inode_at wb i) {
            dirty_pages = ps;
            nr_dirty = ((inode_at wb i).nr_dirty + 2 ^ 32 - 1) % 2 ^ 32;
          }
          else inode_at wb j)
  unfolding drop_dirty
  after_inode j =
      ap (λ (w : Writeback). inode_at w j) after_lem
      ∙ get_or-set wb.inodes i j (drop_dirty (inode_at wb i) p) no_inode inside
      ∙ rw listed (rw head_del refl)

  after_size : length after.inodes ≡ length wb.inodes
  after_size =
      ap (λ (w : Writeback). length w.inodes) after_lem
      ∙ length-set wb.inodes i (drop_dirty (inode_at wb i) p)

  after_written : after.written ≡ (p, (page_at wb p).offset) ∷ wb.written
  after_written = ap (λ (w : Writeback). w.written) after_lem

-- What `write_pages` has done when it returns: the pages of the list are clean and on the device,
-- in order, inode `i` has none left, and nothing else has changed.
pub record Flushed (wb : Writeback) (i : ℕ) (ps : List ℕ) (wb' : Writeback) : Type 0 where
  pub valid : IsValid wb'
  pub pages :
      (q : ℕ)
      → page_at wb' q ≡ (if ltb 0 (count q ps) then cleaned (page_at wb q) else page_at wb q)
  pub own : inode_at wb' i ≡ record (inode_at wb i) { dirty_pages = []; nr_dirty = 0 }
  pub others : (j : ℕ) → j ≢ i → inode_at wb' j ≡ inode_at wb j
  pub size : length wb'.inodes ≡ length wb.inodes
  pub log : wb'.written ≡ writes wb ps wb.written

writes-same :
    (wb wb' : Writeback) (ps : List ℕ) (log : List (ℕ × ℕ))
    → ((q : ℕ) → (page_at wb' q).offset ≡ (page_at wb q).offset)
    → writes wb' ps log ≡ writes wb ps log
writes-same wb wb' [] log h = refl
writes-same wb wb' (p ∷ ps) log h =
    rw (h p) (writes-same wb wb' ps ((p, (page_at wb p).offset) ∷ log) h)

clean_twice :
    (g g' g'' : Page) (p q : ℕ) (ps : List ℕ)
    → g' ≡ (if q == p then cleaned g else g)
    → g'' ≡ (if ltb 0 (count q ps) then cleaned g' else g')
    → g'' ≡ (if ltb 0 (count q (p ∷ ps)) then cleaned g else g)
unfolding count
clean_twice g g' g'' p q ps e f = ground (arith, e, f)

cleaned-offset : (g g' : Page) (b : Bool) → g' ≡ (if b then cleaned g else g) → g'.offset ≡ g.offset
cleaned-offset g g' true e = ap (λ (x : Page). x.offset) e
cleaned-offset g g' false e = ap (λ (x : Page). x.offset) e

empty_inode :
    (state : InodeWbState)
    → state.dirty_pages ≡ []
    → state.nr_dirty ≡ 0
    → state ≡ record state { dirty_pages = []; nr_dirty = 0 }
empty_inode state e f =
    ap₂ (λ (l : List ℕ) (n : ℕ). record state { dirty_pages = l; nr_dirty = n }) e f

none-Flushed :
    (wb : Writeback) (i : ℕ) → IsValid wb → (inode_at wb i).dirty_pages ≡ [] → Flushed wb i [] wb
unfolding count
none-Flushed wb i v listed = record {
  valid = v;
  pages = λ q. refl;
  own = empty_inode (inode_at wb i) listed (v.counted i ∙ ap (λ (l : List ℕ). length l) listed);
  others = λ j n. refl;
  size = refl;
  log = refl;
}

module _ (wb : Writeback) (i p : ℕ) (ps : List ℕ) (inside : i < length wb.inodes) (v : IsValid wb)
    (listed : (inode_at wb i).dirty_pages ≡ p ∷ ps) where
  next : Writeback
  next = after wb i p ps inside v listed

  same_page : (q : ℕ) → page_at next q ≡ (if q == p then cleaned (page_at wb q) else page_at wb q)
  unfolding next
  same_page q = after_page wb i p ps inside v listed q ∙ own_page (Bool-cases (q == p))
    where
      own_page :
          ((q == p) ≡ true) ⊎ ((q == p) ≡ false)
          → (if q == p then cleaned (page_at wb p) else page_at wb q)
            ≡ (if q == p then cleaned (page_at wb q) else page_at wb q)
      own_page (inl e) = let s : q ≡ p = ground arith in rw s refl
      own_page (inr e) = rw e refl

  next_own : inode_at next i ≡ record (inode_at wb i) {
    dirty_pages = ps;
    nr_dirty = ((inode_at wb i).nr_dirty + 2 ^ 32 - 1) % 2 ^ 32;
  }
  unfolding next
  next_own =
      let e : (i == i) ≡ true = ground arith in after_inode wb i p ps inside v listed i ∙ rw e refl

  next_other : (j : ℕ) → j ≢ i → inode_at next j ≡ inode_at wb j
  unfolding next
  next_other j n =
      let e : (j == i) ≡ false = ground arith in after_inode wb i p ps inside v listed j ∙ rw e refl

  more-Flushed : (wb' : Writeback) → Flushed next i ps wb' → Flushed wb i (p ∷ ps) wb'
  unfolding next
  more-Flushed wb' rest = record {
    valid = rest.valid;
    pages = λ q.
        clean_twice (page_at wb q) (page_at next q) (page_at wb' q) p q ps (same_page q)
          (rest.pages q);
    own =
        rest.own ∙ ap (λ (d : InodeWbState). record d { dirty_pages = []; nr_dirty = 0 }) next_own;
    others = λ j n. rest.others j n ∙ next_other j n;
    size = rest.size ∙ after_size wb i p ps inside v listed;
    log =
        rest.log
        ∙ writes-same wb next ps next.written
            (λ q. cleaned-offset (page_at wb q) (page_at next q) (q == p) (same_page q))
        ∙ ap (writes wb ps) (after_written wb i p ps inside v listed);
  }

pub write_pages-Flushed :
    (wb : Writeback) (i : ℕ) (ps : List ℕ)
    → i < length wb.inodes
    → IsValid wb
    → (inode_at wb i).dirty_pages ≡ ps
    → Flushed wb i ps (write_pages wb i ps)
unfolding write_pages next after
write_pages-Flushed wb i [] inside v listed = none-Flushed wb i v listed
write_pages-Flushed wb i (p ∷ ps) inside v listed =
    more-Flushed wb i p ps inside v listed (write_pages (next wb i p ps inside v listed) i ps) (
      write_pages-Flushed (next wb i p ps inside v listed) i ps
        (omega (arith, after_size wb i p ps inside v listed))
        (after-IsValid wb i p ps inside v listed)
        (ap (λ (d : InodeWbState). d.dirty_pages) (next_own wb i p ps inside v listed)))

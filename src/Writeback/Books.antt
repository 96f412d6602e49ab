-- ===== src/Writeback/Books.antt =====
-- demos/writeback/wb_sim.c: the counts, lists and flags agree, and every operation keeps that.
use os_kernel_from_scratch.Common.{get_or-set, get_or-out}
use os_kernel_from_scratch.Common.{ℕ, ◌+◌, ◌-◌, ◌*◌, ◌%◌, ◌^◌, ◌≤◌, ◌<◌}
use os_kernel_from_scratch.Common.{◌≡◌, refl, ap, ◌∙◌, inl, inr}
use os_kernel_from_scratch.Common.{true, false}
use os_kernel_from_scratch.Common.{List, [], ◌∷◌, ◌++◌}
use os_kernel_from_scratch.Common.{arith, dec_lt, ◌==◌, if◌then◌else◌}
use os_kernel_from_scratch.Common.{Bool-cases, length, get_or, set}
use os_kernel_from_scratch.Common.{length-append}
use os_kernel_from_scratch.Common.{total}
use os_kernel_from_scratch.Common.{get_elem?-eq-get_or}
use os_kernel_from_scratch.Common.Totals.{total-set, le-total}
use os_kernel_from_scratch.Common.Nodes.{list_del, count, count-append, count-list_del}
use os_kernel_from_scratch.Writeback.{
  Page, InodeWbState, Writeback, no_page, no_inode, page_at, inode_at, add_dirty, mark_page_dirty,
  drop_dirty, remove_dirty, unmark_page_dirty,
}

-- The pages of an inode's list, and how often it holds a page.
abbrev pub dirty_length : InodeWbState → ℕ
dirty_length state = length state.dirty_pages

abbrev pub holds_page : ℕ → InodeWbState → ℕ
holds_page p state = count p state.dirty_pages

-- The counts are the lengths of the lists, and a page is flagged dirty when it is on one list,
-- once.
pub record IsValid (wb : Writeback) : Type 0 where
  pub counted : (i : ℕ) → (inode_at wb i).nr_dirty ≡ dirty_length (inode_at wb i)
  pub summed : wb.g_dirty_count ≡ total dirty_length wb.inodes
  pub flagged : (p : ℕ) → total (holds_page p) wb.inodes ≡ (if (page_at wb p).dirty then 1 else 0)
  pub small : wb.g_dirty_count < 2 ^ 32

module _ (wb : Writeback) (i : ℕ) (inside : i < length wb.inodes) where
  pub total-inode :
      (w : InodeWbState → ℕ) (new : InodeWbState)
      → total w (set wb.inodes i new) + w (inode_at wb i) ≡ total w wb.inodes + w new
  total-inode w new =
      total-set w wb.inodes i (inode_at wb i) new (get_elem?-eq-get_or wb.inodes i no_inode inside)

  pub le-inode : (w : InodeWbState → ℕ) → w (inode_at wb i) ≤ total w wb.inodes
  le-inode w =
      le-total w wb.inodes i (inode_at wb i) (get_elem?-eq-get_or wb.inodes i no_inode inside)

module _ (wb : Writeback) (i : ℕ) (inside : i < length wb.inodes) (v : IsValid wb) where
  -- A page on a list exists and is flagged dirty.
  pub listed_dirty :
      (p : ℕ)
      → 1 ≤ count p (inode_at wb i).dirty_pages
      → ((page_at wb p).dirty ≡ true) × (p < length wb.pages)
  listed_dirty p h = elim (Bool-cases (page_at wb p).dirty) [
    | inl e ↦ (
      e,
      elim (dec_lt p (length wb.pages)) [
        | yes lt ↦ lt
        | no n ↦
            let gone : page_at wb p ≡ no_page = get_or-out wb.pages p no_page (omega arith) in
            absurd (ground (arith, ap (λ (g : Page). g.dirty) gone, e))
      ],
    )
    | inr e ↦ absurd (ground (arith, v.flagged p, e, le-inode wb i inside (holds_page p)))
  ]

  -- A page leaves the inode's list.
  pub drop-IsValid :
      (p : ℕ) (wb' : Writeback) (state : InodeWbState) (pg : Page)
      → 1 ≤ count p (inode_at wb i).dirty_pages
      → state.dirty_pages ≡ list_del p (inode_at wb i).dirty_pages
      → state.nr_dirty ≡ ((inode_at wb i).nr_dirty + 2 ^ 32 - 1) % 2 ^ 32
      → pg.dirty ≡ false
      → wb'.pages ≡ set wb.pages p pg
      → wb'.inodes ≡ set wb.inodes i state
      → wb'.g_dirty_count ≡ (wb.g_dirty_count + 2 ^ 64 - 1) % 2 ^ 64
      → IsValid wb'
  drop-IsValid p wb' state pg h lists nr clean ps ins g = record {
    counted = λ j. rw ins (counted' j);
    summed = omega (arith, fewer, g, shorter, v.summed, v.small, ap (total dirty_length) ins);
    flagged = λ q. flagged' q;
    small = omega (arith, g, v.small, some_dirty);
  }
    where
      shorter : length (list_del p (inode_at wb i).dirty_pages) + 1 ≡ dirty_length (inode_at wb i)
      shorter = (count-list_del p p (inode_at wb i).dirty_pages h).1

      fewer :
          total dirty_length (set wb.inodes i state) + dirty_length (inode_at wb i)
          ≡ total dirty_length wb.inodes + length (list_del p (inode_at wb i).dirty_pages)
      fewer =
          total-inode wb i inside dirty_length state
          ∙ ap (λ (l : List ℕ). total dirty_length wb.inodes + length l) lists

      some_dirty : 1 ≤ wb.g_dirty_count
      some_dirty = omega (arith, v.summed, le-inode wb i inside dirty_length, shorter)

      nr' : state.nr_dirty ≡ length state.dirty_pages
      nr' = omega (
        arith,
        nr,
        v.counted i,
        shorter,
        v.summed,
        v.small,
        le-inode wb i inside dirty_length,
        ap (λ (l : List ℕ). length l) lists,
      )

      counted' :
          (j : ℕ)
          → (get_or (set wb.inodes i state) j no_inode).nr_dirty
            ≡ dirty_length (get_or (set wb.inodes i state) j no_inode)
      counted' j =
          rw (get_or-set wb.inodes i j state no_inode inside)
            (elim (Bool-cases (j == i)) [ inl e ↦ rw e nr' | inr e ↦ rw e (v.counted j) ])

      shift :
          (q : ℕ)
          → total (holds_page q) (set wb.inodes i state) + (if q == p then 1 else 0)
            ≡ total (holds_page q) wb.inodes
      shift q = omega (
        arith,
        total-inode wb i inside (holds_page q) state,
        count-list_del p q (inode_at wb i).dirty_pages h,
        ap (count q) lists,
      )

      on_list : total (holds_page p) wb.inodes ≡ 1
      on_list = v.flagged p ∙ rw (listed_dirty p h).0 refl

      flagged' :
          (q : ℕ) → total (holds_page q) wb'.inodes ≡ (if (page_at wb' q).dirty then 1 else 0)
      flagged' q =
          rw (ins, ps)
            (rw (get_or-set wb.pages p q pg no_page (listed_dirty p h).1)
              (elim (Bool-cases (q == p)) [
                | inl e ↦
                    let s : q ≡ p = ground arith in
                    rw e (rw clean (rw s (ground (arith, shift p, on_list))))
                | inr e ↦ rw e (ground (arith, shift q, v.flagged q, e))
              ]))

  -- Marking a page of the inode's as dirty keeps counts, lists and flags in step, while fewer than
  -- 2 ^ 32 - 1 pages are dirty.
  pub mark_page_dirty-IsValid :
      (page_size p : ℕ)
      → p < length wb.pages
      → wb.g_dirty_count + 1 < 2 ^ 32
      → IsValid (mark_page_dirty page_size wb p i)
  unfolding mark_page_dirty add_dirty
  mark_page_dirty-IsValid page_size p known room = elim (Bool-cases (page_at wb p).dirty) [
    | inl e ↦ rw e v
    | inr e ↦ rw e (add-IsValid e)
  ]
    where
      state : InodeWbState
      state = record (inode_at wb i) {
        dirty_pages = (inode_at wb i).dirty_pages ++ p ∷ [];
        nr_dirty = ((inode_at wb i).nr_dirty + 1) % 2 ^ 32;
      }

      pg : Page
      pg = record (page_at wb p) {
        dirty = true;
        owner = i;
        offset = (page_at wb p).index * page_size % 2 ^ 64;
        synced = false;
      }

      longer : dirty_length state ≡ dirty_length (inode_at wb i) + 1
      longer = length-append (inode_at wb i).dirty_pages (p ∷ [])

      counted' :
          (j : ℕ)
          → (get_or (set wb.inodes i state) j no_inode).nr_dirty
            ≡ dirty_length (get_or (set wb.inodes i state) j no_inode)
      counted' j = rw (get_or-set wb.inodes i j state no_inode inside) (elim (Bool-cases (j == i)) [
        | inl e ↦
            rw e (omega (arith, v.counted i, longer, v.summed, le-inode wb i inside dirty_length))
        | inr e ↦ rw e (v.counted j)
      ])

      flagged' :
          (page_at wb p).dirty ≡ false
          → (q : ℕ)
          → total (holds_page q) (set wb.inodes i state)
            ≡ (if (get_or (set wb.pages p pg) q no_page).dirty then 1 else 0)
      flagged' clean q = rw (get_or-set wb.pages p q pg no_page known) (elim (Bool-cases (q == p)) [
        | inl e ↦
            let s : q ≡ p = ground arith in
            rw e (
              rw s (
                ground (
                  arith,
                  total-inode wb i inside (holds_page p) state,
                  count-append p p (inode_at wb i).dirty_pages,
                  off_list clean,
                )))
        | inr e ↦ rw e (
            ground (
              arith,
              total-inode wb i inside (holds_page q) state,
              count-append q p (inode_at wb i).dirty_pages,
              v.flagged q,
              e,
            ))
      ])
        where
          off_list : (page_at wb p).dirty ≡ false → total (holds_page p) wb.inodes ≡ 0
          off_list e = v.flagged p ∙ rw e refl

      add-IsValid : (page_at wb p).dirty ≡ false → IsValid (add_dirty page_size wb p i)
      add-IsValid clean = record {
        counted = counted';
        summed = omega (arith, total-inode wb i inside dirty_length state, longer, v.summed);
        flagged = flagged' clean;
        small = omega arith;
      }

  -- Taking the mark off a page on the inode's list keeps counts, lists and flags in step.
  pub unmark_page_dirty-IsValid :
      (p : ℕ) → 1 ≤ count p (inode_at wb i).dirty_pages → IsValid (unmark_page_dirty wb p i)
  unfolding unmark_page_dirty remove_dirty drop_dirty
  unmark_page_dirty-IsValid p h = rw (listed_dirty p h).0 (
      drop-IsValid p (remove_dirty wb p i) (drop_dirty (inode_at wb i) p)
        (record (page_at wb p) { dirty = false }) h refl refl refl refl refl refl)

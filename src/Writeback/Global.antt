-- ===== src/Writeback/Global.antt =====
-- demos/writeback/wb_sim.c: writeback_all_inodes, the threshold, and a round of the flush thread.
use os_kernel_from_scratch.Common.{ℕ, zero, suc, ◌+◌, ◌*◌, ◌/◌, ◌%◌, ◌^◌, ◌≤◌, ◌<◌}
use os_kernel_from_scratch.Common.{◌≡◌, refl, sym, ap, ◌∙◌, ◌↔◌, ◌⊎◌, inl, inr}
use os_kernel_from_scratch.Common.{true, false}
use os_kernel_from_scratch.Common.{List, [], ◌∷◌}
use os_kernel_from_scratch.Common.{arith, dec_lt, ℕ_discrete, ltb, leb, ◌==◌, if◌then◌else◌}
use os_kernel_from_scratch.Common.{Bool-cases, length, get_or}
use native.Mathlib.Nat.{le-div_iff_mul-le}
use os_kernel_from_scratch.Common.{total}
use os_kernel_from_scratch.Common.Nodes.{count}
use os_kernel_from_scratch.Writeback.{
  Page, InodeWbState, Writeback, no_inode, page_at, inode_at, writeback_if_dirty, writeback_from,
  writeback_all_inodes, should_start_writeback, flush_round,
}
use os_kernel_from_scratch.Writeback.Books.{IsValid, dirty_length, holds_page, listed_dirty}
use os_kernel_from_scratch.Writeback.Flush.{cleaned}
use os_kernel_from_scratch.Writeback.Inode.{Written}
use os_kernel_from_scratch.Writeback.Sync.{writeback_if_dirty-Written}

-- Nobody is writing an inode back.
abbrev pub Calm : Writeback → Type 0
Calm wb = (i : ℕ) → (inode_at wb i).writeback_in_progress ≡ false

-- A page has stayed as it was, or it was dirty and has been written.
abbrev Kept : Page → Page → Type 0
Kept g g' = (g' ≡ g) ⊎ ((g.dirty ≡ true) × (g' ≡ cleaned g))

Kept-trans : (g g' g'' : Page) → Kept g g' → Kept g' g'' → Kept g g''
Kept-trans g g' g'' (inl e) (inl f) = inl (f ∙ e)
Kept-trans g g' g'' (inl e) (inr (d, f)) =
    inr (sym (ap (λ (x : Page). x.dirty) e) ∙ d, f ∙ ap cleaned e)
Kept-trans g g' g'' (inr (d, e)) (inl f) = inr (d, f ∙ e)
Kept-trans g g' g'' (inr (d, e)) (inr (d', f)) =
    absurd (ground (arith, ap (λ (x : Page). x.dirty) e, d'))

-- The inodes from 0 to `i` have been written back.
record Progress (wb : Writeback) (i : ℕ) (wb' : Writeback) : Type 0 where
  valid : IsValid wb'
  calm : Calm wb'
  size : length wb'.inodes ≡ length wb.inodes
  behind : (j : ℕ) → j < i → (inode_at wb' j).dirty_pages ≡ []
  pages : (q : ℕ) → Kept (page_at wb q) (page_at wb' q)

step_pages :
    (wb wb' : Writeback) (i q : ℕ)
    → i < length wb.inodes
    → IsValid wb
    → Written wb i wb'
    → Kept (page_at wb q) (page_at wb' q)
step_pages wb wb' i q inside v w = elim (Bool-cases (ltb 0 (count q (inode_at wb i).dirty_pages))) [
  | inl e ↦ inr ((listed_dirty wb i inside v q (ground arith)).0, w.pages q ∙ rw e refl)
  | inr e ↦ inl (w.pages q ∙ rw e refl)
]

step-Progress :
    (wb now now' : Writeback) (i : ℕ)
    → i < length wb.inodes
    → Progress wb i now
    → Written now i now'
    → Progress wb (i + 1) now'
step-Progress wb now now' i inside p w = record {
  valid = w.valid;
  calm = λ j. elim (ℕ_discrete j i) [
    | yes e ↦
        ap (λ k. (inode_at now' k).writeback_in_progress) e
        ∙ ap (λ (d : InodeWbState). d.writeback_in_progress) w.own
    | no n ↦ ap (λ (d : InodeWbState). d.writeback_in_progress) (w.others j n) ∙ p.calm j
  ];
  size = w.size ∙ p.size;
  behind = λ j lt. elim (ℕ_discrete j i) [
    | yes e ↦
        ap (λ k. (inode_at now' k).dirty_pages) e ∙ ap (λ (d : InodeWbState). d.dirty_pages) w.own
    | no n ↦ ap (λ (d : InodeWbState). d.dirty_pages) (w.others j n) ∙ p.behind j (omega arith)
  ];
  pages = λ q.
      Kept-trans (page_at wb q) (page_at now q) (page_at now' q) (p.pages q)
        (step_pages now now' i q (omega (arith, p.size)) p.valid w);
}

from-Progress :
    (wb now : Writeback) (i k : ℕ)
    → i + k ≡ length wb.inodes
    → Progress wb i now
    → Progress wb (length wb.inodes) (writeback_from now i k)
unfolding writeback_from
from-Progress wb now i zero e p = rw (sym e) (rw (plus_zero i) p)
  where
    plus_zero : (n : ℕ) → n + 0 ≡ n
    plus_zero n = omega arith
from-Progress wb now i (suc k) e p =
    from-Progress wb (writeback_if_dirty now i) (i + 1) k (omega arith) (
      step-Progress wb now (writeback_if_dirty now i) i (omega arith) p
        (writeback_if_dirty-Written now i (omega (arith, p.size)) p.valid (p.calm i)))

all-Progress :
    (wb : Writeback)
    → IsValid wb
    → Calm wb
    → Progress wb (length wb.inodes) (writeback_all_inodes wb)
unfolding writeback_all_inodes
all-Progress wb v calm = from-Progress wb wb 0 (length wb.inodes) (omega arith) (record {
  valid = v;
  calm = calm;
  size = refl;
  behind = λ j lt. absurd (omega arith);
  pages = λ q. inl refl;
})

-- With every list empty every weight of the lists adds up to 0.
all_empty :
    (w : InodeWbState → ℕ) (ds : List InodeWbState)
    → ((d : InodeWbState) → d.dirty_pages ≡ [] → w d ≡ 0)
    → ((j : ℕ) → j < length ds → (get_or ds j no_inode).dirty_pages ≡ [])
    → total w ds ≡ 0
unfolding total
all_empty w [] h e = refl
all_empty w (d ∷ ds) h e =
    omega (arith, h d (e 0 (omega arith)), all_empty w ds h (λ j lt. e (suc j) (omega arith)))

module _ (wb : Writeback) (v : IsValid wb) (calm : Calm wb) where
  done : Progress wb (length wb.inodes) (writeback_all_inodes wb)
  done = all-Progress wb v calm

  no_list :
      (w : InodeWbState → ℕ)
      → ((d : InodeWbState) → d.dirty_pages ≡ [] → w d ≡ 0)
      → total w (writeback_all_inodes wb).inodes ≡ 0
  no_list w h =
      all_empty w (writeback_all_inodes wb).inodes h
        (λ j lt. done.behind j (omega (arith, done.size)))

  all_clean : (q : ℕ) → (page_at (writeback_all_inodes wb) q).dirty ≡ false
  unfolding count
  all_clean q = elim (Bool-cases (page_at (writeback_all_inodes wb) q).dirty) [
    | inl e ↦
        absurd
          (ground (arith, e, done.valid.flagged q, no_list (holds_page q) (λ d h. ap (count q) h)))
    | inr e ↦ e
  ]

  -- In a state whose counts, lists and flags agree and in which no inode is being written back,
  -- writing all inodes back makes the global count 0, gives every page that was dirty the marks
  -- clean and synced, leaves every other page as it was, and counts, lists and flags agree again.
  pub writeback_all_inodes_lem :
      IsValid (writeback_all_inodes wb)
      × ((writeback_all_inodes wb).g_dirty_count ≡ 0)
      × ((q : ℕ)
          → page_at (writeback_all_inodes wb) q
            ≡ (if (page_at wb q).dirty then cleaned (page_at wb q) else page_at wb q))
  writeback_all_inodes_lem = (
    done.valid,
    done.valid.summed ∙ no_list dirty_length (λ d h. ap (λ (l : List ℕ). length l) h),
    (λ q.
        kept_clean (page_at wb q) (page_at (writeback_all_inodes wb) q) (done.pages q)
          (all_clean q)),
  )
    where
      kept_clean :
          (g g' : Page) → Kept g g' → g'.dirty ≡ false → g' ≡ (if g.dirty then cleaned g else g)
      kept_clean g g' (inl e) c =
          let d : g.dirty ≡ false = sym (ap (λ (x : Page). x.dirty) e) ∙ c in e ∙ rw d refl
      kept_clean g g' (inr (d, e)) c = e ∙ rw d refl

threshold :
    (available dirty : ℕ)
    → dirty * 100 < 2 ^ 64
    → ((if available == 0 then true else leb 10 (dirty % 2 ^ 64 * 100 % 2 ^ 64 / available)) ≡ true)
      ↔ (available ≤ 10 * dirty)
threshold zero dirty small = ((λ h. omega arith), (λ h. ground arith))
threshold (suc a) dirty small =
    let e : dirty % 2 ^ 64 * 100 % 2 ^ 64 ≡ dirty * 100 = omega arith in
    let q : (10 ≤ dirty * 100 / suc a) ↔ (10 * suc a ≤ dirty * 100) =
      le-div_iff_mul-le {k = suc a} {x = 10} {y = dirty * 100} (omega arith) in
    rw e (
      (λ h. let big : 10 ≤ dirty * 100 / suc a = ground arith in omega (arith, q.0 big)),
      (λ h. let big : 10 ≤ dirty * 100 / suc a = q.1 (omega arith) in ground (arith, big)),
    )

-- Whether write-back starts, as long as 100 times the dirty kilobytes fit in 64 bits: it does
-- exactly when ten times the dirty kilobytes come up to the available ones.
pub should_start_writeback_lem :
    (page_size available : ℕ) (wb : Writeback)
    → wb.g_dirty_count * (page_size / 1024) * 100 < 2 ^ 64
    → (should_start_writeback page_size available wb ≡ true)
      ↔ (available ≤ 10 * (wb.g_dirty_count * (page_size / 1024)))
unfolding should_start_writeback
should_start_writeback_lem page_size available wb small =
    threshold available (wb.g_dirty_count * (page_size / 1024)) small

-- A round of the flush thread, in a state whose counts, lists and flags agree, in which no inode
-- is being written back and 100 times the dirty kilobytes fit in 64 bits: when ten times the
-- dirty kilobytes come up to the available ones no page stays dirty and the count is 0, and
-- otherwise nothing changes.
pub flush_round_lem :
    (page_size available : ℕ) (wb : Writeback)
    → IsValid wb
    → Calm wb
    → wb.g_dirty_count * (page_size / 1024) * 100 < 2 ^ 64
    → ((available ≤ 10 * (wb.g_dirty_count * (page_size / 1024)))
        × ((flush_round page_size available wb).g_dirty_count ≡ 0)
        × ((q : ℕ) → (page_at (flush_round page_size available wb) q).dirty ≡ false))
      ⊎ ((10 * (wb.g_dirty_count * (page_size / 1024)) < available)
          × (flush_round page_size available wb ≡ wb))
unfolding flush_round
flush_round_lem page_size available wb v calm small =
    elim (Bool-cases (should_start_writeback page_size available wb)) [
      | inl e ↦ inl (
        (should_start_writeback_lem page_size available wb small).0 e,
        rw e ((writeback_all_inodes_lem wb v calm).1),
        rw e (all_clean wb v calm),
      )
      | inr e ↦ inr (below e, rw e refl)
    ]
  where
    below :
        should_start_writeback page_size available wb ≡ false
        → 10 * (wb.g_dirty_count * (page_size / 1024)) < available
    below e = elim (dec_lt (10 * (wb.g_dirty_count * (page_size / 1024))) available) [
      | yes lt ↦ lt
      | no n ↦
          let on : should_start_writeback page_size available wb ≡ true =
            (should_start_writeback_lem page_size available wb small).1 (omega arith) in
          absurd (cc)
    ]

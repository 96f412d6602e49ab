-- ===== src/Iosched/Request/Merge.antt =====
-- A merge of two requests that may be merged is the one request for the sectors of both.
use os_kernel_from_scratch.Common.{ℕ, ◌+◌, ◌^◌, ◌≤◌, ◌<◌, min}
use os_kernel_from_scratch.Common.{◌≡◌, refl, ◌↔◌, ◌⊎◌, inl, inr}
use os_kernel_from_scratch.Common.{true}
use os_kernel_from_scratch.Common.{arith, dec_lt}
use os_kernel_from_scratch.Iosched.Request.{Request, request_can_merge, request_merge}

-- The request ends within the 64-bit sectors.
pub record Fits (r : Request) : Type 0 where
  pub sectors : r.sector + r.nr_sectors < 2 ^ 64
  pub length : r.nr_sectors < 2 ^ 32
  pub size : r.bytes < 2 ^ 32

-- Sector `s` belongs to the request.
abbrev pub Covers : Request → ℕ → Type 0
Covers r s = (r.sector ≤ s) × (s < r.sector + r.nr_sectors)

can_merge-adjacent :
    (a b : Request)
    → Fits a
    → Fits b
    → request_can_merge a b ≡ true
    → (a.op ≡ b.op) × ((a.sector + a.nr_sectors ≡ b.sector) ⊎ (b.sector + b.nr_sectors ≡ a.sector))
unfolding request_can_merge
can_merge-adjacent a b fa fb e = ground arith

-- What `request_merge` does to two requests, `lo` before `hi`.
merged_first :
    (a b : Request)
    → Fits a
    → Fits b
    → a.nr_sectors + b.nr_sectors < 2 ^ 32
    → (a.sector + a.nr_sectors ≡ b.sector) ⊎ (b.sector + b.nr_sectors ≡ a.sector)
    → ((request_merge a b).nr_sectors ≡ a.nr_sectors + b.nr_sectors)
      × ((request_merge a b).sector ≡ min a.sector b.sector)
unfolding request_merge
merged_first a b fa fb l (inl e) = (ground arith, ground arith)
merged_first a b fa fb l (inr e) = (ground arith, ground arith)

covers :
    (x n y k s : ℕ)
    → (x + n ≡ y) ⊎ (y + k ≡ x)
    → ((min x y ≤ s) × (s < min x y + (n + k)))
      ↔ (((x ≤ s) × (s < x + n)) ⊎ ((y ≤ s) × (s < y + k)))
covers x n y k s (inl e) = (
  λ h. elim (dec_lt s y) [ yes l ↦ inl (omega arith) | no l ↦ inr (omega arith) ],
  λ h. elim h [ inl p ↦ omega arith | inr q ↦ omega arith ],
)
covers x n y k s (inr e) = (
  λ h. elim (dec_lt s x) [ yes l ↦ inr (omega arith) | no l ↦ inl (omega arith) ],
  λ h. elim h [ inl p ↦ omega arith | inr q ↦ omega arith ],
)

-- If `request_can_merge` accepts two requests that fit their fields and end within the 64-bit
-- sectors, and their lengths and bytes add up in 32 bits, the merged request keeps the
-- operation, covers exactly the sectors of both, and adds up lengths and bytes.
pub request_merge_lem :
    (a b : Request)
    → Fits a
    → Fits b
    → a.nr_sectors + b.nr_sectors < 2 ^ 32
    → a.bytes + b.bytes < 2 ^ 32
    → request_can_merge a b ≡ true
    → let m = request_merge a b in
      (m.op ≡ a.op)
      × (m.op ≡ b.op)
      × (m.nr_sectors ≡ a.nr_sectors + b.nr_sectors)
      × (m.bytes ≡ a.bytes + b.bytes)
      × ((s : ℕ) → Covers m s ↔ (Covers a s ⊎ Covers b s))
unfolding request_can_merge request_merge
request_merge_lem a b fa fb l z e =
    let (ops, near) = can_merge-adjacent a b fa fb e in
    let (n, first) = merged_first a b fa fb l near in
    (
      refl,
      ops,
      n,
      omega arith,
      λ s. rw (n, first) (covers a.sector a.nr_sectors b.sector b.nr_sectors s near),
    )

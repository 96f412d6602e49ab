-- ===== src/Iosched/Deadline/Books.antt =====
-- The three lists of the deadline scheduler hold the same requests.
use os_kernel_from_scratch.Common.{ℕ, ◌+◌, ◌≤◌}
use os_kernel_from_scratch.Common.{◌≡◌, refl, ap, ◌⊎◌, inl, inr}
use os_kernel_from_scratch.Common.{Bool, true, false}
use os_kernel_from_scratch.Common.{List, [], ◌∷◌, ◌++◌}
use os_kernel_from_scratch.Common.{arith, dec_lt, ℕ_discrete, ◌==◌}
use os_kernel_from_scratch.Common.{Bool-cases}
use os_kernel_from_scratch.Common.{total, total-append}
use os_kernel_from_scratch.Iosched.Request.{Request, bio_op_read}
use os_kernel_from_scratch.Iosched.Queue.{
  unlink, insert_sorted, IsSorted, insert_sorted-IsSorted, unlink-IsSorted, total-insert_sorted,
  total-unlink, In, is, In_is, is_In, at_address, In-at_address,
}
use os_kernel_from_scratch.Iosched.Deadline.{
  Deadline, deadline_init, deadline_add_request, take_out,
}

-- All requests of the list are reads, or none is.
abbrev pub AllReads : Bool → List Request → Type 0
AllReads b [] = Unit
AllReads b (r ∷ rs) = ((r.op == bio_op_read) ≡ b) × AllReads b rs

-- The queue is sorted, holds what the two FIFOs hold together, and no request twice; reads are on
-- the read FIFO and all else on the write FIFO.
pub record IsValid (d : Deadline) : Type 0 where
  pub sorted : IsSorted d.dispatch
  pub same : (w : Request → ℕ) → total w d.dispatch ≡ total w d.read_fifo + total w d.write_fifo
  pub once : (a : ℕ) → total (at_address a) d.dispatch ≤ 1
  pub reads : AllReads true d.read_fifo
  pub writes : AllReads false d.write_fifo

pub deadline_init-IsValid : IsValid deadline_init
unfolding deadline_init total
deadline_init-IsValid = record {
  sorted = tt;
  same = λ w. omega arith;
  once = λ a. omega arith;
  reads = tt;
  writes = tt;
}

AllReads-append :
    (b : Bool) (rs : List Request) (r : Request)
    → AllReads b rs
    → (r.op == bio_op_read) ≡ b
    → AllReads b (rs ++ r ∷ [])
AllReads-append b [] r a e = (e, tt)
AllReads-append b (s ∷ rs) r a e = (a.0, AllReads-append b rs r a.1 e)

AllReads-unlink : (b : Bool) (a : ℕ) (rs : List Request) → AllReads b rs → AllReads b (unlink a rs)
unfolding unlink
AllReads-unlink b a [] h = tt
AllReads-unlink b a (r ∷ rs) h = elim (Bool-cases (r.address == a)) [
  | inl e ↦ rw e h.1
  | inr n ↦ rw n (h.0, AllReads-unlink b a rs h.1)
]

total-snoc :
    (w : Request → ℕ) (rs : List Request) (r : Request) → total w (rs ++ r ∷ []) ≡ total w rs + w r
unfolding total
total-snoc w rs r = omega (arith, total-append w rs (r ∷ []))

at_one : (a : ℕ) (r : Request) → at_address a r ≤ 1
at_one a r = ground arith

-- `deadline_add_request` to a valid state, of a request at an address that is not queued, keeps
-- the state valid, and adds that request alone.
pub deadline_add_request-IsValid :
    (d : Deadline) (req : Request)
    → IsValid d
    → total (at_address req.address) d.dispatch ≡ 0
    → IsValid (deadline_add_request d req)
      × ((w : Request → ℕ)
          → total w (deadline_add_request d req).dispatch ≡ w req + total w d.dispatch)
unfolding deadline_add_request
deadline_add_request-IsValid d req v new = elim (Bool-cases (req.op == bio_op_read)) [
  | inl read ↦ rw read (
    record {
      sorted = insert_sorted-IsSorted req d.dispatch v.sorted;
      same = λ w.
          omega
            (arith, total-insert_sorted w req d.dispatch, total-snoc w d.read_fifo req, v.same w);
      once = once;
      reads = AllReads-append true d.read_fifo req v.reads read;
      writes = v.writes;
    },
    λ w. total-insert_sorted w req d.dispatch,
  )
  | inr write ↦ rw write (
    record {
      sorted = insert_sorted-IsSorted req d.dispatch v.sorted;
      same = λ w.
          omega
            (arith, total-insert_sorted w req d.dispatch, total-snoc w d.write_fifo req, v.same w);
      once = once;
      reads = v.reads;
      writes = AllReads-append false d.write_fifo req v.writes write;
    },
    λ w. total-insert_sorted w req d.dispatch,
  )
]
  where
    once : (a : ℕ) → total (at_address a) (insert_sorted req d.dispatch) ≤ 1
    once a = elim (ℕ_discrete req.address a) [
      | yes e ↦
          omega
            (arith, total-insert_sorted (at_address a) req d.dispatch, at_one a req, rw e at new)
      | no n ↦ ground (arith, total-insert_sorted (at_address a) req d.dispatch, v.once a)
    ]

-- A queue without duplicates has no request on both FIFOs, nor twice on one.
apart :
    (d : Deadline) (a : ℕ)
    → IsValid d
    → total (at_address a) d.read_fifo + total (at_address a) d.write_fifo ≤ 1
apart d a v = omega (arith, v.once a, v.same (at_address a))

pub absent :
    (w : Request → ℕ) (a : ℕ) (rs : List Request) → total (at_address a) rs ≡ 0 → unlink a rs ≡ rs
unfolding total unlink
absent w a [] h = refl
absent w a (r ∷ rs) h = elim (Bool-cases (r.address == a)) [
  | inl e ↦ absurd (ground arith)
  | inr n ↦ rw n (ap (λ l. r ∷ l) (absent w a rs (ground arith)))
]

-- A request of one FIFO leaves that FIFO, and the other does not change.
unlink_one :
    (w : Request → ℕ) {r : Request} {rs : List Request} (ss : List Request)
    → In r rs
    → total (at_address r.address) rs + total (at_address r.address) ss ≤ 1
    → (w r + total w (unlink r.address rs) ≡ total w rs) × (unlink r.address ss ≡ ss)
unlink_one w {r} {rs} ss i u =
    (total-unlink w i (omega arith), absent w r.address ss (omega (arith, In-at_address i)))

unlink_both :
    (w : Request → ℕ) (d : Deadline) (r : Request)
    → IsValid d
    → In r d.read_fifo ⊎ In r d.write_fifo
    → w r + (total w (unlink r.address d.read_fifo) + total w (unlink r.address d.write_fifo))
      ≡ total w d.read_fifo + total w d.write_fifo
unlink_both w d r v (inl i) =
    let (gone, rest) = unlink_one w d.write_fifo i (apart d r.address v) in rw rest (omega arith)
unlink_both w d r v (inr i) =
    let (gone, rest) = unlink_one w d.read_fifo i (omega (arith, apart d r.address v)) in
    rw rest (omega arith)

queued :
    (d : Deadline) (r : Request)
    → IsValid d
    → In r d.read_fifo ⊎ In r d.write_fifo
    → In r d.dispatch
queued d r v (inl i) = In_is r d.dispatch (omega (arith, v.same (is r), is_In i))
queued d r v (inr i) = In_is r d.dispatch (omega (arith, v.same (is r), is_In i))

pub on_fifo :
    (d : Deadline) (r : Request)
    → IsValid d
    → In r d.dispatch
    → In r d.read_fifo ⊎ In r d.write_fifo
on_fifo d r v i = elim (dec_lt 0 (total (is r) d.read_fifo)) [
  | yes h ↦ inl (In_is r d.read_fifo h)
  | no h ↦ inr (In_is r d.write_fifo (omega (arith, v.same (is r), is_In i)))
]

-- Taking out a request that is on a FIFO keeps the books and removes that request alone.
pub take_out-IsValid :
    (d : Deadline) (r : Request)
    → IsValid d
    → In r d.read_fifo ⊎ In r d.write_fifo
    → In r d.dispatch
      × IsValid (take_out d r)
      × ((w : Request → ℕ) → w r + total w (take_out d r).dispatch ≡ total w d.dispatch)
unfolding take_out
take_out-IsValid d r v i = (
  queued d r v i,
  record {
    sorted = unlink-IsSorted r.address d.dispatch v.sorted;
    same = λ w. omega (arith, less w, unlink_both w d r v i, v.same w);
    once = λ a. omega (arith, less (at_address a), v.once a);
    reads = AllReads-unlink true r.address d.read_fifo v.reads;
    writes = AllReads-unlink false r.address d.write_fifo v.writes;
  },
  less,
)
  where
    less : (w : Request → ℕ) → w r + total w (unlink r.address d.dispatch) ≡ total w d.dispatch
    less w = total-unlink w (queued d r v i) (v.once r.address)

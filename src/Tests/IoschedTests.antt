-- ===== src/Tests/IoschedTests.antt =====
-- demos/iosched/iosched.c with a few requests.
use os_kernel_from_scratch.Common.{ℕ, ◌+◌}
use os_kernel_from_scratch.Common.{◌≡◌, refl, ◌↔◌, ◌⊎◌}
use os_kernel_from_scratch.Common.{true}
use os_kernel_from_scratch.Common.{some, [], ◌∷◌}
use os_kernel_from_scratch.Common.{arith}
use os_kernel_from_scratch.Common.{total}
use os_kernel_from_scratch.Iosched.Request.{Request, bio_op_read, request_merge, request_can_merge}
use os_kernel_from_scratch.Iosched.Request.Merge.{Fits, Covers, request_merge_lem}
use os_kernel_from_scratch.Iosched.Queue.{insert_sorted, at_address}
use os_kernel_from_scratch.Iosched.Deadline.{
  Deadline, deadline_init, deadline_add_request, deadline_dispatch,
}
use os_kernel_from_scratch.Iosched.Deadline.Books
use os_kernel_from_scratch.Iosched.Deadline.Books.{
  deadline_init-IsValid, deadline_add_request-IsValid,
}
use os_kernel_from_scratch.Iosched.Deadline.Dispatch.{Result, deadline_dispatch_lem}
use os_kernel_from_scratch.Iosched.Deadline.Order.{
  Reachable, start, added, Choice, deadline_dispatch-Choice,
}
use os_kernel_from_scratch.Iosched.Cfq.{Cfq, cfq_init, new_queue}
use os_kernel_from_scratch.Iosched.Cfq.Books.{AllSorted}
use os_kernel_from_scratch.Iosched.Switch.{iosched_none, IoSched}

-- Two reads of 8 sectors, one behind the other.
abbrev read_8 : Request
read_8 = record {
  address = 64;
  sector = 8;
  nr_sectors = 8;
  bytes = 4096;
  op = bio_op_read;
  bio = 1;
  jiffies = 10;
  refcount = 1;
}

abbrev read_16 : Request
read_16 = record read_8 { address = 128; sector = 16; bio = 2; jiffies = 20 }

read_8-Fits : Fits read_8
read_8-Fits = record { sectors = ground arith; length = ground arith; size = ground arith }

read_16-Fits : Fits read_16
read_16-Fits = record { sectors = ground arith; length = ground arith; size = ground arith }

mergeable : request_can_merge read_16 read_8 ≡ true
unfolding request_can_merge
mergeable = refl

request_merge_lem_example :
    let m = request_merge read_16 read_8 in
    (m.op ≡ read_16.op)
    × (m.op ≡ read_8.op)
    × (m.nr_sectors ≡ read_16.nr_sectors + read_8.nr_sectors)
    × (m.bytes ≡ read_16.bytes + read_8.bytes)
    × ((s : ℕ) → Covers m s ↔ (Covers read_16 s ⊎ Covers read_8 s))
request_merge_lem_example =
    request_merge_lem read_16 read_8 read_16-Fits read_8-Fits (ground arith) (ground arith)
      mergeable

-- A scheduler with the second read.
abbrev busy : Deadline
busy = deadline_add_request deadline_init read_16

busy-IsValid : Books.IsValid busy
unfolding deadline_init total
busy-IsValid = (deadline_add_request-IsValid deadline_init read_16 deadline_init-IsValid refl).0

other_address : total (at_address read_8.address) busy.dispatch ≡ 0
unfolding total deadline_add_request deadline_init insert_sorted
other_address = refl

-- A clock of 1 ms for each jiffy.
deadline_dispatch_lem_example :
    Result busy
      (deadline_dispatch (λ j. j) 600 601 busy).0
      (deadline_dispatch (λ j. j) 600 601 busy).1
deadline_dispatch_lem_example = deadline_dispatch_lem (λ j. j) 600 601 busy busy-IsValid

-- The second read came first, then the other.
busier-Reachable : Reachable (λ j. j) (deadline_add_request busy read_8) (read_16 ∷ read_8 ∷ [])
unfolding total
busier-Reachable = added (added start read_16 refl) read_8 refl

deadline_dispatch-Choice_example :
    Choice
      (λ j. j)
      600
      601
      (read_16 ∷ read_8 ∷ [])
      (deadline_dispatch (λ j. j) 600 601 (deadline_add_request busy read_8)).0
deadline_dispatch-Choice_example =
    deadline_dispatch-Choice (λ j. j) 600 601 (deadline_add_request busy read_8)
      (read_16 ∷ read_8 ∷ []) busier-Reachable

-- The queue of process 7.
abbrev one_process : Cfq
one_process = record cfq_init { cfq_queues = record (new_queue 7) { queue = read_16 ∷ [] } ∷ [] }

one_process-AllSorted : AllSorted one_process.cfq_queues
unfolding cfq_init
one_process-AllSorted = ((tt, tt), tt)

-- The noop scheduler is in use and has a request.
abbrev in_use : IoSched
in_use = record {
  current_iosched = some iosched_none;
  noop_sched = read_16 ∷ [];
  deadline_sched = deadline_init;
  cfq_sched = cfq_init;
}

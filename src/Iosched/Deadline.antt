-- ===== src/Iosched/Deadline.antt =====
-- demos/iosched/iosched.c, the deadline scheduler: every request is on the queue sorted by sector and
-- on the FIFO of its direction; an expired FIFO head goes first.
pub mod Books
pub mod Dispatch
pub mod Side
pub mod Order
use os_kernel_from_scratch.Common.{
  ℕ, zero, suc, ◌+◌, ◌-◌, ◌*◌, ◌/◌, ◌%◌, ◌^◌, ◌≤◌, ◌<◌, min, max, bit_and, bit_or, bit_xor,
}
use os_kernel_from_scratch.Common.{◌≡◌, refl, sym, ap, ap₂, ◌∙◌, ◌≢◌, ◌↔◌, ◌⊎◌, inl, inr}
use os_kernel_from_scratch.Common.{Bool, true, false, not, ◌&&◌, ◌||◌}
use os_kernel_from_scratch.Common.{Option, none, some, List, [], ◌∷◌, ◌++◌, map}
use os_kernel_from_scratch.Common.{arith, dec_lt, ℕ_discrete, ltb, leb, ◌==◌, if◌then◌else◌}
use os_kernel_from_scratch.Common.{Bool-cases, Option-cases, length, get_elem?, get_or, set}
use os_kernel_from_scratch.Common.{take, drop, replicate, length-set, length-append}
use os_kernel_from_scratch.Iosched.Request.{Request, bio_op_read}
use os_kernel_from_scratch.Iosched.Queue.{unlink, insert_sorted}

-- The queue of the scheduler and the fields of `dd`.
pub record Deadline : Type 0 where
  pub dispatch : List Request
  pub read_fifo : List Request
  pub write_fifo : List Request
  pub read_deadline : ℕ
  pub write_deadline : ℕ

-- 500 ms and 5000 ms.
unfoldable pub deadline_init : Deadline
deadline_init = record {
  dispatch = [];
  read_fifo = [];
  write_fifo = [];
  read_deadline = 500;
  write_deadline = 5000;
}

unfoldable pub deadline_add_request : Deadline → Request → Deadline
deadline_add_request d req =
    let fifos =
      if req.op == bio_op_read
      then record d { read_fifo = d.read_fifo ++ req ∷ [] }
      else record d { write_fifo = d.write_fifo ++ req ∷ [] } in
    record fifos { dispatch = insert_sorted req d.dispatch }

-- `list_del` of both nodes of a request. It is on one FIFO only, so it is taken out of both.
unfoldable pub take_out : Deadline → Request → Deadline
take_out d req = record d {
  dispatch = unlink req.address d.dispatch;
  read_fifo = unlink req.address d.read_fifo;
  write_fifo = unlink req.address d.write_fifo;
}

-- The head of a queue, taken out of all lists.
unfoldable pub dispatch_head : Deadline → List Request → Option Request × Deadline
dispatch_head d [] = (none, d)
dispatch_head d (req ∷ rs) = (some req, take_out d req)

-- The clock is not part of the repository: what a call of `get_jiffies()` returns is a number,
-- `jiffies_to_msecs` a function.
module _ (jiffies_to_msecs : ℕ → ℕ) where
  -- Whether the head of a FIFO has waited for `deadline` milliseconds. `unsigned long` wraps.
  unfoldable pub expired : ℕ → List Request → ℕ → Bool
  expired now [] deadline = false
  expired now (req ∷ rs) deadline =
      leb deadline (jiffies_to_msecs ((now + 2 ^ 64 - req.jiffies) % 2 ^ 64))

  unfoldable pub deadline_read_expired : ℕ → Deadline → Bool
  deadline_read_expired now d = expired now d.read_fifo d.read_deadline

  unfoldable pub deadline_write_expired : ℕ → Deadline → Bool
  deadline_write_expired now d = expired now d.write_fifo d.write_deadline

  -- `none` for NULL. The clock is read once for the reads and once more for the writes.
  unfoldable pub deadline_dispatch : ℕ → ℕ → Deadline → Option Request × Deadline
  deadline_dispatch now now' d =
      if deadline_read_expired now d
      then dispatch_head d d.read_fifo
      else if deadline_write_expired now' d
      then dispatch_head d d.write_fifo
      else dispatch_head d d.dispatch

-- ===== src/Iosched/Cfq.antt =====
-- demos/iosched/iosched.c, the cfq scheduler: a queue for each process, sorted by sector, and an
-- active queue that is served until its slice is used.
pub mod Books
use os_kernel_from_scratch.Common.{
  ℕ, zero, suc, ◌+◌, ◌-◌, ◌*◌, ◌/◌, ◌%◌, ◌^◌, ◌≤◌, ◌<◌, min, max, bit_and, bit_or, bit_xor,
}
use os_kernel_from_scratch.Common.{◌≡◌, refl, sym, ap, ap₂, ◌∙◌, ◌≢◌, ◌↔◌, ◌⊎◌, inl, inr}
use os_kernel_from_scratch.Common.{Bool, true, false, not, ◌&&◌, ◌||◌}
use os_kernel_from_scratch.Common.{Option, none, some, List, [], ◌∷◌, ◌++◌, map}
use os_kernel_from_scratch.Common.{arith, dec_lt, ℕ_discrete, ltb, leb, ◌==◌, if◌then◌else◌}
use os_kernel_from_scratch.Common.{Bool-cases, Option-cases, length, get_elem?, get_or, set}
use os_kernel_from_scratch.Common.{take, drop, replicate, length-set, length-append}
use mathlib.Core.Option
use os_kernel_from_scratch.Iosched.Request.{Request}
use os_kernel_from_scratch.Iosched.Queue.{insert_sorted}

-- `comm` and `was_active` are never used.
pub record CfqQueue : Type 0 where
  pub pid : ℕ
  pub queue : List Request
  pub dispatched : ℕ  -- unsigned int
  pub last_jiffies : ℕ
  pub weight : ℕ

-- The queues in list order; `active_queue` is the place of one of them.
pub record Cfq : Type 0 where
  pub cfq_queues : List CfqQueue
  pub active_queue : Option ℕ
  pub cfq_slice : ℕ

unfoldable pub cfq_init : Cfq
cfq_init = record { cfq_queues = []; active_queue = none; cfq_slice = 100 }

abbrev pub new_queue : ℕ → CfqQueue
new_queue pid = record { pid = pid; queue = []; dispatched = 0; last_jiffies = 0; weight = 100 }

-- The place of the queue of a process.
unfoldable pub find_pid : ℕ → List CfqQueue → Option ℕ
find_pid pid [] = none
find_pid pid (q ∷ qs) = if q.pid == pid then some 0 else Option.map suc (find_pid pid qs)

-- `memory` is whether `kmalloc` succeeds; `none` for NULL.
unfoldable pub cfq_get_queue : Bool → Cfq → ℕ → Option ℕ × Cfq
cfq_get_queue memory c pid = elim (find_pid pid c.cfq_queues) [
  | some i ↦ (some i, c)
  | none ↦
      if memory
      then (
        some (length c.cfq_queues),
        record c { cfq_queues = c.cfq_queues ++ new_queue pid ∷ [] },
      )
      else (none, c)
]

-- The queue at a place, with one more request.
unfoldable pub add_at : List CfqQueue → ℕ → Request → List CfqQueue
add_at [] i req = []
add_at (q ∷ qs) zero req = record q { queue = insert_sorted req q.queue } ∷ qs
add_at (q ∷ qs) (suc i) req = q ∷ add_at qs i req

-- What `cfq_add_request` does with the queue that it is given.
unfoldable pub place_request : Option ℕ × Cfq → Request → Cfq
place_request (none, c) req = c
place_request (some i, c) req = record c { cfq_queues = add_at c.cfq_queues i req }

-- `pid` is that of the current process.
unfoldable pub cfq_add_request : Bool → ℕ → Cfq → Request → Cfq
cfq_add_request memory pid c req = place_request (cfq_get_queue memory c pid) req

-- The first queue that holds a request.
unfoldable pub first_busy : List CfqQueue → Option ℕ
first_busy [] = none
first_busy (q ∷ qs) = elim q.queue [ [] ↦ Option.map suc (first_busy qs) | r ∷ rs ↦ some 0 ]

unfoldable pub reset_at : List CfqQueue → ℕ → List CfqQueue
reset_at [] i = []
reset_at (q ∷ qs) zero = record q { dispatched = 0 } ∷ qs
reset_at (q ∷ qs) (suc i) = q ∷ reset_at qs i

-- Whether there is no active queue, or its slice is used.
unfoldable pub slice_used : Cfq → Bool
slice_used c = elim c.active_queue [
  | none ↦ true
  | some i ↦ elim (get_elem? c.cfq_queues i) [ none ↦ true | some q ↦ leb c.cfq_slice q.dispatched ]
]

-- The choice of the active queue.
unfoldable pub choose : Cfq → Cfq
choose c =
    if slice_used c
    then elim (first_busy c.cfq_queues) [
      | none ↦ c
      | some i ↦ record c { cfq_queues = reset_at c.cfq_queues i; active_queue = some i }
    ]
    else c

-- The head of a queue that holds `rs`, with its books brought up to date, before the queues `qs`.
unfoldable pub serve : ℕ → CfqQueue → List CfqQueue → List Request → Option Request × List CfqQueue
serve now q qs [] = (none, q ∷ qs)
serve now q qs (r ∷ rs) = (
  some r,
  record q { queue = rs; dispatched = (q.dispatched + r.bytes) % 2 ^ 32; last_jiffies = now } ∷ qs,
)

-- The head of the queue at a place.
unfoldable pub take_at : ℕ → List CfqQueue → ℕ → Option Request × List CfqQueue
take_at now [] i = (none, [])
take_at now (q ∷ qs) zero = serve now q qs q.queue
take_at now (q ∷ qs) (suc i) = let (o, qs') = take_at now qs i in (o, q ∷ qs')

-- `now` is `get_jiffies()`; `none` for NULL.
unfoldable pub cfq_dispatch : ℕ → Cfq → Option Request × Cfq
cfq_dispatch now c =
    let c' = choose c in
    elim c'.active_queue [
      | none ↦ (none, c')
      | some i ↦ let (o, qs) = take_at now c'.cfq_queues i in (o, record c' { cfq_queues = qs })
    ]

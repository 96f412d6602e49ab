-- ===== src/Iosched/Switch.antt =====
-- demos/iosched/iosched.c: the scheduler in use, and the calls that go to it. Each scheduler has its
-- state whether it is in use or not.
use os_kernel_from_scratch.Common.{ℕ}
use os_kernel_from_scratch.Common.{◌≡◌, refl, ◌⊎◌, inl, inr}
use os_kernel_from_scratch.Common.{Bool, true, false}
use os_kernel_from_scratch.Common.{Option, none, some, List}
use os_kernel_from_scratch.Common.{if◌then◌else◌}
use os_kernel_from_scratch.Common.{Option-cases}
use text.Mathlib.Text
use Prim.Native.String.{String}
use os_kernel_from_scratch.Iosched.Request.{Request}
use os_kernel_from_scratch.Iosched.Deadline.{
  Deadline, deadline_init, deadline_add_request, deadline_dispatch, deadline_read_expired,
  deadline_write_expired, expired, dispatch_head,
}
use os_kernel_from_scratch.Iosched.Noop.{noop_init, noop_add_request, noop_dispatch}
use os_kernel_from_scratch.Iosched.Cfq.{
  Cfq, cfq_init, cfq_add_request, cfq_dispatch, choose, slice_used, first_busy,
}

pub data Algorithm : Type 0 where
  iosched_none : Algorithm
  iosched_deadline : Algorithm
  iosched_cfq : Algorithm

-- `none` is a `current_iosched` of NULL.
pub record IoSched : Type 0 where
  pub current_iosched : Option Algorithm
  pub noop_sched : List Request
  pub deadline_sched : Deadline
  pub cfq_sched : Cfq

-- `init_fn` of a scheduler.
unfoldable pub init_fn : Algorithm → IoSched → IoSched
init_fn iosched_none s = record s { noop_sched = noop_init }
init_fn iosched_deadline s = record s { deadline_sched = deadline_init }
init_fn iosched_cfq s = record s { cfq_sched = cfq_init }

unfoldable pub io_sched_init : IoSched → IoSched
io_sched_init s = init_fn iosched_deadline (record s { current_iosched = some iosched_deadline })

-- The comparisons of the name.
unfoldable pub algorithm_of : String → Option Algorithm
algorithm_of name =
    if Text.◌==◌ name "noop"
    then some iosched_none
    else if Text.◌==◌ name "deadline"
    then some iosched_deadline
    else if Text.◌==◌ name "cfq"
    then some iosched_cfq
    else none

-- `false` for -EINVAL.
unfoldable pub io_sched_set : String → IoSched → Bool × IoSched
io_sched_set name s = elim (algorithm_of name) [
  | none ↦ (false, s)
  | some a ↦ (true, init_fn a (record s { current_iosched = some a }))
]

-- `add_request_fn` of a scheduler; `memory` and `pid` are those of cfq.
unfoldable pub add_request_fn : Bool → ℕ → Option Algorithm → IoSched → Request → IoSched
add_request_fn memory pid none s req = s
add_request_fn memory pid (some iosched_none) s req = record s {
  noop_sched = noop_add_request s.noop_sched req;
}
add_request_fn memory pid (some iosched_deadline) s req = record s {
  deadline_sched = deadline_add_request s.deadline_sched req;
}
add_request_fn memory pid (some iosched_cfq) s req = record s {
  cfq_sched = cfq_add_request memory pid s.cfq_sched req;
}

unfoldable pub iosched_add_request : Bool → ℕ → IoSched → Request → IoSched
iosched_add_request memory pid s req = add_request_fn memory pid s.current_iosched s req

-- `now` and `now'` are what two calls of `get_jiffies()` return.
module _ (jiffies_to_msecs : ℕ → ℕ) (now now' : ℕ) where
  -- `dispatch_fn` of a scheduler; `none` for NULL.
  unfoldable pub dispatch_fn : Option Algorithm → IoSched → Option Request × IoSched
  dispatch_fn none s = (none, s)
  dispatch_fn (some iosched_none) s =
      let (o, q) = noop_dispatch s.noop_sched in (o, record s { noop_sched = q })
  dispatch_fn (some iosched_deadline) s =
      let (o, d) = deadline_dispatch jiffies_to_msecs now now' s.deadline_sched in
      (o, record s { deadline_sched = d })
  dispatch_fn (some iosched_cfq) s =
      let (o, c) = cfq_dispatch now s.cfq_sched in (o, record s { cfq_sched = c })

  unfoldable pub iosched_dispatch : IoSched → Option Request × IoSched
  iosched_dispatch s = dispatch_fn s.current_iosched s

  fresh :
      (a : Algorithm) (s : IoSched)
      → (iosched_dispatch (init_fn a (record s { current_iosched = some a }))).0 ≡ none
  unfolding iosched_dispatch dispatch_fn init_fn noop_dispatch noop_init deadline_dispatch
      deadline_init deadline_read_expired deadline_write_expired expired dispatch_head cfq_dispatch
      cfq_init choose slice_used first_busy
  fresh iosched_none s = refl
  fresh iosched_deadline s = refl
  fresh iosched_cfq s = refl

  -- `io_sched_set` either does not know the name, fails and changes nothing, or it switches, and then
  -- the next dispatch returns nothing, whatever requests were queued before.
  pub io_sched_set_lem :
      (name : String) (s : IoSched)
      → ((algorithm_of name ≡ none) × (io_sched_set name s ≡ (false, s)))
        ⊎ (((io_sched_set name s).0 ≡ true) × ((iosched_dispatch (io_sched_set name s).1).0 ≡ none))
  unfolding io_sched_set
  io_sched_set_lem name s = elim (Option-cases (algorithm_of name)) [
    | inl unknown ↦ inl (unknown, rw (unknown, io_sched_set) refl)
    | inr (a, known) ↦ inr (rw (known, io_sched_set) refl, rw (known, io_sched_set) (fresh a s))
  ]

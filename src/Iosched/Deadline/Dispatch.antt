-- ===== src/Iosched/Deadline/Dispatch.antt =====
-- What `deadline_dispatch` picks.
use os_kernel_from_scratch.Common.{ℕ, ◌+◌}
use os_kernel_from_scratch.Common.{◌≡◌, refl, ◌≢◌, ◌⊎◌, inl, inr}
use os_kernel_from_scratch.Common.{true}
use os_kernel_from_scratch.Common.{Option, none, some, List, [], ◌∷◌}
use os_kernel_from_scratch.Common.{arith, if◌then◌else◌}
use os_kernel_from_scratch.Common.{Bool-cases}
use os_kernel_from_scratch.Common.{total}
use os_kernel_from_scratch.Iosched.Request.{Request}
use os_kernel_from_scratch.Iosched.Queue.{In, here, is, is_In}
use os_kernel_from_scratch.Iosched.Deadline.{
  Deadline, dispatch_head, expired, deadline_read_expired, deadline_write_expired,
  deadline_dispatch,
}
use os_kernel_from_scratch.Iosched.Deadline.Books.{IsValid, take_out-IsValid, on_fifo}

-- The scheduler has no request at all.
abbrev pub IsEmpty : Deadline → Type 0
IsEmpty d = (d.dispatch ≡ []) × (d.read_fifo ≡ []) × (d.write_fifo ≡ [])

-- What a dispatch from `d` may return: a queued request, which is removed and no other, or nothing
-- if nothing is queued.
pub data Result (d : Deadline) : Option Request → Deadline → Type 0 where
  idle : IsEmpty d → Result d none d
  served :
      {r : Request} {d' : Deadline}
      → In r d.dispatch
      → IsValid d'
      → ((w : Request → ℕ) → w r + total w d'.dispatch ≡ total w d.dispatch)
      → Result d (some r) d'

pub empty_of_total : (rs : List Request) → ((r : Request) → total (is r) rs ≡ 0) → rs ≡ []
unfolding total
empty_of_total [] h = refl
empty_of_total (r ∷ rs) h = absurd (omega (arith, is_In {r = r} {rs = r ∷ rs} here, h r))

nothing_queued : (d : Deadline) → IsValid d → d.dispatch ≡ [] → IsEmpty d
unfolding total
nothing_queued d v e = (
  e,
  empty_of_total d.read_fifo (λ r. omega (arith, v.same (is r), zero_each r)),
  empty_of_total d.write_fifo (λ r. omega (arith, v.same (is r), zero_each r)),
)
  where
    zero_each : (r : Request) → total (is r) d.dispatch ≡ 0
    zero_each r = rw e refl

-- The head of a list whose requests are all on a FIFO, and which is empty only if all lists are.
dispatch_head-Result :
    (d : Deadline) (rs : List Request)
    → IsValid d
    → ((r : Request) → In r rs → In r d.read_fifo ⊎ In r d.write_fifo)
    → (rs ≡ [] → IsEmpty d)
    → Result d (dispatch_head d rs).0 (dispatch_head d rs).1
unfolding dispatch_head
dispatch_head-Result d [] v on_fifos void = idle (void refl)
dispatch_head-Result d (r ∷ rs) v on_fifos void =
    let (q, v', less) = take_out-IsValid d r v (on_fifos r here) in served q v' less

module _ (jiffies_to_msecs : ℕ → ℕ) (now now' : ℕ) where
  expired-ne-nil :
      (now : ℕ) (rs : List Request) (deadline : ℕ)
      → expired jiffies_to_msecs now rs deadline ≡ true
      → rs ≢ []
  unfolding expired
  expired-ne-nil now [] deadline h = cc
  expired-ne-nil now (r ∷ rs) deadline h = λ e. cc

  -- The list whose head goes next.
  next_list : Deadline → List Request
  next_list d =
      if deadline_read_expired jiffies_to_msecs now d
      then d.read_fifo
      else if deadline_write_expired jiffies_to_msecs now' d
      then d.write_fifo
      else d.dispatch

  deadline_dispatch-next_list :
      (d : Deadline) → deadline_dispatch jiffies_to_msecs now now' d ≡ dispatch_head d (next_list d)
  unfolding deadline_dispatch next_list
  deadline_dispatch-next_list d = ground arith

  members :
      (d : Deadline) (r : Request)
      → IsValid d
      → In r (next_list d)
      → In r d.read_fifo ⊎ In r d.write_fifo
  unfolding next_list
  members d r v i = elim (Bool-cases (deadline_read_expired jiffies_to_msecs now d)) [
    | inl a ↦ inl (rw a at i)
    | inr na ↦ elim (Bool-cases (deadline_write_expired jiffies_to_msecs now' d)) [
      | inl b ↦ inr (rw (na, b) at i)
      | inr nb ↦ on_fifo d r v (rw (na, nb) at i)
    ]
  ]

  none_next : (d : Deadline) → IsValid d → next_list d ≡ [] → IsEmpty d
  unfolding next_list deadline_read_expired deadline_write_expired
  none_next d v e = elim (Bool-cases (expired jiffies_to_msecs now d.read_fifo d.read_deadline)) [
    | inl a ↦ absurd (expired-ne-nil now d.read_fifo d.read_deadline a (rw a at e))
    | inr na ↦ elim (Bool-cases (expired jiffies_to_msecs now' d.write_fifo d.write_deadline)) [
      | inl b ↦ absurd (expired-ne-nil now' d.write_fifo d.write_deadline b (rw (na, b) at e))
      | inr nb ↦ nothing_queued d v (rw (na, nb) at e)
    ]
  ]

  -- From a valid state `deadline_dispatch` returns a queued request, takes that one alone out of
  -- the books and keeps them valid; it returns nothing only if no list holds a request.
  pub deadline_dispatch_lem :
      (d : Deadline)
      → IsValid d
      → Result d
          (deadline_dispatch jiffies_to_msecs now now' d).0
          (deadline_dispatch jiffies_to_msecs now now' d).1
  deadline_dispatch_lem d v =
      rw (deadline_dispatch-next_list d)
        (dispatch_head-Result d (next_list d) v (λ r i. members d r v i) (none_next d v))

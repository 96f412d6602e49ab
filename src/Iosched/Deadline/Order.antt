-- ===== src/Iosched/Deadline/Order.antt =====
-- Which request deadline_dispatch picks, by the order in which the requests came.
use os_kernel_from_scratch.Common.{
  ℕ, ◌+◌, ◌-◌, ◌%◌, ◌^◌, ◌≤◌, ◌<◌, ◌≡◌, refl, sym, ap, ap₂, ◌∙◌, inl, inr, Option, none, some, List,
  [], ◌∷◌, ◌++◌, Bool, true, false, arith, leb, ◌==◌, Bool-cases, total,
}
use mathlib.Core.Path.{subst}
use mathlib.Core.List.{append-nil}
use os_kernel_from_scratch.Iosched.Request.{Request, bio_op_read}
use os_kernel_from_scratch.Iosched.Queue.{unlink, In, here, is, In_is, is_In, at_address}
use os_kernel_from_scratch.Iosched.Deadline.{
  Deadline, deadline_init, deadline_add_request, take_out, dispatch_head, expired,
  deadline_read_expired, deadline_write_expired, deadline_dispatch,
}
use os_kernel_from_scratch.Iosched.Deadline.Books.{
  IsValid, deadline_init-IsValid, deadline_add_request-IsValid, take_out-IsValid, on_fifo,
}
use os_kernel_from_scratch.Iosched.Deadline.Dispatch.{
  Result, idle, served, deadline_dispatch_lem, empty_of_total,
}
use os_kernel_from_scratch.Iosched.Deadline.Side.{
  side, side-append, total-side, side-unlink, Oldest, side-Oldest, Oldest-side, AllFrom-In,
}

-- The lists of the scheduler, by the requests that wait, in the order in which they came.
record Waiting (d : Deadline) (rs : List Request) : Type 0 where
  valid : IsValid d
  reads : d.read_fifo ≡ side true rs
  writes : d.write_fifo ≡ side false rs
  read_deadline : d.read_deadline ≡ 500
  write_deadline : d.write_deadline ≡ 5000

module _ (d : Deadline) (rs : List Request) (h : Waiting d rs) where
  Waiting-total : (w : Request → ℕ) → total w d.dispatch ≡ total w rs
  Waiting-total w =
      h.valid.same w ∙ ap₂ ◌+◌ (ap (total w) h.reads) (ap (total w) h.writes) ∙ total-side w rs

  Waiting-once : (a : ℕ) → total (at_address a) rs ≤ 1
  Waiting-once a = omega (arith, Waiting-total (at_address a), h.valid.once a)

  Waiting-add :
      (r : Request)
      → total (at_address r.address) rs ≡ 0
      → Waiting (deadline_add_request d r) (rs ++ r ∷ [])
  unfolding deadline_add_request
  Waiting-add r new =
      let (v, more) =
        deadline_add_request-IsValid d r h.valid (Waiting-total (at_address r.address) ∙ new) in
      elim (Bool-cases (r.op == bio_op_read)) [
        | inl e ↦ record {
          valid = v;
          reads =
              rw e (ap (λ l. l ++ r ∷ []) h.reads ∙ sym (side-append true rs (r ∷ []) ∙ rw e refl));
          writes =
              rw e (
                h.writes ∙ sym (side-append false rs (r ∷ []) ∙ rw e (append-nil (side false rs))));
          read_deadline = rw e h.read_deadline;
          write_deadline = rw e h.write_deadline;
        }
        | inr e ↦ record {
          valid = v;
          reads =
              rw e
                (h.reads ∙ sym (side-append true rs (r ∷ []) ∙ rw e (append-nil (side true rs))));
          writes =
              rw e
                (ap (λ l. l ++ r ∷ []) h.writes ∙ sym (side-append false rs (r ∷ []) ∙ rw e refl));
          read_deadline = rw e h.read_deadline;
          write_deadline = rw e h.write_deadline;
        }
      ]

  Waiting-take_out : (r : Request) → In r d.dispatch → Waiting (take_out d r) (unlink r.address rs)
  unfolding take_out
  Waiting-take_out r i =
      let (q, v, less) = take_out-IsValid d r h.valid (on_fifo d r h.valid i) in
      record {
        valid = v;
        reads =
            ap (unlink r.address) h.reads
            ∙ sym (side-unlink true r.address rs (Waiting-once r.address));
        writes =
            ap (unlink r.address) h.writes
            ∙ sym (side-unlink false r.address rs (Waiting-once r.address));
        read_deadline = h.read_deadline;
        write_deadline = h.write_deadline;
      }

dispatch_head-take_out :
    (d d' : Deadline) (rs : List Request) (r : Request)
    → dispatch_head d rs ≡ (some r, d')
    → d' ≡ take_out d r
unfolding dispatch_head
dispatch_head-take_out d d' [] r e = absurd (cc)
dispatch_head-take_out d d' (x ∷ rs) r e = let here : x ≡ r = cc in rw (← here) (cc)

served-In :
    (d d' : Deadline) (o : Option Request) (r : Request)
    → Result d o d'
    → o ≡ some r
    → In r d.dispatch
served-In d d' o r (idle void) e = absurd (cc)
served-In d d' o r (served {r = q} i v less) e = let here : q ≡ r = cc in rw here at i

dispatch_head-none : (d : Deadline) (rs : List Request) → rs ≡ [] → (dispatch_head d rs).0 ≡ none
unfolding dispatch_head
dispatch_head-none d rs e = rw e refl

dispatch_head-first :
    (d : Deadline) (rs ss : List Request) (r : Request)
    → rs ≡ r ∷ ss
    → (dispatch_head d rs).0 ≡ some r
unfolding dispatch_head
dispatch_head-first d rs ss r e = rw e refl

module _ (jiffies_to_msecs : ℕ → ℕ) where
  dispatch-take_out :
      (d d' : Deadline) (now now' : ℕ) (r : Request)
      → deadline_dispatch jiffies_to_msecs now now' d ≡ (some r, d')
      → d' ≡ take_out d r
  unfolding deadline_dispatch
  dispatch-take_out d d' now now' r e =
      elim (Bool-cases (deadline_read_expired jiffies_to_msecs now d)) [
        | inl a ↦ dispatch_head-take_out d d' d.read_fifo r (rw (deadline_dispatch, a) at e)
        | inr na ↦ elim (Bool-cases (deadline_write_expired jiffies_to_msecs now' d)) [
          | inl b ↦ dispatch_head-take_out d d' d.write_fifo r (rw (deadline_dispatch, na, b) at e)
          | inr nb ↦ dispatch_head-take_out d d' d.dispatch r (rw (deadline_dispatch, na, nb) at e)
        ]
      ]

  -- How long a request has waited, in milliseconds.
  pub waited : ℕ → Request → ℕ
  waited now r = jiffies_to_msecs ((now + 2 ^ 64 - r.jiffies) % 2 ^ 64)

  expired-late :
      (now limit : ℕ) (rs ss : List Request) (r : Request)
      → rs ≡ r ∷ ss
      → expired jiffies_to_msecs now rs limit ≡ leb limit (waited now r)
  unfolding expired waited
  expired-late now limit rs ss r e = rw e refl

  -- The states of the scheduler, each with the requests that wait in it, in the order in which they
  -- came: from the start by additions at addresses that are not in use and by dispatches.
  pub data Reachable : Deadline → List Request → Type 0 where
    start : Reachable deadline_init []
    added :
        {d : Deadline} {rs : List Request}
        → Reachable d rs
        → (r : Request) → total (at_address r.address) rs ≡ 0
        → Reachable (deadline_add_request d r) (rs ++ r ∷ [])
    dispatched :
        {d d' : Deadline} {rs : List Request} {r : Request}
        → Reachable d rs
        → (now now' : ℕ) → deadline_dispatch jiffies_to_msecs now now' d ≡ (some r, d')
        → Reachable d' (unlink r.address rs)

  Reachable-Waiting : {d : Deadline} {rs : List Request} → Reachable d rs → Waiting d rs
  unfolding deadline_init
  Reachable-Waiting start = record {
    valid = deadline_init-IsValid;
    reads = refl;
    writes = refl;
    read_deadline = refl;
    write_deadline = refl;
  }
  Reachable-Waiting (added {d} {rs} h r new) = Waiting-add d rs (Reachable-Waiting h) r new
  Reachable-Waiting (dispatched {d} {d'} {rs} {r} h now now' e) =
      let w = Reachable-Waiting h in
      let i : In r d.dispatch =
        served-In d _ _ r (deadline_dispatch_lem jiffies_to_msecs now now' d w.valid)
          (ap (λ x. x.0) e) in
      subst (λ t. Waiting t (unlink r.address rs)) (sym (dispatch-take_out d d' now now' r e))
        (Waiting-take_out d rs w r i)

  -- What to dispatch at the times `now` and `now'` while the requests `rs` wait, in the order in which
  -- they came.
  pub data Choice (now now' : ℕ) (rs : List Request) : Option Request → Type 0 where
    late_read : (r : Request) → Oldest true rs r → 500 ≤ waited now r → Choice now now' rs (some r)
    late_write :
        (r : Request)
        → ((q : Request) → Oldest true rs q → waited now q < 500)
        → Oldest false rs r
        → 5000 ≤ waited now' r
        → Choice now now' rs (some r)
    lowest :
        (r : Request)
        → ((q : Request) → Oldest true rs q → waited now q < 500)
        → ((q : Request) → Oldest false rs q → waited now' q < 5000)
        → In r rs
        → ((q : Request) → In q rs → r.sector ≤ q.sector)
        → Choice now now' rs (some r)
    nothing : rs ≡ [] → Choice now now' rs none

  not_late :
      (now limit : ℕ) (b : Bool) (rs fifo : List Request)
      → fifo ≡ side b rs
      → expired jiffies_to_msecs now fifo limit ≡ false
      → (q : Request) → Oldest b rs q
      → waited now q < limit
  not_late now limit b rs fifo same e q o =
      let (ss, split) = Oldest-side b rs q o in
      ground (arith, e, expired-late now limit fifo ss q (same ∙ split))

  is_late :
      (now limit : ℕ) (b : Bool) (rs fifo : List Request)
      → fifo ≡ side b rs
      → expired jiffies_to_msecs now fifo limit ≡ true
      → (r : Request) × (ss : List Request) × (fifo ≡ r ∷ ss)
        × Oldest b rs r
        × (limit ≤ waited now r)
  unfolding expired
  is_late now limit b rs [] same e = absurd (cc)
  is_late now limit b rs (r ∷ ss) same e = (
    r,
    ss,
    refl,
    side-Oldest b rs r ss (sym same),
    ground (arith, e, expired-late now limit (r ∷ ss) ss r refl),
  )

  lowest-Choice :
      (now now' : ℕ) (d : Deadline) (rs queue : List Request)
      → Waiting d rs
      → d.dispatch ≡ queue
      → ((q : Request) → Oldest true rs q → waited now q < 500)
      → ((q : Request) → Oldest false rs q → waited now' q < 5000)
      → Choice now now' rs (dispatch_head d queue).0
  unfolding dispatch_head total
  lowest-Choice now now' d rs [] w e reads writes =
      nothing
        (empty_of_total rs (λ r. sym (Waiting-total d rs w (is r)) ∙ ap (total (is r)) e ∙ refl))
  lowest-Choice now now' d rs (r ∷ ss) w e reads writes =
      lowest r reads writes
        (In_is r rs
          (omega (arith, Waiting-total d rs w (is r), is_In {r = r} {rs = d.dispatch} (rw e here))))
        (λ q i.
          let queued : In q d.dispatch =
            In_is q d.dispatch (omega (arith, Waiting-total d rs w (is q), is_In i)) in
          AllFrom-In r.sector (r ∷ ss) q (omega arith, (rw e at w.valid.sorted).0) (rw e at queued))

  -- In every state that the scheduler comes to, `deadline_dispatch` returns, of the requests that wait:
  -- the read that came first, if it has waited 500 ms; else the write that came first, if it
  -- has waited 5000 ms; else one with the lowest sector of all; and NULL only if none waits.
  pub deadline_dispatch-Choice :
      (now now' : ℕ) (d : Deadline) (rs : List Request)
      → Reachable d rs
      → Choice now now' rs (deadline_dispatch jiffies_to_msecs now now' d).0
  unfolding deadline_dispatch deadline_read_expired deadline_write_expired
  deadline_dispatch-Choice now now' d rs h =
      let w = Reachable-Waiting h in
      elim (Bool-cases (expired jiffies_to_msecs now d.read_fifo d.read_deadline)) [
        | inl a ↦
            let (r, ss, split, oldest, late) =
              is_late now 500 true rs d.read_fifo w.reads (rw w.read_deadline at a) in
            rw a (
              subst (Choice now now' rs) (sym (dispatch_head-first d d.read_fifo ss r split))
                (late_read r oldest late))
        | inr na ↦
            let reads : (q : Request) → Oldest true rs q → waited now q < 500 =
              not_late now 500 true rs d.read_fifo w.reads (rw w.read_deadline at na) in
            elim (Bool-cases (expired jiffies_to_msecs now' d.write_fifo d.write_deadline)) [
              | inl b ↦
                  let (r, ss, split, oldest, late) =
                    is_late now' 5000 false rs d.write_fifo w.writes (rw w.write_deadline at b) in
                  rw (na, b)
                    (subst (Choice now now' rs)
                      (sym (dispatch_head-first d d.write_fifo ss r split))
                      (late_write r reads oldest late))
              | inr nb ↦
                  rw (na, nb)
                    (lowest-Choice now now' d rs d.dispatch w refl reads (
                      not_late now' 5000 false rs d.write_fifo w.writes
                        (rw w.write_deadline at nb)))
            ]
      ]

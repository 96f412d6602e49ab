-- ===== src/Iosched/Cfq/Books.antt =====
-- No request is lost or made up by cfq, and each process keeps one sorted queue.
use os_kernel_from_scratch.Common.{ℕ, zero, suc, ◌+◌, ◌<◌}
use os_kernel_from_scratch.Common.{◌≡◌, refl, sym, ◌∙◌, ◌≢◌, ◌⊎◌, inl, inr}
use os_kernel_from_scratch.Common.{Bool, true, false}
use os_kernel_from_scratch.Common.{Option, none, some, List, [], ◌∷◌, ◌++◌}
use os_kernel_from_scratch.Common.{arith, ◌==◌}
use os_kernel_from_scratch.Common.{Bool-cases, Option-cases, length}
use os_kernel_from_scratch.Common.{length-append}
use mathlib.Core.Option
use os_kernel_from_scratch.Common.{total}
use os_kernel_from_scratch.Iosched.Request.{Request}
use os_kernel_from_scratch.Iosched.Queue.{IsSorted, insert_sorted-IsSorted, total-insert_sorted}
use os_kernel_from_scratch.Iosched.Cfq.{
  CfqQueue, Cfq, new_queue, find_pid, cfq_get_queue, add_at, place_request, cfq_add_request,
  first_busy, reset_at, slice_used, choose, serve, take_at, cfq_dispatch,
}

-- A weight summed over the requests of all queues.
pub queued : (Request → ℕ) → List CfqQueue → ℕ
queued w [] = 0
queued w (q ∷ qs) = total w q.queue + queued w qs

abbrev pub AllSorted : List CfqQueue → Type 0
AllSorted [] = Unit
AllSorted (q ∷ qs) = IsSorted q.queue × AllSorted qs

find_pid-lt : (pid : ℕ) (qs : List CfqQueue) (i : ℕ) → find_pid pid qs ≡ some i → i < length qs
unfolding find_pid
find_pid-lt pid [] i e = cc
find_pid-lt pid (q ∷ qs) i e = elim (Bool-cases (q.pid == pid)) [
  | inl here ↦ ground (arith, here)
  | inr on ↦ elim (Option-cases (find_pid pid qs)) [
    | inl gone ↦ absurd (Option.none-ne-some _ (rw (on, gone) at e))
    | inr (j, found) ↦ ground (arith, on, found, find_pid-lt pid qs j found)
  ]
]

queued-snoc :
    (w : Request → ℕ) (qs : List CfqQueue) (pid : ℕ)
    → queued w (qs ++ new_queue pid ∷ []) ≡ queued w qs
unfolding queued total
queued-snoc w [] pid = omega arith
queued-snoc w (q ∷ qs) pid = omega (arith, queued-snoc w qs pid)

AllSorted-snoc :
    (qs : List CfqQueue) (pid : ℕ) → AllSorted qs → AllSorted (qs ++ new_queue pid ∷ [])
AllSorted-snoc [] pid s = (tt, tt)
AllSorted-snoc (q ∷ qs) pid s = (s.0, AllSorted-snoc qs pid s.1)

queued-add_at :
    (w : Request → ℕ) (qs : List CfqQueue) (i : ℕ) (r : Request)
    → i < length qs
    → queued w (add_at qs i r) ≡ w r + queued w qs
unfolding queued add_at
queued-add_at w [] i r h = elim h [ ]
queued-add_at w (q ∷ qs) zero r h = omega (arith, total-insert_sorted w r q.queue)
queued-add_at w (q ∷ qs) (suc i) r h = omega (arith, queued-add_at w qs i r (omega arith))

AllSorted-add_at :
    (qs : List CfqQueue) (i : ℕ) (r : Request) → AllSorted qs → AllSorted (add_at qs i r)
unfolding add_at
AllSorted-add_at [] i r s = tt
AllSorted-add_at (q ∷ qs) zero r s = (insert_sorted-IsSorted r q.queue s.0, s.1)
AllSorted-add_at (q ∷ qs) (suc i) r s = (s.0, AllSorted-add_at qs i r s.1)

-- The three cases of `cfq_get_queue`.
get_found :
    (memory : Bool) (pid : ℕ) (c : Cfq) (i : ℕ)
    → find_pid pid c.cfq_queues ≡ some i
    → cfq_get_queue memory c pid ≡ (some i, c)
unfolding cfq_get_queue
get_found memory pid c i e = rw (e, cfq_get_queue) refl

get_new :
    (pid : ℕ) (c : Cfq)
    → find_pid pid c.cfq_queues ≡ none
    → cfq_get_queue true c pid
      ≡ (some (length c.cfq_queues), record c { cfq_queues = c.cfq_queues ++ new_queue pid ∷ [] })
unfolding cfq_get_queue
get_new pid c e = rw (e, cfq_get_queue) refl

get_dropped :
    (pid : ℕ) (c : Cfq) → find_pid pid c.cfq_queues ≡ none → cfq_get_queue false c pid ≡ (none, c)
unfolding cfq_get_queue
get_dropped pid c e = rw (e, cfq_get_queue) refl

-- A request of a process that has a queue, or can be given one, is queued, in the order of sectors;
-- without memory for a new queue it is dropped and nothing changes.
pub cfq_add_request_lem :
    (memory : Bool) (pid : ℕ) (c : Cfq) (req : Request)
    → AllSorted c.cfq_queues
    → AllSorted (cfq_add_request memory pid c req).cfq_queues
      × ((memory ≡ true) ⊎ (find_pid pid c.cfq_queues ≢ none)
          → (w : Request → ℕ)
          → queued w (cfq_add_request memory pid c req).cfq_queues ≡ w req + queued w c.cfq_queues)
      × (memory ≡ false → find_pid pid c.cfq_queues ≡ none → cfq_add_request memory pid c req ≡ c)
unfolding cfq_add_request place_request
cfq_add_request_lem memory pid c req s = elim (Option-cases (find_pid pid c.cfq_queues)) [
  | inr (i, e) ↦ rw (get_found memory pid c i e) (
    AllSorted-add_at c.cfq_queues i req s,
    (λ _ w. queued-add_at w c.cfq_queues i req (find_pid-lt pid c.cfq_queues i e)),
    λ _ n. absurd (Option.none-ne-some i (sym n ∙ e)),
  )
  | inl e ↦ elim (Bool-cases memory) [
    | inl m ↦
        rw (m, get_new pid c e)
          (
            AllSorted-add_at (c.cfq_queues ++ new_queue pid ∷ []) (length c.cfq_queues) req
                (AllSorted-snoc c.cfq_queues pid s),
            (λ _ w. omega (
              arith,
              queued-add_at w (c.cfq_queues ++ new_queue pid ∷ []) (length c.cfq_queues) req
                  (omega (arith, length-append c.cfq_queues (new_queue pid ∷ []))),
              queued-snoc w c.cfq_queues pid,
            )),
            λ f. cc,
          )
    | inr m ↦
        rw (m, get_dropped pid c e)
          (s, (λ h. elim h [ inl t ↦ cc | inr n ↦ absurd (n e) ]), λ _ _. refl)
  ]
]

queued-reset_at :
    (w : Request → ℕ) (qs : List CfqQueue) (i : ℕ) → queued w (reset_at qs i) ≡ queued w qs
unfolding queued reset_at
queued-reset_at w [] i = refl
queued-reset_at w (q ∷ qs) zero = refl
queued-reset_at w (q ∷ qs) (suc i) = omega (arith, queued-reset_at w qs i)

AllSorted-reset_at : (qs : List CfqQueue) (i : ℕ) → AllSorted qs → AllSorted (reset_at qs i)
unfolding reset_at
AllSorted-reset_at [] i s = tt
AllSorted-reset_at (q ∷ qs) zero s = s
AllSorted-reset_at (q ∷ qs) (suc i) s = (s.0, AllSorted-reset_at qs i s.1)

-- The choice of the active queue moves no request.
choose_keeps :
    (c : Cfq)
    → AllSorted c.cfq_queues
    → ((w : Request → ℕ) → queued w (choose c).cfq_queues ≡ queued w c.cfq_queues)
      × AllSorted (choose c).cfq_queues
unfolding choose
choose_keeps c s = elim (Bool-cases (slice_used c)) [
  | inl u ↦ elim (Option-cases (first_busy c.cfq_queues)) [
    | inl n ↦ rw (u, n) ((λ w. refl), s)
    | inr (i, e) ↦
        rw (u, e) ((λ w. queued-reset_at w c.cfq_queues i), AllSorted-reset_at c.cfq_queues i s)
  ]
  | inr u ↦ rw u ((λ w. refl), s)
]

-- The weight of what a dispatch returned.
abbrev pub returned : (Request → ℕ) → Option Request → ℕ
returned w none = 0
returned w (some r) = w r

serve_keeps :
    (now : ℕ) (q : CfqQueue) (qs : List CfqQueue) (rs : List Request)
    → q.queue ≡ rs
    → IsSorted rs
    → AllSorted qs
    → ((w : Request → ℕ)
        → returned w (serve now q qs rs).0 + queued w (serve now q qs rs).1
          ≡ total w rs + queued w qs)
      × AllSorted (serve now q qs rs).1
unfolding serve queued total
serve_keeps now q qs [] e s ss = ((λ w. rw e (omega arith)), (rw e tt, ss))
serve_keeps now q qs (r ∷ rs) e s ss = ((λ w. omega arith), (s.1, ss))

take_at_keeps :
    (now : ℕ) (qs : List CfqQueue) (i : ℕ)
    → AllSorted qs
    → ((w : Request → ℕ)
        → returned w (take_at now qs i).0 + queued w (take_at now qs i).1 ≡ queued w qs)
      × AllSorted (take_at now qs i).1
unfolding take_at queued total
take_at_keeps now [] i s = ((λ w. omega arith), tt)
take_at_keeps now (q ∷ qs) zero s = serve_keeps now q qs q.queue refl s.0 s.1
take_at_keeps now (q ∷ qs) (suc i) s =
    let (same, sorted) = take_at_keeps now qs i s.1 in ((λ w. omega (arith, same w)), (s.0, sorted))

-- From sorted queues `cfq_dispatch` takes the request that it returns out of the queues, and no
-- other; if it returns none the queues hold what they held. The queues stay sorted.
pub cfq_dispatch_keeps :
    (now : ℕ) (c : Cfq)
    → AllSorted c.cfq_queues
    → ((w : Request → ℕ)
        → returned w (cfq_dispatch now c).0 + queued w (cfq_dispatch now c).1.cfq_queues
          ≡ queued w c.cfq_queues)
      × AllSorted (cfq_dispatch now c).1.cfq_queues
unfolding cfq_dispatch
cfq_dispatch_keeps now c s =
    let (same, sorted) = choose_keeps c s in
    elim (Option-cases (choose c).active_queue) [
      | inl n ↦ rw (n, cfq_dispatch) ((λ w. omega (arith, same w)), sorted)
      | inr (i, e) ↦
          let (less, sorted') = take_at_keeps now (choose c).cfq_queues i sorted in
          rw (e, cfq_dispatch) ((λ w. less w ∙ same w), sorted')
    ]

-- ===== src/Futex/Progress.antt =====
-- demos/futex: what each of the four locks gives the threads that count under it. The threads
-- interleave in any order, and the kernel may end any wait.
use os_kernel_from_scratch.Common.{ℕ, zero, suc, ◌*◌, ◌^◌, ◌≤◌, ◌<◌}
use os_kernel_from_scratch.Common.{◌≡◌, refl, ap, ◌∙◌, inl, inr}
use os_kernel_from_scratch.Common.{true}
use os_kernel_from_scratch.Common.{some, List}
use os_kernel_from_scratch.Common.{arith, ℕ_discrete}
use os_kernel_from_scratch.Common.{get_elem?}
use os_kernel_from_scratch.Common.{total}
use os_kernel_from_scratch.Common.Totals.{le-total, two-le-total, total_find}
use os_kernel_from_scratch.Futex.{
  LockCode, Pc, idle, trying, entered, loaded, stored, waking, asleep, System, Steps, stay, more,
  Reach,
}
use os_kernel_from_scratch.Futex.Local.{holds, todo, active}
use os_kernel_from_scratch.Futex.Invariant.{IsSound, Step-IsSound, reach-IsSound}
use os_kernel_from_scratch.Futex.Versions.{Kernel, Version, lock_code}
use os_kernel_from_scratch.Futex.Finish.{work, sound-Closer, Steps-append}

module _ (code : LockCode) where
  -- Every thread has done its rounds.
  abbrev pub AllDone : List (Pc code.W) → Type 0
  AllDone threads = (i : ℕ) (p : Pc code.W) → get_elem? threads i ≡ some p → p ≡ idle 0

  none_left : (p : Pc code.W) → work code p ≡ 0 → p ≡ idle 0
  unfolding work
  none_left (idle zero) h = refl
  none_left (idle (suc l)) h = absurd (omega arith)
  none_left (trying l w) h = absurd (omega arith)
  none_left (entered l) h = absurd (omega arith)
  none_left (loaded l v) h = absurd (omega arith)
  none_left (stored l) h = absurd (omega arith)
  none_left (waking l) h = absurd (omega arith)

  zero-AllDone : (threads : List (Pc code.W)) → total (work code) threads ≡ 0 → AllDone threads
  zero-AllDone threads z i p h = none_left p (omega (arith, le-total (work code) threads i p h))

  done_zero :
      (w : Pc code.W → ℕ) (threads : List (Pc code.W))
      → w (idle 0) ≡ 0
      → AllDone threads
      → total w threads ≡ 0
  done_zero w threads e h = elim (ℕ_discrete (total w threads) 0) [
    | yes z ↦ z
    | no n ↦
        let found : (i : ℕ) × (p : Pc code.W) × (get_elem? threads i ≡ some p) × (1 ≤ w p) =
          total_find w threads (omega arith) in
        let last : w found.1 ≡ 0 = ap w (h found.0 found.1 found.2) ∙ e in
        absurd (omega (arith, found.3))
  ]

  Steps-IsSound :
      (n : ℕ) (s t : System code)
      → n < 2 ^ 63
      → IsSound code n s
      → Steps code s t
      → IsSound code n t
  Steps-IsSound n s t small v stay = v
  Steps-IsSound n s t small v (more {t = u} a st) =
      Step-IsSound code n u t small (Steps-IsSound n s u small v a) st

  run_out :
      (fuel n : ℕ) (s : System code)
      → n < 2 ^ 63
      → total (work code) s.threads < fuel
      → IsSound code n s
      → (t : System code) × Steps code s t × (total (work code) t.threads ≡ 0)
  run_out zero n s small h v = absurd (omega arith)
  run_out (suc fuel) n s small h v = elim (sound-Closer code n s v) [
    | inl z ↦ (s, stay, z)
    | inr (t, st, lt) ↦
        let rest : (u : System code) × Steps code t u × (total (work code) u.threads ≡ 0) =
          run_out fuel n t small (omega (arith, lt)) (Steps-IsSound n s t small v st) in
        (rest.0, Steps-append code s t rest.0 st rest.1, rest.2)
  ]

  todo_done : todo code (idle 0) ≡ 0
  unfolding todo
  todo_done = refl

  asleep_found :
      (j k : ℕ) (w : code.W) (threads : List (Pc code.W))
      → get_elem? threads j ≡ some (trying k w)
      → code.is_asleep w ≡ true
      → 1 ≤ total (asleep code) threads
  unfolding asleep
  asleep_found j k w threads h a =
      omega (arith, le-total (asleep code) threads j (trying k w) h, sleeping)
    where
      sleeping : asleep code (trying k w) ≡ 1
      sleeping = rw a refl

module _ (kernel : Kernel) (version : Version) (n rounds : ℕ)
    (s : System (lock_code kernel version)) where
  -- With fewer than 2 ^ 63 rounds in all, two threads are never between the end of their lock
  -- function and the store of their unlock function at once, and while one is there the lock word
  -- is 1.
  pub mutual_exclusion :
      (i j : ℕ) (p q : Pc (lock_code kernel version).W)
      → n * rounds < 2 ^ 63
      → Reach (lock_code kernel version) n rounds s
      → get_elem? s.threads i ≡ some p
      → get_elem? s.threads j ≡ some q
      → holds (lock_code kernel version) p ≡ 1
      → holds (lock_code kernel version) q ≡ 1
      → (i ≡ j) × (s.mem.lock ≡ 1)
  mutual_exclusion i j p q small r h g a b = elim (ℕ_discrete i j) [
    | yes e ↦
        (e, omega (arith, v.books.owned, v.books.binary, le-total (holds code) s.threads i p h))
    | no apart ↦ absurd (
        omega (
          arith,
          v.books.owned,
          v.books.binary,
          two-le-total (holds code) s.threads i j p q apart h g,
        ))
  ]
    where
      code : LockCode
      code = lock_code kernel version

      v : IsSound (lock_code kernel version) (n * rounds) s
      v = reach-IsSound (lock_code kernel version) n rounds s small r

  -- With fewer than 2 ^ 63 rounds in all, once every thread has done its rounds the counter is
  -- the number of threads times their rounds, so no increment is lost, and the lock is free.
  pub counter_exact :
      n * rounds < 2 ^ 63
      → Reach (lock_code kernel version) n rounds s
      → AllDone (lock_code kernel version) s.threads
      → (s.mem.counter ≡ n * rounds) × (s.mem.lock ≡ 0)
  unfolding holds
  counter_exact small r d = (
    omega (
      arith,
      v.books.counted,
      done_zero (lock_code kernel version) (todo (lock_code kernel version)) s.threads
          (todo_done (lock_code kernel version)) d,
    ),
    omega (
      arith,
      v.books.owned,
      done_zero (lock_code kernel version) (holds (lock_code kernel version)) s.threads refl d,
    ),
  )
    where
      v : IsSound (lock_code kernel version) (n * rounds) s
      v = reach-IsSound (lock_code kernel version) n rounds s small r

  -- With fewer than 2 ^ 63 rounds in all, while a thread sleeps in the kernel another one is
  -- under way: it has the lock, or it is awake in its lock function, or it is about to call
  -- `futex_wake`. No wake-up is lost.
  pub sleeper_watched :
      (j k : ℕ) (w : (lock_code kernel version).W)
      → n * rounds < 2 ^ 63
      → Reach (lock_code kernel version) n rounds s
      → get_elem? s.threads j ≡ some (trying k w)
      → (lock_code kernel version).is_asleep w ≡ true
      → (i : ℕ) × (p : Pc (lock_code kernel version).W) × (get_elem? s.threads i ≡ some p)
        × (1 ≤ active (lock_code kernel version) p)
  sleeper_watched j k w small r h a = elim v.watched [
    | inl z ↦ absurd (omega (arith, asleep_found (lock_code kernel version) j k w s.threads h a))
    | inr some_active ↦ total_find (active (lock_code kernel version)) s.threads some_active
  ]
    where
      v : IsSound (lock_code kernel version) (n * rounds) s
      v = reach-IsSound (lock_code kernel version) n rounds s small r

  -- With fewer than 2 ^ 63 rounds in all, the threads can run on from every state of a run, with
  -- no help of the kernel's but the wake-ups asked for, until every one has done its rounds and
  -- the counter is the number of threads times their rounds.
  pub run_finishes :
      n * rounds < 2 ^ 63
      → Reach (lock_code kernel version) n rounds s
      → (t : System (lock_code kernel version)) × Steps (lock_code kernel version) s t
        × AllDone (lock_code kernel version) t.threads
        × (t.mem.counter ≡ n * rounds)
  run_finishes small r = (
    last.0,
    last.1,
    done,
    omega (
      arith,
      v.books.counted,
      done_zero (lock_code kernel version) (todo (lock_code kernel version)) last.0.threads
          (todo_done (lock_code kernel version)) done,
    ),
  )
    where
      last :
          (t : System (lock_code kernel version)) × Steps (lock_code kernel version) s t
          × (total (work (lock_code kernel version)) t.threads ≡ 0)
      last =
          run_out (lock_code kernel version)
            (suc (total (work (lock_code kernel version)) s.threads)) (n * rounds) s small
            (omega arith) (reach-IsSound (lock_code kernel version) n rounds s small r)

      done : AllDone (lock_code kernel version) last.0.threads
      done = zero-AllDone (lock_code kernel version) last.0.threads last.2

      v : IsSound (lock_code kernel version) (n * rounds) last.0
      v =
          Steps-IsSound (lock_code kernel version) (n * rounds) s last.0 small
            (reach-IsSound (lock_code kernel version) n rounds s small r) last.1

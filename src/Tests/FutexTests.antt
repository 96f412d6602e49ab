-- ===== src/Tests/FutexTests.antt =====
-- Runs of the locks of demos/futex, and the theorems about them at runs of two threads.
use os_kernel_from_scratch.Common.{ℕ, zero, suc, ◌*◌}
use os_kernel_from_scratch.Common.{◌≡◌, refl}
use os_kernel_from_scratch.Common.{true}
use os_kernel_from_scratch.Common.{arith, ◌==◌}
use os_kernel_from_scratch.Futex.{
  LockCode, idle, trying, entered, loaded, stored, System, Steps, turn, Reach, start, later,
  advance, tried, is_running, init,
}
use os_kernel_from_scratch.Futex.Versions.{
  Kernel, final, spinlock, lock_code, Wait4, final_attempt, spin_attempt, is_sleeping4,
}
use os_kernel_from_scratch.Futex.Local.{holds}
use os_kernel_from_scratch.Futex.Progress.{mutual_exclusion, counter_exact, run_finishes, AllDone}

eq_sound : (word val : ℕ) → (word == val) ≡ true → word ≡ val
eq_sound word val h = ground arith

abbrev eager : Kernel
eager = record { sleeps = ◌==◌; sleeps-eq = eq_sound }

abbrev final_code : LockCode
final_code = lock_code eager final

-- Thread 0 has the lock, and thread 1 has gone to sleep.
abbrev one_sleeps : (s : System final_code) × Reach final_code 2 1 s
unfolding advance tried is_running init lock_code final_attempt is_sleeping4
one_sleeps = (
  _,
  later
      (later
        (later
          (later
            (later (later start (turn 0 (idle 1) refl refl))
              (turn 0 (trying 0 Wait4.cas_first) refl refl))
            (turn 1 (idle 1) refl refl))
          (turn 1 (trying 0 Wait4.cas_first) refl refl))
        (turn 1 (trying 0 Wait4.read_old) refl refl))
      (turn 1 (trying 0 (Wait4.in_wait 0)) refl refl),
)

-- One thread alone under the spin lock.
abbrev alone : (s : System (lock_code eager spinlock)) × Reach (lock_code eager spinlock) 1 1 s
unfolding advance tried is_running init lock_code spin_attempt
alone = (
  _,
  later
      (later
        (later (later (later start (turn 0 (idle 1) refl refl)) (turn 0 (trying 0 tt) refl refl))
          (turn 0 (entered 0) refl refl))
        (turn 0 (loaded 0 0) refl refl))
      (turn 0 (stored 0) refl refl),
)

alone-AllDone : AllDone (lock_code eager spinlock) alone.0.threads
unfolding alone advance tried is_running init lock_code spin_attempt
alone-AllDone zero p h = ground arith
alone-AllDone (suc i) p h = absurd (cc)

mutual_exclusion_example : ◌≡◌ {A = ℕ} 0 0 × (one_sleeps.0.mem.lock ≡ 1)
unfolding one_sleeps advance tried is_running init lock_code final_attempt is_sleeping4 holds
mutual_exclusion_example =
    mutual_exclusion eager final 2 1 one_sleeps.0 0 0 (entered 0) (entered 0) (omega arith)
      one_sleeps.1 refl refl refl refl

counter_exact_example : (alone.0.mem.counter ≡ 1 * 1) × (alone.0.mem.lock ≡ 0)
counter_exact_example = counter_exact eager spinlock 1 1 alone.0 (omega arith) alone.1 alone-AllDone

run_finishes_example :
    (t : System final_code) × Steps final_code one_sleeps.0 t
    × AllDone final_code t.threads
    × (t.mem.counter ≡ 2 * 1)
run_finishes_example = run_finishes eager final 2 1 one_sleeps.0 (omega arith) one_sleeps.1

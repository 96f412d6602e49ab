-- ===== src/Futex.antt =====
-- demos/futex: threads that count under a lock. What the four versions share: the worker, the
-- lock word and the counter, and the interleavings. A version is a `LockCode`.

use os_kernel_from_scratch.Common.{
  ℕ, zero, suc, ◌+◌, ◌-◌, ◌*◌, ◌/◌, ◌%◌, ◌^◌, ◌≤◌, ◌<◌, min, max, bit_and, bit_or, bit_xor,
}
use os_kernel_from_scratch.Common.{◌≡◌, refl, sym, ap, ap₂, ◌∙◌, ◌≢◌, ◌↔◌, ◌⊎◌, inl, inr}
use os_kernel_from_scratch.Common.{Bool, true, false, not, ◌&&◌, ◌||◌}
use os_kernel_from_scratch.Common.{Option, none, some, List, [], ◌∷◌, ◌++◌, map}
use os_kernel_from_scratch.Common.{arith, dec_lt, ℕ_discrete, ltb, leb, ◌==◌, if◌then◌else◌}
use os_kernel_from_scratch.Common.{Bool-cases, Option-cases, length, get_elem?, get_or, set}
use os_kernel_from_scratch.Common.{take, drop, replicate, length-set, length-append}
pub mod Versions
pub mod Local
pub mod Invariant
pub mod Finish
pub mod Progress
use os_kernel_from_scratch.Common.{total}

-- One atomic access of a lock function to the lock word: it has the lock, or it goes on.
pub data Attempt (W : Type 0) : Type 0 where
  acquired : Attempt W
  waiting : W → Attempt W

-- A lock and an unlock function. `W` is where a thread stands in the lock function, and with
-- which locals.
pub record LockCode : Type 1 where
  pub W : Type 0
  pub first : W
  pub attempt : ℕ → W → Attempt W
  -- In the kernel, until woken; and where `woken` goes on.
  pub is_asleep : W → Bool
  pub woken : W → W
  -- `unlock` calls `futex_wake`.
  pub wakes : Bool
  -- How many accesses a free lock takes at most.
  pub distance : W → ℕ
  -- Only a free lock is taken, and only a taken lock is slept on.
  pub attempt_free : (lock : ℕ) (w : W) → attempt lock w ≡ acquired → lock ≡ 0
  pub attempt_asleep :
      (lock : ℕ) (w v : W)
      → is_asleep w ≡ false
      → attempt lock w ≡ waiting v
      → is_asleep v ≡ true
      → lock ≢ 0
  pub attempt_closer :
      (w v : W) → is_asleep w ≡ false → attempt 0 w ≡ waiting v → suc (distance v) ≤ distance w
  pub first_awake : is_asleep first ≡ false
  pub woken_awake : (w : W) → is_asleep (woken w) ≡ false
  -- Who lets threads sleep wakes them.
  pub asleep-wakes : (w : W) → is_asleep w ≡ true → wakes ≡ true

-- The memory that the threads share.
pub record Mem : Type 0 where
  pub lock : ℕ
  pub counter : ℕ

-- Where a thread stands in `worker`, with how many rounds come after the one it is in. `counter++`
-- is a load and a store.
pub data Pc (W : Type 0) : Type 0 where
  idle : ℕ → Pc W
  trying : ℕ → W → Pc W
  entered : ℕ → Pc W
  loaded : ℕ → ℕ → Pc W
  stored : ℕ → Pc W
  waking : ℕ → Pc W

module _ (code : LockCode) where
  unfoldable pub tried : Mem → ℕ → Attempt code.W → Mem × Pc code.W
  tried m l acquired = (record m { lock = 1 }, entered l)
  tried m l (waiting w) = (m, trying l w)

  -- The next access of a thread to the memory, its local steps with it.
  unfoldable pub advance : Mem → Pc code.W → Mem × Pc code.W
  unfolding tried
  advance m (idle zero) = (m, idle 0)
  advance m (idle (suc l)) = (m, trying l code.first)
  advance m (trying l w) = tried m l (code.attempt m.lock w)
  advance m (entered l) = (m, loaded l m.counter)
  advance m (loaded l v) = (record m { counter = (v + 1) % 2 ^ 64 }, stored l)
  advance m (stored l) = (record m { lock = 0 }, if code.wakes then waking l else idle l)
  advance m (waking l) = (m, idle l)

  -- Has a step of its own: it is not done, not asleep, and not in `futex_wake`.
  unfoldable pub is_running : Pc code.W → Bool
  is_running (idle zero) = false
  is_running (idle (suc l)) = true
  is_running (trying l w) = not (code.is_asleep w)
  is_running (entered l) = true
  is_running (loaded l v) = true
  is_running (stored l) = true
  is_running (waking l) = false

  -- 1 for a thread that sleeps in the kernel.
  unfoldable pub asleep : Pc code.W → ℕ
  asleep (idle l) = 0
  asleep (trying l w) = if code.is_asleep w then 1 else 0
  asleep (entered l) = 0
  asleep (loaded l v) = 0
  asleep (stored l) = 0
  asleep (waking l) = 0

  pub record System : Type 0 where
    pub mem : Mem
    pub threads : List (Pc code.W)

  -- Any thread may take its step next. `futex_wake` with one to wake ends the wait of any one
  -- sleeper, or finds none.
  pub data Step (s : System) : System → Type 0 where
    turn :
        (i : ℕ) (p : Pc code.W)
        → get_elem? s.threads i ≡ some p
        → is_running p ≡ true
        → Step s
            (record { mem = (advance s.mem p).0; threads = set s.threads i (advance s.mem p).1 })
    wake :
        (i j l k : ℕ) (w : code.W)
        → get_elem? s.threads i ≡ some (waking l)
        → get_elem? s.threads j ≡ some (trying k w)
        → code.is_asleep w ≡ true
        → Step s (record {
          mem = s.mem;
          threads = set (set s.threads i (idle l)) j (trying k (code.woken w));
        })
    wake_none :
        (i l : ℕ)
        → get_elem? s.threads i ≡ some (waking l)
        → total asleep s.threads ≡ 0
        → Step s (record { mem = s.mem; threads = set s.threads i (idle l) })

  pub data Steps (s : System) : System → Type 0 where
    stay : Steps s s
    more : {t u : System} → Steps s t → Step t u → Steps s u

  -- `main`: `n` threads of so many rounds.
  unfoldable pub init : ℕ → ℕ → System
  init n rounds = record {
    mem = record { lock = 0; counter = 0 };
    threads = replicate n (idle rounds);
  }

  -- The states that a run comes to. The kernel may also end a wait that nobody ended.
  pub data Reach (n rounds : ℕ) : System → Type 0 where
    start : Reach n rounds (init n rounds)
    later : {s t : System} → Reach n rounds s → Step s t → Reach n rounds t
    spurious :
        {s : System} (j k : ℕ) (w : code.W)
        → Reach n rounds s
        → get_elem? s.threads j ≡ some (trying k w)
        → code.is_asleep w ≡ true
        → Reach n rounds
            (record { mem = s.mem; threads = set s.threads j (trying k (code.woken w)) })

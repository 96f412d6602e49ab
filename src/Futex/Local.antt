-- ===== src/Futex/Local.antt =====
-- What one step of a thread changes: whether it is in the critical section, the increments it
-- has left, what it has read, and whether it sleeps.
use os_kernel_from_scratch.Common.{ℕ, zero, suc, ◌+◌, ◌^◌, ◌≤◌, ◌<◌}
use os_kernel_from_scratch.Common.{◌≡◌, refl, ◌≢◌, ◌⊎◌, inl, inr}
use os_kernel_from_scratch.Common.{true, false}
use os_kernel_from_scratch.Common.{arith, ◌==◌, if◌then◌else◌}
use os_kernel_from_scratch.Common.{Bool-cases}
use os_kernel_from_scratch.Futex.{
  Attempt, acquired, waiting, LockCode, Mem, Pc, idle, trying, entered, loaded, stored, waking,
  tried, advance, is_running, asleep,
}

pub Attempt-cases : {W : Type 0} → (a : Attempt W) → (a ≡ acquired) ⊎ (v : W) × (a ≡ waiting v)
Attempt-cases acquired = inl refl
Attempt-cases (waiting v) = inr (v, refl)

module _ (code : LockCode) where
  -- 1 for a thread between the end of `lock` and the store of `unlock`.
  unfoldable pub holds : Pc code.W → ℕ
  holds (idle l) = 0
  holds (trying l w) = 0
  holds (entered l) = 1
  holds (loaded l v) = 1
  holds (stored l) = 1
  holds (waking l) = 0

  -- The increments that a thread has left.
  unfoldable pub todo : Pc code.W → ℕ
  todo (idle l) = l
  todo (trying l w) = suc l
  todo (entered l) = suc l
  todo (loaded l v) = suc l
  todo (stored l) = l
  todo (waking l) = l

  -- 1 for a thread that has loaded something else than `counter`.
  unfoldable pub stale : ℕ → Pc code.W → ℕ
  stale counter (idle l) = 0
  stale counter (trying l w) = 0
  stale counter (entered l) = 0
  stale counter (loaded l v) = if v == counter then 0 else 1
  stale counter (stored l) = 0
  stale counter (waking l) = 0

  -- 1 for a thread that is under way and not asleep.
  unfoldable pub active : Pc code.W → ℕ
  active (idle l) = 0
  active (trying l w) = if code.is_asleep w then 0 else 1
  active (entered l) = 1
  active (loaded l v) = 1
  active (stored l) = 1
  active (waking l) = 1

  pub holds-le-active : (p : Pc code.W) → holds p ≤ active p
  unfolding holds active
  holds-le-active (idle l) = omega arith
  holds-le-active (trying l w) = ground arith
  holds-le-active (entered l) = omega arith
  holds-le-active (loaded l v) = omega arith
  holds-le-active (stored l) = omega arith
  holds-le-active (waking l) = omega arith

  pub stale-le-holds : (c : ℕ) (p : Pc code.W) → stale c p ≤ holds p
  unfolding holds stale
  stale-le-holds c (idle l) = omega arith
  stale-le-holds c (trying l w) = omega arith
  stale-le-holds c (entered l) = omega arith
  stale-le-holds c (loaded l v) = ground arith
  stale-le-holds c (stored l) = omega arith
  stale-le-holds c (waking l) = omega arith

  pub holds-advance :
      (m : Mem) (p : Pc code.W)
      → m.lock ≤ 1
      → holds p ≤ m.lock
      → (holds (advance code m p).1 + m.lock ≡ holds p + (advance code m p).0.lock)
        × ((advance code m p).0.lock ≤ 1)
  unfolding advance tried holds
  holds-advance m (idle zero) h k = ground arith
  holds-advance m (idle (suc l)) h k = ground arith
  holds-advance m (trying l w) h k = elim (Attempt-cases (code.attempt m.lock w)) [
    | inl e ↦ rw e (ground (arith, code.attempt_free m.lock w e))
    | inr (v, e) ↦ rw e (ground arith)
  ]
  holds-advance m (entered l) h k = ground arith
  holds-advance m (loaded l v) h k = ground arith
  holds-advance m (stored l) h k = ground arith
  holds-advance m (waking l) h k = ground arith

  pub todo-advance :
      (m : Mem) (p : Pc code.W)
      → m.counter + todo p < 2 ^ 63
      → stale m.counter p ≡ 0
      → todo (advance code m p).1 + (advance code m p).0.counter ≡ todo p + m.counter
  unfolding advance tried todo stale
  todo-advance m (idle zero) h k = ground arith
  todo-advance m (idle (suc l)) h k = ground arith
  todo-advance m (trying l w) h k = elim (Attempt-cases (code.attempt m.lock w)) [
    | inl e ↦ rw e (ground arith)
    | inr (v, e) ↦ rw e (ground arith)
  ]
  todo-advance m (entered l) h k = ground arith
  todo-advance m (loaded l v) h k = ground arith
  todo-advance m (stored l) h k = ground arith
  todo-advance m (waking l) h k = ground arith

  -- A step keeps the counter, and then what the thread has read is fresh; or it is the store of
  -- the counter, with the thread in the critical section.
  pub stale-advance :
      (m : Mem) (p : Pc code.W)
      → m.counter + todo p < 2 ^ 63
      → stale m.counter p ≡ 0
      → (((advance code m p).0.counter ≡ m.counter) × (stale m.counter (advance code m p).1 ≡ 0))
        ⊎ ((stale (advance code m p).0.counter p ≡ 1)
            × (stale (advance code m p).0.counter (advance code m p).1 ≡ 0))
  unfolding advance tried todo stale
  stale-advance m (idle zero) h k = inl (refl, refl)
  stale-advance m (idle (suc l)) h k = inl (refl, refl)
  stale-advance m (trying l w) h k = elim (Attempt-cases (code.attempt m.lock w)) [
    | inl e ↦ rw e (inl (refl, refl))
    | inr (v, e) ↦ rw e (inl (refl, refl))
  ]
  stale-advance m (entered l) h k = inl (refl, ground arith)
  stale-advance m (loaded l v) h k = inr (ground arith, refl)
  stale-advance m (stored l) h k = inl (refl, ground arith)
  stale-advance m (waking l) h k = inl (refl, refl)

  -- After its step a thread is under way, or it sleeps and the lock is taken, or it is done with a
  -- round of a lock whose threads never sleep.
  pub active-advance :
      (m : Mem) (p : Pc code.W)
      → is_running code p ≡ true
      → (1 ≤ active (advance code m p).1) ⊎ ((advance code m p).0.lock ≢ 0) ⊎ (code.wakes ≡ false)
  unfolding advance tried is_running active
  active-advance m (idle zero) h = absurd (cc)
  active-advance m (idle (suc l)) h = inl (rw code.first_awake (omega arith))
  active-advance m (trying l w) h = elim (Attempt-cases (code.attempt m.lock w)) [
    | inl e ↦ rw e (inl (omega arith))
    | inr (v, e) ↦ rw e (elim (Bool-cases (code.is_asleep v)) [
      | inl a ↦ inr (inl (code.attempt_asleep m.lock w v (ground arith) e a))
      | inr a ↦ inl (rw a (omega arith))
    ])
  ]
  active-advance m (entered l) h = inl (omega arith)
  active-advance m (loaded l v) h = inl (omega arith)
  active-advance m (stored l) h = elim (Bool-cases code.wakes) [
    | inl e ↦ inl (ground arith)
    | inr e ↦ inr (inr e)
  ]
  active-advance m (waking l) h = absurd (cc)

  pub asleep-wakes : (p : Pc code.W) → code.wakes ≡ false → asleep code p ≡ 0
  unfolding asleep
  asleep-wakes (idle l) h = refl
  asleep-wakes (trying l w) h = ground (arith, code.asleep-wakes w)
  asleep-wakes (entered l) h = refl
  asleep-wakes (loaded l v) h = refl
  asleep-wakes (stored l) h = refl
  asleep-wakes (waking l) h = refl

-- ===== src/Futex/Versions.antt =====
-- The lock functions of demos/futex/futex_v1_spinlock.c to futex_v4_final.c.
use os_kernel_from_scratch.Common.{ℕ, zero, suc, ◌+◌, ◌≤◌}
use os_kernel_from_scratch.Common.{◌≡◌, refl, ◌≢◌}
use os_kernel_from_scratch.Common.{Bool, true, false}
use os_kernel_from_scratch.Common.{arith, ltb, ◌==◌, if◌then◌else◌}
use os_kernel_from_scratch.Futex.{Attempt, acquired, waiting, LockCode}

-- FUTEX_WAIT in the kernel: whether it sleeps at this value of the word, given the expected one.
-- futex(2): it does not sleep unless they are equal.
pub record Kernel : Type 0 where
  pub sleeps : ℕ → ℕ → Bool
  pub sleeps-eq : (word val : ℕ) → sleeps word val ≡ true → word ≡ val

-- `spin_lock`: a compare and swap, again and again.
unfoldable pub spin_attempt : ℕ → Unit {0} → Attempt (Unit {0})
spin_attempt lock w = if lock == 0 then acquired else waiting w

-- `spin_lock_yield`: the same, with `spin_count`.
unfoldable pub yield_attempt : ℕ → ℕ → Attempt ℕ
yield_attempt lock spin_count =
    if lock == 0
    then acquired
    else waiting (if ltb 1000 (spin_count + 1) then 0 else spin_count + 1)

-- `futex_lock` of v3: the first compare and swap, the call of `futex_wait`, asleep in it, and the
-- compare and swap of the loop.
pub data Wait3 : Type 0 where
  cas_first : Wait3
  in_wait : Wait3
  sleeping : Wait3
  cas_again : Wait3

-- `futex_lock` of v4: the first compare and swap, the read into `old`, the call of `futex_wait`
-- with `old` one more than the number here, asleep in it, and the compare and swap of the loop.
pub data Wait4 : Type 0 where
  cas_first : Wait4
  read_old : Wait4
  in_wait : ℕ → Wait4
  sleeping : Wait4
  cas_again : Wait4

module _ (kernel : Kernel) where
  unfoldable pub futex_attempt : ℕ → Wait3 → Attempt Wait3
  futex_attempt lock Wait3.cas_first = if lock == 0 then acquired else waiting Wait3.in_wait
  futex_attempt lock Wait3.in_wait =
      waiting (if kernel.sleeps lock 1 then Wait3.sleeping else Wait3.cas_again)
  futex_attempt lock Wait3.sleeping = waiting Wait3.sleeping
  futex_attempt lock Wait3.cas_again = if lock == 0 then acquired else waiting Wait3.in_wait

  unfoldable pub final_attempt : ℕ → Wait4 → Attempt Wait4
  final_attempt lock Wait4.cas_first = if lock == 0 then acquired else waiting Wait4.read_old
  final_attempt zero Wait4.read_old = waiting Wait4.cas_again
  final_attempt (suc old) Wait4.read_old = waiting (Wait4.in_wait old)
  final_attempt lock (Wait4.in_wait old) =
      waiting (if kernel.sleeps lock (suc old) then Wait4.sleeping else Wait4.read_old)
  final_attempt lock Wait4.sleeping = waiting Wait4.sleeping
  final_attempt lock Wait4.cas_again = if lock == 0 then acquired else waiting Wait4.read_old

-- `futex_wait` returns: to the compare and swap.
unfoldable pub is_sleeping3 : Wait3 → Bool
is_sleeping3 Wait3.cas_first = false
is_sleeping3 Wait3.in_wait = false
is_sleeping3 Wait3.sleeping = true
is_sleeping3 Wait3.cas_again = false

abbrev pub distance3 : Wait3 → ℕ
distance3 Wait3.in_wait = 1
distance3 w = 0

unfoldable pub is_sleeping4 : Wait4 → Bool
is_sleeping4 Wait4.cas_first = false
is_sleeping4 Wait4.read_old = false
is_sleeping4 (Wait4.in_wait old) = false
is_sleeping4 Wait4.sleeping = true
is_sleeping4 Wait4.cas_again = false

abbrev pub distance4 : Wait4 → ℕ
distance4 (Wait4.in_wait old) = 2
distance4 Wait4.read_old = 1
distance4 w = 0

pub spin_free : (lock : ℕ) (w : Unit {0}) → spin_attempt lock w ≡ acquired → lock ≡ 0
unfolding spin_attempt
spin_free lock w h = ground arith

pub spin_closer : (w v : Unit {0}) → spin_attempt 0 w ≡ waiting v → suc 0 ≤ 0
unfolding spin_attempt
spin_closer w v h = ground arith

pub yield_free : (lock w : ℕ) → yield_attempt lock w ≡ acquired → lock ≡ 0
unfolding yield_attempt
yield_free lock w h = ground arith

pub yield_closer : (w v : ℕ) → yield_attempt 0 w ≡ waiting v → suc 0 ≤ 0
unfolding yield_attempt
yield_closer w v h = ground arith

module _ (kernel : Kernel) where
  pub futex_free : (lock : ℕ) (w : Wait3) → futex_attempt kernel lock w ≡ acquired → lock ≡ 0
  unfolding futex_attempt
  futex_free lock Wait3.cas_first h = ground arith
  futex_free lock Wait3.in_wait h = ground arith
  futex_free lock Wait3.sleeping h = ground arith
  futex_free lock Wait3.cas_again h = ground arith

  pub futex_asleep :
      (lock : ℕ) (w v : Wait3)
      → is_sleeping3 w ≡ false
      → futex_attempt kernel lock w ≡ waiting v
      → is_sleeping3 v ≡ true
      → lock ≢ 0
  unfolding futex_attempt is_sleeping3
  futex_asleep lock Wait3.cas_first v a h b = ground arith
  futex_asleep lock Wait3.in_wait v a h b = ground (arith, kernel.sleeps-eq lock 1)
  futex_asleep lock Wait3.sleeping v a h b = ground arith
  futex_asleep lock Wait3.cas_again v a h b = ground arith

  pub futex_closer :
      (w v : Wait3)
      → is_sleeping3 w ≡ false
      → futex_attempt kernel 0 w ≡ waiting v
      → suc (distance3 v) ≤ distance3 w
  unfolding futex_attempt is_sleeping3
  futex_closer Wait3.cas_first v a h = ground arith
  futex_closer Wait3.in_wait v a h = ground (arith, kernel.sleeps-eq 0 1)
  futex_closer Wait3.sleeping v a h = ground arith
  futex_closer Wait3.cas_again v a h = ground arith

  pub final_free : (lock : ℕ) (w : Wait4) → final_attempt kernel lock w ≡ acquired → lock ≡ 0
  unfolding final_attempt
  final_free lock Wait4.cas_first h = ground arith
  final_free zero Wait4.read_old h = refl
  final_free (suc lock) Wait4.read_old h = ground arith
  final_free lock (Wait4.in_wait old) h = ground arith
  final_free lock Wait4.sleeping h = ground arith
  final_free lock Wait4.cas_again h = ground arith

  pub final_asleep :
      (lock : ℕ) (w v : Wait4)
      → is_sleeping4 w ≡ false
      → final_attempt kernel lock w ≡ waiting v
      → is_sleeping4 v ≡ true
      → lock ≢ 0
  unfolding final_attempt is_sleeping4
  final_asleep lock Wait4.cas_first v a h b = ground arith
  final_asleep zero Wait4.read_old v a h b = ground arith
  final_asleep (suc lock) Wait4.read_old v a h b = ground arith
  final_asleep lock (Wait4.in_wait old) v a h b = ground (arith, kernel.sleeps-eq lock (suc old))
  final_asleep lock Wait4.sleeping v a h b = ground arith
  final_asleep lock Wait4.cas_again v a h b = ground arith

  pub final_closer :
      (w v : Wait4)
      → is_sleeping4 w ≡ false
      → final_attempt kernel 0 w ≡ waiting v
      → suc (distance4 v) ≤ distance4 w
  unfolding final_attempt is_sleeping4
  final_closer Wait4.cas_first v a h = ground arith
  final_closer Wait4.read_old v a h = ground arith
  final_closer (Wait4.in_wait old) v a h = ground (arith, kernel.sleeps-eq 0 (suc old))
  final_closer Wait4.sleeping v a h = ground arith
  final_closer Wait4.cas_again v a h = ground arith

pub never : {P : Type 0} → ◌≡◌ {A = Bool} false true → P
never h = absurd (cc)

-- `spin_lock` and `spin_unlock` of v1.
unfoldable pub spin_lock_code : LockCode
spin_lock_code = record {
  W = Unit {0};
  first = tt;
  attempt = spin_attempt;
  is_asleep = λ _. false;
  woken = λ w. w;
  wakes = false;
  distance = λ _. 0;
  attempt_free = spin_free;
  attempt_asleep = λ lock w v a h b. never b;
  attempt_closer = λ w v a h. spin_closer w v h;
  first_awake = refl;
  woken_awake = λ w. refl;
  asleep-wakes = λ w h. never h;
}

-- `spin_lock_yield` and `spin_unlock` of v2.
unfoldable pub yield_lock_code : LockCode
yield_lock_code = record {
  W = ℕ;
  first = 0;
  attempt = yield_attempt;
  is_asleep = λ _. false;
  woken = λ w. w;
  wakes = false;
  distance = λ _. 0;
  attempt_free = yield_free;
  attempt_asleep = λ lock w v a h b. never b;
  attempt_closer = λ w v a h. yield_closer w v h;
  first_awake = refl;
  woken_awake = λ w. refl;
  asleep-wakes = λ w h. never h;
}

-- `futex_lock` and `futex_unlock` of v3: the wait returns to the compare and swap of the loop.
unfoldable pub futex_lock_code : Kernel → LockCode
unfolding is_sleeping3
futex_lock_code kernel = record {
  W = Wait3;
  first = Wait3.cas_first;
  attempt = futex_attempt kernel;
  is_asleep = is_sleeping3;
  woken = λ _. Wait3.cas_again;
  wakes = true;
  distance = distance3;
  attempt_free = futex_free kernel;
  attempt_asleep = futex_asleep kernel;
  attempt_closer = futex_closer kernel;
  first_awake = refl;
  woken_awake = λ w. refl;
  asleep-wakes = λ w h. refl;
}

-- `futex_lock` and `futex_unlock` of v4: the wait returns to the read into `old`.
unfoldable pub final_lock_code : Kernel → LockCode
unfolding is_sleeping4
final_lock_code kernel = record {
  W = Wait4;
  first = Wait4.cas_first;
  attempt = final_attempt kernel;
  is_asleep = is_sleeping4;
  woken = λ _. Wait4.read_old;
  wakes = true;
  distance = distance4;
  attempt_free = final_free kernel;
  attempt_asleep = final_asleep kernel;
  attempt_closer = final_closer kernel;
  first_awake = refl;
  woken_awake = λ w. refl;
  asleep-wakes = λ w h. refl;
}

-- The four files.
pub data Version : Type 0 where
  spinlock : Version
  yield_spinlock : Version
  futex_lock : Version
  final : Version

unfoldable pub lock_code : Kernel → Version → LockCode
unfolding spin_lock_code yield_lock_code futex_lock_code final_lock_code
lock_code kernel spinlock = spin_lock_code
lock_code kernel yield_spinlock = yield_lock_code
lock_code kernel futex_lock = futex_lock_code kernel
lock_code kernel final = final_lock_code kernel

-- ===== src/Futex/Finish.antt =====
-- demos/futex: how far a run is from its end, and a step that brings it closer.
use os_kernel_from_scratch.Common.{ℕ, zero, suc, ◌+◌, ◌*◌, ◌≤◌, ◌<◌}
use os_kernel_from_scratch.Common.{◌≡◌, refl, sym, ap, ◌∙◌, ◌≢◌, ◌⊎◌, inl, inr}
use os_kernel_from_scratch.Common.{true, false}
use os_kernel_from_scratch.Common.{Option, some}
use os_kernel_from_scratch.Common.{arith, ℕ_discrete}
use os_kernel_from_scratch.Common.{Bool-cases, get_elem?, set}
use os_kernel_from_scratch.Common.{total, get_elem?-set_ne, get_elem?-set_self}
use os_kernel_from_scratch.Common.Totals.{total-set, le-total, total_find}
use mathlib.Core.Path.{subst}
use os_kernel_from_scratch.Futex.{
  waiting, LockCode, Mem, Pc, idle, trying, entered, loaded, stored, waking, tried, advance,
  is_running, asleep, System, Step, turn, wake, wake_none, Steps, stay, more,
}
use os_kernel_from_scratch.Futex.Local.{Attempt-cases, holds, active}
use os_kernel_from_scratch.Futex.Invariant.{IsSound, get_elem?-lt}

module _ (code : LockCode) where
  -- At least the steps that a thread has left, not counting those that only wait.
  unfoldable pub work : Pc code.W → ℕ
  work (idle l) = 6 * l
  work (trying l w) = 6 * l + 5
  work (entered l) = 6 * l + 4
  work (loaded l v) = 6 * l + 3
  work (stored l) = 6 * l + 2
  work (waking l) = 6 * l + 1

  abbrev pub Closer : System code → Type 0
  Closer s =
      (t : System code) × Steps code s t × (suc (total work t.threads) ≤ total work s.threads)

  pub Steps-append : (s t u : System code) → Steps code s t → Steps code t u → Steps code s u
  Steps-append s t u a stay = a
  Steps-append s t u a (more {t = v} b st) = more (Steps-append s t v a b) st

  turn_to :
      (s : System code) (i : ℕ) (p q : Pc code.W) (m : Mem)
      → get_elem? s.threads i ≡ some p
      → is_running code p ≡ true
      → advance code s.mem p ≡ (m, q)
      → Step code s (record { mem = m; threads = set s.threads i q })
  turn_to s i p q m h r e =
      subst
        (λ (a : Mem × Pc code.W). Step code s (record { mem = a.0; threads = set s.threads i a.1 }))
        e (turn i p h r)

  -- A step of a thread that is in the critical section.
  work-advance :
      (m : Mem) (p : Pc code.W)
      → 1 ≤ holds code p
      → (is_running code p ≡ true) × (suc (work (advance code m p).1) ≤ work p)
  unfolding holds work advance is_running
  work-advance m (idle l) h = absurd (omega arith)
  work-advance m (trying l w) h = absurd (omega arith)
  work-advance m (entered l) h = (refl, omega arith)
  work-advance m (loaded l v) h = (refl, omega arith)
  work-advance m (stored l) h = (refl, ground arith)
  work-advance m (waking l) h = absurd (omega arith)

  holder-Closer :
      (s : System code) (i : ℕ) (p : Pc code.W)
      → get_elem? s.threads i ≡ some p
      → 1 ≤ holds code p
      → Closer s
  holder-Closer s i p h k = (
    record { mem = (advance code s.mem p).0; threads = set s.threads i (advance code s.mem p).1 },
    more stay (turn i p h (work-advance s.mem p k).0),
    omega (arith, total-set work s.threads i p (advance code s.mem p).1 h, work-advance s.mem p k),
  )

  is_awake : (l : ℕ) (w : code.W) → code.is_asleep w ≡ false → is_running code (trying l w) ≡ true
  unfolding is_running
  is_awake l w a = rw a refl

  -- What one access of a waiting thread makes of a free lock.
  attempt_free :
      (m : Mem) (l : ℕ) (w : code.W)
      → m.lock ≡ 0
      → advance code m (trying l w) ≡ tried code m l (code.attempt 0 w)
  unfolding advance
  attempt_free m l w free = ap (λ n. tried code m l (code.attempt n w)) free

  attempt_awake :
      (w v : code.W)
      → code.is_asleep w ≡ false
      → code.attempt 0 w ≡ waiting v
      → code.is_asleep v ≡ false
  attempt_awake w v a e = elim (Bool-cases (code.is_asleep v)) [
    | inl b ↦ absurd (code.attempt_asleep 0 w v a e b refl)
    | inr b ↦ b
  ]

  -- With the lock free, a thread that is awake takes it.
  take-Closer :
      (d : ℕ) (s : System code) (i l : ℕ) (w : code.W)
      → get_elem? s.threads i ≡ some (trying l w)
      → s.mem.lock ≡ 0
      → code.is_asleep w ≡ false
      → code.distance w < d
      → Closer s
  unfolding work tried
  take-Closer zero s i l w h free a near = absurd (omega arith)
  take-Closer (suc d) s i l w h free a near = elim (Attempt-cases (code.attempt 0 w)) [
    | inl e ↦ (
      record { mem = record s.mem { lock = 1 }; threads = set s.threads i (entered l) },
      more stay (
          turn_to s i (trying l w) (entered l) (record s.mem { lock = 1 }) h (is_awake l w a)
            (attempt_free s.mem l w free ∙ ap (tried code s.mem l) e)),
      omega (arith, total-set work s.threads i (trying l w) (entered l) h),
    )
    | inr (v, e) ↦
        let t : System code = record { mem = s.mem; threads = set s.threads i (trying l v) } in
        let first : Step code s t =
          turn_to s i (trying l w) (trying l v) s.mem h (is_awake l w a)
            (attempt_free s.mem l w free ∙ ap (tried code s.mem l) e) in
        let rest : Closer t =
          take-Closer d t i l v
            (get_elem?-set_self s.threads i (trying l v) (get_elem?-lt s.threads i (trying l w) h))
            free (attempt_awake w v a e) (omega (arith, code.attempt_closer w v a e)) in
        (
          rest.0,
          Steps-append s t rest.0 (more stay first) rest.1,
          omega (arith, rest.2, total-set work s.threads i (trying l w) (trying l v) h),
        )
  ]

  asleep_one :
      (p : Pc code.W)
      → 1 ≤ asleep code p
      → (k : ℕ) × (w : code.W) × (p ≡ trying k w) × (code.is_asleep w ≡ true)
  unfolding asleep
  asleep_one (idle l) h = absurd (omega arith)
  asleep_one (trying l w) h = (l, w, refl, ground arith)
  asleep_one (entered l) h = absurd (omega arith)
  asleep_one (loaded l v) h = absurd (omega arith)
  asleep_one (stored l) h = absurd (omega arith)
  asleep_one (waking l) h = absurd (omega arith)

  waking_trying :
      (l k : ℕ) (w : code.W)
      → ◌≡◌ {A = Option (Pc code.W)} (some (waking l)) (some (trying k w))
      → ⊥
  waking_trying l k w e = absurd (cc)

  -- A thread in `futex_wake` wakes one that sleeps, or finds none.
  waking-Closer : (s : System code) (i l : ℕ) → get_elem? s.threads i ≡ some (waking l) → Closer s
  unfolding work
  waking-Closer s i l h = elim (ℕ_discrete (total (asleep code) s.threads) 0) [
    | yes z ↦ (
      record { mem = s.mem; threads = set s.threads i (idle l) },
      more stay (wake_none i l h z),
      omega (arith, total-set work s.threads i (waking l) (idle l) h),
    )
    | no n ↦
        let found : (j : ℕ) × (q : Pc code.W) × (get_elem? s.threads j ≡ some q)
            × (1 ≤ asleep code q) =
          total_find (asleep code) s.threads (omega arith) in
        let sleeper : (k : ℕ) × (w : code.W) × (found.1 ≡ trying k w) × (code.is_asleep w ≡ true) =
          asleep_one found.1 found.3 in
        let j = found.0 in
        let k = sleeper.0 in
        let w = sleeper.1 in
        let there : get_elem? s.threads j ≡ some (trying k w) = found.2 ∙ ap some sleeper.2 in
        let apart : i ≢ j = λ e. waking_trying l k w (sym h ∙ ap (get_elem? s.threads) e ∙ there) in
        (
          record {
            mem = s.mem;
            threads = set (set s.threads i (idle l)) j (trying k (code.woken w));
          },
          more stay (wake i j l k w h there sleeper.3),
          omega (
            arith,
            total-set work s.threads i (waking l) (idle l) h,
            total-set work (set s.threads i (idle l)) j (trying k w) (trying k (code.woken w))
                (get_elem?-set_ne s.threads (idle l) apart ∙ there),
          ),
        )
  ]

  -- With the lock free, a thread that is under way.
  active-Closer :
      (s : System code) (i : ℕ) (p : Pc code.W)
      → s.mem.lock ≡ 0
      → get_elem? s.threads i ≡ some p
      → 1 ≤ active code p
      → Closer s
  unfolding active holds
  active-Closer s i (idle l) free h a = absurd (omega arith)
  active-Closer s i (trying l w) free h a =
      take-Closer (suc (code.distance w)) s i l w h free (ground arith) (omega arith)
  active-Closer s i (entered l) free h a = holder-Closer s i (entered l) h (omega arith)
  active-Closer s i (loaded l v) free h a = holder-Closer s i (loaded l v) h (omega arith)
  active-Closer s i (stored l) free h a = holder-Closer s i (stored l) h (omega arith)
  active-Closer s i (waking l) free h a = waking-Closer s i l h

  -- Nobody is under way or sleeps, but somebody has rounds left.
  idle-Closer :
      (s : System code) (i : ℕ) (p : Pc code.W)
      → get_elem? s.threads i ≡ some p
      → active code p ≡ 0
      → asleep code p ≡ 0
      → 1 ≤ work p
      → Closer s
  unfolding active asleep work advance is_running
  idle-Closer s i (idle zero) h a b c = absurd (omega arith)
  idle-Closer s i (idle (suc l)) h a b c = (
    record { mem = s.mem; threads = set s.threads i (trying l code.first) },
    more stay (turn i (idle (suc l)) h refl),
    omega (arith, total-set work s.threads i (idle (suc l)) (trying l code.first) h),
  )
  idle-Closer s i (trying l w) h a b c = ground arith
  idle-Closer s i (entered l) h a b c = absurd (omega arith)
  idle-Closer s i (loaded l v) h a b c = absurd (omega arith)
  idle-Closer s i (stored l) h a b c = absurd (omega arith)
  idle-Closer s i (waking l) h a b c = absurd (omega arith)

  -- A sound state is at its end, or comes closer to it.
  pub sound-Closer :
      (n : ℕ) (s : System code) → IsSound code n s → (total work s.threads ≡ 0) ⊎ Closer s
  sound-Closer n s v = elim (ℕ_discrete s.mem.lock 0) [
    | no taken ↦
        let found : (i : ℕ) × (p : Pc code.W) × (get_elem? s.threads i ≡ some p)
            × (1 ≤ holds code p) =
          total_find (holds code) s.threads (omega (arith, v.books.owned)) in
        inr (holder-Closer s found.0 found.1 found.2 found.3)
    | yes free ↦ elim (ℕ_discrete (total (active code) s.threads) 0) [
      | no some_active ↦
          let found : (i : ℕ) × (p : Pc code.W) × (get_elem? s.threads i ≡ some p)
              × (1 ≤ active code p) =
            total_find (active code) s.threads (omega arith) in
          inr (active-Closer s found.0 found.1 free found.2 found.3)
      | yes calm ↦ elim (ℕ_discrete (total work s.threads) 0) [
        | yes done ↦ inl done
        | no left ↦
            let found : (i : ℕ) × (p : Pc code.W) × (get_elem? s.threads i ≡ some p)
                × (1 ≤ work p) =
              total_find work s.threads (omega arith) in
            let awake : total (asleep code) s.threads ≡ 0 = elim v.watched [
              | inl z ↦ z
              | inr a ↦ absurd (omega arith)
            ] in
            inr (
              idle-Closer s found.0 found.1 found.2
                (omega (arith, le-total (active code) s.threads found.0 found.1 found.2))
                (omega (arith, le-total (asleep code) s.threads found.0 found.1 found.2)) found.3)
      ]
    ]
  ]

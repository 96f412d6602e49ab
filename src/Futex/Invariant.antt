-- ===== src/Futex/Invariant.antt =====
-- What holds in every state of a run of demos/futex: who has the lock, what the counter and the
-- increments left add up to, and that whoever sleeps is not forgotten.
use os_kernel_from_scratch.Common.{ℕ, zero, suc, ◌+◌, ◌*◌, ◌^◌, ◌≤◌, ◌<◌}
use os_kernel_from_scratch.Common.{◌≡◌, refl, sym, ap, ◌∙◌, ◌≢◌, ◌⊎◌, inl, inr}
use os_kernel_from_scratch.Common.{true}
use os_kernel_from_scratch.Common.{Option, some, List, [], ◌∷◌}
use os_kernel_from_scratch.Common.{arith}
use os_kernel_from_scratch.Common.{length, get_elem?, set}
use os_kernel_from_scratch.Common.{total}
use os_kernel_from_scratch.Common.Totals.{
  total-set, total-le, le-total, total-replicate, total_none,
}
use os_kernel_from_scratch.Common.{get_elem?-set_ne}
use os_kernel_from_scratch.Futex.{
  LockCode, Mem, Pc, idle, trying, waking, advance, is_running, asleep, System, Step, turn, wake,
  wake_none, Reach, start, later, spurious, init,
}
use os_kernel_from_scratch.Futex.Local.{
  holds, todo, stale, active, holds-le-active, stale-le-holds, holds-advance, todo-advance,
  stale-advance, active-advance, asleep-wakes,
}

pub get_elem?-lt {ℓ} :
    {A : Type ℓ} (xs : List A) (i : ℕ) (a : A) → get_elem? xs i ≡ some a → i < length xs
get_elem?-lt [] i a h = absurd (cc)
get_elem?-lt (x ∷ xs) zero a h = omega arith
get_elem?-lt (x ∷ xs) (suc i) a h = omega (arith, get_elem?-lt xs i a h)

module _ (code : LockCode) where
  -- The locks and the increments of a state in which `work` increments are to be made in all.
  pub record Books (work : ℕ) (m : Mem) (threads : List (Pc code.W)) : Type 0 where
    pub owned : total (holds code) threads ≡ m.lock
    pub binary : m.lock ≤ 1
    pub counted : m.counter + total (todo code) threads ≡ work
    pub fresh : total (stale code m.counter) threads ≡ 0

  -- Nobody sleeps, or somebody else is under way.
  abbrev pub Watched : List (Pc code.W) → Type 0
  Watched threads = (total (asleep code) threads ≡ 0) ⊎ (1 ≤ total (active code) threads)

  fresh_after :
      (threads : List (Pc code.W)) (i c c' : ℕ) (p q : Pc code.W)
      → get_elem? threads i ≡ some p
      → total (holds code) threads ≤ 1
      → total (stale code c) threads ≡ 0
      → ((c' ≡ c) × (stale code c q ≡ 0)) ⊎ ((stale code c' p ≡ 1) × (stale code c' q ≡ 0))
      → total (stale code c') (set threads i q) ≡ 0
  fresh_after threads i c c' p q h one old (inl (e, z)) =
      rw e (omega (arith, total-set (stale code c) threads i p q h, z))
  fresh_after threads i c c' p q h one old (inr (e, z)) = omega (
    arith,
    total-set (stale code c') threads i p q h,
    total-le (stale code c') (holds code) threads (stale-le-holds code c'),
    e,
    z,
  )

  advance-Books :
      (work : ℕ) (m : Mem) (threads : List (Pc code.W)) (i : ℕ) (p : Pc code.W)
      → work < 2 ^ 63
      → Books work m threads
      → get_elem? threads i ≡ some p
      → Books work (advance code m p).0 (set threads i (advance code m p).1)
  advance-Books work m threads i p small b h = record {
    owned =
        omega (arith, total-set (holds code) threads i p (advance code m p).1 h, locks, b.owned);
    binary = locks.1;
    counted = omega (
      arith,
      total-set (todo code) threads i p (advance code m p).1 h,
      todo-advance code m p room clean,
      b.counted,
    );
    fresh =
        fresh_after threads i m.counter (advance code m p).0.counter p (advance code m p).1 h
          (omega (arith, b.owned, b.binary)) b.fresh (stale-advance code m p room clean);
  }
    where
      room : m.counter + todo code p < 2 ^ 63
      room = omega (arith, le-total (todo code) threads i p h, b.counted)

      clean : stale code m.counter p ≡ 0
      clean = omega (arith, le-total (stale code m.counter) threads i p h, b.fresh)

      locks :
          (holds code (advance code m p).1 + m.lock ≡ holds code p + (advance code m p).0.lock)
          × ((advance code m p).0.lock ≤ 1)
      locks =
          holds-advance code m p b.binary
            (omega (arith, le-total (holds code) threads i p h, b.owned))

  -- A thread goes on with no change of the memory, of its increments or of the lock.
  replace-Books :
      (work : ℕ) (m : Mem) (threads : List (Pc code.W)) (i : ℕ) (p q : Pc code.W)
      → Books work m threads
      → get_elem? threads i ≡ some p
      → holds code q ≡ holds code p
      → todo code q ≡ todo code p
      → stale code m.counter q ≡ stale code m.counter p
      → Books work m (set threads i q)
  replace-Books work m threads i p q b h e f g = record {
    owned = omega (arith, total-set (holds code) threads i p q h, b.owned, e);
    binary = b.binary;
    counted = omega (arith, total-set (todo code) threads i p q h, b.counted, f);
    fresh = omega (arith, total-set (stale code m.counter) threads i p q h, b.fresh, g);
  }

  set-active :
      (threads : List (Pc code.W)) (i : ℕ) (p q : Pc code.W)
      → get_elem? threads i ≡ some p
      → 1 ≤ active code q
      → Watched (set threads i q)
  set-active threads i p q h a =
      inr (
        omega
          (arith, total-set (active code) threads i p q h, le-total (active code) threads i p h))

  turn-Watched :
      (work : ℕ) (m : Mem) (threads : List (Pc code.W)) (i : ℕ) (p : Pc code.W)
      → work < 2 ^ 63
      → Books work m threads
      → get_elem? threads i ≡ some p
      → is_running code p ≡ true
      → Watched (set threads i (advance code m p).1)
  turn-Watched work m threads i p small b h r = elim (active-advance code m p r) [
    | inl a ↦ set-active threads i p (advance code m p).1 h a
    | inr (inl n) ↦ inr (
        omega (
          arith,
          n,
          (advance-Books work m threads i p small b h).owned,
          total-le (holds code) (active code) (set threads i (advance code m p).1)
              (holds-le-active code),
        ))
    | inr (inr e) ↦
        inl (
          total_none (asleep code) (set threads i (advance code m p).1)
            (λ q. asleep-wakes code q e))
  ]

  woken_active : (k : ℕ) (w : code.W) → active code (trying k (code.woken w)) ≡ 1
  unfolding active
  woken_active k w = rw (code.woken_awake w) refl

  idle_after :
      (work : ℕ) (m : Mem) (threads : List (Pc code.W)) (i l : ℕ)
      → Books work m threads
      → get_elem? threads i ≡ some (waking l)
      → Books work m (set threads i (idle l))
  unfolding holds todo stale
  idle_after work m threads i l b h =
      replace-Books work m threads i (waking l) (idle l) b h refl refl refl

  woken_after :
      (work : ℕ) (m : Mem) (threads : List (Pc code.W)) (j k : ℕ) (w : code.W)
      → Books work m threads
      → get_elem? threads j ≡ some (trying k w)
      → Books work m (set threads j (trying k (code.woken w)))
  unfolding holds todo stale
  woken_after work m threads j k w b h =
      replace-Books work m threads j (trying k w) (trying k (code.woken w)) b h refl refl refl

  waking_trying :
      (l k : ℕ) (w : code.W)
      → ◌≡◌ {A = Option (Pc code.W)} (some (waking l)) (some (trying k w))
      → ⊥
  waking_trying l k w e = absurd (cc)

  -- `futex_wake` with somebody to wake.
  wake-Books :
      (work : ℕ) (m : Mem) (threads : List (Pc code.W)) (i j l k : ℕ) (w : code.W)
      → Books work m threads
      → get_elem? threads i ≡ some (waking l)
      → get_elem? threads j ≡ some (trying k w)
      → Books work m (set (set threads i (idle l)) j (trying k (code.woken w)))
        × (get_elem? (set threads i (idle l)) j ≡ some (trying k w))
  wake-Books work m threads i j l k w b h g = (
    woken_after work m (set threads i (idle l)) j k w (idle_after work m threads i l b h) there,
    there,
  )
    where
      apart : i ≢ j
      apart e = absurd (waking_trying l k w (sym h ∙ ap (get_elem? threads) e ∙ g))

      there : get_elem? (set threads i (idle l)) j ≡ some (trying k w)
      there = get_elem?-set_ne threads (idle l) apart ∙ g

  wake_none-Watched :
      (threads : List (Pc code.W)) (i l : ℕ)
      → get_elem? threads i ≡ some (waking l)
      → total (asleep code) threads ≡ 0
      → Watched (set threads i (idle l))
  unfolding asleep
  wake_none-Watched threads i l h z =
      inl (omega (arith, total-set (asleep code) threads i (waking l) (idle l) h, z))

  -- The two together in every state of a run.
  pub record IsSound (work : ℕ) (s : System code) : Type 0 where
    pub books : Books work s.mem s.threads
    pub watched : Watched s.threads

  init-IsSound : (n rounds : ℕ) → IsSound (n * rounds) (init code n rounds)
  unfolding init holds todo stale asleep
  init-IsSound n rounds = record {
    books = record {
      owned = omega (arith, total-replicate (holds code) n (idle rounds));
      binary = omega arith;
      counted = omega (arith, total-replicate (todo code) n (idle rounds));
      fresh = omega (arith, total-replicate (stale code 0) n (idle rounds));
    };
    watched = inl (omega (arith, total-replicate (asleep code) n (idle rounds)));
  }

  pub Step-IsSound :
      (work : ℕ) (s t : System code)
      → work < 2 ^ 63
      → IsSound work s
      → Step code s t
      → IsSound work t
  Step-IsSound work s t small v (turn i p h r) = record {
    books = advance-Books work s.mem s.threads i p small v.books h;
    watched = turn-Watched work s.mem s.threads i p small v.books h r;
  }
  Step-IsSound work s t small v (wake i j l k w h g a) = record {
    books = (wake-Books work s.mem s.threads i j l k w v.books h g).0;
    watched =
        set-active (set s.threads i (idle l)) j (trying k w) (trying k (code.woken w))
          (wake-Books work s.mem s.threads i j l k w v.books h g).1
          (omega (arith, woken_active k w));
  }
  Step-IsSound work s t small v (wake_none i l h z) = record {
    books = idle_after work s.mem s.threads i l v.books h;
    watched = wake_none-Watched s.threads i l h z;
  }

  pub reach-IsSound :
      (n rounds : ℕ) (s : System code)
      → n * rounds < 2 ^ 63
      → Reach code n rounds s
      → IsSound (n * rounds) s
  reach-IsSound n rounds s small start = init-IsSound n rounds
  reach-IsSound n rounds s small (later {s = before} r st) =
      Step-IsSound (n * rounds) before s small (reach-IsSound n rounds before small r) st
  reach-IsSound n rounds s small (spurious {s = before} j k w r h a) =
      let v : IsSound (n * rounds) before = reach-IsSound n rounds before small r in
      record {
        books = woken_after (n * rounds) before.mem before.threads j k w v.books h;
        watched =
            set-active before.threads j (trying k w) (trying k (code.woken w)) h
              (omega (arith, woken_active k w));
      }

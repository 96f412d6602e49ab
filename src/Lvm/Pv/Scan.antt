-- ===== src/Lvm/Pv/Scan.antt =====
-- What the search of `pv_alloc` finds.
use os_kernel_from_scratch.Common.{ℕ, zero, suc, ◌+◌, ◌≤◌, ◌<◌}
use os_kernel_from_scratch.Common.{◌≡◌, refl, ◌⊎◌, inl, inr}
use os_kernel_from_scratch.Common.{true, false}
use os_kernel_from_scratch.Common.{List}
use os_kernel_from_scratch.Common.{arith, dec_lt, ◌==◌}
use os_kernel_from_scratch.Common.{Bool-cases}
use os_kernel_from_scratch.Common.Bitmap.{test_bit}
use os_kernel_from_scratch.Lvm.Pv.{run_start, scan, minus_one}

-- No extent of `[s, s + c)` is in use.
abbrev pub IsFree : List ℕ → ℕ → ℕ → Type 0
IsFree bitmap s c = (j : ℕ) → s ≤ j → j < s + c → test_bit bitmap j ≡ false

-- The extents `[s, s + c)` lie below `bound` and are free.
pub record FreeRun (bitmap : List ℕ) (s c bound : ℕ) : Type 0 where
  pub within : s + c ≤ bound
  pub free : IsFree bitmap s c

-- What the loop knows at `i`: the run behind `i` is free.
abbrev pub Behind : List ℕ → ℕ → ℕ → ℕ → Type 0
Behind bitmap i found start = (found ≡ 0) ⊎ ((start + found ≡ i) × IsFree bitmap start found)

IsFree-suc :
    (bitmap : List ℕ) (s c i : ℕ)
    → s + c ≡ i
    → IsFree bitmap s c
    → test_bit bitmap i ≡ false
    → IsFree bitmap s (c + 1)
IsFree-suc bitmap s c i e run free j p q = elim (dec_lt j i) [
  | yes l ↦ run j p (omega arith)
  | no l ↦ let e' : j ≡ i = omega arith in rw e' free
]

run_start-Behind :
    (bitmap : List ℕ) (i found start : ℕ)
    → Behind bitmap i found start
    → test_bit bitmap i ≡ false
    → (run_start found i start + (found + 1) ≡ i + 1)
      × IsFree bitmap (run_start found i start) (found + 1)
unfolding run_start
run_start-Behind bitmap i zero start b free =
    (omega arith, IsFree-suc bitmap i 0 i (omega arith) (λ j p q. absurd (omega arith)) free)
run_start-Behind bitmap i (suc found) start (inl e) free = absurd (omega arith)
run_start-Behind bitmap i (suc found) start (inr (e, run)) free =
    (omega arith, IsFree-suc bitmap start (suc found) i e run free)

-- A run that the loop reports as long enough is one of `count` free extents of the array.
pub scan_sound :
    (bitmap : List ℕ) (count n i found start : ℕ)
    → found < count
    → Behind bitmap i found start
    → let (f, s) = scan bitmap count n i found start in
      count ≤ f → (f ≡ count) × FreeRun bitmap s count (i + n)
unfolding scan
scan_sound bitmap count zero i found start h b = λ k. absurd (omega arith)
scan_sound bitmap count (suc n) i found start h b = elim (Bool-cases (test_bit bitmap i)) [
  | inl busy ↦ rw busy λ k.
      let (e, run) = scan_sound bitmap count n (i + 1) 0 minus_one (omega arith) (inl refl) k in
      (e, record { within = omega (arith, run.within); free = run.free })
  | inr free ↦
      let (here, run) = run_start-Behind bitmap i found start b free in
      elim (Bool-cases (found + 1 == count)) [
        | inl e ↦
            rw (free, e)
              λ k.
                let e' : found + 1 ≡ count = ground arith in
                (e', record { within = omega arith; free = rw (← e') run })
        | inr ne ↦
            rw (free, ne)
              λ k.
                let (e, found_run) =
                  scan_sound bitmap count n (i + 1) (found + 1) (run_start found i start)
                    (ground arith) (inr (here, run)) k in
                (e, record { within = omega (arith, found_run.within); free = found_run.free })
      ]
]

-- A free run that is ahead, or that the current run can grow into, is not missed: the loop stops
-- with enough extents, no later than there.
pub scan_complete :
    (bitmap : List ℕ) (count n i found start s : ℕ)
    → found < count
    → Behind bitmap i found start
    → i ≤ s + found
    → FreeRun bitmap s count (i + n)
    → let (f, s') = scan bitmap count n i found start in (f ≡ count) × (s' ≤ s)
unfolding scan
scan_complete bitmap count zero i found start s h b near run = absurd (omega (arith, run.within))
scan_complete bitmap count (suc n) i found start s h b near run =
    elim (Bool-cases (test_bit bitmap i)) [
      | inl busy ↦ rw busy (
          scan_complete bitmap count n (i + 1) 0 minus_one s (omega arith) (inl refl) (beyond busy)
            ahead)
      | inr free ↦
          let (here, grown) = run_start-Behind bitmap i found start b free in
          elim (Bool-cases (found + 1 == count)) [
            | inl e ↦ rw (free, e) (let e' : found + 1 ≡ count = ground arith in (e', omega arith))
            | inr ne ↦
                rw (free, ne)
                  (scan_complete bitmap count n (i + 1) (found + 1) (run_start found i start) s
                    (ground arith) (inr (here, grown)) (omega arith) ahead)
          ]
    ]
  where
    ahead : FreeRun bitmap s count (i + 1 + n)
    ahead = record { within = omega (arith, run.within); free = run.free }

    beyond : test_bit bitmap i ≡ true → i + 1 ≤ s + 0
    beyond busy = elim (dec_lt i s) [
      | yes l ↦ omega arith
      | no l ↦ let f : test_bit bitmap i ≡ false = run.free i (omega arith) (omega arith) in cc
    ]

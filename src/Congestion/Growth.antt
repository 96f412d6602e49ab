-- ===== src/Congestion/Growth.antt =====
-- How ACKs open the congestion window.
use os_kernel_from_scratch.Common.{ℕ, zero, suc, ◌+◌, ◌*◌, ◌/◌, ◌^◌, ◌≤◌, ◌<◌}
use os_kernel_from_scratch.Common.{◌≡◌, refl, sym, ap, ◌∙◌}
use os_kernel_from_scratch.Common.{none, some, inl, inr, Option-cases}
use os_kernel_from_scratch.Common.{arith}
use native.Mathlib.Nat.{mul-le-mul_left, le-div_iff_mul-le, div-mul-le_self}
use os_kernel_from_scratch.Congestion.{
  mss, ss, ca, CongestionControl, cc_on_ack_ss, cc_on_ack_ca, above_threshold, cc_check_threshold,
  on_ack_in, cc_on_ack, acks,
}

-- An ACK in slow start that leaves the window below the threshold.
ack_ss :
    (c : CongestionControl)
    → c.state ≡ ss
    → c.cwnd_bytes + mss < c.ssthresh_bytes
    → c.ssthresh_bytes < 2 ^ 32
    → cc_on_ack c ≡ some (record c { cwnd_bytes = c.cwnd_bytes + mss })
unfolding cc_on_ack on_ack_in cc_check_threshold cc_on_ack_ss above_threshold
ack_ss c e h t = ground (arith, e)

acks-step : (n : ℕ) (c c' : CongestionControl) → cc_on_ack c ≡ some c' → acks (suc n) c ≡ acks n c'
unfolding acks
acks-step n c c' e = rw (e, acks) refl

-- In slow start, with a 32-bit threshold, `n` ACKs that leave the window below the threshold
-- open it by `n` segments, and change nothing else.
pub acks_slow_start :
    (n : ℕ) (c : CongestionControl)
    → c.state ≡ ss
    → c.cwnd_bytes + n * mss < c.ssthresh_bytes
    → c.ssthresh_bytes < 2 ^ 32
    → acks n c ≡ some (record c { cwnd_bytes = c.cwnd_bytes + n * mss })
unfolding acks
acks_slow_start zero c e h t = ground (arith, e)
acks_slow_start (suc n) c e h t =
    acks-step n c wider (ack_ss c e (omega arith) t)
    ∙ (acks_slow_start n wider e (omega arith) t ∙ ap some same)
  where
    wider : CongestionControl
    wider = record c { cwnd_bytes = c.cwnd_bytes + mss }

    same :
        record wider { cwnd_bytes = wider.cwnd_bytes + n * mss }
        ≡ record c { cwnd_bytes = c.cwnd_bytes + suc n * mss }
    same = ap (λ (w : ℕ). record c { cwnd_bytes = w }) (omega arith)

-- The ACK that reaches the threshold ends slow start.
pub ack_threshold :
    (c : CongestionControl)
    → c.state ≡ ss
    → c.ssthresh_bytes ≤ c.cwnd_bytes + mss
    → c.cwnd_bytes + mss < 2 ^ 32
    → cc_on_ack c ≡ some (record c { cwnd_bytes = c.cwnd_bytes + mss; state = ca })
unfolding cc_on_ack on_ack_in cc_check_threshold cc_on_ack_ss above_threshold
ack_threshold c e h t = ground (arith, e)

ack_ca :
    (c : CongestionControl)
    → c.state ≡ ca
    → 0 < c.cwnd_bytes
    → c.cwnd_bytes + mss * mss / c.cwnd_bytes < 2 ^ 32
    → cc_on_ack c ≡ some (record c { cwnd_bytes = c.cwnd_bytes + mss * mss / c.cwnd_bytes })
unfolding cc_on_ack on_ack_in cc_on_ack_ca
ack_ca c e p h = ground (arith, e)

-- A wider window grows more slowly.
step_antitone : (v w : ℕ) → 0 < v → v ≤ w → mss * mss / w ≤ mss * mss / v
step_antitone v w p h =
    (le-div_iff_mul-le {k = v} {x = mss * mss / w} {y = mss * mss} p).1
      (omega (arith, mul-le-mul_left (mss * mss / w) h, div-mul-le_self (mss * mss) w))

avoidance :
    (n d : ℕ) (c : CongestionControl)
    → c.state ≡ ca
    → 0 < c.cwnd_bytes
    → mss * mss / c.cwnd_bytes ≤ d
    → c.cwnd_bytes + n * d < 2 ^ 32
    → (w : ℕ) × (acks n c ≡ some (record c { cwnd_bytes = w }))
      × (c.cwnd_bytes ≤ w)
      × (w ≤ c.cwnd_bytes + n * d)
unfolding acks
avoidance zero d c e p k h = (c.cwnd_bytes, refl, omega arith, omega arith)
avoidance (suc n) d c e p k h =
    let (w, eq, lo, hi) = avoidance n d wider e (omega arith) slower (omega arith) in
    (w, acks-step n c wider (ack_ca c e p (omega arith)) ∙ eq, omega arith, omega arith)
  where
    wider : CongestionControl
    wider = record c { cwnd_bytes = c.cwnd_bytes + mss * mss / c.cwnd_bytes }

    slower : mss * mss / wider.cwnd_bytes ≤ d
    slower = omega (arith, step_antitone c.cwnd_bytes wider.cwnd_bytes p (omega arith))

ended : (n : ℕ) (c c' : CongestionControl) → cc_on_ack c ≡ none → acks (suc n) c ≡ some c' → ⊥
unfolding acks
ended n c c' stop e = let nothing : acks (suc n) c ≡ none = rw (acks, stop) in cc

one_more : (n : ℕ) → suc n + 1 ≡ suc (n + 1)
one_more n = omega arith

-- One ACK more at the end.
acks-last : (n : ℕ) (c c' : CongestionControl) → acks n c ≡ some c' → acks (n + 1) c ≡ acks 1 c'
unfolding acks
acks-last zero c c' e = ap (acks 1) (ground arith)
acks-last (suc n) c c' e = elim (Option-cases (cc_on_ack c)) [
  | inl stop ↦ absurd (ended n c c' stop e)
  | inr (d, step) ↦
      let rest : acks n d ≡ some c' = sym (acks-step n c d step) ∙ e in
      ap (λ k. acks k c) (one_more n) ∙ acks-step (n + 1) c d step ∙ acks-last n d c' rest
]

-- In congestion avoidance, at a window of more than 0 bytes, of at least `n` segments, and more
-- than a segment below 2 ^ 32 bytes, `n` ACKs divide by zero nowhere and change the window
-- alone. Each of them opens the window it finds, of `v` bytes, by a square segment divided by `v`,
-- which is at most what the first opens it by, and all of them open it by one segment at most.
pub acks_avoidance :
    (n : ℕ) (c : CongestionControl)
    → c.state ≡ ca
    → 0 < c.cwnd_bytes
    → n * mss ≤ c.cwnd_bytes
    → c.cwnd_bytes + mss < 2 ^ 32
    → ((k : ℕ)
        → k < n
        → (v : ℕ) × (acks k c ≡ some (record c { cwnd_bytes = v }))
          × (acks (k + 1) c ≡ some (record c { cwnd_bytes = v + mss * mss / v }))
          × (mss * mss / v ≤ mss * mss / c.cwnd_bytes))
      × ((w : ℕ) × (acks n c ≡ some (record c { cwnd_bytes = w }))
          × (c.cwnd_bytes ≤ w)
          × (w ≤ c.cwnd_bytes + n * (mss * mss / c.cwnd_bytes))
          × (w ≤ c.cwnd_bytes + mss))
unfolding acks
acks_avoidance n c e p h k = (
  λ m lt.
      let fewer : suc m * d ≤ mss = omega (arith, one_segment, mul-le-mul_left d (suc-le m lt)) in
      let (v, eq, lo, hi) = avoidance m d c e p (omega arith) (omega (arith, fewer)) in
      let slower : mss * mss / v ≤ d = step_antitone c.cwnd_bytes v p lo in
      (
        v,
        eq,
        acks-last m c (record c { cwnd_bytes = v }) eq
            ∙ acks-step zero (record c { cwnd_bytes = v })
                (record c { cwnd_bytes = v + mss * mss / v })
                (ack_ca (record c { cwnd_bytes = v }) e (omega arith)
                  (omega (arith, fewer, slower)))
            ∙ refl,
        slower,
      ),
  let (w, eq, lo, hi) = avoidance n d c e p (omega arith) (omega (arith, one_segment)) in
      (w, eq, lo, hi, omega (arith, one_segment)),
)
  where
    d : ℕ
    d = mss * mss / c.cwnd_bytes

    suc-le : (m : ℕ) → m < n → suc m ≤ n
    suc-le m lt = omega arith

    one_segment : n * d ≤ mss
    one_segment =
        omega (arith, mul-le-mul_left d h, div-mul-le_self (mss * mss) c.cwnd_bytes, product)
      where
        product : d * (n * mss) ≡ mss * (n * d)
        product = grind arith

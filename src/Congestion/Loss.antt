-- ===== src/Congestion/Loss.antt =====
-- How losses close the congestion window.
use os_kernel_from_scratch.Common.{ℕ, zero, suc, ◌+◌, ◌-◌, ◌*◌, ◌/◌, ◌^◌, ◌<◌}
use os_kernel_from_scratch.Common.{◌≡◌, refl, ap, ◌∙◌, inl, inr}
use os_kernel_from_scratch.Common.{some}
use os_kernel_from_scratch.Common.{arith}
use os_kernel_from_scratch.Common.{Option-cases}
use mathlib.Core.Option
use os_kernel_from_scratch.Congestion.{
  mss, TcpState, ss, ca, CongestionControl, cc_on_ack_ss, cc_on_ack_ca, above_threshold,
  cc_check_threshold, on_ack_in, cc_on_ack, window_mss, acks, fast_retransmit, cc_on_dupack,
  cc_on_timeout, simulate_fast_retransmit,
}

window_mss_lem :
    (c : CongestionControl)
    → 0 < c.cwnd_bytes
    → c.cwnd_bytes + mss < 2 ^ 32
    → window_mss c ≡ (c.cwnd_bytes + mss - 1) / mss
unfolding window_mss
window_mss_lem c p h = omega arith

-- A duplicate ACK that is only counted, and the third.
count_up :
    (c : CongestionControl) (k : ℕ)
    → c.dupack_count ≡ k
    → k < 2
    → cc_on_dupack c ≡ record c { dupack_count = k + 1 }
unfolding cc_on_dupack
count_up c k e h = ground (arith, e)

third : (c : CongestionControl) → c.dupack_count ≡ 2 → cc_on_dupack c ≡ fast_retransmit c
unfolding cc_on_dupack
third c e = rw e refl

fast_retransmit_lem :
    (c : CongestionControl)
    → 0 < c.cwnd_bytes
    → c.cwnd_bytes + 3 * mss < 2 ^ 32
    → fast_retransmit c ≡ record c {
      ssthresh_bytes = (c.cwnd_bytes + mss - 1) / mss / 2 * mss;
      cwnd_bytes = (c.cwnd_bytes + mss - 1) / mss / 2 * mss + 3 * mss;
      state = ca;
      dupack_count = 0;
    }
unfolding fast_retransmit
fast_retransmit_lem c p h = ground (arith, window_mss_lem c p (omega arith))

-- Three duplicate ACKs in a row, with none counted before and a window of more than 0 bytes that
-- leaves room for three segments in 32 bits, set the threshold to half the window in whole
-- segments and the window to that plus three segments, and go on in congestion avoidance with
-- the count at zero.
pub simulate_fast_retransmit_lem :
    (c : CongestionControl)
    → c.dupack_count ≡ 0
    → 0 < c.cwnd_bytes
    → c.cwnd_bytes + 3 * mss < 2 ^ 32
    → let half = (c.cwnd_bytes + mss - 1) / mss / 2 * mss in
      simulate_fast_retransmit c ≡ record c {
        ssthresh_bytes = half;
        cwnd_bytes = half + 3 * mss;
        state = ca;
        dupack_count = 0;
      }
unfolding simulate_fast_retransmit
simulate_fast_retransmit_lem c z p h =
    ap (λ x. cc_on_dupack (cc_on_dupack x)) (count_up c 0 z (omega arith))
    ∙ (ap cc_on_dupack (count_up (record c { dupack_count = 1 }) 1 refl (omega arith))
        ∙ (third (record c { dupack_count = 2 }) refl
            ∙ fast_retransmit_lem (record c { dupack_count = 2 }) p h))

on_ack_in-keeps :
    (t : TcpState) (c c' : CongestionControl)
    → on_ack_in t c ≡ some c'
    → c'.dupack_count ≡ c.dupack_count
unfolding on_ack_in cc_on_ack_ca cc_on_ack_ss cc_check_threshold
on_ack_in-keeps ss c c' e = ground arith
on_ack_in-keeps ca c c' e = ground arith

acks-keeps :
    (n : ℕ) (c c' : CongestionControl) → acks n c ≡ some c' → c'.dupack_count ≡ c.dupack_count
unfolding acks cc_on_ack
acks-keeps zero c c' e = ground arith
acks-keeps (suc n) c c' e = elim (Option-cases (on_ack_in c.state c)) [
  | inl gone ↦ absurd (Option.none-ne-some c' (rw (gone, acks) at e))
  | inr (d, next) ↦ acks-keeps n d c' (rw (next, acks) at e) ∙ on_ack_in-keeps c.state c d next
]

-- ACKs do not reset the count of duplicate ACKs: after any number of them in between, the third
-- duplicate is still taken for the third in a row, and retransmits.
pub acks_dupack :
    (n : ℕ) (c c' : CongestionControl)
    → c.dupack_count ≡ 2
    → acks n c ≡ some c'
    → cc_on_dupack c' ≡ fast_retransmit c'
acks_dupack n c c' d e = third c' (acks-keeps n c c' e ∙ d)

-- A timeout closes the window to one segment in slow start; a second one before any ACK sets the
-- threshold to 0, so that slow start ends with the first ACK, at two segments.
pub cc_on_timeout_twice :
    (c : CongestionControl)
    → let once = cc_on_timeout c in
      let twice = cc_on_timeout once in
      (once.cwnd_bytes ≡ mss)
      × (once.state ≡ ss)
      × (twice.ssthresh_bytes ≡ 0)
      × (cc_on_ack twice ≡ some (record twice { cwnd_bytes = 2 * mss; state = ca }))
unfolding cc_on_timeout window_mss cc_on_ack on_ack_in cc_check_threshold cc_on_ack_ss
    above_threshold
cc_on_timeout_twice c = (refl, refl, refl, refl)

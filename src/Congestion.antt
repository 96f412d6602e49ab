-- ===== src/Congestion.antt =====
-- demos/tcp-congestion-control/congestion.c: the congestion window of TCP. A `uint32_t` wraps at
-- 2 ^ 32; `last_cwnd_mss`, which only `cc_init` writes, is kept.
pub mod Growth
pub mod Loss
use os_kernel_from_scratch.Common.{
  ℕ, zero, suc, ◌+◌, ◌-◌, ◌*◌, ◌/◌, ◌%◌, ◌^◌, ◌≤◌, ◌<◌, min, max, bit_and, bit_or, bit_xor,
}
use os_kernel_from_scratch.Common.{◌≡◌, refl, sym, ap, ap₂, ◌∙◌, ◌≢◌, ◌↔◌, ◌⊎◌, inl, inr}
use os_kernel_from_scratch.Common.{Bool, true, false, not, ◌&&◌, ◌||◌}
use os_kernel_from_scratch.Common.{Option, none, some, List, [], ◌∷◌, ◌++◌, map}
use os_kernel_from_scratch.Common.{arith, dec_lt, ℕ_discrete, ltb, leb, ◌==◌, if◌then◌else◌}
use os_kernel_from_scratch.Common.{Bool-cases, Option-cases, length, get_elem?, get_or, set}
use os_kernel_from_scratch.Common.{take, drop, replicate, length-set, length-append}

abbrev pub mss : ℕ
mss = 1460

pub data TcpState : Type 0 where
  ss : TcpState
  ca : TcpState

pub record CongestionControl : Type 0 where
  pub cwnd_bytes : ℕ
  pub ssthresh_bytes : ℕ
  pub state : TcpState
  pub dupack_count : ℕ
  pub last_cwnd_mss : ℕ

unfoldable pub cc_init : CongestionControl
cc_init = record {
  cwnd_bytes = 2 * mss;
  ssthresh_bytes = 64 * mss;
  state = ss;
  dupack_count = 0;
  last_cwnd_mss = 2;
}

unfoldable pub cc_on_ack_ss : CongestionControl → CongestionControl
cc_on_ack_ss c = record c { cwnd_bytes = (c.cwnd_bytes + mss) % 2 ^ 32 }

-- `none` for the division by zero.
unfoldable pub cc_on_ack_ca : CongestionControl → Option CongestionControl
cc_on_ack_ca c =
    if c.cwnd_bytes == 0
    then none
    else some (record c { cwnd_bytes = (c.cwnd_bytes + mss * mss / c.cwnd_bytes) % 2 ^ 32 })

-- `c->state == SS && c->cwnd_bytes >= c->ssthresh_bytes` for the state given.
unfoldable pub above_threshold : TcpState → CongestionControl → Bool
above_threshold ss c = leb c.ssthresh_bytes c.cwnd_bytes
above_threshold ca c = false

unfoldable pub cc_check_threshold : CongestionControl → CongestionControl
cc_check_threshold c = if above_threshold c.state c then record c { state = ca } else c

-- An ACK in the state given.
unfoldable pub on_ack_in : TcpState → CongestionControl → Option CongestionControl
on_ack_in ss c = some (cc_check_threshold (cc_on_ack_ss c))
on_ack_in ca c = cc_on_ack_ca c

unfoldable pub cc_on_ack : CongestionControl → Option CongestionControl
cc_on_ack c = on_ack_in c.state c

-- `(cwnd_bytes + MSS - 1) / MSS`.
unfoldable pub window_mss : CongestionControl → ℕ
window_mss c = (c.cwnd_bytes + mss + 2 ^ 32 - 1) % 2 ^ 32 / mss

-- The window after the third duplicate ACK.
unfoldable pub fast_retransmit : CongestionControl → CongestionControl
fast_retransmit c =
    let threshold = window_mss c / 2 * mss % 2 ^ 32 in
    record c {
      ssthresh_bytes = threshold;
      cwnd_bytes = (threshold + 3 * mss) % 2 ^ 32;
      state = ca;
      dupack_count = 0;
    }

unfoldable pub cc_on_dupack : CongestionControl → CongestionControl
cc_on_dupack c =
    let count = (c.dupack_count + 1) % 2 ^ 32 in
    if count == 3 then fast_retransmit c else record c { dupack_count = count }

unfoldable pub cc_on_timeout : CongestionControl → CongestionControl
cc_on_timeout c = record c {
  ssthresh_bytes = window_mss c / 2 * mss % 2 ^ 32;
  cwnd_bytes = mss;
  state = ss;
  dupack_count = 0;
}

-- `n` ACKs in a row, as in the inner loops of the simulation.
unfoldable pub acks : ℕ → CongestionControl → Option CongestionControl
acks zero c = some c
acks (suc n) c = elim (cc_on_ack c) [ none ↦ none | some c' ↦ acks n c' ]

-- The loop of `simulate_slow_start`, with `left` of its ten rounds to go.
unfoldable pub slow_start_rounds : ℕ → CongestionControl → Option CongestionControl
slow_start_rounds zero c = some c
slow_start_rounds (suc left) c =
    let next : Option CongestionControl = elim (acks (window_mss c) c) [
      | none ↦ none
      | some c' ↦ slow_start_rounds left c'
    ] in
    elim c.state [ ss ↦ next | ca ↦ some c ]

unfoldable pub simulate_slow_start : CongestionControl → Option CongestionControl
simulate_slow_start c = slow_start_rounds 10 c

unfoldable pub simulate_congestion_avoidance : CongestionControl → ℕ → Option CongestionControl
simulate_congestion_avoidance c zero = some c
simulate_congestion_avoidance c (suc rtt_count) = elim (acks (window_mss c) c) [
  | none ↦ none
  | some c' ↦ simulate_congestion_avoidance c' rtt_count
]

unfoldable pub simulate_fast_retransmit : CongestionControl → CongestionControl
simulate_fast_retransmit c = cc_on_dupack (cc_on_dupack (cc_on_dupack c))

-- ===== src/Conntrack/Machine.antt =====
-- demos/conntrack/conntrack.c, `tcp_step`: the states of a TCP connection in the table.
pub mod Progress
use os_kernel_from_scratch.Common.{
  ℕ, zero, suc, ◌+◌, ◌-◌, ◌*◌, ◌/◌, ◌%◌, ◌^◌, ◌≤◌, ◌<◌, min, max, bit_and, bit_or, bit_xor,
}
use os_kernel_from_scratch.Common.{◌≡◌, refl, sym, ap, ap₂, ◌∙◌, ◌≢◌, ◌↔◌, ◌⊎◌, inl, inr}
use os_kernel_from_scratch.Common.{Bool, true, false, not, ◌&&◌, ◌||◌}
use os_kernel_from_scratch.Common.{Option, none, some, List, [], ◌∷◌, ◌++◌, map}
use os_kernel_from_scratch.Common.{arith, dec_lt, ℕ_discrete, ltb, leb, ◌==◌, if◌then◌else◌}
use os_kernel_from_scratch.Common.{Bool-cases, Option-cases, length, get_elem?, get_or, set}
use os_kernel_from_scratch.Common.{take, drop, replicate, length-set, length-append}
use os_kernel_from_scratch.Conntrack.{
  ConnState, syn_sent, syn_recv, established, fin_wait, close_wait, last_ack, time_wait,
  udp_unreplied, udp_replied, icmp, unused, ConnEntry,
}

abbrev pub tcp_fin : ℕ
tcp_fin = 1

abbrev pub tcp_syn : ℕ
tcp_syn = 2

abbrev pub tcp_rst : ℕ
tcp_rst = 4

abbrev pub tcp_ack : ℕ
tcp_ack = 16

abbrev pub tcp_syn_ack : ℕ
tcp_syn_ack = 18

-- A packet in the original direction.
unfoldable pub step_orig : ConnState → ℕ → ConnState
step_orig syn_sent flags = if flags == tcp_syn_ack then syn_recv else syn_sent
step_orig syn_recv flags = if flags == tcp_ack then established else syn_recv
step_orig established flags =
    if flags == tcp_fin then fin_wait else if flags == tcp_rst then syn_sent else established
step_orig fin_wait flags = if flags == tcp_ack then time_wait else fin_wait
step_orig close_wait flags = close_wait
step_orig last_ack flags = last_ack
step_orig time_wait flags = time_wait
step_orig udp_unreplied flags = udp_unreplied
step_orig udp_replied flags = udp_replied
step_orig icmp flags = icmp
step_orig unused flags = unused

-- A packet in the reply direction.
unfoldable pub step_reply : ConnState → ℕ → ConnState
step_reply syn_sent flags =
    if flags == tcp_syn_ack then syn_recv else if flags == tcp_ack then established else syn_sent
step_reply syn_recv flags = if flags == tcp_fin then close_wait else syn_recv
step_reply established flags = if flags == tcp_fin then close_wait else established
step_reply fin_wait flags = fin_wait
step_reply close_wait flags = if flags == tcp_fin then last_ack else close_wait
step_reply last_ack flags = last_ack
step_reply time_wait flags = time_wait
step_reply udp_unreplied flags = udp_unreplied
step_reply udp_replied flags = udp_replied
step_reply icmp flags = icmp
step_reply unused flags = unused

-- `*dropped` is always false.
unfoldable pub tcp_step : ConnEntry → ℕ → Bool → ConnEntry × Bool
tcp_step e flags_in is_reply = (
  record e { state = if is_reply then step_reply e.state flags_in else step_orig e.state flags_in },
  false,
)

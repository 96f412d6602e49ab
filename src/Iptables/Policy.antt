-- ===== src/Iptables/Policy.antt =====
-- What the firewall of `build_iptables` lets in.
use os_kernel_from_scratch.Common.{◌<◌, bit_and}
use os_kernel_from_scratch.Common.{◌≡◌, refl}
use os_kernel_from_scratch.Common.{Bool, true, ◌&&◌, ◌||◌}
use os_kernel_from_scratch.Common.{arith, ltb, ◌==◌, if◌then◌else◌}
use os_kernel_from_scratch.Iptables.{
  Pkt, accept, drop_it, in_range, same_net, match_packet, is_log, is_dnat, add_rule, make_chain,
  eval_rules, or_default, eval_chain, build_iptables, translate, filter_input, process,
}

-- The services that a new connection may use.
abbrev pub is_open : Pkt → Bool
is_open p =
    p.established
    || ((p.protocol == 6) && ((p.dport == 80) || (p.dport == 443)))
    || ((p.protocol == 6) && (p.dport == 22) && (p.tcp_flags == 2))
    || (p.protocol == 1)

-- The INPUT chain of `build_iptables` accepts a packet of an established connection, TCP to the
-- ports 80 and 443, a bare SYN to port 22, and ICMP; it drops all else.
pub input_policy :
    (p : Pkt) → (eval_chain build_iptables.input p).0 ≡ (if is_open p then accept else drop_it)
unfolding eval_chain build_iptables add_rule make_chain eval_rules or_default match_packet in_range
    same_net is_log
input_policy p = ground arith

translated :
    (p : Pkt)
    → p.protocol ≡ 6
    → p.dport ≡ 8080
    → translate build_iptables.prerouting.rules p ≡ record p { dport = 80 }
unfolding translate build_iptables add_rule make_chain match_packet in_range same_net is_dnat
translated p t d = ground (arith, t, d)

accepted :
    (p : Pkt) → p.protocol ≡ 6 → (filter_input build_iptables (record p { dport = 80 })).0 ≡ accept
unfolding filter_input
accepted p t = ground (arith, t, input_policy (record p { dport = 80 }))

-- A TCP packet to port 8080 of this host passes PREROUTING to port 80 and is accepted.
pub process_8080 :
    (p : Pkt)
    → p.protocol ≡ 6
    → p.dport ≡ 8080
    → 100 < bit_and p.dip 255
    → let (verdict, _, p') = process build_iptables p 0 in
      (verdict ≡ accept) × (p' ≡ record p { dport = 80 })
unfolding process
process_8080 p t d local =
    let here : ltb 100 (bit_and p.dip 255) ≡ true = ground arith in
    rw (here, translated p t d) (accepted p t, refl)

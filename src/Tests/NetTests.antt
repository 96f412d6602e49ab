-- ===== src/Tests/NetTests.antt =====
-- The network demos at concrete packets.
use os_kernel_from_scratch.Common.{ℕ, ◌+◌, ◌*◌, ◌/◌, ◌≤◌}
use os_kernel_from_scratch.Common.{◌≡◌, refl, ◌⊎◌, ◌↔◌, ◌<◌}
use os_kernel_from_scratch.Common.{true, false}
use os_kernel_from_scratch.Common.{Option, some, List, [], ◌∷◌}
use os_kernel_from_scratch.Common.{arith, if◌then◌else◌}
use os_kernel_from_scratch.Common.{get_or}
use os_kernel_from_scratch.Common.{length-replicate, get_or-replicate}
use os_kernel_from_scratch.Conntrack.{
  Tuple, ConnEntry, ConnTable, conn_tcp, syn_sent, established, max_conn, empty_table, reverse,
  conn_lookup, conn_create, new_entry,
}
use os_kernel_from_scratch.Conntrack.Lookup
use os_kernel_from_scratch.Conntrack.Lookup.{Answer, AllAt, done, conn_lookup_lem}
use os_kernel_from_scratch.Conntrack.Create.{conn_create_lem}
use os_kernel_from_scratch.Conntrack.Machine.Progress.{
  Packet, run, StaysOpen, Handshake, Shortcut, run-established,
}
use os_kernel_from_scratch.Route.{kernel_routes, lookup_route}
use os_kernel_from_scratch.Route.Longest.{Longest, lookup_route_lem}
use os_kernel_from_scratch.Iptables.{
  Pkt, Rule, TargetType, accept, drop_it, build_iptables, plain, to_port, or_default, eval_chain,
}
use os_kernel_from_scratch.Iptables.First.{Verdict, eval_chain_lem}
use os_kernel_from_scratch.Iptables.Policy.{is_open, input_policy}
use os_kernel_from_scratch.Congestion.{
  mss, ss, ca, CongestionControl, acks, cc_on_ack, on_ack_in, cc_check_threshold, above_threshold,
  cc_on_ack_ss,
}
use os_kernel_from_scratch.Congestion.Growth.{acks_avoidance}

abbrev web : Tuple
web = record { src = 3232235786; dst = 134744072; sport = 40000; dport = 80; protocol = 6 }

abbrev dns : Tuple
dns = record { src = 3232235786; dst = 134744072; sport = 40001; dport = 53; protocol = 17 }

empty_table-IsValid : Lookup.IsValid empty_table
empty_table-IsValid = record {
  buckets = length-replicate {A = List ConnEntry} max_conn [];
  placed = λ k.
      let e : get_or empty_table.conn_hash k [] ≡ [] =
        get_or-replicate {A = List ConnEntry} max_conn k [] in
      rw e done;
}

conn_create_lem_example :
    let (e, c') = conn_create empty_table web conn_tcp syn_sent in
    Lookup.IsValid c'
    × (conn_lookup c' web ≡ some (e, false))
    × ((web ≡ reverse web) ⊎ (conn_lookup c' (reverse web) ≡ some (e, true)))
    × (conn_lookup c' dns ≡ conn_lookup empty_table dns)
    × (c'.conn_total ≡ empty_table.conn_total + 1)
conn_create_lem_example =
    conn_create_lem empty_table web dns conn_tcp syn_sent empty_table-IsValid
      (λ e. ground (arith, e)) (λ e. ground (arith, e))

-- The table with that connection.
abbrev one_conn : ConnTable
one_conn = (conn_create empty_table web conn_tcp syn_sent).1

one_conn-IsValid : Lookup.IsValid one_conn
one_conn-IsValid =
    (conn_create_lem empty_table web dns conn_tcp syn_sent empty_table-IsValid
      (λ e. ground (arith, e)) (λ e. ground (arith, e))).0

conn_lookup_lem_example : Answer one_conn (reverse web) (conn_lookup one_conn (reverse web))
conn_lookup_lem_example = conn_lookup_lem one_conn (reverse web) one_conn-IsValid

abbrev sent : ConnEntry
sent = new_entry web conn_tcp syn_sent

-- SYN with ACK in reply, and the ACK of the originator.
abbrev shaken : List Packet
shaken = record { flags = 18; is_reply = true } ∷ record { flags = 16; is_reply = false } ∷ []

shaken-StaysOpen : StaysOpen shaken
shaken-StaysOpen = (
  λ e. absurd (omega (arith, e)),
  λ e. absurd (omega (arith, e)),
  (λ e. absurd (omega (arith, e)), λ e. absurd (omega (arith, e)), tt),
)

run-established_example :
    ((run sent shaken).state ≡ established) ↔ (Handshake shaken ⊎ Shortcut shaken)
run-established_example = run-established sent shaken refl shaken-StaysOpen

abbrev open_conn : ConnEntry
open_conn = new_entry web conn_tcp established

lookup_route_lem_example : Longest kernel_routes 3232235876 (lookup_route kernel_routes 3232235876)
lookup_route_lem_example = lookup_route_lem kernel_routes 3232235876

abbrev to_8080 : Pkt
to_8080 = record {
  protocol = 6;
  sport = 40000;
  dport = 8080;
  sip = 1;
  dip = 3232235976;
  tcp_flags = 2;
  established = false;
}

eval_chain_lem_example :
    (o : Option TargetType) × (n : ℕ) × Verdict build_iptables.input.rules to_8080 o n
    × (eval_chain build_iptables.input to_8080 ≡ (
      or_default o build_iptables.input.default_policy,
      record build_iptables.input { packet_count = build_iptables.input.packet_count + n },
    ))
eval_chain_lem_example = eval_chain_lem build_iptables.input to_8080

abbrev open_8080 : Rule
open_8080 = plain (to_port 8080) accept

input_policy_example :
    (eval_chain build_iptables.input to_8080).0 ≡ (if is_open to_8080 then accept else drop_it)
input_policy_example = input_policy to_8080

-- A connection at the start, and one in congestion avoidance at four segments.
abbrev starting : CongestionControl
starting = record {
  cwnd_bytes = 2920;
  ssthresh_bytes = 93440;
  state = ss;
  dupack_count = 0;
  last_cwnd_mss = 2;
}

abbrev cruising : CongestionControl
cruising = record starting { cwnd_bytes = 5840; state = ca }

acks_avoidance_example :
    ((k : ℕ)
      → k < 4
      → (v : ℕ) × (acks k cruising ≡ some (record cruising { cwnd_bytes = v }))
        × (acks (k + 1) cruising ≡ some (record cruising { cwnd_bytes = v + mss * mss / v }))
        × (mss * mss / v ≤ mss * mss / cruising.cwnd_bytes))
    × ((w : ℕ) × (acks 4 cruising ≡ some (record cruising { cwnd_bytes = w }))
        × (cruising.cwnd_bytes ≤ w)
        × (w ≤ cruising.cwnd_bytes + 4 * (mss * mss / cruising.cwnd_bytes))
        × (w ≤ cruising.cwnd_bytes + mss))
acks_avoidance_example = acks_avoidance 4 cruising refl (ground arith) (ground arith) (ground arith)

-- Two duplicates have been counted.
abbrev doubted : CongestionControl
doubted = record starting { dupack_count = 2 }

abbrev doubted_later : CongestionControl
doubted_later = record doubted { cwnd_bytes = 4380 }

one_ack : acks 1 doubted ≡ some doubted_later
unfolding acks cc_on_ack on_ack_in cc_check_threshold above_threshold cc_on_ack_ss
one_ack = refl

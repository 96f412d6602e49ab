-- ===== src/Conntrack.antt =====
-- demos/conntrack/conntrack.c: the connection table, hashed by address pair, ports and protocol, and
-- the states of the connections in it.
pub mod Table
pub mod Lookup
pub mod Create
pub mod Machine
use os_kernel_from_scratch.Common.{
  ℕ, zero, suc, ◌+◌, ◌-◌, ◌*◌, ◌/◌, ◌%◌, ◌^◌, ◌≤◌, ◌<◌, min, max, bit_and, bit_or, bit_xor,
}
use os_kernel_from_scratch.Common.{◌≡◌, refl, sym, ap, ap₂, ◌∙◌, ◌≢◌, ◌↔◌, ◌⊎◌, inl, inr}
use os_kernel_from_scratch.Common.{Bool, true, false, not, ◌&&◌, ◌||◌}
use os_kernel_from_scratch.Common.{Option, none, some, List, [], ◌∷◌, ◌++◌, map}
use os_kernel_from_scratch.Common.{arith, dec_lt, ℕ_discrete, ltb, leb, ◌==◌, if◌then◌else◌}
use os_kernel_from_scratch.Common.{Bool-cases, Option-cases, length, get_elem?, get_or, set}
use os_kernel_from_scratch.Common.{take, drop, replicate, length-set, length-append}

pub data ConnType : Type 0 where
  conn_tcp : ConnType
  conn_udp : ConnType
  conn_icmp : ConnType

pub data ConnState : Type 0 where
  syn_sent : ConnState
  syn_recv : ConnState
  established : ConnState
  fin_wait : ConnState
  close_wait : ConnState
  last_ack : ConnState
  time_wait : ConnState
  udp_unreplied : ConnState
  udp_replied : ConnState
  icmp : ConnState
  unused : ConnState

-- The five-tuple of a packet.
pub record Tuple : Type 0 where
  pub src : ℕ
  pub dst : ℕ
  pub sport : ℕ
  pub dport : ℕ
  pub protocol : ℕ

-- `orig` is `orig_src`, `orig_dst`, `orig_sport`, `orig_dport` and `protocol`. A chain of entries is
-- a list. The fields `dir` and `timeout`, which stay 0, are left out.
pub record ConnEntry : Type 0 where
  pub orig : Tuple
  pub type : ConnType
  pub state : ConnState
  pub reply_src : ℕ
  pub reply_dst : ℕ
  pub reply_sport : ℕ
  pub reply_dport : ℕ

pub record ConnTable : Type 0 where
  pub conn_hash : List (List ConnEntry)
  pub conn_total : ℕ

abbrev pub max_conn : ℕ
max_conn = 512

abbrev pub empty_table : ConnTable
empty_table = record { conn_hash = replicate max_conn []; conn_total = 0 }

-- An unsigned 32-bit product.
unfoldable pub conn_hash_key : Tuple → ℕ
conn_hash_key t =
    bit_xor (bit_xor (bit_xor (bit_xor t.src t.dst) t.sport) t.dport) t.protocol
    * 2654435761
    % 2 ^ 32
    % max_conn

-- The exact match, all fields alike.
unfoldable pub same_tuple : Tuple → Tuple → Bool
same_tuple a b =
    (a.src == b.src)
    && (a.dst == b.dst)
    && (a.sport == b.sport)
    && (a.dport == b.dport)
    && (a.protocol == b.protocol)

-- The tuple of a packet in the other direction.
abbrev pub reverse : Tuple → Tuple
reverse t = record {
  src = t.dst;
  dst = t.src;
  sport = t.dport;
  dport = t.sport;
  protocol = t.protocol;
}

-- The walk along a chain: the entry and `*is_reply`, or `none` for NULL.
unfoldable pub find_entry : List ConnEntry → Tuple → Option (ConnEntry × Bool)
find_entry [] t = none
find_entry (e ∷ es) t =
    if same_tuple e.orig t
    then some (e, false)
    else if same_tuple e.orig (reverse t)
    then some (e, true)
    else find_entry es t

unfoldable pub conn_lookup : ConnTable → Tuple → Option (ConnEntry × Bool)
conn_lookup c t = find_entry (get_or c.conn_hash (conn_hash_key t) []) t

abbrev pub new_entry : Tuple → ConnType → ConnState → ConnEntry
new_entry t type state = record {
  orig = t;
  type = type;
  state = state;
  reply_src = t.dst;
  reply_dst = t.src;
  reply_sport = t.dport;
  reply_dport = t.sport;
}

-- `calloc` does not fail here: the source does not test its result.
unfoldable pub conn_create : ConnTable → Tuple → ConnType → ConnState → ConnEntry × ConnTable
conn_create c t type state =
    let k = conn_hash_key t in
    let e = new_entry t type state in
    (
      e,
      record {
        conn_hash = set c.conn_hash k (e ∷ get_or c.conn_hash k []);
        conn_total = c.conn_total + 1;
      },
    )

unfoldable pub conn_update_reply : ConnEntry → ℕ → ℕ → ℕ → ℕ → ConnEntry
conn_update_reply e rs rd rsp rdp = record e {
  reply_src = rs;
  reply_dst = rd;
  reply_sport = rsp;
  reply_dport = rdp;
}

-- The strings of `match_state`.
pub data Verdict : Type 0 where
  is_unknown : Verdict
  is_established_state : Verdict
  is_related : Verdict
  is_new : Verdict

-- The `switch` of `match_state`.
unfoldable pub verdict : ConnState → Verdict
verdict established = is_established_state
verdict udp_replied = is_established_state
verdict syn_sent = is_related
verdict syn_recv = is_related
verdict fin_wait = is_new
verdict close_wait = is_new
verdict last_ack = is_new
verdict time_wait = is_new
verdict udp_unreplied = is_new
verdict icmp = is_new
verdict unused = is_new

unfoldable pub match_state : Option ConnEntry → Verdict
match_state none = is_unknown
match_state (some e) = verdict e.state

-- `state == CT_TCP_ESTABLISHED || state == CT_UDP_REPLIED`.
unfoldable pub counts_established : ConnState → Bool
counts_established established = true
counts_established udp_replied = true
counts_established syn_sent = false
counts_established syn_recv = false
counts_established fin_wait = false
counts_established close_wait = false
counts_established last_ack = false
counts_established time_wait = false
counts_established udp_unreplied = false
counts_established icmp = false
counts_established unused = false

unfoldable pub is_established : Option ConnEntry → Bool
is_established none = false
is_established (some e) = counts_established e.state

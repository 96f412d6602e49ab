-- ===== src/Netfilter.antt =====
-- demos/netfilter/netfilter.c: the rules at the five hooks, the connection table, and the way of a
-- packet through the hooks. Printing and `hook_path`, which is never written, are left out.
pub mod Policy
pub mod Tracking
use os_kernel_from_scratch.Common.{
  ℕ, zero, suc, ◌+◌, ◌-◌, ◌*◌, ◌/◌, ◌%◌, ◌^◌, ◌≤◌, ◌<◌, min, max, bit_and, bit_or, bit_xor,
}
use os_kernel_from_scratch.Common.{◌≡◌, refl, sym, ap, ap₂, ◌∙◌, ◌≢◌, ◌↔◌, ◌⊎◌, inl, inr}
use os_kernel_from_scratch.Common.{Bool, true, false, not, ◌&&◌, ◌||◌}
use os_kernel_from_scratch.Common.{Option, none, some, List, [], ◌∷◌, ◌++◌, map}
use os_kernel_from_scratch.Common.{arith, dec_lt, ℕ_discrete, ltb, leb, ◌==◌, if◌then◌else◌}
use os_kernel_from_scratch.Common.{Bool-cases, Option-cases, length, get_elem?, get_or, set}
use os_kernel_from_scratch.Common.{take, drop, replicate, length-set, length-append}

-- NF_STOLEN, NF_QUEUE, NF_REPEAT and NF_STOP are never returned by a rule.
pub data NfVerdict : Type 0 where
  nf_drop : NfVerdict
  nf_accept : NfVerdict
  nf_stolen : NfVerdict
  nf_queue : NfVerdict
  nf_repeat : NfVerdict
  nf_stop : NfVerdict

-- The stages are numbers, since loops run over them.
abbrev pub nf_pre_routing : ℕ
nf_pre_routing = 0

abbrev pub nf_local_in : ℕ
nf_local_in = 1

abbrev pub nf_forward : ℕ
nf_forward = 2

abbrev pub nf_local_out : ℕ
nf_local_out = 3

abbrev pub nf_post_routing : ℕ
nf_post_routing = 4

pub record Packet : Type 0 where
  pub src_ip : ℕ
  pub dst_ip : ℕ
  pub protocol : ℕ
  pub src_port : ℕ
  pub dst_port : ℕ
  pub flags : ℕ
  pub indev : ℕ
  pub outdev : ℕ
  pub routed : Bool
  pub local : Bool
  pub dropped : Bool

unfoldable pub packet_create : ℕ → ℕ → ℕ → ℕ → ℕ → Packet
packet_create src dst proto sport dport = record {
  src_ip = src;
  dst_ip = dst;
  protocol = proto;
  src_port = sport;
  dst_port = dport;
  flags = 0;
  indev = 1;
  outdev = 0;
  routed = false;
  local = false;
  dropped = false;
}

-- `for_established` is whether the comment of the rule holds the words that `strstr` looks for.
pub record Rule : Type 0 where
  pub stage : ℕ
  pub protocol : ℕ
  pub src_port : ℕ
  pub dst_port : ℕ
  pub src_ip : ℕ
  pub dst_ip : ℕ
  pub verdict : NfVerdict
  pub for_established : Bool
  pub matches : ℕ

abbrev pub any_rule : ℕ → NfVerdict → Rule
any_rule stage verdict = record {
  stage = stage;
  protocol = 0;
  src_port = 0;
  dst_port = 0;
  src_ip = 0;
  dst_ip = 0;
  verdict = verdict;
  for_established = false;
  matches = 0;
}

abbrev pub tcp_to : ℕ → Rule
tcp_to port = record (any_rule nf_local_in nf_accept) { protocol = 6; dst_port = port }

unfoldable pub rules : List Rule
rules =
    tcp_to 22
    ∷ tcp_to 80
    ∷ tcp_to 443
    ∷ record (any_rule nf_local_in nf_accept) { for_established = true }
    ∷ record (any_rule nf_local_in nf_drop) { protocol = 1 }
    ∷ any_rule nf_local_in nf_drop
    ∷ any_rule nf_local_out nf_accept
    ∷ any_rule nf_forward nf_drop
    ∷ []

pub record Conn : Type 0 where
  pub src_ip : ℕ
  pub dst_ip : ℕ
  pub src_port : ℕ
  pub dst_port : ℕ
  pub protocol : ℕ
  pub established : Bool

abbrev pub max_conn : ℕ
max_conn = 256

-- `conn_count` is the length of the list.
unfoldable pub conn_track_add : List Conn → Packet → List Conn
conn_track_add conns p =
    if ltb (length conns) max_conn
    then conns
      ++ record {
        src_ip = p.src_ip;
        dst_ip = p.dst_ip;
        src_port = p.src_port;
        dst_port = p.dst_port;
        protocol = p.protocol;
        established = true;
      }
        ∷ []
    else conns

-- The connection of which the packet is an answer.
unfoldable pub answers : Conn → Packet → Bool
answers c p =
    (c.src_ip == p.dst_ip)
    && (c.dst_ip == p.src_ip)
    && (c.src_port == p.dst_port)
    && (c.dst_port == p.src_port)
    && (c.protocol == p.protocol)
    && c.established

unfoldable pub conn_track_lookup : List Conn → Packet → Bool
conn_track_lookup [] p = false
conn_track_lookup (c ∷ cs) p = answers c p || conn_track_lookup cs p

unfoldable pub routing_decision : Packet → Packet
routing_decision p = record p { local = ltb 100 (bit_and p.dst_ip 255); routed = true }

-- A field of a rule that is 0, or that of the packet.
unfoldable pub zero_or_same : ℕ → ℕ → Bool
zero_or_same field value = (field == 0) || (field == value)

-- None of the `continue`s of `traverse_hooks` is taken.
unfoldable pub rule_matches : List Conn → Packet → ℕ → Rule → Bool
rule_matches conns p stage r =
    (r.stage == stage)
    && zero_or_same r.protocol p.protocol
    && zero_or_same r.dst_port p.dst_port
    && zero_or_same r.src_port p.src_port
    && zero_or_same r.src_ip p.src_ip
    && zero_or_same r.dst_ip p.dst_ip
    && (not r.for_established || conn_track_lookup conns p)

-- The rules at one stage: the verdict of the first that matches, and the rules with its count.
unfoldable pub at_stage : List Conn → Packet → ℕ → List Rule → Option NfVerdict × List Rule
at_stage conns p stage [] = (none, [])
at_stage conns p stage (r ∷ rs) =
    let (verdict, rs') = at_stage conns p stage rs in
    if rule_matches conns p stage r
    then (some r.verdict, record r { matches = r.matches + 1 } ∷ rs)
    else (verdict, r ∷ rs')

-- `n` stages from `stage` on.
unfoldable pub traverse : List Conn → Packet → ℕ → ℕ → List Rule → NfVerdict × List Rule
traverse conns p zero stage rs = (nf_accept, rs)
traverse conns p (suc n) stage rs =
    let rest = traverse conns p n (stage + 1) rs in
    let (verdict, rs') = at_stage conns p stage rs in
    elim verdict [ some v ↦ (v, rs') | none ↦ rest ]

unfoldable pub traverse_hooks : List Conn → List Rule → Packet → ℕ → ℕ → NfVerdict × List Rule
traverse_hooks conns rs p first last = traverse conns p (last + 1 - first) first rs

-- `v == NF_DROP`.
unfoldable pub is_drop : NfVerdict → Bool
is_drop nf_drop = true
is_drop nf_accept = false
is_drop nf_stolen = false
is_drop nf_queue = false
is_drop nf_repeat = false
is_drop nf_stop = false

-- `v == NF_ACCEPT`.
unfoldable pub is_accept : NfVerdict → Bool
is_accept nf_accept = true
is_accept nf_drop = false
is_accept nf_stolen = false
is_accept nf_queue = false
is_accept nf_repeat = false
is_accept nf_stop = false

-- The global tables.
pub record Netfilter : Type 0 where
  pub rule_table : List Rule
  pub conn_table : List Conn

-- A packet for this host. `p->flags & 0x10` is the ACK flag.
unfoldable pub receive : Netfilter → Packet → Packet × Netfilter
receive nf p =
    let (v, rs) = traverse_hooks nf.conn_table nf.rule_table p nf_pre_routing nf_local_in in
    let tracked = not (is_drop v) && (p.protocol == 6) && not (bit_and p.flags 16 == 0) in
    (
      record p { dropped = is_drop v },
      record {
        rule_table = rs;
        conn_table = if tracked then conn_track_add nf.conn_table p else nf.conn_table;
      },
    )

-- A packet for another host.
unfoldable pub pass_on : Netfilter → Packet → Packet × Netfilter
pass_on nf p =
    let (v, rs) = traverse_hooks nf.conn_table nf.rule_table p nf_pre_routing nf_forward in
    let (v2, rs2) = traverse_hooks nf.conn_table rs p nf_post_routing nf_post_routing in
    if is_accept v
    then (record p { dropped = is_drop v2 }, record nf { rule_table = rs2 })
    else (record p { dropped = is_drop v }, record nf { rule_table = rs })

unfoldable pub process_packet : Netfilter → Packet → Packet × Netfilter
process_packet nf p =
    let p' = if p.routed then p else routing_decision p in
    if p'.local then receive nf p' else pass_on nf p'

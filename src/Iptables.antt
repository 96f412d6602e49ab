-- ===== src/Iptables.antt =====
-- demos/iptables/iptables.c: chains of match rules in the filter and nat tables, and the way of a
-- packet through them. Chain names are given by the constructors of a type, and comments, log prefixes
-- and the printed text are left out.
pub mod First
pub mod Policy
use os_kernel_from_scratch.Common.{
  ℕ, zero, suc, ◌+◌, ◌-◌, ◌*◌, ◌/◌, ◌%◌, ◌^◌, ◌≤◌, ◌<◌, min, max, bit_and, bit_or, bit_xor,
}
use os_kernel_from_scratch.Common.{◌≡◌, refl, sym, ap, ap₂, ◌∙◌, ◌≢◌, ◌↔◌, ◌⊎◌, inl, inr}
use os_kernel_from_scratch.Common.{Bool, true, false, not, ◌&&◌, ◌||◌}
use os_kernel_from_scratch.Common.{Option, none, some, List, [], ◌∷◌, ◌++◌, map}
use os_kernel_from_scratch.Common.{arith, dec_lt, ℕ_discrete, ltb, leb, ◌==◌, if◌then◌else◌}
use os_kernel_from_scratch.Common.{Bool-cases, Option-cases, length, get_elem?, get_or, set}
use os_kernel_from_scratch.Common.{take, drop, replicate, length-set, length-append}

pub data TargetType : Type 0 where
  accept : TargetType
  drop_it : TargetType
  reject : TargetType
  log : TargetType
  dnat : TargetType
  snat : TargetType
  masquerade : TargetType
  return : TargetType

-- 0 in a field is "any".
pub record Match : Type 0 where
  pub protocol : ℕ
  pub dport_lo : ℕ
  pub dport_hi : ℕ
  pub sport_lo : ℕ
  pub sport_hi : ℕ
  pub src_ip : ℕ
  pub src_mask : ℕ
  pub dst_ip : ℕ
  pub dst_mask : ℕ
  pub established : Bool
  pub new_conn : Bool

pub record Pkt : Type 0 where
  pub protocol : ℕ
  pub sport : ℕ
  pub dport : ℕ
  pub sip : ℕ
  pub dip : ℕ
  pub tcp_flags : ℕ
  pub established : Bool

-- `m && (x < lo || x > hi)` does not hold.
unfoldable pub in_range : ℕ → ℕ → ℕ → Bool
in_range lo hi x = (lo == 0) || (leb lo x && leb x hi)

unfoldable pub same_net : ℕ → ℕ → ℕ → Bool
same_net ip mask x = (ip == 0) || (bit_and x mask == bit_and ip mask)

unfoldable pub match_packet : Match → Pkt → Bool
unfolding in_range
match_packet m p =
    ((m.protocol == 0) || (m.protocol == p.protocol))
    && in_range m.dport_lo m.dport_hi p.dport
    && in_range m.sport_lo m.sport_hi p.sport
    && same_net m.src_ip m.src_mask p.sip
    && same_net m.dst_ip m.dst_mask p.dip
    && (not m.established || p.established)
    && (not m.new_conn || (p.tcp_flags == 2))

pub record Rule : Type 0 where
  pub matches : Match
  pub target : TargetType
  pub nat_port : ℕ

pub record Chain : Type 0 where
  pub rules : List Rule
  pub default_policy : TargetType
  pub packet_count : ℕ

-- The new rule goes to the head of the list.
unfoldable pub add_rule : Chain → Rule → Chain
add_rule ch r = record ch { rules = r ∷ ch.rules }

unfoldable pub make_chain : TargetType → Chain
make_chain def = record { rules = []; default_policy = def; packet_count = 0 }

-- `type == TARGET_LOG`.
unfoldable pub is_log : TargetType → Bool
is_log log = true
is_log accept = false
is_log drop_it = false
is_log reject = false
is_log dnat = false
is_log snat = false
is_log masquerade = false
is_log return = false

-- The loop over the rules: the verdict of the first that matches and does not only log, if any, and
-- the number of matches on the way.
unfoldable pub eval_rules : List Rule → Pkt → Option TargetType × ℕ
eval_rules [] p = (none, 0)
eval_rules (r ∷ rs) p =
    let (verdict, count) = eval_rules rs p in
    if match_packet r.matches p
    then if is_log r.target then (verdict, count + 1) else (some r.target, 1)
    else (verdict, count)

-- The verdict, or the default policy.
unfoldable pub or_default : Option TargetType → TargetType → TargetType
or_default none def = def
or_default (some t) def = t

unfoldable pub eval_chain : Chain → Pkt → TargetType × Chain
eval_chain ch p =
    let (verdict, count) = eval_rules ch.rules p in
    (or_default verdict ch.default_policy, record ch { packet_count = ch.packet_count + count })

-- The chains of the two tables; a lookup by name cannot fail.
pub record Tables : Type 0 where
  pub input : Chain
  pub output : Chain
  pub forward : Chain
  pub prerouting : Chain
  pub postrouting : Chain
  pub output_nat : Chain

abbrev pub any : Match
any = record {
  protocol = 0;
  dport_lo = 0;
  dport_hi = 0;
  sport_lo = 0;
  sport_hi = 0;
  src_ip = 0;
  src_mask = 0;
  dst_ip = 0;
  dst_mask = 0;
  established = false;
  new_conn = false;
}

-- A TCP packet for a port.
abbrev pub to_port : ℕ → Match
to_port port = record any { protocol = 6; dport_lo = port; dport_hi = port }

abbrev pub plain : Match → TargetType → Rule
plain m t = record { matches = m; target = t; nat_port = 0 }

abbrev pub add_rules : Chain → List Rule → Chain
add_rules ch [] = ch
add_rules ch (r ∷ rs) = add_rules (add_rule ch r) rs

-- `(192<<24)|(168<<16)|(1<<8)`.
abbrev pub lan_net : ℕ
lan_net = 192 * 2 ^ 24 + 168 * 2 ^ 16 + 2 ^ 8

unfoldable pub build_iptables : Tables
build_iptables = record {
  input = add_rules (make_chain drop_it) (
      plain (record any { established = true }) accept
      ∷ plain (record (to_port 22) { new_conn = true }) accept
      ∷ plain (to_port 80) accept
      ∷ plain (to_port 443) accept
      ∷ plain (record any { protocol = 1 }) accept
      ∷ plain (to_port 23) log
      ∷ []);
  output = make_chain accept;
  forward = add_rules (make_chain drop_it) (
      plain (record any { established = true }) accept
      ∷ plain (to_port 80) accept
      ∷ plain (to_port 443) accept
      ∷ []);
  prerouting =
      add_rule (make_chain accept)
        (record { matches = to_port 8080; target = dnat; nat_port = 80 });
  postrouting =
      add_rule (make_chain accept)
        (plain (record any { src_ip = lan_net; src_mask = 4294967040 }) masquerade);
  output_nat =
      add_rule (make_chain accept)
        (record { matches = to_port 8080; target = dnat; nat_port = 80 });
}

unfoldable pub is_dnat : TargetType → Bool
is_dnat dnat = true
is_dnat accept = false
is_dnat drop_it = false
is_dnat reject = false
is_dnat log = false
is_dnat snat = false
is_dnat masquerade = false
is_dnat return = false

-- The PREROUTING loop of `process`.
unfoldable pub translate : List Rule → Pkt → Pkt
translate [] p = p
translate (r ∷ rs) p =
    let rest = translate rs p in
    if is_dnat r.target && match_packet r.matches p then record p { dport = r.nat_port } else rest

-- The filter chain of a packet is evaluated, and its count is kept.
unfoldable pub filter_input : Tables → Pkt → TargetType × Tables
filter_input t p = let (v, ch) = eval_chain t.input p in (v, record t { input = ch })

unfoldable pub filter_output : Tables → Pkt → TargetType × Tables
filter_output t p = let (v, ch) = eval_chain t.output p in (v, record t { output = ch })

unfoldable pub filter_forward : Tables → Pkt → TargetType × Tables
filter_forward t p = let (v, ch) = eval_chain t.forward p in (v, record t { forward = ch })

-- The verdict, and the tables and the packet afterwards. MASQUERADE only prints.
unfoldable pub process : Tables → Pkt → ℕ → TargetType × Tables × Pkt
process t p hook =
    let to_local = ltb 100 (bit_and p.dip 255) in
    let from_local = ltb 100 (bit_and p.sip 255) in
    let p' = if hook == 0 then translate t.prerouting.rules p else p in
    let (result, t') =
      if hook == 1
      then filter_input t p'
      else if hook == 3
      then filter_output t p'
      else if to_local
      then filter_input t p'
      else if from_local
      then filter_output t p'
      else filter_forward t p' in
    (result, t', p')

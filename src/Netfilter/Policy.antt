-- ===== src/Netfilter/Policy.antt =====
-- What the rules of the file let through.
use os_kernel_from_scratch.Common.{ℕ, zero, suc, ◌+◌, ◌<◌}
use os_kernel_from_scratch.Common.{◌≡◌, refl, ap, ◌∙◌, inl, inr}
use os_kernel_from_scratch.Common.{Bool, true, false, not, ◌&&◌, ◌||◌}
use os_kernel_from_scratch.Common.{none, some, List, [], ◌∷◌}
use os_kernel_from_scratch.Common.{arith, ◌==◌, if◌then◌else◌}
use os_kernel_from_scratch.Common.{Bool-cases, Option-cases}
use os_kernel_from_scratch.Netfilter.{
  NfVerdict, nf_drop, nf_accept, nf_pre_routing, nf_local_in, nf_forward, nf_post_routing, Packet,
  Rule, rules, Conn, answers, conn_track_lookup, routing_decision, zero_or_same, rule_matches,
  at_stage, traverse, traverse_hooks, is_drop, is_accept, Netfilter, receive, pass_on,
  process_packet,
}

-- TCP to one of three ports, or the answer to a known connection.
abbrev pub is_open : List Conn → Packet → Bool
is_open conns p =
    ((p.protocol == 6) && ((p.dst_port == 22) || (p.dst_port == 80) || (p.dst_port == 443)))
    || conn_track_lookup conns p

input_verdict :
    (conns : List Conn) (p : Packet)
    → (traverse_hooks conns rules p nf_pre_routing nf_local_in).0
      ≡ (if is_open conns p then nf_accept else nf_drop)
unfolding traverse_hooks traverse at_stage rules rule_matches zero_or_same
input_verdict conns p = ground arith

forward_verdict :
    (conns : List Conn) (p : Packet)
    → (traverse_hooks conns rules p nf_pre_routing nf_forward).0
      ≡ (if is_open conns p then nf_accept else nf_drop)
unfolding traverse_hooks traverse at_stage rules rule_matches zero_or_same
forward_verdict conns p = ground arith

is_drop-cond : (b : Bool) → is_drop (if b then nf_accept else nf_drop) ≡ not b
unfolding is_drop
is_drop-cond true = refl
is_drop-cond false = refl

received :
    (nf : Netfilter) (p : Packet)
    → nf.rule_table ≡ rules
    → (receive nf p).0.dropped ≡ not (is_open nf.conn_table p)
unfolding receive
received nf p e =
    rw (e, receive)
      (ap is_drop (input_verdict nf.conn_table p) ∙ is_drop-cond (is_open nf.conn_table p))

-- All rules stand at stages before `s`.
abbrev pub Before : ℕ → List Rule → Type 0
Before s [] = Unit
Before s (r ∷ rs) = (r.stage < s) × Before s rs

Before-at_stage :
    (conns : List Conn) (p : Packet) (s t : ℕ) (rs : List Rule)
    → Before s rs
    → Before s (at_stage conns p t rs).1
unfolding at_stage
Before-at_stage conns p s t [] b = tt
Before-at_stage conns p s t (r ∷ rs) b = elim (Bool-cases (rule_matches conns p t r)) [
  | inl m ↦ rw m (b.0, b.1)
  | inr n ↦ rw n (b.0, Before-at_stage conns p s t rs b.1)
]

late :
    (conns : List Conn) (p : Packet) (s : ℕ) (r : Rule)
    → r.stage < s
    → rule_matches conns p s r ≡ false
unfolding rule_matches
late conns p s r h = ground arith

at_stage-Before :
    (conns : List Conn) (p : Packet) (s : ℕ) (rs : List Rule)
    → Before s rs
    → (at_stage conns p s rs).0 ≡ none
unfolding at_stage
at_stage-Before conns p s [] b = refl
at_stage-Before conns p s (r ∷ rs) b =
    let other : rule_matches conns p s r ≡ false = late conns p s r b.0 in
    rw other (at_stage-Before conns p s rs b.1)

traverse-none :
    (conns : List Conn) (p : Packet) (n t : ℕ) (rs : List Rule)
    → (at_stage conns p t rs).0 ≡ none
    → traverse conns p (suc n) t rs ≡ traverse conns p n (t + 1) rs
unfolding traverse
traverse-none conns p n t rs e = rw (e, traverse) refl

traverse-some :
    (conns : List Conn) (p : Packet) (n t : ℕ) (rs : List Rule) (v : NfVerdict)
    → (at_stage conns p t rs).0 ≡ some v
    → traverse conns p (suc n) t rs ≡ (v, (at_stage conns p t rs).1)
unfolding traverse
traverse-some conns p n t rs v e = rw (e, traverse) refl

Before-traverse :
    (conns : List Conn) (p : Packet) (s n t : ℕ) (rs : List Rule)
    → Before s rs
    → Before s (traverse conns p n t rs).1
unfolding traverse
Before-traverse conns p s zero t rs b = b
Before-traverse conns p s (suc n) t rs b = elim (Option-cases (at_stage conns p t rs).0) [
  | inl none_here ↦
      rw (traverse-none conns p n t rs none_here) (Before-traverse conns p s n (t + 1) rs b)
  | inr (v, here) ↦ rw (traverse-some conns p n t rs v here) (Before-at_stage conns p s t rs b)
]

post_verdict :
    (conns : List Conn) (p : Packet) (rs : List Rule)
    → Before nf_post_routing rs
    → (traverse_hooks conns rs p nf_post_routing nf_post_routing).0 ≡ nf_accept
unfolding traverse_hooks traverse
post_verdict conns p rs b =
    ap (λ r. r.0)
      (traverse-none conns p 0 nf_post_routing rs (at_stage-Before conns p nf_post_routing rs b))

rules-Before : Before nf_post_routing rules
unfolding rules
rules-Before = ground arith

traverse_hooks-Before :
    (conns : List Conn) (p : Packet)
    → Before nf_post_routing (traverse_hooks conns rules p nf_pre_routing nf_forward).1
unfolding traverse_hooks
traverse_hooks-Before conns p =
    Before-traverse conns p nf_post_routing 3 nf_pre_routing rules rules-Before

passed_on :
    (nf : Netfilter) (p : Packet)
    → nf.rule_table ≡ rules
    → (pass_on nf p).0.dropped ≡ not (is_open nf.conn_table p)
unfolding pass_on is_drop is_accept
passed_on nf p e = ground (
  arith,
  forward_verdict nf.conn_table p,
  post_verdict nf.conn_table p (traverse_hooks nf.conn_table rules p nf_pre_routing nf_forward).1
      after,
)
  where
    after :
        Before nf_post_routing (traverse_hooks nf.conn_table rules p nf_pre_routing nf_forward).1
    after = traverse_hooks-Before nf.conn_table p

either : {A : Type 0} {x y : A} (b : Bool) (P : A → Type 0) → P x → P y → P (if b then x else y)
either true P a c = a
either false P a c = c

judged :
    (nf : Netfilter) (p : Packet)
    → nf.rule_table ≡ rules
    → (if p.local then receive nf p else pass_on nf p).0.dropped ≡ not (is_open nf.conn_table p)
judged nf p e =
    either p.local (λ (r : Packet × Netfilter). r.0.dropped ≡ not (is_open nf.conn_table p))
      (received nf p e) (passed_on nf p e)

lookup-routing :
    (conns : List Conn) (p : Packet)
    → conn_track_lookup conns (routing_decision p) ≡ conn_track_lookup conns p
unfolding conn_track_lookup answers routing_decision
lookup-routing [] p = refl
lookup-routing (c ∷ cs) p = ap (λ b. answers c p || b) (lookup-routing cs p)

is_open-routing :
    (conns : List Conn) (p : Packet) → is_open conns (routing_decision p) ≡ is_open conns p
unfolding routing_decision
is_open-routing conns p =
    ap
      (λ b.
        ((p.protocol == 6) && ((p.dst_port == 22) || (p.dst_port == 80) || (p.dst_port == 443)))
        || b)
      (lookup-routing conns p)

-- With the rules of the file, in their initial state, a packet is let through exactly if it is TCP to
-- port 22, 80 or 443 or answers a known connection, whether it is for this host or passes through.
pub process_policy :
    (nf : Netfilter) (p : Packet)
    → nf.rule_table ≡ rules
    → (process_packet nf p).0.dropped ≡ not (is_open nf.conn_table p)
unfolding process_packet
process_policy nf p e =
    either p.routed
      (λ q.
        (if q.local then receive nf q else pass_on nf q).0.dropped ≡ not (is_open nf.conn_table p))
      (judged nf p e) (judged nf (routing_decision p) e ∙ ap not (is_open-routing nf.conn_table p))

-- ===== src/Conntrack/Machine/Progress.antt =====
-- In which order a connection passes through its states.
use os_kernel_from_scratch.Common.{ℕ, ◌≤◌}
use os_kernel_from_scratch.Common.{◌≡◌, refl, sym, ap, ◌∙◌, ◌≢◌, ◌↔◌, ◌⊎◌, inl, inr, if◌then◌else◌}
use os_kernel_from_scratch.Common.{Bool, true, false}
use os_kernel_from_scratch.Common.{List, [], ◌∷◌}
use os_kernel_from_scratch.Common.{arith}
use os_kernel_from_scratch.Conntrack.{
  ConnState, syn_sent, syn_recv, established, fin_wait, close_wait, last_ack, time_wait,
  udp_unreplied, udp_replied, icmp, unused, ConnEntry,
}
use os_kernel_from_scratch.Conntrack.Machine.{
  tcp_fin, tcp_rst, tcp_ack, tcp_syn_ack, step_orig, step_reply, tcp_step,
}

-- A packet of the connection: its flags and whether it is a reply.
pub record Packet : Type 0 where
  pub flags : ℕ
  pub is_reply : Bool

abbrev pub run : ConnEntry → List Packet → ConnEntry
run e [] = e
run e (p ∷ ps) = run (tcp_step e p.flags p.is_reply).0 ps

-- How far a connection has come.
abbrev pub stage : ConnState → ℕ
stage syn_sent = 0
stage syn_recv = 1
stage established = 2
stage fin_wait = 3
stage close_wait = 3
stage time_wait = 4
stage last_ack = 4
stage udp_unreplied = 5
stage udp_replied = 5
stage icmp = 5
stage unused = 5

-- No packet of the original direction is a bare RST.
abbrev pub NoReset : List Packet → Type 0
NoReset [] = Unit
NoReset (p ∷ ps) = ((p.is_reply ≡ false) → p.flags ≢ tcp_rst) × NoReset ps

stage-orig : (s : ConnState) (flags : ℕ) → flags ≢ tcp_rst → stage s ≤ stage (step_orig s flags)
unfolding step_orig
stage-orig syn_sent flags h = ground arith
stage-orig syn_recv flags h = ground arith
stage-orig established flags h = ground arith
stage-orig fin_wait flags h = ground arith
stage-orig close_wait flags h = ground arith
stage-orig last_ack flags h = ground arith
stage-orig time_wait flags h = ground arith
stage-orig udp_unreplied flags h = ground arith
stage-orig udp_replied flags h = ground arith
stage-orig icmp flags h = ground arith
stage-orig unused flags h = ground arith

stage-reply : (s : ConnState) (flags : ℕ) → stage s ≤ stage (step_reply s flags)
unfolding step_reply
stage-reply syn_sent flags = ground arith
stage-reply syn_recv flags = ground arith
stage-reply established flags = ground arith
stage-reply fin_wait flags = ground arith
stage-reply close_wait flags = ground arith
stage-reply last_ack flags = ground arith
stage-reply time_wait flags = ground arith
stage-reply udp_unreplied flags = ground arith
stage-reply udp_replied flags = ground arith
stage-reply icmp flags = ground arith
stage-reply unused flags = ground arith

stage-tcp_step :
    (e : ConnEntry) (flags : ℕ) (is_reply : Bool)
    → (is_reply ≡ false → flags ≢ tcp_rst)
    → stage e.state ≤ stage (tcp_step e flags is_reply).0.state
unfolding tcp_step
stage-tcp_step e flags true h = stage-reply e.state flags
stage-tcp_step e flags false h = stage-orig e.state flags (h refl)

-- Without a bare RST in the original direction no packet sequence takes a connection back to an
-- earlier stage: opening, established, closing, closed.
pub tcp_step_progress :
    (e : ConnEntry) (ps : List Packet) → NoReset ps → stage e.state ≤ stage (run e ps).state
tcp_step_progress e [] h = omega arith
tcp_step_progress e (p ∷ ps) h = omega (
  arith,
  stage-tcp_step e p.flags p.is_reply h.0,
  tcp_step_progress (tcp_step e p.flags p.is_reply).0 ps h.1,
)

-- The four flag bytes that `tcp_step` looks for.
abbrev pub IsKnown : ℕ → Type 0
IsKnown flags = (flags ≡ tcp_fin) ⊎ (flags ≡ tcp_rst) ⊎ (flags ≡ tcp_ack) ⊎ (flags ≡ tcp_syn_ack)

ignored :
    (s : ConnState) (flags : ℕ)
    → ¬ IsKnown flags
    → (step_orig s flags ≡ s) × (step_reply s flags ≡ s)
unfolding step_orig step_reply
ignored syn_sent flags n = ground arith
ignored syn_recv flags n = ground arith
ignored established flags n = ground arith
ignored fin_wait flags n = ground arith
ignored close_wait flags n = ground arith
ignored last_ack flags n = ground arith
ignored time_wait flags n = ground arith
ignored udp_unreplied flags n = ground arith
ignored udp_replied flags n = ground arith
ignored icmp flags n = ground arith
ignored unused flags n = ground arith

-- Only the bare flag bytes FIN, RST, ACK and SYN with ACK move a connection: any other, such as
-- FIN with ACK, leaves the entry as it is, in each state and direction.
pub tcp_step_exact :
    (e : ConnEntry) (flags : ℕ) (is_reply : Bool)
    → ¬ IsKnown flags
    → tcp_step e flags is_reply ≡ (e, false)
unfolding tcp_step
tcp_step_exact e flags true n =
    ap (λ (s : ConnState). (record e { state = s }, false)) (ignored e.state flags n).1
tcp_step_exact e flags false n =
    ap (λ (s : ConnState). (record e { state = s }, false)) (ignored e.state flags n).0

-- A bare ACK of the originator is among the packets.
abbrev pub Acked : List Packet → Type 0
Acked [] = ⊥
Acked (p ∷ ps) = ((p.flags ≡ tcp_ack) × (p.is_reply ≡ false)) ⊎ Acked ps

-- SYN with ACK, of either side, and later a bare ACK of the originator.
abbrev pub Handshake : List Packet → Type 0
Handshake [] = ⊥
Handshake (p ∷ ps) = ((p.flags ≡ tcp_syn_ack) × Acked ps) ⊎ Handshake ps

-- A bare ACK in reply, with no SYN with ACK before it.
abbrev pub Shortcut : List Packet → Type 0
Shortcut [] = ⊥
Shortcut (p ∷ ps) =
    ((p.flags ≡ tcp_ack) × (p.is_reply ≡ true)) ⊎ ((p.flags ≢ tcp_syn_ack) × Shortcut ps)

-- No bare FIN, and no bare RST.
abbrev pub StaysOpen : List Packet → Type 0
StaysOpen [] = Unit
StaysOpen (p ∷ ps) = (p.flags ≢ tcp_fin) × (p.flags ≢ tcp_rst) × StaysOpen ps

-- The state after packets, from a state.
abbrev step_state : ConnState → Packet → ConnState
step_state s p = if p.is_reply then step_reply s p.flags else step_orig s p.flags

abbrev run_state : ConnState → List Packet → ConnState
run_state s [] = s
run_state s (p ∷ ps) = run_state (step_state s p) ps

run-run_state : (e : ConnEntry) (ps : List Packet) → (run e ps).state ≡ run_state e.state ps
unfolding tcp_step
run-run_state e [] = refl
run-run_state e (p ∷ ps) = run-run_state (tcp_step e p.flags p.is_reply).0 ps

stays_established :
    (p : Packet) → p.flags ≢ tcp_fin → p.flags ≢ tcp_rst → step_state established p ≡ established
unfolding step_orig step_reply
stays_established p f r = ground arith

run_state-established : (ps : List Packet) → StaysOpen ps → run_state established ps ≡ established
run_state-established [] h = refl
run_state-established (p ∷ ps) h =
    ap (λ s. run_state s ps) (stays_established p h.0 h.1) ∙ run_state-established ps h.2

-- A packet in the state `syn_recv`: the originator's ACK or one that changes nothing.
recv_step :
    (p : Packet)
    → p.flags ≢ tcp_fin
    → ((step_state syn_recv p ≡ established) × (p.flags ≡ tcp_ack) × (p.is_reply ≡ false))
      ⊎ ((step_state syn_recv p ≡ syn_recv) × ¬ ((p.flags ≡ tcp_ack) × (p.is_reply ≡ false)))
unfolding step_orig step_reply
recv_step p f = ground arith

-- A packet in the state `syn_sent`.
sent_step :
    (p : Packet)
    → ((step_state syn_sent p ≡ syn_recv) × (p.flags ≡ tcp_syn_ack))
      ⊎ ((step_state syn_sent p ≡ established) × (p.flags ≡ tcp_ack) × (p.is_reply ≡ true))
      ⊎ ((step_state syn_sent p ≡ syn_sent)
          × (p.flags ≢ tcp_syn_ack)
          × ¬ ((p.flags ≡ tcp_ack) × (p.is_reply ≡ true)))
unfolding step_orig step_reply
sent_step p = ground arith

run_state-syn_recv :
    (ps : List Packet) → StaysOpen ps → (run_state syn_recv ps ≡ established) ↔ Acked ps
run_state-syn_recv [] h = (λ e. absurd (cc), λ b. absurd b)
run_state-syn_recv (p ∷ ps) h = elim (recv_step p h.0) [
  | inl (e, f, o) ↦
      (λ r. inl (f, o), λ a. ap (λ s. run_state s ps) e ∙ run_state-established ps h.2)
  | inr (e, n) ↦
      let (to, from) = run_state-syn_recv ps h.2 in
      let same = ap (λ s. run_state s ps) e in
      (
        λ r. inr (to (sym same ∙ r)),
        λ a. elim a [ inl x ↦ absurd (n x) | inr later ↦ same ∙ from later ],
      )
]

Handshake-Acked : (ps : List Packet) → Handshake ps → Acked ps
Handshake-Acked [] h = h
Handshake-Acked (p ∷ ps) (inl (f, a)) = inr a
Handshake-Acked (p ∷ ps) (inr h) = inr (Handshake-Acked ps h)

run_state-syn_sent :
    (ps : List Packet)
    → StaysOpen ps
    → (run_state syn_sent ps ≡ established) ↔ (Handshake ps ⊎ Shortcut ps)
run_state-syn_sent [] h = (λ e. absurd (cc), λ b. elim b [ inl x ↦ absurd x | inr x ↦ absurd x ])
run_state-syn_sent (p ∷ ps) h = elim (sent_step p) [
  | inl (e, f) ↦
      let (to, from) = run_state-syn_recv ps h.2 in
      let same = ap (λ s. run_state s ps) e in
      (
        λ r. inl (inl (f, to (sym same ∙ r))),
        λ a.
            same
            ∙ from (elim a [
              | inl (inl (g, acked)) ↦ acked
              | inl (inr shake) ↦ Handshake-Acked ps shake
              | inr (inl (g, o)) ↦ absurd (omega (arith, f, g))
              | inr (inr (n, short)) ↦ absurd (n f)
            ]),
      )
  | inr (inl (e, f, o)) ↦
      (λ r. inr (inl (f, o)), λ a. ap (λ s. run_state s ps) e ∙ run_state-established ps h.2)
  | inr (inr (e, n, m)) ↦
      let (to, from) = run_state-syn_sent ps h.2 in
      let same = ap (λ s. run_state s ps) e in
      (
        λ r. elim (to (sym same ∙ r)) [
          | inl shake ↦ inl (inr shake)
          | inr short ↦ inr (inr (n, short))
        ],
        λ a. elim a [
          | inl (inl (g, acked)) ↦ absurd (n g)
          | inl (inr shake) ↦ same ∙ from (inl shake)
          | inr (inl x) ↦ absurd (m x)
          | inr (inr (g, short)) ↦ same ∙ from (inr short)
        ],
      )
]

-- A connection that starts in the state of a SYN sent, while no bare FIN and no bare RST comes, is
-- established after the packets if and only if a SYN with ACK, of either side, came and later a
-- bare ACK of the originator, or a bare ACK in reply came before any SYN with ACK.
pub run-established :
    (e : ConnEntry) (ps : List Packet)
    → e.state ≡ syn_sent
    → StaysOpen ps
    → ((run e ps).state ≡ established) ↔ (Handshake ps ⊎ Shortcut ps)
run-established e ps new stays =
    let start = run-run_state e ps ∙ ap (λ s. run_state s ps) new in
    let (to, from) = run_state-syn_sent ps stays in (λ r. to (sym start ∙ r), λ a. start ∙ from a)

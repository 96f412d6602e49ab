-- ===== src/Netfilter/Tracking.antt =====
-- The connection table.
use os_kernel_from_scratch.Common.{◌≤◌, ◌<◌}
use os_kernel_from_scratch.Common.{◌≡◌, refl, ◌⊎◌, inl, inr}
use os_kernel_from_scratch.Common.{true, false, ◌||◌}
use os_kernel_from_scratch.Common.{List, [], ◌∷◌, ◌++◌}
use os_kernel_from_scratch.Common.{arith, dec_lt}
use os_kernel_from_scratch.Common.{Bool-cases, length}
use os_kernel_from_scratch.Common.{length-append}
use os_kernel_from_scratch.Netfilter.{
  Packet, Conn, max_conn, answers, conn_track_add, conn_track_lookup,
}

-- The packet in the other direction.
abbrev pub answer_to : Packet → Packet
answer_to p = record p {
  src_ip = p.dst_ip;
  dst_ip = p.src_ip;
  src_port = p.dst_port;
  dst_port = p.src_port;
}

answers_own :
    (p : Packet)
    → answers
        (record {
          src_ip = p.src_ip;
          dst_ip = p.dst_ip;
          src_port = p.src_port;
          dst_port = p.dst_port;
          protocol = p.protocol;
          established = true;
        })
        (answer_to p)
      ≡ true
unfolding answers
answers_own p = ground arith

lookup-append :
    (a : List Conn) (c : Conn) (p : Packet)
    → conn_track_lookup (a ++ c ∷ []) p ≡ (conn_track_lookup a p || answers c p)
unfolding conn_track_lookup
lookup-append [] c p = ground arith
lookup-append (d ∷ a) c p = ground (arith, lookup-append a c p)

-- After `conn_track_add` in a table with room, the answers to the packet are recognised; a full table
-- stays as it is. Whatever was recognised before still is, and the table never outgrows its array.
pub conn_track_add_lem :
    (conns : List Conn) (p q : Packet)
    → length conns ≤ max_conn
    → ((length conns < max_conn × conn_track_lookup (conn_track_add conns p) (answer_to p) ≡ true)
        ⊎ (length conns ≡ max_conn × conn_track_add conns p ≡ conns))
      × ((conn_track_lookup conns q ≡ false)
          ⊎ (conn_track_lookup (conn_track_add conns p) q ≡ true))
      × (length (conn_track_add conns p) ≤ max_conn)
unfolding conn_track_add
conn_track_add_lem conns p q h = elim (dec_lt (length conns) max_conn) [
  | yes room ↦ (inl (room, recognised room), kept room, small room)
  | no full ↦ (
    inr (omega arith, same full),
    elim (Bool-cases (conn_track_lookup conns q)) [
      | inl t ↦ inr (rw (same full) t)
      | inr f ↦ inl f
    ],
    rw (same full) h,
  )
]
  where
    entry : Conn
    entry = record {
      src_ip = p.src_ip;
      dst_ip = p.dst_ip;
      src_port = p.src_port;
      dst_port = p.dst_port;
      protocol = p.protocol;
      established = true;
    }

    grown : length conns < max_conn → conn_track_add conns p ≡ conns ++ entry ∷ []
    grown room = ground arith

    same : ¬ (length conns < max_conn) → conn_track_add conns p ≡ conns
    same full = ground arith

    recognised :
        length conns < max_conn → conn_track_lookup (conn_track_add conns p) (answer_to p) ≡ true
    recognised room =
        rw (grown room, lookup-append conns entry (answer_to p)) (ground (arith, answers_own p))

    kept :
        length conns < max_conn
        → (conn_track_lookup conns q ≡ false)
          ⊎ (conn_track_lookup (conn_track_add conns p) q ≡ true)
    kept room = elim (Bool-cases (conn_track_lookup conns q)) [
      | inl t ↦ inr (rw (grown room, lookup-append conns entry q, t) refl)
      | inr f ↦ inl f
    ]

    small : length conns < max_conn → length (conn_track_add conns p) ≤ max_conn
    small room = rw (grown room) (omega (arith, length-append conns (entry ∷ [])))

-- ===== src/Conntrack/Table.antt =====
-- The table: both directions of a connection hash to one bucket.
use os_kernel_from_scratch.Common.{ℕ, ◌<◌, bit_xor}
use os_kernel_from_scratch.Common.{◌≡◌, refl, sym, ap, ◌∙◌}
use os_kernel_from_scratch.Common.{arith}
use os_kernel_from_scratch.Common.Xor.{bit_xor_comm, bit_xor_assoc}
use os_kernel_from_scratch.Conntrack.{Tuple, max_conn, conn_hash_key, reverse}

swap_ports : (a x y : ℕ) → bit_xor (bit_xor a x) y ≡ bit_xor (bit_xor a y) x
swap_ports a x y =
    bit_xor_assoc a x y ∙ (ap (bit_xor a) (bit_xor_comm x y) ∙ sym (bit_xor_assoc a y x))

-- A packet and its answer have the same bucket, and that is one of the table.
pub conn_hash_key-reverse :
    (t : Tuple) → (conn_hash_key (reverse t) ≡ conn_hash_key t) × (conn_hash_key t < max_conn)
unfolding conn_hash_key
conn_hash_key-reverse t = (
  rw (bit_xor_comm t.dst t.src, swap_ports (bit_xor t.src t.dst) t.dport t.sport) refl,
  omega arith,
)

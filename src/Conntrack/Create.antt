-- ===== src/Conntrack/Create.antt =====
-- demos/conntrack/conntrack.c, `conn_create`: what a new entry changes for lookups.
use os_kernel_from_scratch.Common.{ℕ, ◌+◌}
use os_kernel_from_scratch.Common.{◌≡◌, refl, sym, ap, ◌∙◌, ◌≢◌, ◌⊎◌, inl, inr}
use os_kernel_from_scratch.Common.{true, false}
use os_kernel_from_scratch.Common.{some, List, [], ◌∷◌}
use os_kernel_from_scratch.Common.{arith, ℕ_discrete}
use os_kernel_from_scratch.Common.{get_or, set}
use os_kernel_from_scratch.Common.{length-set}
use os_kernel_from_scratch.Conntrack.{
  Tuple, ConnEntry, ConnTable, ConnType, ConnState, conn_hash_key, reverse, find_entry, conn_lookup,
  conn_create, new_entry,
}
use os_kernel_from_scratch.Conntrack.Table.{conn_hash_key-reverse}
use os_kernel_from_scratch.Common.{get_or-set_self, get_or-set_ne}
use os_kernel_from_scratch.Conntrack.Lookup.{
  IsValid, AllAt, more, find_first, find_reply, find_skip, Tuple-discrete,
}

-- The buckets after a creation.
created : ConnTable → Tuple → ConnEntry → List (List ConnEntry)
created c t e = set c.conn_hash (conn_hash_key t) (e ∷ get_or c.conn_hash (conn_hash_key t) [])

created_own :
    (c : ConnTable) (t : Tuple) (e : ConnEntry)
    → IsValid c
    → get_or (created c t e) (conn_hash_key t) [] ≡ e ∷ get_or c.conn_hash (conn_hash_key t) []
unfolding created
created_own c t e v =
    get_or-set_self c.conn_hash (conn_hash_key t) _ []
      (omega (arith, v.buckets, conn_hash_key-reverse t))

created_other :
    (c : ConnTable) (t : Tuple) (e : ConnEntry) (k : ℕ)
    → conn_hash_key t ≢ k
    → get_or (created c t e) k [] ≡ get_or c.conn_hash k []
unfolding created
created_other c t e k n = get_or-set_ne c.conn_hash (conn_hash_key t) k _ [] n

created-AllAt :
    (c : ConnTable) (t : Tuple) (e : ConnEntry)
    → IsValid c
    → e.orig ≡ t
    → (k : ℕ) → AllAt k (get_or (created c t e) k [])
created-AllAt c t e v q k = elim (ℕ_discrete (conn_hash_key t) k) [
  | yes same ↦
      rw (← same)
        (rw (created_own c t e v) (more (ap conn_hash_key q) (v.placed (conn_hash_key t))))
  | no other ↦ rw (created_other c t e k other) (v.placed k)
]

-- A packet of another connection walks past the new entry.
undisturbed :
    (c : ConnTable) (t u : Tuple) (e : ConnEntry)
    → IsValid c
    → e.orig ≡ t
    → u ≢ t
    → u ≢ reverse t
    → find_entry (get_or (created c t e) (conn_hash_key u) []) u
      ≡ find_entry (get_or c.conn_hash (conn_hash_key u) []) u
undisturbed c t u e v q n m = elim (ℕ_discrete (conn_hash_key t) (conn_hash_key u)) [
  | yes same ↦ rw (← same) (
      rw (created_own c t e v) (
        find_skip e (get_or c.conn_hash (conn_hash_key t) []) u (λ w. n (sym w ∙ q))
          (λ w. m (back (sym w ∙ q)))))
  | no other ↦ rw (created_other c t e (conn_hash_key u) other) refl
]
  where
    back : reverse u ≡ t → u ≡ reverse t
    back w = ap reverse w

-- After `conn_create` in a valid table, which stays valid, packets of the new connection find the
-- new entry, those in the other direction as replies (unless both directions look alike), and
-- packets of other connections find what they found before.
pub conn_create_lem :
    (c : ConnTable) (t u : Tuple) (type : ConnType) (state : ConnState)
    → IsValid c
    → u ≢ t
    → u ≢ reverse t
    → let (e, c') = conn_create c t type state in
      IsValid c'
      × (conn_lookup c' t ≡ some (e, false))
      × ((t ≡ reverse t) ⊎ (conn_lookup c' (reverse t) ≡ some (e, true)))
      × (conn_lookup c' u ≡ conn_lookup c u)
      × (c'.conn_total ≡ c.conn_total + 1)
unfolding conn_create conn_lookup created
conn_create_lem c t u type state v n m = (
  record {
    buckets = omega (
      arith,
      v.buckets,
      length-set c.conn_hash (conn_hash_key t) (e ∷ get_or c.conn_hash (conn_hash_key t) []),
    );
    placed = created-AllAt c t e v refl;
  },
  rw (created_own c t e v) (find_first e _ t refl),
  elim (Tuple-discrete t (reverse t)) [
    | yes alike ↦ inl alike
    | no differ ↦ inr (
        rw ((conn_hash_key-reverse t).0, created_own c t e v)
          (find_reply e _ (reverse t) differ refl))
  ],
  undisturbed c t u e v refl n m,
  refl,
)
  where
    e : ConnEntry
    e = new_entry t type state

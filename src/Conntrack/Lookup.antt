-- ===== src/Conntrack/Lookup.antt =====
-- What a lookup finds in the table.
use os_kernel_from_scratch.Common.{ℕ}
use os_kernel_from_scratch.Common.{◌≡◌, refl, sym, ap, ◌∙◌, ◌≢◌, ◌⊎◌, inl, inr}
use os_kernel_from_scratch.Common.{Bool, true, false}
use os_kernel_from_scratch.Common.{Option, none, some, List, [], ◌∷◌}
use os_kernel_from_scratch.Common.{arith, ℕ_discrete}
use os_kernel_from_scratch.Common.{Bool-cases, length, get_or}
use os_kernel_from_scratch.Conntrack.{
  Tuple, ConnEntry, ConnTable, max_conn, conn_hash_key, same_tuple, reverse, find_entry,
  conn_lookup,
}
use os_kernel_from_scratch.Conntrack.Table.{conn_hash_key-reverse}

-- The entry belongs to the packet, in the direction given.
abbrev pub Serves : ConnEntry → Tuple → Bool → Type 0
Serves e t true = e.orig ≡ reverse t
Serves e t false = e.orig ≡ t

same_tuple_eq : (a b : Tuple) → same_tuple a b ≡ true → a ≡ b
unfolding same_tuple
same_tuple_eq a b e = ground arith

same_tuple_refl : (a : Tuple) → same_tuple a a ≡ true
unfolding same_tuple
same_tuple_refl a = ground arith

same_tuple_ne : (a b : Tuple) → a ≢ b → same_tuple a b ≡ false
same_tuple_ne a b n = elim (Bool-cases (same_tuple a b)) [
  | inl e ↦ absurd (n (same_tuple_eq a b e))
  | inr e ↦ e
]

-- The table has its buckets, and each entry is in the bucket of its tuple.
pub data AllAt (k : ℕ) : List ConnEntry → Type 0 where
  done : AllAt k []
  more :
      {e : ConnEntry} {es : List ConnEntry}
      → conn_hash_key e.orig ≡ k
      → AllAt k es
      → AllAt k (e ∷ es)

pub record IsValid (c : ConnTable) : Type 0 where
  pub buckets : length c.conn_hash ≡ max_conn
  pub placed : (k : ℕ) → AllAt k (get_or c.conn_hash k [])

pub data In (e : ConnEntry) : List ConnEntry → Type 0 where
  here : {es : List ConnEntry} → In e (e ∷ es)
  there : {d : ConnEntry} {es : List ConnEntry} → In e es → In e (d ∷ es)

pub find_first :
    (e : ConnEntry) (es : List ConnEntry) (t : Tuple)
    → e.orig ≡ t
    → find_entry (e ∷ es) t ≡ some (e, false)
unfolding find_entry
find_first e es t q =
    let same : same_tuple e.orig t ≡ true = rw q (same_tuple_refl t) in rw (same, find_entry) refl

pub find_reply :
    (e : ConnEntry) (es : List ConnEntry) (t : Tuple)
    → e.orig ≢ t
    → e.orig ≡ reverse t
    → find_entry (e ∷ es) t ≡ some (e, true)
unfolding find_entry
find_reply e es t n q =
    let same : same_tuple e.orig (reverse t) ≡ true = rw q (same_tuple_refl (reverse t)) in
    rw (same_tuple_ne e.orig t n, same, find_entry) refl

pub find_skip :
    (e : ConnEntry) (es : List ConnEntry) (t : Tuple)
    → e.orig ≢ t
    → e.orig ≢ reverse t
    → find_entry (e ∷ es) t ≡ find_entry es t
unfolding find_entry
find_skip e es t n m =
    rw (same_tuple_ne e.orig t n, same_tuple_ne e.orig (reverse t) m, find_entry) refl

-- An entry for each outcome of the walk.
pub data Found (es : List ConnEntry) (t : Tuple) : Option (ConnEntry × Bool) → Type 0 where
  nothing : ((e : ConnEntry) → In e es → (e.orig ≢ t) × (e.orig ≢ reverse t)) → Found es t none
  found :
      {e : ConnEntry} {is_reply : Bool}
      → In e es
      → Serves e t is_reply
      → Found es t (some (e, is_reply))

pub Tuple-discrete : Discrete Tuple
Tuple-discrete = hlevel ℕ_discrete

pass :
    (d : ConnEntry) (es : List ConnEntry) (t : Tuple) (o : Option (ConnEntry × Bool))
    → d.orig ≢ t
    → d.orig ≢ reverse t
    → Found es t o
    → Found (d ∷ es) t o
pass d es t none n m (nothing none_in) = nothing λ e i. without e i
  where
    without : (e : ConnEntry) → In e (d ∷ es) → (e.orig ≢ t) × (e.orig ≢ reverse t)
    without e here = (n, m)
    without e (there i) = none_in e i
pass d es t (some p) n m (found i s) = found (there i) s

find_entry-Found : (es : List ConnEntry) (t : Tuple) → Found es t (find_entry es t)
unfolding find_entry
find_entry-Found [] t = nothing λ e i. elim i [ ]
find_entry-Found (e ∷ es) t = elim (Tuple-discrete e.orig t) [
  | yes q ↦ rw (find_first e es t q) (found here q)
  | no n ↦ elim (Tuple-discrete e.orig (reverse t)) [
    | yes q ↦ rw (find_reply e es t n q) (found here q)
    | no m ↦ rw (find_skip e es t n m) (pass e es t (find_entry es t) n m (find_entry-Found es t))
  ]
]

-- What a lookup may answer: an entry of the packet's connection with its direction, or nothing if
-- no bucket of the table holds one.
pub data Answer (c : ConnTable) (t : Tuple) : Option (ConnEntry × Bool) → Type 0 where
  nothing :
      ((k : ℕ) (e : ConnEntry)
        → In e (get_or c.conn_hash k [])
        → (e.orig ≢ t) × (e.orig ≢ reverse t))
      → Answer c t none
  found :
      {e : ConnEntry} {is_reply : Bool} (k : ℕ)
      → In e (get_or c.conn_hash k [])
      → Serves e t is_reply
      → Answer c t (some (e, is_reply))

AllAt-In :
    {k : ℕ} {es : List ConnEntry} {e : ConnEntry} → AllAt k es → In e es → conn_hash_key e.orig ≡ k
AllAt-In done i = elim i [ ]
AllAt-In (more q a) here = q
AllAt-In (more q a) (there i) = AllAt-In a i

-- An entry for the packet can only be in the packet's bucket.
own_bucket :
    (c : ConnTable) (t : Tuple) (k : ℕ) (e : ConnEntry)
    → IsValid c
    → In e (get_or c.conn_hash k [])
    → (e.orig ≡ t) ⊎ (e.orig ≡ reverse t)
    → In e (get_or c.conn_hash (conn_hash_key t) [])
own_bucket c t k e v i m = let at : conn_hash_key t ≡ k = key m in rw at i
  where
    key : (e.orig ≡ t) ⊎ (e.orig ≡ reverse t) → conn_hash_key t ≡ k
    key (inl q) = ap conn_hash_key (sym q) ∙ AllAt-In (v.placed k) i
    key (inr q) =
        sym (conn_hash_key-reverse t).0 ∙ (ap conn_hash_key (sym q) ∙ AllAt-In (v.placed k) i)

answer :
    (c : ConnTable) (t : Tuple) (o : Option (ConnEntry × Bool))
    → IsValid c
    → Found (get_or c.conn_hash (conn_hash_key t) []) t o
    → Answer c t o
answer c t none v (nothing none_in) = nothing λ k e i. (
  λ q. (none_in e (own_bucket c t k e v i (inl q))).0 q,
  λ q. (none_in e (own_bucket c t k e v i (inr q))).1 q,
)
answer c t (some p) v (found i s) = found (conn_hash_key t) i s

-- A lookup in a valid table finds an entry of the packet's connection, with its direction, wherever
-- in the table one is; it finds nothing only if no bucket holds one.
pub conn_lookup_lem : (c : ConnTable) (t : Tuple) → IsValid c → Answer c t (conn_lookup c t)
unfolding conn_lookup
conn_lookup_lem c t v =
    answer c t _ v (find_entry-Found (get_or c.conn_hash (conn_hash_key t) []) t)

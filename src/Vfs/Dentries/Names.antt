-- ===== src/Vfs/Dentries/Names.antt =====
-- demos/vfs/vfs.c: an inode with one and with several names, from vfs_new_dentry to vfs_put_dentry.
use os_kernel_from_scratch.Common.{
  ℕ, ◌+◌, ◌-◌, ◌*◌, ◌%◌, ◌^◌, ◌<◌, ◌≡◌, refl, ap, ◌∙◌, ◌≢◌, Option, none, some, List, [], ◌∷◌, true,
  arith, length,
}
use os_kernel_from_scratch.Common.Nodes.{count}
use os_kernel_from_scratch.Vfs.{Inode, State, update}
use os_kernel_from_scratch.Vfs.Inodes.{count_down}
use os_kernel_from_scratch.Vfs.Inodes.Table.{IsValid, inode_at, is_used, slots_of}
use os_kernel_from_scratch.Vfs.Inodes.Release.{no_evict}
use os_kernel_from_scratch.Vfs.Dentries.{vfs_put_dentry}
use os_kernel_from_scratch.Vfs.Dentries.References.{IsName, put_twice, vfs_put_dentry_lem}

-- Calls of `vfs_put_dentry` one after the other.
unfoldable pub put_all : List ℕ → State → Option State
put_all [] s = some s
put_all (d ∷ ds) s = elim (vfs_put_dentry no_evict s d) [ none ↦ none | some s' ↦ put_all ds s' ]

-- Different names of inode `i`.
abbrev pub Names : State → ℕ → List ℕ → Type 0
Names s i [] = Unit {0}
Names s i (d ∷ ds) = IsName s i d × (count d ds ≡ 0) × Names s i ds

-- Names stay while other entries change.
Names-kept :
    (s s' : State) (i d : ℕ) (ds : List ℕ)
    → s'.dentries ≡ update s.dentries d none
    → count d ds ≡ 0
    → Names s i ds
    → Names s' i ds
unfolding count update
Names-kept s s' i d [] same absent h = tt
Names-kept s s' i d (x ∷ ds) same absent (n, fresh, h) = (
  record {
    name = n.name;
    children = n.children;
    there = ap (λ f. f x) same ∙ ground (arith, n.there);
  },
  fresh,
  Names-kept s s' i d ds same (ground arith) h,
)

-- What the abstract table says of a slot that holds an inode.
pub slot-used :
    (s : State) (i : ℕ) (n : Inode)
    → i < 1024
    → slots_of s i ≡ some n
    → (is_used s i ≡ true) × (inode_at s i ≡ n)
slot-used s i n inside h = (ground arith, ground arith)

put_twice-two : (n : Inode) → n.i_count ≡ 2 → put_twice n ≡ none
unfolding count_down
put_twice-two n p = ground arith

put_twice-high :
    (n : Inode)
    → 2 < n.i_count
    → n.i_count < 2 ^ 32
    → put_twice n ≡ some (record n { i_count = n.i_count - 2 })
unfolding count_down
put_twice-high n p q = ground arith

put_twice-odd :
    (n : Inode)
    → n.i_count % 2 ≡ 1
    → n.i_count < 2 ^ 32
    → (c : ℕ) × (put_twice n ≡ some (record n { i_count = c })) × (c % 2 ≡ 1) × (c < 2 ^ 32)
unfolding count_down
put_twice-odd n p q = (
  ((n.i_count + 2 ^ 32 - 1) % 2 ^ 32 + 2 ^ 32 - 1) % 2 ^ 32,
  ground arith,
  omega arith,
  omega arith,
)

-- The first of several names is put, and the slot keeps an inode `n`: then the others are names of it.
module _ (s : State) (i d : ℕ) (ds : List ℕ) (n : Inode) (v : IsValid s) (inside : i < 1024)
    (used : is_used s i ≡ true) (h : Names s i (d ∷ ds))
    (kept : put_twice (inode_at s i) ≡ some n) where
  put_first :
      (s' : State) × (put_all (d ∷ ds) s ≡ put_all ds s')
      × IsValid s'
      × (is_used s' i ≡ true)
      × (inode_at s' i ≡ n)
      × Names s' i ds
      × (s'.dentries ≡ update s.dentries d none)
  unfolding put_all
  put_first =
      let (s', call, same, next, table, slots, v') = vfs_put_dentry_lem s i d v inside used h.0 in
      let slot : slots_of s' i ≡ some n = slots i ∙ ground (arith, kept) in
      let (used', own) = slot-used s' i n inside slot in
      (s', rw (put_all, call), v', used', own, Names-kept s s' i d ds same h.1 h.2, same)

-- An inode in use in a valid state whose count is odd, as that of an inode with an even number of
-- names is: however many of its names are put, its slot is never given back.
pub put_all-odd :
    (ds : List ℕ) (s : State) (i : ℕ)
    → IsValid s
    → i < 1024
    → is_used s i ≡ true
    → (inode_at s i).i_count % 2 ≡ 1
    → (inode_at s i).i_count < 2 ^ 32
    → Names s i ds
    → (s' : State) × (put_all ds s ≡ some s') × IsValid s' × (slots_of s' i ≢ none)
unfolding put_all
put_all-odd [] s i v inside used odd small h = (s, refl, v, λ e. ground arith)
put_all-odd (d ∷ ds) s i v inside used odd small h =
    let (c, kept, odd', small') = put_twice-odd (inode_at s i) odd small in
    let (s', call, v', used', own, h', same) =
      put_first s i d ds (record (inode_at s i) { i_count = c }) v inside used h kept in
    let (s'', rest, v'', slot) =
      put_all-odd ds s' i v' inside used' (rw own odd') (rw own small') h' in
    (s'', call ∙ rest, v'', slot)

-- An inode in use in a valid state whose count is twice the number of some of its names, at least one:
-- putting these gives its slot back, and leaves every other entry in place, also those that name it.
pub put_all-half :
    (d : ℕ) (ds : List ℕ) (s : State) (i : ℕ)
    → IsValid s
    → i < 1024
    → is_used s i ≡ true
    → (inode_at s i).i_count ≡ 2 * length (d ∷ ds)
    → (inode_at s i).i_count < 2 ^ 32
    → Names s i (d ∷ ds)
    → (s' : State) × (put_all (d ∷ ds) s ≡ some s')
      × IsValid s'
      × (slots_of s' i ≡ none)
      × ((x : ℕ) → count x (d ∷ ds) ≡ 0 → s'.dentries x ≡ s.dentries x)
unfolding put_all count update
put_all-half d [] s i v inside used half small h =
    let (s', call, same, next, table, slots, v') = vfs_put_dentry_lem s i d v inside used h.0 in
    (
      s',
      rw (put_all, call),
      v',
      slots i ∙ ground (arith, put_twice-two (inode_at s i)),
      λ x absent. ap (λ f. f x) same ∙ ground arith,
    )
put_all-half d (e ∷ ds) s i v inside used half small h =
    let kept : put_twice (inode_at s i)
        ≡ some (record (inode_at s i) { i_count = (inode_at s i).i_count - 2 }) =
      put_twice-high (inode_at s i) (omega arith) small in
    let (s', call, v', used', own, h', same) = put_first s i d (e ∷ ds) _ v inside used h kept in
    let (s'', rest, v'', slot, others) =
      put_all-half e ds s' i v' inside used' (rw own (omega arith)) (rw own (omega arith)) h' in
    (
      s'',
      call ∙ rest,
      v'',
      slot,
      λ x absent. others x (ground arith) ∙ ap (λ f. f x) same ∙ ground arith,
    )

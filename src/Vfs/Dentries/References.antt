-- ===== src/Vfs/Dentries/References.antt =====
-- demos/vfs/vfs.c: what vfs_new_dentry and vfs_put_dentry do to the entries and to the inode.
use os_kernel_from_scratch.Common.{
  ℕ, ◌+◌, ◌<◌, ◌≡◌, refl, ap, ◌∙◌, Option, none, some, List, [], ◌∷◌, ◌++◌, map, true, arith, ◌==◌,
  if◌then◌else◌, get_elem?, take, get_elem?-eq-get_or,
}
use os_kernel_from_scratch.Common.Nodes.{list_del}
use os_kernel_from_scratch.Vfs.{Inode, Dentry, State, zero_inode, set_inode, set_dentry, update}
use os_kernel_from_scratch.Vfs.Inodes.{count_up, count_down}
use os_kernel_from_scratch.Vfs.Inodes.Table.{IsValid, inode_at, is_used, slots_of}
use os_kernel_from_scratch.Vfs.Inodes.Release.{
  no_evict, inode_at-set_inode, set_inode-IsValid, slots_of-set_inode, put_slot, vfs_put_inode_lem,
}
use os_kernel_from_scratch.Vfs.Dentries.{
  hash_dentry, hash_add, vfs_new_dentry, drop_inode, free_dentry, unhash, vfs_put_dentry,
}

-- Whether a state is valid does not depend on the directory entries.
pub entries-IsValid :
    (s : State) (f : ℕ → Option Dentry) (a : ℕ) (table : List (List ℕ))
    → IsValid s
    → IsValid (record s { dentries = f; next_dentry = a; dentry_hashtable = table })
entries-IsValid s f a table v = record {
  slots = v.slots;
  words = v.words;
  numbered = v.numbered;
  distinct = v.distinct;
  hosted = v.hosted;
  listed = v.listed;
}

-- An entry that refers to inode `i`, with one reference and no parent directory.
abbrev pub entry_of : List ℕ → ℕ → List ℕ → Dentry
entry_of name i children = record {
  name = name;
  inode = some i;
  parent = none;
  children = children;
  refcount = 1;
}

-- The entry at `d` is a name of inode `i`.
pub record IsName (s : State) (i d : ℕ) : Type 0 where
  pub name : List ℕ
  pub children : List ℕ
  pub there : s.dentries d ≡ some (entry_of name i children)

-- The inode with one more name.
abbrev pub named : Inode → ℕ → Inode
named n a = record n { i_count = count_up n.i_count; i_dentry = n.i_dentry ++ a ∷ [] }

-- The state with a name for the inode `n` in slot `i`.
abbrev pub entered : State → List ℕ → ℕ → Inode → State
entered s name i n =
    let s' =
      set_inode (set_dentry s s.next_dentry (some (entry_of (take 255 name) i []))) i
        (named n s.next_dentry) in
    record s' {
      next_dentry = s.next_dentry + 1;
      dentry_hashtable = hash_add s'.dentry_hashtable (hash_dentry name) s.next_dentry;
    }

pub vfs_new_dentry-entered :
    (s : State) (name : List ℕ) (i : ℕ) (n : Inode)
    → get_elem? s.inode_table i ≡ some n
    → vfs_new_dentry true s name i ≡ some (some s.next_dentry, entered s name i n)
unfolding vfs_new_dentry
vfs_new_dentry-entered s name i n found = rw (vfs_new_dentry, found)

-- With memory for the entry, `vfs_new_dentry` of an inode in use in a valid state adds a name of the
-- inode at a new address to the entries and to its bucket, and a reference and the name to the inode.
pub vfs_new_dentry_lem :
    (s : State) (name : List ℕ) (i : ℕ)
    → IsValid s
    → i < 1024
    → is_used s i ≡ true
    → (s' : State) × (vfs_new_dentry true s name i ≡ some (some s.next_dentry, s'))
      × (s'.dentries ≡ update s.dentries s.next_dentry (some (entry_of (take 255 name) i [])))
      × (s'.next_dentry ≡ s.next_dentry + 1)
      × (s'.dentry_hashtable ≡ hash_add s.dentry_hashtable (hash_dentry name) s.next_dentry)
      × ((j : ℕ)
          → slots_of s' j
            ≡ (if j == i then some (named (inode_at s i) s.next_dentry) else slots_of s j))
      × IsValid s'
unfolding vfs_new_dentry
vfs_new_dentry_lem s name i v inside used = (
  record s₁ {
    dentries = update s.dentries s.next_dentry (some (entry_of (take 255 name) i []));
    next_dentry = s.next_dentry + 1;
    dentry_hashtable = hash_add s.dentry_hashtable (hash_dentry name) s.next_dentry;
  },
  rw (vfs_new_dentry, found),
  refl,
  refl,
  refl,
  λ j.
      ground
        (arith, slots_of-set_inode s i (named (inode_at s i) s.next_dentry) v inside refl refl j),
  entries-IsValid s₁ _ _ _
      (set_inode-IsValid s i (named (inode_at s i) s.next_dentry) v inside refl refl),
)
  where
    s₁ : State
    s₁ = set_inode s i (named (inode_at s i) s.next_dentry)

    found : get_elem? s.inode_table i ≡ some (inode_at s i)
    found = get_elem?-eq-get_or s.inode_table i zero_inode (omega (arith, v.slots))

-- Two references less, one after the other: at 0 the slot is given back.
abbrev pub put_twice : Inode → Option Inode
put_twice n = put_slot (record n { i_count = count_down n.i_count })

-- `vfs_put_dentry` of a name of an inode in use, in a valid state: the entry is freed and leaves its
-- bucket, and the inode's count goes down twice.
pub vfs_put_dentry_lem :
    (s : State) (i d : ℕ)
    → IsValid s
    → i < 1024
    → is_used s i ≡ true
    → IsName s i d
    → (s' : State) × (vfs_put_dentry no_evict s d ≡ some s')
      × (s'.dentries ≡ update s.dentries d none)
      × (s'.next_dentry ≡ s.next_dentry)
      × (s'.dentry_hashtable ≡ map (list_del d) s.dentry_hashtable)
      × ((j : ℕ) → slots_of s' j ≡ (if j == i then put_twice (inode_at s i) else slots_of s j))
      × IsValid s'
unfolding set_inode set_dentry unhash vfs_put_dentry
vfs_put_dentry_lem s i d v inside used e =
    let (s₂, call, slots, valid, same) = vfs_put_inode_lem s₁ i v₁ inside used in
    (
      set_dentry s₂ d none,
      rw (vfs_put_dentry, e.there, drop_inode, found) (ap (free_dentry d) call),
      ap (λ f. update f d none) same.dentries,
      same.next_dentry,
      same.dentry_hashtable,
      λ j. slots j ∙ ground (arith, own, slots_of-set_inode s i n₁ v inside refl refl j),
      entries-IsValid s₂ _ _ _ valid,
    )
  where
    n₁ : Inode
    n₁ = record (inode_at s i) { i_count = count_down (inode_at s i).i_count }

    s₁ : State
    s₁ = set_inode (unhash s d) i n₁

    v₁ : IsValid s₁
    v₁ = entries-IsValid (set_inode s i n₁) _ _ _ (set_inode-IsValid s i n₁ v inside refl refl)

    found : get_elem? s.inode_table i ≡ some (inode_at s i)
    found = get_elem?-eq-get_or s.inode_table i zero_inode (omega (arith, v.slots))

    own : inode_at (set_inode s i n₁) i ≡ n₁
    own = ground (arith, inode_at-set_inode s i n₁ v inside refl refl i)

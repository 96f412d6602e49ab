-- ===== src/Vfs/Dentries.antt =====
-- demos/vfs/vfs.c: directory entries, with hash_dentry, vfs_new_dentry and vfs_put_dentry.
pub mod References
pub mod Names
pub mod Lifetime
use os_kernel_from_scratch.Common.{
  ℕ, ◌+◌, ◌-◌, ◌*◌, ◌%◌, ◌^◌, Option, none, some, List, [], ◌∷◌, ◌++◌, map, Bool, ltb,
  if◌then◌else◌, get_elem?, get_or, set, take,
}
use os_kernel_from_scratch.Common.Nodes.{list_del}
use os_kernel_from_scratch.Vfs.{Dentry, State, set_inode, set_dentry}
use os_kernel_from_scratch.Vfs.Inodes.{Evict, count_up, count_down, vfs_put_inode}

-- A `char` as an `int`, which is added to an `unsigned int`: bytes from 128 on are negative.
unfoldable pub char_value : ℕ → ℕ
char_value c = if ltb c 128 then c else 2 ^ 32 + c - 256

-- The loop of `hash_dentry`: `(hash << 5) + hash + c` in 32 bits.
unfoldable pub djb2 : ℕ → List ℕ → ℕ
djb2 hash [] = hash
djb2 hash (c ∷ name) = djb2 ((hash * 32 % 2 ^ 32 + hash + char_value c) % 2 ^ 32) name

unfoldable pub hash_dentry : List ℕ → ℕ
unfolding djb2 char_value
hash_dentry name = djb2 5381 name % 256

-- The entry at `a` goes to the end of its bucket.
unfoldable pub hash_add : List (List ℕ) → ℕ → ℕ → List (List ℕ)
hash_add table h a = set table h (get_or table h [] ++ a ∷ [])

-- The new entry's address, or NULL if there is no memory; `none` for an inode that is not there.
-- `strncpy` keeps 255 bytes of the name, and the hash is that of the whole name.
unfoldable pub vfs_new_dentry : Bool → State → List ℕ → ℕ → Option (Option ℕ × State)
unfolding set_inode set_dentry count_up hash_add
vfs_new_dentry memory s name i =
    if memory
    then elim (get_elem? s.inode_table i) [
      | none ↦ none
      | some n ↦
          let a = s.next_dentry in
          let entry : Dentry = record {
            name = take 255 name;
            inode = some i;
            parent = none;
            children = [];
            refcount = 1;
          } in
          let held = record n { i_count = count_up n.i_count; i_dentry = n.i_dentry ++ a ∷ [] } in
          let s' = set_inode (set_dentry s a (some entry)) i held in
          some (
            some a,
            record s' {
              next_dentry = a + 1;
              dentry_hashtable = hash_add s'.dentry_hashtable (hash_dentry name) a;
            },
          )
    ]
    else some (none, s)

-- `list_del(&dentry->child_node)`: out of the children of the parent.
unfoldable pub leave_parent : State → ℕ → Option ℕ → Option State
unfolding set_dentry list_del
leave_parent s d none = some s
leave_parent s d (some p) = elim (s.dentries p) [
  | none ↦ none
  | some q ↦ some (set_dentry s p (some (record q { children = list_del d q.children })))
]

-- The inode's count goes down here, and once more in `vfs_put_inode`.
unfoldable pub drop_inode : Evict → State → Option ℕ → Option State
unfolding set_inode count_down
drop_inode evict s none = some s
drop_inode evict s (some i) = elim (get_elem? s.inode_table i) [
  | none ↦ none
  | some n ↦ vfs_put_inode evict (set_inode s i (record n { i_count = count_down n.i_count })) i
]

-- `kfree`.
unfoldable pub free_dentry : ℕ → Option State → Option State
unfolding set_dentry
free_dentry d none = none
free_dentry d (some s) = some (set_dentry s d none)

unfoldable pub unhash : State → ℕ → State
unfolding list_del
unhash s d = record s { dentry_hashtable = map (list_del d) s.dentry_hashtable }

unfoldable pub drop_next : Evict → Option State → Option ℕ → Option State
drop_next evict none inode = none
drop_next evict (some s) inode = drop_inode evict s inode

-- `none` for an entry that has been freed.
unfoldable pub vfs_put_dentry : Evict → State → ℕ → Option State
unfolding set_dentry leave_parent drop_inode free_dentry unhash drop_next
vfs_put_dentry evict s d = elim (s.dentries d) [
  | none ↦ none
  | some e ↦
      if ltb 1 e.refcount
      then some (set_dentry s d (some (record e { refcount = e.refcount - 1 })))
      else free_dentry d (drop_next evict (leave_parent (unhash s d) d e.parent) e.inode)
]

-- ===== src/Vfs/Inodes.antt =====
-- demos/vfs/vfs.c: the table of inodes, with vfs_init, vfs_alloc_ino, vfs_new_inode and vfs_put_inode.
pub mod Table
pub mod Release
use os_kernel_from_scratch.Common.{
  ℕ, zero, suc, ◌+◌, ◌-◌, ◌%◌, ◌^◌, Option, none, some, List, [], ◌∷◌, ◌++◌, Bool, ◌==◌,
  if◌then◌else◌, get_elem?, set, replicate,
}
use os_kernel_from_scratch.Common.Bitmap.{test_bit, set_bit, clear_bit}
use os_kernel_from_scratch.Common.Nodes.{list_del}
use os_kernel_from_scratch.Vfs.{Inode, SuperBlock, State, zero_inode, set_inode, update, set_super}

abbrev pub max_inodes : ℕ
max_inodes = 1024

-- The memory before `vfs_init` has run is given; the lists of file systems stay.
unfoldable pub vfs_init : State → State
vfs_init s = record s {
  inode_table = replicate max_inodes zero_inode;
  inode_inuse = replicate 16 0;
  dentry_hashtable = replicate 256 [];
}

-- The number handed out, and the state with the next one.
unfoldable pub vfs_alloc_ino : State → ℕ × State
vfs_alloc_ino s = (s.next_ino, record s { next_ino = (s.next_ino + 1) % 2 ^ 64 })

-- The loop for a free slot from `i` on, in `n` rounds.
unfoldable pub find_free : List ℕ → ℕ → ℕ → Option ℕ
find_free inuse i zero = none
find_free inuse i (suc n) =
    let rest = find_free inuse (i + 1) n in if test_bit inuse i then rest else some i

-- The inode that `vfs_new_inode` leaves in its slot.
abbrev pub new_inode : ℕ → ℕ → ℕ → Inode
new_inode ino mode sb = record zero_inode { ino = ino; i_mode = mode; i_sb = sb; i_count = 1 }

-- The slot `i` is marked, filled and added to the list of the super block `block` at `sb`.
unfoldable pub fill_slot : State → ℕ → SuperBlock → ℕ → ℕ → State
unfolding vfs_alloc_ino set_inode set_super
fill_slot s sb block mode i =
    let (ino, s') = vfs_alloc_ino (record s { inode_inuse = set_bit s.inode_inuse i }) in
    set_super (set_inode s' i (new_inode ino mode sb)) sb
      (some (record block { s_inodes = block.s_inodes ++ i ∷ [] }))

-- The inode, or NULL; `none` if there is no super block at `sb` to add it to.
unfoldable pub vfs_new_inode : State → ℕ → ℕ → Option (Option ℕ × State)
unfolding fill_slot
vfs_new_inode s sb mode = elim (find_free s.inode_inuse 0 max_inodes) [
  | none ↦ some (none, s)
  | some i ↦ elim (s.supers sb) [
    | none ↦ none
    | some block ↦ some (some i, fill_slot s sb block mode i)
  ]
]

-- `atomic_inc` and `atomic_dec` of an `int`, as a pattern of 32 bits.
unfoldable pub count_up : ℕ → ℕ
count_up c = (c + 1) % 2 ^ 32

unfoldable pub count_down : ℕ → ℕ
count_down c = (c + 2 ^ 32 - 1) % 2 ^ 32

-- The slot goes back: off the list of its super block, and its bit cleared. What it holds stays.
unfoldable pub release_slot : State → ℕ → ℕ → Option State
unfolding list_del set_super
release_slot s i sb = elim (s.supers sb) [
  | none ↦ none
  | some block ↦
      let s' = set_super s sb (some (record block { s_inodes = list_del i block.s_inodes })) in
      some (record s' { inode_inuse = clear_bit s'.inode_inuse i })
]

-- The callback `i_op->evict_inode` of each table that has one; vfs.h does not declare it.
abbrev pub Evict : Type 0
Evict = ℕ → Option (State → ℕ → State)

unfoldable pub call_evict : Option (State → ℕ → State) → State → ℕ → State
call_evict none s i = s
call_evict (some f) s i = f s i

unfoldable pub vfs_put_inode : Evict → State → ℕ → Option State
unfolding set_inode count_down release_slot call_evict
vfs_put_inode evict s i = elim (get_elem? s.inode_table i) [
  | none ↦ none
  | some n ↦
      let s' = set_inode s i (record n { i_count = count_down n.i_count }) in
      if count_down n.i_count == 0
      then release_slot (if n.i_op == 0 then s' else call_evict (evict n.i_op) s' i) i n.i_sb
      else some s'
]

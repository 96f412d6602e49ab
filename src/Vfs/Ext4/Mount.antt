-- ===== src/Vfs/Ext4/Mount.antt =====
-- demos/vfs/ext4_ops.c: what ext4_mount sets up, and what vfs_open finds there.
use os_kernel_from_scratch.Common.{
  ℕ, ◌+◌, ◌%◌, ◌^◌, ◌<◌, ◌≡◌, refl, ap, ◌∙◌, inl, inr, Option, none, some, List, [], ◌∷◌, ◌++◌,
  Bool, true, false, arith, ◌==◌, if◌then◌else◌, Bool-cases, Option-cases, length, get_elem?, set,
  get_elem?-set_self, get_elem?-lt, length-set, replicate,
}
use os_kernel_from_scratch.Common.Nodes.{same}
use os_kernel_from_scratch.Vfs.{
  Inode, SuperBlock, State, Ext4FsInfo, set_inode, set_super, set_dentry, update,
}
use os_kernel_from_scratch.Vfs.Inodes.{max_inodes, find_free, new_inode, fill_slot, vfs_new_inode}
use os_kernel_from_scratch.Vfs.Inodes.Table.{IsValid, is_used, find_free-some, find_free-none}
use os_kernel_from_scratch.Vfs.Dentries.References.{named, entered, vfs_new_dentry-entered}
use os_kernel_from_scratch.Vfs.Files.{
  mounted, call_mount, new_super, vfs_mount, is_dir, inode_of, call_lookup, lookup_in, lookup_from,
  find_path, open_inode, open_found, vfs_open,
}
use os_kernel_from_scratch.Vfs.Ext4.{
  ext4_dir_inode_operations, ext4_dir_file_operations, ext4, fs_info, follow, ext4_lookup,
  zero_ext4_inode, mount_root, Memory, ext4_mount, ext4_fs_type,
}

-- The root of the VFS is a directory of ext4 whose private data is there.
pub record IsMounted (s : State) : Type 0 where
  pub entry : ℕ
  pub slot : ℕ
  pub inode : Inode
  pub private : ℕ
  pub info : Ext4FsInfo
  pub root : s.vfs_root_dentry ≡ some entry
  pub names : inode_of s entry ≡ some (some slot)
  pub there : get_elem? s.inode_table slot ≡ some inode
  pub operations : inode.i_op ≡ ext4_dir_inode_operations
  pub directory : is_dir inode.i_mode ≡ true
  pub own : fs_info s inode ≡ some (some private)
  pub kept : s.infos private ≡ some info

-- The call through the table of operations of a directory.
lookup_table :
    (memory : ℕ → ℕ) (s : State) (i : ℕ) (path : List ℕ) (op : ℕ)
    → op ≡ ext4_dir_inode_operations
    → (if op == 0 then some (none, s) else call_lookup ((ext4 memory).lookup op) s i path)
      ≡ call_lookup (some ext4_lookup) s i path
unfolding ext4
lookup_table memory s i path op e = rw e

module _ (memory : ℕ → ℕ) (s : State) (m : IsMounted s) where
  ext4_lookup-none : (name : List ℕ) → ext4_lookup s m.slot name ≡ some (none, s)
  unfolding ext4_lookup follow
  ext4_lookup-none name = rw (ext4_lookup, m.there) (rw m.own (rw m.kept refl))

  lookup_in-none :
      (c : ℕ) (path : List ℕ) → lookup_in (ext4 memory) s m.slot (c ∷ path) ≡ some (none, s)
  unfolding lookup_in call_lookup
  lookup_in-none c path =
      rw (lookup_in, m.there)
        (lookup_table memory s m.slot (c ∷ path) m.inode.i_op m.operations ∙ ext4_lookup-none path)

  found_root :
      (has_memory : Bool) (flags : ℕ) (root : Option ℕ)
      → root ≡ some m.entry
      → open_found (ext4 memory) has_memory flags (some (root, s)) ≡ some (none, s)
  unfolding open_found open_inode
  found_root has_memory flags root e =
      rw (e, open_found, m.names) (rw (m.there, open_inode) (rw m.directory refl))

  found_other :
      (has_memory : Bool) (flags c : ℕ) (path : List ℕ) (root : Option ℕ)
      → root ≡ some m.entry
      → open_found (ext4 memory) has_memory flags (lookup_from (ext4 memory) s root (c ∷ path))
        ≡ some (none, s)
  unfolding open_found lookup_from
  found_other has_memory flags c path root e =
      rw (e, lookup_from, m.names) (rw (lookup_in-none c path) refl)

  -- With ext4 mounted at the root `vfs_open` returns NULL for every path but the empty one, whatever
  -- files have been created, and changes nothing: the root is a directory, and every lookup fails.
  pub vfs_open-IsMounted :
      (has_memory : Bool) (c : ℕ) (path : List ℕ) (flags : ℕ)
      → vfs_open (ext4 memory) has_memory s (c ∷ path) flags ≡ some (none, s)
  unfolding vfs_open
  vfs_open-IsMounted has_memory c path flags = elim (Bool-cases (same (c ∷ path) (b'/' ∷ []))) [
    | inl e ↦ rw (vfs_open, find_path, e) (found_root has_memory flags s.vfs_root_dentry m.root)
    | inr e ↦
        rw (vfs_open, find_path, e) (found_other has_memory flags c path s.vfs_root_dentry m.root)
  ]

update_self {ℓ} : {A : Type ℓ} (f : ℕ → A) (a : ℕ) (v : A) → update f a v a ≡ v
unfolding update
update_self f a v = ground arith

abbrev pub enough : Memory
enough = record { for_info = true; for_super = true; for_table = true; for_root = true }

-- The root directory of a fresh root inode `n` in slot `i`, of the super block `block` at `sb`.
module _ (s : State) (a sb i : ℕ) (n : Inode) (block : SuperBlock)
    (there : get_elem? s.inode_table i ≡ some n) (host : s.supers sb ≡ some block)
    (mode : n.i_mode ≡ 0o40755) (on : n.i_sb ≡ sb) (private : block.s_fs_info ≡ some a) where
  root : Inode
  root = record n { i_op = ext4_dir_inode_operations; i_fop = ext4_dir_file_operations }

  abbrev rooted : State
  rooted =
      set_super
        (set_inode s i
          (record n { i_op = ext4_dir_inode_operations; i_fop = ext4_dir_file_operations }))
        sb (some (record block { s_root_inode = some i }))

  abbrev slash : State
  slash =
      entered rooted (b'/' ∷ []) i
        (record n { i_op = ext4_dir_inode_operations; i_fop = ext4_dir_file_operations })

  private_data : Ext4FsInfo
  private_data = record {
    sb = record {
      s_inodes_count = 1024;
      s_blocks_count = 65536;
      s_free_inodes_count = 1000;
      s_free_blocks_count = 60000;
    };
    inode_table =
        set (replicate 128 zero_ext4_inode) 0
          (record zero_ext4_inode { i_mode = n.i_mode % 2 ^ 16 });
    root_dentry = some rooted.next_dentry;
  }

  abbrev final : State
  final = record slash {
    vfs_root_dentry = some rooted.next_dentry;
    infos = update slash.infos a (some private_data);
  }

  inside : i < length s.inode_table
  inside = get_elem?-lt s.inode_table i there

  once : get_elem? rooted.inode_table i ≡ some root
  unfolding set_inode set_super root
  once = get_elem?-set_self s.inode_table i _ inside

  mount_root-final : mount_root true s a sb i ≡ some (none, final)
  unfolding mount_root root private_data set_inode set_super
  mount_root-final =
      rw (mount_root, there, host) (rw (vfs_new_dentry-entered rooted (b'/' ∷ []) i root once) refl)

  mount_root-IsMounted : IsMounted final
  unfolding set_inode set_super set_dentry inode_of fs_info root is_dir
  mount_root-IsMounted = record {
    entry = rooted.next_dentry;
    slot = i;
    inode = named root rooted.next_dentry;
    private = a;
    info = private_data;
    root = refl;
    names = ground arith;
    there = get_elem?-set_self _ i _ (omega (arith, inside, length-set s.inode_table i root));
    operations = refl;
    directory = ap is_dir mode;
    own = ground arith;
    kept = update_self slash.infos a _;
  }

module _ (s : State) (i : ℕ) (v : IsValid s) (mnt_point : List ℕ)
    (free : find_free s.inode_inuse 0 max_inodes ≡ some i) where
  abbrev blocked : State
  blocked =
      record (set_super s s.next_super
        (some (new_super (b'e' ∷ b'x' ∷ b't' ∷ b'4' ∷ []) mnt_point))) {
          next_super = s.next_super + 1;
        }

  abbrev block : SuperBlock
  block = record (new_super (b'e' ∷ b'x' ∷ b't' ∷ b'4' ∷ []) mnt_point) {
    s_fs_info = some s.next_info;
  }

  abbrev informed : State
  informed = record (set_super blocked s.next_super (some block)) {
    next_info = blocked.next_info + 1;
  }

  abbrev filled : State
  filled = fill_slot informed s.next_super block 0o40755 i

  vfs_new_inode-filled : vfs_new_inode informed s.next_super 0o40755 ≡ some (some i, filled)
  unfolding set_super vfs_new_inode
  vfs_new_inode-filled =
      rw (vfs_new_inode, free) (rw (update_self blocked.supers s.next_super (some block)) refl)

  ext4_mount-root :
      ext4_mount enough blocked s.next_super mnt_point
      ≡ mount_root true filled s.next_info s.next_super i
  unfolding ext4_mount set_super
  ext4_mount-root =
      rw
        (
          ext4_mount,
          update_self s.supers s.next_super
              (some (new_super (b'e' ∷ b'x' ∷ b't' ∷ b'4' ∷ []) mnt_point)),
        )
        (rw vfs_new_inode-filled refl)

  found_slot :
      (s' : State) × (vfs_mount true s (ext4_fs_type enough) mnt_point ≡ some (none, s'))
      × IsMounted s'
  unfolding vfs_mount mounted call_mount fill_slot set_super set_inode
  found_slot = (
    final filled s.next_info s.next_super i n above found host refl refl refl,
    rw (vfs_mount, ext4_mount-root)
        (rw (mount_root-final filled s.next_info s.next_super i n above found host refl refl refl)
          refl),
    mount_root-IsMounted filled s.next_info s.next_super i n above found host refl refl refl,
  )
    where
      n : Inode
      n = new_inode s.next_ino 0o40755 s.next_super

      above : SuperBlock
      above = record block { s_inodes = block.s_inodes ++ i ∷ [] }

      found : get_elem? filled.inode_table i ≡ some n
      found =
          get_elem?-set_self s.inode_table i n
            (omega (arith, v.slots, find_free-some s.inode_inuse 0 1024 i free))

      host : filled.supers s.next_super ≡ some above
      host = update_self informed.supers s.next_super _

-- `vfs_mount` of ext4 from a valid state with a free inode slot, and memory for all that it allocates,
-- succeeds, and makes the root of the VFS a directory of ext4.
pub vfs_mount-IsMounted :
    (s : State) (j : ℕ) (mnt_point : List ℕ)
    → IsValid s
    → j < 1024
    → is_used s j ≡ false
    → (s' : State) × (vfs_mount true s (ext4_fs_type enough) mnt_point ≡ some (none, s'))
      × IsMounted s'
vfs_mount-IsMounted s j mnt_point v inside free =
    elim (Option-cases (find_free s.inode_inuse 0 max_inodes)) [
      | inl e ↦
          let used : is_used s j ≡ true =
            find_free-none s.inode_inuse 0 1024 j e (omega arith) (omega arith) in
          absurd (cc)
      | inr (i, e) ↦ found_slot s i v mnt_point e
    ]

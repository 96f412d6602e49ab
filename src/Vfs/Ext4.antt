-- ===== src/Vfs/Ext4.antt =====
-- demos/vfs/ext4_ops.c: the operations of the ext4 demo, its tables as a file system for the VFS, and
-- its mount. The tables are numbered from 1 on.
pub mod Data
pub mod Mount
use os_kernel_from_scratch.Common.{
  ℕ, zero, suc, ◌+◌, ◌-◌, ◌*◌, ◌%◌, ◌^◌, Option, none, some, List, [], ◌∷◌, Bool, true, false, ◌==◌,
  ltb, leb, if◌then◌else◌, length, get_elem?, get_or, set, replicate, bit_or,
}
use os_kernel_from_scratch.Vfs.{
  Inode, File, State, Ext4Inode, Ext4FsInfo, set_inode, set_super, update,
}
use os_kernel_from_scratch.Vfs.Inodes.{vfs_new_inode}
use os_kernel_from_scratch.Vfs.Dentries.{vfs_new_dentry}
use os_kernel_from_scratch.Vfs.Files.{
  Errno, enomem, Io, done, FileSystem, FilesystemType, register_filesystem, inode_of,
}

abbrev pub ext4_file_operations : ℕ
ext4_file_operations = 1

abbrev pub ext4_dir_inode_operations : ℕ
ext4_dir_inode_operations = 3

abbrev pub ext4_dir_file_operations : ℕ
ext4_dir_file_operations = 4

abbrev pub zero_ext4_inode : Ext4Inode
zero_ext4_inode = record { i_mode = 0; i_size = 0; i_links_count = 0; i_block = 0 }

unfoldable pub ext4_open : State → ℕ → File → Option (Bool × File × State)
ext4_open s i filp = some (true, record filp { private_data = none }, s)

-- `inode->i_sb->s_fs_info`.
unfoldable pub fs_info : State → Inode → Option (Option ℕ)
fs_info s n = elim (s.supers n.i_sb) [ none ↦ none | some sb ↦ some sb.s_fs_info ]

-- `*fsi`.
unfoldable pub follow : State → Option ℕ → Option Ext4FsInfo
follow s none = none
follow s (some a) = s.infos a

-- `memcpy` of `n` bytes of the memory from `a` on.
unfoldable pub memcpy : (ℕ → ℕ) → ℕ → ℕ → List ℕ
memcpy memory a zero = []
memcpy memory a (suc n) = memory a ∷ memcpy memory (a + 1) n

-- How many bytes are read: up to the end of the file, by a sum of 64 bits.
unfoldable pub read_count : ℕ → ℕ → ℕ → ℕ
read_count size count pos = if ltb size ((pos + count) % 2 ^ 64) then size - pos else count

-- The bytes: those of the first block, whose address is a product of 32 bits, or zeros.
unfoldable pub read_bytes : (ℕ → ℕ) → Inode → Option Ext4FsInfo → ℕ → ℕ → Option (List ℕ)
unfolding memcpy
read_bytes memory n none pos count = if n.i_block == 0 then some (replicate count 0) else none
read_bytes memory n (some fsi) pos count =
    let block = (get_or fsi.inode_table (n.ino % 128) zero_ext4_inode).i_block in
    some (
      if n.i_block == 0
      then replicate count 0
      else memcpy memory (block * 4096 % 2 ^ 32 + pos) count)

unfoldable pub finish_read : State → ℕ → ℕ → Option (List ℕ) → Option Io
finish_read s pos count none = none
finish_read s pos count (some buf) = some (done count buf ((pos + count) % 2 ^ 64) s)

unfoldable pub read_inode : (ℕ → ℕ) → State → Inode → ℕ → ℕ → Option Io
unfolding fs_info follow read_count read_bytes finish_read
read_inode memory s n count pos = elim (fs_info s n) [
  | none ↦ none
  | some fsi ↦
      let size = read_count n.i_size count pos in
      if leb n.i_size pos
      then some (done 0 [] pos s)
      else finish_read s pos size (read_bytes memory n (follow s fsi) pos size)
]

unfoldable pub ext4_read : (ℕ → ℕ) → State → File → ℕ → ℕ → Option Io
unfolding read_inode inode_of
ext4_read memory s filp count pos = elim (inode_of s filp.f_dentry) [
  | none ↦ none
  | some none ↦ none
  | some (some i) ↦ elim (get_elem? s.inode_table i) [
    | none ↦ none
    | some n ↦ read_inode memory s n count pos
  ]
]

-- `count` is the length of the buffer. Its bytes go nowhere.
unfoldable pub ext4_write : State → File → List ℕ → ℕ → Option Io
unfolding inode_of set_inode
ext4_write s filp buf pos = elim (inode_of s filp.f_dentry) [
  | none ↦ none
  | some none ↦ none
  | some (some i) ↦ elim (get_elem? s.inode_table i) [
    | none ↦ none
    | some n ↦
        let end = (pos + length buf) % 2 ^ 64 in
        let s' = set_inode s i (record n { i_size = if ltb n.i_size end then end else n.i_size }) in
        some (done (length buf) buf end s')
  ]
]

unfoldable pub ext4_release : State → ℕ → State
ext4_release s i = s

unfoldable pub ext4_fsync : State → ℕ → Bool → State
ext4_fsync s i datasync = s

-- The entry of ext4's own table, at the number of the inode modulo 128.
unfoldable pub enter : Ext4FsInfo → Inode → Ext4FsInfo
enter fsi n = record fsi {
  inode_table =
      set fsi.inode_table (n.ino % 128)
        (record (get_or fsi.inode_table (n.ino % 128) zero_ext4_inode) {
          i_mode = n.i_mode % 2 ^ 16;
          i_size = 0;
          i_links_count = 1;
        });
}

-- The new inode `i` is entered, gets its operations and a directory entry. What `*dentry` is
-- afterwards, and the state.
unfoldable pub create_in : Bool → State → Option ℕ → List ℕ → ℕ → Option (Option ℕ × State)
unfolding enter follow set_inode update
create_in memory s none name i = none
create_in memory s (some a) name i = elim (s.infos a) [
  | none ↦ none
  | some fsi ↦ elim (get_elem? s.inode_table i) [
    | none ↦ none
    | some n ↦
        let s' = record s { infos = update s.infos a (some (enter fsi n)) } in
        vfs_new_dentry memory (set_inode s' i (record n { i_fop = ext4_file_operations })) name i
  ]
]

pub data Created : Type 0 where
  no_inode : State → Created
  created : Option ℕ → State → Created

unfoldable pub finish_create : Option (Option ℕ × State) → Option Created
finish_create none = none
finish_create (some (d, s)) = some (created d s)

unfoldable pub ext4_create : Bool → State → ℕ → List ℕ → ℕ → Option Created
unfolding fs_info create_in finish_create
ext4_create memory s dir name mode = elim (get_elem? s.inode_table dir) [
  | none ↦ none
  | some n ↦ elim (fs_info s n) [
    | none ↦ none
    | some fsi ↦ elim (vfs_new_inode s n.i_sb (bit_or 0x8000 mode)) [
      | none ↦ none
      | some (none, s') ↦ some (no_inode s')
      | some (some i, s') ↦ finish_create (create_in memory s' fsi name i)
    ]
  ]
]

-- The loop over ext4's table compares nothing: the result is NULL.
unfoldable pub ext4_lookup : State → ℕ → List ℕ → Option (Option ℕ × State)
unfolding fs_info follow
ext4_lookup s dir name = elim (get_elem? s.inode_table dir) [
  | none ↦ none
  | some n ↦ elim (fs_info s n) [
    | none ↦ none
    | some fsi ↦ elim (follow s fsi) [ none ↦ none | some info ↦ some (none, s) ]
  ]
]

-- The Boolean is whether there was an inode.
unfoldable pub ext4_mkdir : State → ℕ → List ℕ → ℕ → Option (Bool × State)
unfolding set_inode
ext4_mkdir s dir name mode = elim (get_elem? s.inode_table dir) [
  | none ↦ none
  | some n ↦ elim (vfs_new_inode s n.i_sb (bit_or 0x4000 mode)) [
    | none ↦ none
    | some (none, s') ↦ some (false, s')
    | some (some i, s') ↦ elim (get_elem? s'.inode_table i) [
      | none ↦ none
      | some m ↦ some (
        true,
        set_inode s' i
            (record m { i_op = ext4_dir_inode_operations; i_fop = ext4_dir_file_operations }),
      )
    ]
  ]
]

abbrev pub file_table : {A : Type 0} → A → ℕ → Option A
file_table f t =
    if t == ext4_file_operations
    then some f
    else if t == ext4_dir_file_operations
    then some f
    else none

-- The four tables. `memory` is the memory that the data blocks are read from.
unfoldable pub ext4 : (ℕ → ℕ) → FileSystem
ext4 memory = record {
  evict_inode = λ t. none;
  lookup = λ t. if t == 2 then some ext4_lookup else if t == 3 then some ext4_lookup else none;
  open_file = file_table ext4_open;
  read = file_table (ext4_read memory);
  write = λ t. if t == ext4_file_operations then some ext4_write else none;
  release = file_table ext4_release;
}

-- The root inode `i` and its entry; `fsi` is ext4's private data at `a`.
unfoldable pub mount_root : Bool → State → ℕ → ℕ → ℕ → Option (Option Errno × State)
unfolding set_inode set_super update
mount_root memory s a sb i = elim (get_elem? s.inode_table i) [
  | none ↦ none
  | some n ↦ elim (s.supers sb) [
    | none ↦ none
    | some block ↦
        let root : Inode = record n {
          i_op = ext4_dir_inode_operations;
          i_fop = ext4_dir_file_operations;
        } in
        let s' =
          set_super (set_inode s i root) sb (some (record block { s_root_inode = some i })) in
        elim (vfs_new_dentry memory s' (b'/' ∷ []) i) [
          | none ↦ none
          | some (d, s'') ↦
              let fsi : Ext4FsInfo = record {
                sb = record {
                  s_inodes_count = 1024;
                  s_blocks_count = 65536;
                  s_free_inodes_count = 1000;
                  s_free_blocks_count = 60000;
                };
                inode_table =
                    set (replicate 128 zero_ext4_inode) 0
                      (record zero_ext4_inode { i_mode = n.i_mode % 2 ^ 16 });
                root_dentry = d;
              } in
              some (none, record s'' { vfs_root_dentry = d; infos = update s''.infos a (some fsi) })
        ]
  ]
]

-- Whether each of the four calls of kmalloc succeeds.
pub record Memory : Type 0 where
  pub for_info : Bool
  pub for_super : Bool
  pub for_table : Bool
  pub for_root : Bool

-- Only the first call is checked: NULL from the next two is written to, and so is a missing inode.
unfoldable pub ext4_mount : Memory → State → ℕ → List ℕ → Option (Option Errno × State)
unfolding set_super mount_root
ext4_mount m s sb mnt_point =
    if m.for_info
    then elim (s.supers sb) [
      | none ↦ none
      | some block ↦
          let a = s.next_info in
          let s' = set_super s sb (some (record block { s_fs_info = some a })) in
          if m.for_super
          then if m.for_table
            then elim (vfs_new_inode (record s' { next_info = a + 1 }) sb 0o40755) [
              | none ↦ none
              | some (none, s'') ↦ none
              | some (some i, s'') ↦ mount_root m.for_root s'' a sb i
            ]
            else none
          else none
    ]
    else some (some enomem, s)

abbrev pub ext4_fs_type : Memory → FilesystemType
ext4_fs_type m = record { name = b'e' ∷ b'x' ∷ b't' ∷ b'4' ∷ []; mount = some (ext4_mount m) }

unfoldable pub ext4_init : Memory → State → Option Errno × State
ext4_init m s = register_filesystem s (ext4_fs_type m)

-- ===== src/Vfs/Files.antt =====
-- demos/vfs/vfs.c: file systems with register_filesystem and vfs_mount, and open files with vfs_open,
-- vfs_read, vfs_write and vfs_close. The tables of functions that a file system fills are an
-- interface, whose functions are found by the table's number.
pub mod Registered
use os_kernel_from_scratch.Common.{
  ℕ, ◌+◌, Option, none, some, List, [], ◌∷◌, ◌++◌, Bool, true, false, ◌&&◌, ◌==◌, if◌then◌else◌,
  get_elem?, take, bit_and,
}
use os_kernel_from_scratch.Common.Nodes.{same}
use os_kernel_from_scratch.Vfs.{File, SuperBlock, State, set_super}
use os_kernel_from_scratch.Vfs.Inodes.{Evict}
use os_kernel_from_scratch.Vfs.Dentries.{vfs_put_dentry}

pub data Errno : Type 0 where
  enomem eexist efault enosys : Errno

-- What a read or a write returns: an error, or the number of bytes, the bytes that it left in the
-- caller's buffer, the new position and the state.
pub data Io : Type 0 where
  failed : Errno → Io
  done : ℕ → List ℕ → ℕ → State → Io

abbrev pub Lookup : Type 0
Lookup = State → ℕ → List ℕ → Option (Option ℕ × State)

-- The Boolean is whether the result is not negative.
abbrev pub OpenFile : Type 0
OpenFile = State → ℕ → File → Option (Bool × File × State)

abbrev pub ReadFile : Type 0
ReadFile = State → File → ℕ → ℕ → Option Io

abbrev pub WriteFile : Type 0
WriteFile = State → File → List ℕ → ℕ → Option Io

-- `struct inode_operations` and `struct file_operations`, each function by the number of its table.
pub record FileSystem : Type 0 where
  pub evict_inode : Evict
  pub lookup : ℕ → Option Lookup
  pub open_file : ℕ → Option OpenFile
  pub read : ℕ → Option ReadFile
  pub write : ℕ → Option WriteFile
  pub release : ℕ → Option (State → ℕ → State)

-- `struct filesystem_type`: its name and `mount`, which may be missing.
pub record FilesystemType : Type 0 where
  pub name : List ℕ
  pub mount : Option (State → ℕ → List ℕ → Option (Option Errno × State))

unfoldable pub is_registered : List (List ℕ) → List ℕ → Bool
unfolding same
is_registered [] name = false
is_registered (e ∷ es) name = let rest = is_registered es name in if same e name then true else rest

unfoldable pub register_filesystem : State → FilesystemType → Option Errno × State
register_filesystem s fs =
    if is_registered s.registered_filesystems fs.name
    then (some eexist, s)
    else (none, record s { registered_filesystems = s.registered_filesystems ++ fs.name ∷ [] })

-- What becomes of the super block at `a` after the callback: `kfree` on an error.
unfoldable pub mounted : ℕ → Option (Option Errno × State) → Option (Option Errno × State)
unfolding set_super
mounted a none = none
mounted a (some (none, s)) = some (none, s)
mounted a (some (some e, s)) = some (some e, set_super s a none)

unfoldable pub call_mount :
    Option (State → ℕ → List ℕ → Option (Option Errno × State))
    → State
    → ℕ
    → List ℕ
    → Option (Option Errno × State)
call_mount none s a mnt_point = some (none, s)
call_mount (some f) s a mnt_point = f s a mnt_point

-- The super block of a mount before the callback.
abbrev pub new_super : List ℕ → List ℕ → SuperBlock
new_super name mnt_point = record {
  mnt_point = take 255 mnt_point;
  s_type = name;
  s_fs_info = none;
  s_root_inode = none;
  s_inodes = [];
}

unfoldable pub vfs_mount : Bool → State → FilesystemType → List ℕ → Option (Option Errno × State)
unfolding set_super mounted call_mount
vfs_mount memory s fs_type mnt_point =
    let a = s.next_super in
    let s' = set_super s a (some (new_super fs_type.name mnt_point)) in
    let result =
      mounted a (call_mount fs_type.mount (record s' { next_super = a + 1 }) a mnt_point) in
    if memory then result else some (some enomem, s)

-- `S_ISDIR`.
unfoldable pub is_dir : ℕ → Bool
is_dir mode = bit_and mode 0xF000 == 0x4000

-- The inode of the entry at `d`: NULL is `some none`.
unfoldable pub inode_of : State → ℕ → Option (Option ℕ)
inode_of s d = elim (s.dentries d) [ none ↦ none | some e ↦ some e.inode ]

-- The name is what stands behind the first character of the path.
unfoldable pub call_lookup : Option Lookup → State → ℕ → List ℕ → Option (Option ℕ × State)
call_lookup none s i path = some (none, s)
call_lookup (some f) s i [] = none
call_lookup (some f) s i (c ∷ name) = f s i name

unfoldable pub opened : Option (Bool × File × State) → Option (Option File × State)
opened none = none
opened (some (true, filp, s)) = some (some filp, s)
opened (some (false, filp, s)) = some (none, s)

unfoldable pub call_open : Option OpenFile → State → ℕ → File → Option (Option File × State)
unfolding opened
call_open none s i filp = some (some filp, s)
call_open (some f) s i filp = opened (f s i filp)

unfoldable pub call_read : Option ReadFile → State → File → ℕ → ℕ → Option Io
call_read none s filp count pos = some (failed enosys)
call_read (some f) s filp count pos = f s filp count pos

unfoldable pub call_write : Option WriteFile → State → File → List ℕ → ℕ → Option Io
call_write none s filp buf pos = some (failed enosys)
call_write (some f) s filp buf pos = f s filp buf pos

unfoldable pub call_release : Option (State → ℕ → State) → State → ℕ → State
call_release none s i = s
call_release (some f) s i = f s i

module _ (fs : FileSystem) where
  unfoldable pub lookup_in : State → ℕ → List ℕ → Option (Option ℕ × State)
  unfolding call_lookup
  lookup_in s i path = elim (get_elem? s.inode_table i) [
    | none ↦ none
    | some n ↦ if n.i_op == 0 then some (none, s) else call_lookup (fs.lookup n.i_op) s i path
  ]

  unfoldable pub lookup_from : State → Option ℕ → List ℕ → Option (Option ℕ × State)
  unfolding lookup_in inode_of
  lookup_from s none path = some (none, s)
  lookup_from s (some root) path = elim (inode_of s root) [
    | none ↦ none
    | some none ↦ some (none, s)
    | some (some i) ↦ lookup_in s i path
  ]

  -- `b'/'` alone is the root directory.
  unfoldable pub find_path : State → List ℕ → Option (Option ℕ × State)
  unfolding same lookup_from
  find_path s path =
      if same path (b'/' ∷ [])
      then some (s.vfs_root_dentry, s)
      else lookup_from s s.vfs_root_dentry path

  unfoldable pub open_inode : Bool → State → ℕ → ℕ → ℕ → Option (Option File × State)
  unfolding call_open is_dir
  open_inode memory s d flags i = elim (get_elem? s.inode_table i) [
    | none ↦ none
    | some n ↦
        let filp : File = record {
          f_dentry = d;
          f_pos = 0;
          f_flags = flags;
          private_data = none;
        } in
        if is_dir n.i_mode
        then some (none, s)
        else if memory
        then if n.i_fop == 0 then some (some filp, s) else call_open (fs.open_file n.i_fop) s i filp
        else some (none, s)
  ]

  unfoldable pub open_found : Bool → ℕ → Option (Option ℕ × State) → Option (Option File × State)
  unfolding inode_of open_inode
  open_found memory flags none = none
  open_found memory flags (some (none, s)) = some (none, s)
  open_found memory flags (some (some d, s)) = elim (inode_of s d) [
    | none ↦ none
    | some none ↦ some (none, s)
    | some (some i) ↦ open_inode memory s d flags i
  ]

  -- The open file or NULL. The mode is only printed.
  unfoldable pub vfs_open : Bool → State → List ℕ → ℕ → Option (Option File × State)
  unfolding open_found find_path
  vfs_open memory s path flags = open_found memory flags (find_path s path)

  -- `some filp` is a pointer to an open file.
  unfoldable pub vfs_read : State → Option File → ℕ → ℕ → Option Io
  unfolding inode_of call_read
  vfs_read s none count pos = some (failed efault)
  vfs_read s (some filp) count pos = elim (inode_of s filp.f_dentry) [
    | none ↦ none
    | some none ↦ some (failed efault)
    | some (some i) ↦ elim (get_elem? s.inode_table i) [
      | none ↦ none
      | some n ↦
          if n.i_fop == 0
          then some (failed enosys)
          else call_read (fs.read n.i_fop) s filp count pos
    ]
  ]

  unfoldable pub vfs_write : State → Option File → List ℕ → ℕ → Option Io
  unfolding inode_of call_write
  vfs_write s none buf pos = some (failed efault)
  vfs_write s (some filp) buf pos = elim (inode_of s filp.f_dentry) [
    | none ↦ none
    | some none ↦ some (failed efault)
    | some (some i) ↦ elim (get_elem? s.inode_table i) [
      | none ↦ none
      | some n ↦
          if n.i_fop == 0
          then some (failed enosys)
          else call_write (fs.write n.i_fop) s filp buf pos
    ]
  ]

  unfoldable pub release_inode : State → Option ℕ → Option State
  unfolding call_release
  release_inode s none = some s
  release_inode s (some i) = elim (get_elem? s.inode_table i) [
    | none ↦ none
    | some n ↦ some (if n.i_fop == 0 then s else call_release (fs.release n.i_fop) s i)
  ]

  unfoldable pub put_released : Option State → ℕ → Option State
  put_released none d = none
  put_released (some s) d = vfs_put_dentry fs.evict_inode s d

  unfoldable pub vfs_close : State → Option File → Option State
  unfolding inode_of release_inode put_released
  vfs_close s none = some s
  vfs_close s (some filp) = elim (inode_of s filp.f_dentry) [
    | none ↦ none
    | some inode ↦ put_released (release_inode s inode) filp.f_dentry
  ]

-- ===== src/Vfs.antt =====
-- demos/vfs/vfs.h: the structures of the VFS and the memory that they stand in. What kmalloc hands
-- out is a cell at a new address, what kfree takes back is an empty cell, and a pointer into the
-- array of inodes is an index. A pointer that is followed and leads nowhere gives `none`.
pub mod Inodes
pub mod Dentries
pub mod Files
pub mod Ext4
use os_kernel_from_scratch.Common.{
  ℕ, Option, none, some, List, [], ◌∷◌, Bool, true, false, ◌==◌, if◌then◌else◌, get_elem?, set,
}

-- `i_op` and `i_fop` point to tables of functions: 0 for NULL. `i_block` is `i_block[0]`, which
-- ext4_ops.c reads and vfs.h does not declare.
pub record Inode : Type 0 where
  pub ino : ℕ
  pub i_mode : ℕ
  pub i_size : ℕ
  pub i_op : ℕ
  pub i_fop : ℕ
  pub i_sb : ℕ
  pub i_dentry : List ℕ
  pub i_count : ℕ
  pub i_block : ℕ

pub record Dentry : Type 0 where
  pub name : List ℕ
  pub inode : Option ℕ
  pub parent : Option ℕ
  pub children : List ℕ
  pub refcount : ℕ

pub record File : Type 0 where
  pub f_dentry : ℕ
  pub f_pos : ℕ
  pub f_flags : ℕ
  pub private_data : Option ℕ

-- Nothing reads or fills `s_dirty`.
pub record SuperBlock : Type 0 where
  pub mnt_point : List ℕ
  pub s_type : List ℕ
  pub s_fs_info : Option ℕ
  pub s_root_inode : Option ℕ
  pub s_inodes : List ℕ

-- An entry of ext4's own table of inodes, with the fields that the code writes or reads.
pub record Ext4Inode : Type 0 where
  pub i_mode : ℕ
  pub i_size : ℕ
  pub i_links_count : ℕ
  pub i_block : ℕ

pub record Ext4SuperBlock : Type 0 where
  pub s_inodes_count : ℕ
  pub s_blocks_count : ℕ
  pub s_free_inodes_count : ℕ
  pub s_free_blocks_count : ℕ

pub record Ext4FsInfo : Type 0 where
  pub sb : Ext4SuperBlock
  pub inode_table : List Ext4Inode
  pub root_dentry : Option ℕ

pub record State : Type 0 where
  pub registered_filesystems : List (List ℕ)
  pub vfs_root_dentry : Option ℕ
  pub next_ino : ℕ
  pub inode_table : List Inode
  pub inode_inuse : List ℕ
  pub dentry_hashtable : List (List ℕ)
  pub dentries : ℕ → Option Dentry
  pub next_dentry : ℕ
  pub supers : ℕ → Option SuperBlock
  pub next_super : ℕ
  pub infos : ℕ → Option Ext4FsInfo
  pub next_info : ℕ

-- One cell of memory gets a new content.
unfoldable pub update {ℓ} : {A : Type ℓ} → (ℕ → A) → ℕ → A → ℕ → A
update f a v b = if b == a then v else f b

-- What `memset` leaves in an inode.
abbrev pub zero_inode : Inode
zero_inode = record {
  ino = 0;
  i_mode = 0;
  i_size = 0;
  i_op = 0;
  i_fop = 0;
  i_sb = 0;
  i_dentry = [];
  i_count = 0;
  i_block = 0;
}

unfoldable pub set_inode : State → ℕ → Inode → State
set_inode s i n = record s { inode_table = set s.inode_table i n }

unfoldable pub set_dentry : State → ℕ → Option Dentry → State
unfolding update
set_dentry s a d = record s { dentries = update s.dentries a d }

unfoldable pub set_super : State → ℕ → Option SuperBlock → State
unfolding update
set_super s a b = record s { supers = update s.supers a b }

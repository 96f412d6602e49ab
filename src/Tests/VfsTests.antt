-- ===== src/Tests/VfsTests.antt =====
-- demos/vfs/vfs.c and ext4_ops.c with one super block, and in it no inode or one file with three names.
use os_kernel_from_scratch.Common.{
  ℕ, zero, suc, ◌<◌, ◌≡◌, refl, sym, ap, ◌∙◌, ◌≢◌, Option, none, some, List, [], ◌∷◌, Bool, true,
  false, arith, ltb, ◌==◌, if◌then◌else◌, get_elem?, set, get_or-set, get_or-replicate, length-set,
  length-replicate, replicate,
}
use os_kernel_from_scratch.Common.Bitmap.{
  test_word, test_bit, set_bit, length-set_bit, test_bit-zeros, test_bit-set_bit,
}
use os_kernel_from_scratch.Common.Nodes.{count}
use os_kernel_from_scratch.Vfs.{Inode, File, SuperBlock, State, zero_inode}
use os_kernel_from_scratch.Vfs.Inodes.{
  find_free, new_inode, fill_slot, vfs_new_inode, vfs_put_inode,
}
use os_kernel_from_scratch.Vfs.Inodes.Table.{
  IsValid, SameEntries, Allocate, inode_at, is_used, slots_of, vfs_new_inode_refines,
}
use os_kernel_from_scratch.Vfs.Inodes.Release.{no_evict, put_slot, vfs_put_inode_lem}
use os_kernel_from_scratch.Vfs.Dentries.{vfs_new_dentry, vfs_put_dentry}
use os_kernel_from_scratch.Vfs.Dentries.References.{IsName, entry_of}
use os_kernel_from_scratch.Vfs.Dentries.Names.{put_all, put_all-half}
use os_kernel_from_scratch.Vfs.Dentries.Lifetime.{Unhashed, put_only_name}
use os_kernel_from_scratch.Vfs.Files.{
  done, new_super, inode_of, vfs_open, vfs_read, vfs_write, vfs_mount,
}
use os_kernel_from_scratch.Vfs.Ext4.{ext4_file_operations, ext4, ext4_fs_type, fs_info}
use os_kernel_from_scratch.Vfs.Ext4.Data.{vfs_read-vfs_write}
use os_kernel_from_scratch.Vfs.Ext4.Mount.{
  IsMounted, enough, vfs_open-IsMounted, vfs_mount-IsMounted,
}

abbrev root_block : SuperBlock
root_block = new_super (b'e' ∷ b'x' ∷ b't' ∷ b'4' ∷ []) (b'/' ∷ [])

abbrev text_a : List ℕ
text_a = b'a' ∷ []

-- One super block, at 0, with the inodes `held`, and up to three names of inode 0.
abbrev state : List ℕ → List Inode → List ℕ → ℕ → State
state held table inuse names = record {
  registered_filesystems = [];
  vfs_root_dentry = none;
  next_ino = 7;
  inode_table = table;
  inode_inuse = inuse;
  dentry_hashtable = replicate 256 [];
  dentries = λ d. if ltb d names then some (entry_of text_a 0 []) else none;
  next_dentry = 3;
  supers = λ a. if a == 0 then some (record root_block { s_inodes = held }) else none;
  next_super = 1;
  infos = λ a. none;
  next_info = 0;
}

abbrev empty : State
empty = state [] (replicate 1024 zero_inode) (replicate 16 0) 0

empty-IsValid : IsValid empty
unfolding count
empty-IsValid = record {
  slots = length-replicate 1024 zero_inode;
  words = refl;
  numbered = λ i low used. ground (arith, used, test_bit-zeros 16 i);
  distinct = λ i j p q used. ground (arith, used, test_bit-zeros 16 i);
  hosted = λ i low used. ground (arith, used, test_bit-zeros 16 i);
  listed = λ sb block there i. ground (arith, there, test_bit-zeros 16 i);
}

-- A file with `c` references to it.
abbrev file : ℕ → Inode
file c = record zero_inode {
  ino = 5;
  i_mode = 0o100644;
  i_size = 2;
  i_op = 2;
  i_fop = ext4_file_operations;
  i_count = c;
}

abbrev one : ℕ → State
one c = state (0 ∷ []) (set (replicate 1024 zero_inode) 0 (file c)) (set_bit (replicate 16 0) 0) 3

one-is_used : (c i : ℕ) → is_used (one c) i ≡ (0 == i)
one-is_used c i =
    test_bit-set_bit (replicate 16 0) 0 i (omega arith) ∙ ground (arith, test_bit-zeros 16 i)

one-inode_at : (c i : ℕ) → inode_at (one c) i ≡ (if i == 0 then file c else zero_inode)
one-inode_at c i =
    get_or-set (replicate 1024 zero_inode) 0 i (file c) zero_inode
      (omega (arith, length-replicate 1024 zero_inode))
    ∙ ground (arith, get_or-replicate 1024 i zero_inode)

-- The inode in slot `i`, and its number and super block.
slot-file :
    (c i : ℕ) (n : Inode) → n ≡ (if i == 0 then file c else zero_inode) → (n.ino < 7) × (n.i_sb ≡ 0)
slot-file c i n e = (ground arith, ground arith)

hosts : (sb : ℕ) → sb ≡ 0 → (one 0).supers sb ≢ none
hosts sb e = ground arith

list-one :
    (sb i : ℕ) (block : SuperBlock) (used : Bool) (n : Inode)
    → (one 0).supers sb ≡ some block
    → used ≡ (0 == i)
    → n.i_sb ≡ 0
    → count i block.s_inodes
      ≡ (if if ltb i 1024 then if used then n.i_sb == sb else false else false then 1 else 0)
unfolding count
list-one sb i block used n there u home = ground arith

only_zero : (i : ℕ) → (0 == i) ≡ true → i ≡ 0
only_zero i e = ground arith

one-IsValid : (c : ℕ) → IsValid (one c)
one-IsValid c = record {
  slots = length-set (replicate 1024 zero_inode) 0 (file c) ∙ length-replicate 1024 zero_inode;
  words = length-set_bit (replicate 16 0) 0;
  numbered = λ i low used. (slot-file c i _ (one-inode_at c i)).0;
  distinct = λ i j p q used used' e.
      only_zero i (sym (one-is_used c i) ∙ used)
      ∙ sym (only_zero j (sym (one-is_used c j) ∙ used'));
  hosted = λ i low used. hosts _ (slot-file c i _ (one-inode_at c i)).1;
  listed = λ sb block there i.
      list-one sb i block _ (inode_at (one c) i) there (one-is_used c i)
        (slot-file c i _ (one-inode_at c i)).1;
}

one-used : (c : ℕ) → is_used (one c) 0 ≡ true
one-used c = one-is_used c 0

one-IsName : (c d : ℕ) → d < 3 → IsName (one c) 0 d
one-IsName c d low = record { name = text_a; children = []; there = ground arith }

vfs_new_inode_refines_example :
    (r : Option ℕ) × (s' : State) × (vfs_new_inode empty 0 0o100644 ≡ some (r, s'))
    × Allocate (slots_of empty) (new_inode 7 0o100644 0) r (slots_of s')
    × IsValid s'
    × SameEntries empty s'
vfs_new_inode_refines_example =
    vfs_new_inode_refines empty 0 0o100644 root_block empty-IsValid refl (omega arith)

vfs_put_inode_lem_example :
    (s' : State) × (vfs_put_inode no_evict (one 1) 0 ≡ some s')
    × ((j : ℕ)
        → slots_of s' j ≡ (if j == 0 then put_slot (inode_at (one 1) 0) else slots_of (one 1) j))
    × IsValid s'
    × SameEntries (one 1) s'
vfs_put_inode_lem_example = vfs_put_inode_lem (one 1) 0 (one-IsValid 1) (omega arith) (one-used 1)

-- Three names, and with them a count of 4: the first two give the inode back.
put_all-half_example :
    (s' : State) × (put_all (0 ∷ 1 ∷ []) (one 4) ≡ some s')
    × IsValid s'
    × (slots_of s' 0 ≡ none)
    × ((x : ℕ) → count x (0 ∷ 1 ∷ []) ≡ 0 → s'.dentries x ≡ (one 4).dentries x)
unfolding count
put_all-half_example =
    put_all-half 0 (1 ∷ []) (one 4) 0 (one-IsValid 4) (omega arith) (one-used 4)
      (ap (λ n. n.i_count) (one-inode_at 4 0))
      (omega (arith, ap (λ n. n.i_count) (one-inode_at 4 0)))
      (one-IsName 4 0 (omega arith), refl, (one-IsName 4 1 (omega arith), refl, tt))

Unhashed-empty : (d n : ℕ) → Unhashed d (replicate n [])
unfolding count
Unhashed-empty d zero = tt
Unhashed-empty d (suc n) = (refl, Unhashed-empty d n)

abbrev filled : State
filled = fill_slot empty 0 root_block 0o100644 0

new_inode_empty : vfs_new_inode empty 0 0o100644 ≡ some (some 0, filled)
unfolding vfs_new_inode find_free test_bit test_word
new_inode_empty = refl

put_only_name_example :
    (s₂ : State) × (s₃ : State) × (vfs_new_dentry true filled text_a 0 ≡ some (some 3, s₂))
    × (vfs_put_dentry no_evict s₂ 3 ≡ some s₃)
    × IsValid s₃
    × ((j : ℕ) → slots_of s₃ j ≡ slots_of empty j)
    × (s₃.dentry_hashtable ≡ empty.dentry_hashtable)
    × ((a : ℕ) → s₃.dentries a ≡ empty.dentries a)
put_only_name_example =
    put_only_name empty filled 0 0o100644 0 root_block text_a empty-IsValid refl (omega arith)
      new_inode_empty refl (Unhashed-empty 3 256)

abbrev open_a : File
open_a = record { f_dentry = 0; f_pos = 0; f_flags = 2; private_data = none }

vfs_read-vfs_write_example :
    (s' : State) × (vfs_write (ext4 (λ a. 0)) (one 1) (some open_a) (b'x' ∷ b'y' ∷ b'z' ∷ []) 1
      ≡ some (done 3 (b'x' ∷ b'y' ∷ b'z' ∷ []) 4 s'))
    × (get_elem? s'.inode_table 0 ≡ some (record (file 1) { i_size = 4 }))
    × (vfs_read (ext4 (λ a. 0)) s' (some open_a) 3 1 ≡ some (done 3 (0 ∷ 0 ∷ 0 ∷ []) 4 s'))
unfolding fs_info inode_of
vfs_read-vfs_write_example =
    vfs_read-vfs_write (λ a. 0) (one 1) open_a 0 (file 1) none (b'x' ∷ b'y' ∷ b'z' ∷ []) 1 refl refl
      refl refl refl (omega arith)

vfs_mount_empty :
    (s' : State) × (vfs_mount true empty (ext4_fs_type enough) (b'/' ∷ []) ≡ some (none, s'))
    × IsMounted s'
vfs_mount_empty =
    vfs_mount-IsMounted empty 0 (b'/' ∷ []) empty-IsValid (omega arith) (test_bit-zeros 16 0)

vfs_open-IsMounted_example :
    vfs_open (ext4 (λ a. 0)) true vfs_mount_empty.0 (b'/' ∷ text_a) 0
    ≡ some (none, vfs_mount_empty.0)
vfs_open-IsMounted_example =
    vfs_open-IsMounted (λ a. 0) vfs_mount_empty.0 vfs_mount_empty.2 true b'/' text_a 0

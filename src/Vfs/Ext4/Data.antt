-- ===== src/Vfs/Ext4/Data.antt =====
-- demos/vfs/ext4_ops.c: what reads and writes through the VFS return.
use os_kernel_from_scratch.Common.{
  ℕ, zero, suc, ◌+◌, ◌-◌, ◌*◌, ◌%◌, ◌^◌, ◌≤◌, ◌<◌, min, max, ◌≡◌, refl, sym, ap, ap₂, ◌∙◌, inl, inr,
  Option, none, some, List, [], true, false, arith, ltb, leb, ◌==◌, if◌then◌else◌, Bool-cases,
  length, get_elem?, get_or, replicate, length-replicate, get_elem?-set_self, get_elem?-lt,
}
use os_kernel_from_scratch.Vfs.{Inode, File, State, Ext4FsInfo, set_inode}
use os_kernel_from_scratch.Vfs.Files.{
  failed, done, enosys, inode_of, call_read, call_write, vfs_read, vfs_write,
}
use os_kernel_from_scratch.Vfs.Ext4.{
  ext4_file_operations, ext4, zero_ext4_inode, fs_info, follow, memcpy, read_count, read_bytes,
  finish_read, read_inode, ext4_read, ext4_write,
}

length-memcpy : (memory : ℕ → ℕ) (a n : ℕ) → length (memcpy memory a n) ≡ n
unfolding memcpy
length-memcpy memory a zero = refl
length-memcpy memory a (suc n) = ap suc (length-memcpy memory (a + 1) n)

length-read_bytes :
    (memory : ℕ → ℕ) (n : Inode) (info : Ext4FsInfo) (pos count : ℕ)
    → (buf : List ℕ) × (read_bytes memory n (some info) pos count ≡ some buf) × (length buf ≡ count)
unfolding read_bytes
length-read_bytes memory n info pos count = elim (Bool-cases (n.i_block == 0)) [
  | inl e ↦ (replicate count 0, rw (read_bytes, e), length-replicate count 0)
  | inr e ↦ (
    memcpy memory
        ((get_or info.inode_table (n.ino % 128) zero_ext4_inode).i_block * 4096 % 2 ^ 32 + pos)
        count,
    rw (read_bytes, e),
    length-memcpy memory _ count,
  )
]

-- The call through the table of operations of a file.
read_table :
    (memory : ℕ → ℕ) (s : State) (filp : File) (count pos fop : ℕ)
    → fop ≡ ext4_file_operations
    → (if fop == 0
        then some (failed enosys)
        else call_read ((ext4 memory).read fop) s filp count pos)
      ≡ ext4_read memory s filp count pos
unfolding ext4 call_read
read_table memory s filp count pos fop e = rw e

write_table :
    (memory : ℕ → ℕ) (s : State) (filp : File) (buf : List ℕ) (pos fop : ℕ)
    → fop ≡ ext4_file_operations
    → (if fop == 0
        then some (failed enosys)
        else call_write ((ext4 memory).write fop) s filp buf pos)
      ≡ ext4_write s filp buf pos
unfolding ext4 call_write
write_table memory s filp buf pos fop e = rw e

-- An open file of a file `n` of ext4, in the slot `i`.
module _ (memory : ℕ → ℕ) (s : State) (filp : File) (i : ℕ) (n : Inode)
    (names : inode_of s filp.f_dentry ≡ some (some i)) (slot : get_elem? s.inode_table i ≡ some n)
    (file : n.i_fop ≡ ext4_file_operations) where
  vfs_read-ext4 :
      (count pos : ℕ)
      → vfs_read (ext4 memory) s (some filp) count pos ≡ read_inode memory s n count pos
  unfolding vfs_read ext4_read
  vfs_read-ext4 count pos =
      rw (vfs_read, names, slot)
        (read_table memory s filp count pos n.i_fop file ∙ rw (ext4_read, names, slot))

  vfs_write-ext4 :
      (buf : List ℕ) (pos : ℕ)
      → let end = (pos + length buf) % 2 ^ 64 in
        vfs_write (ext4 memory) s (some filp) buf pos
        ≡ some (
            done
              (length buf)
              buf
              end
              (set_inode s i (record n { i_size = if ltb n.i_size end then end else n.i_size })))
  unfolding vfs_write ext4_write
  vfs_write-ext4 buf pos =
      rw (vfs_write, names, slot)
        (write_table memory s filp buf pos n.i_fop file ∙ rw (ext4_write, names, slot))

  -- Reads and writes where the private data of the mounted file system is there.
  module _ (info : Ext4FsInfo) (fsi : Option ℕ) (mounted : fs_info s n ≡ some fsi)
      (followed : follow s fsi ≡ some info) (count pos : ℕ) where
    before_end :
        leb n.i_size pos ≡ false
        → (buf : List ℕ) × (vfs_read (ext4 memory) s (some filp) count pos
            ≡ some (
                done
                  (read_count n.i_size count pos)
                  buf
                  ((pos + read_count n.i_size count pos) % 2 ^ 64)
                  s))
          × (length buf ≡ read_count n.i_size count pos)
    unfolding read_inode
    before_end e =
        let c = read_count n.i_size count pos in
        let (buf, bytes, size) = length-read_bytes memory n info pos c in
        (
          buf,
          vfs_read-ext4 count pos
              ∙ rw (read_inode, mounted, e) (rw followed (ap (finish_read s pos c) bytes)),
          size,
        )

    -- A read through the VFS of a file of ext4, in which position and length do not wrap at 2 ^ 64:
    -- it returns as many bytes as are asked for and left in the file, and no more, moves the position
    -- by that, and changes nothing else.
    pub vfs_read_within :
        pos + count < 2 ^ 64
        → (buf : List ℕ) × (vfs_read (ext4 memory) s (some filp) count pos
            ≡ some (done (length buf) buf (pos + length buf) s))
          × (length buf ≡ min count (n.i_size - pos))
    unfolding read_inode read_count
    vfs_read_within small = elim (Bool-cases (leb n.i_size pos)) [
      | inl e ↦ (
        [],
        vfs_read-ext4 count pos
            ∙ rw (read_inode, mounted, e) (ap (λ p. some (done 0 [] p s)) (omega arith)),
        ground arith,
      )
      | inr e ↦
          let (buf, call, size) = before_end e in
          let c : read_count n.i_size count pos ≡ min count (n.i_size - pos) = ground arith in
          let next : (pos + read_count n.i_size count pos) % 2 ^ 64 ≡ pos + length buf =
            omega (arith, size, c) in
          (buf, call ∙ ap₂ (λ k p. some (done k buf p s)) (sym size) next, size ∙ c)
    ]

    -- A read through the VFS from inside a file of ext4 with a length that makes the sum with the
    -- position wrap round at 2 ^ 64 to a place within the file: the length is not cut, and more bytes
    -- than the file has left are copied.
    pub vfs_read_wraps :
        pos < n.i_size
        → count < 2 ^ 64
        → n.i_size < 2 ^ 64
        → 2 ^ 64 ≤ pos + count
        → pos + count ≤ 2 ^ 64 + n.i_size
        → (buf : List ℕ) × (vfs_read (ext4 memory) s (some filp) count pos
            ≡ some (done count buf (pos + count - 2 ^ 64) s))
          × (length buf ≡ count)
          × (n.i_size - pos < length buf)
    unfolding read_count
    vfs_read_wraps inside small size_small high wraps =
        let (buf, call, size) = before_end (ground arith) in
        let c : read_count n.i_size count pos ≡ count = ground arith in
        let next : (pos + read_count n.i_size count pos) % 2 ^ 64 ≡ pos + count - 2 ^ 64 =
          omega (arith, c) in
        (buf, call ∙ ap₂ (λ k p. some (done k buf p s)) c next, size ∙ c, omega (arith, size, c))

read_bytes-zeros :
    (memory : ℕ → ℕ) (n : Inode) (info : Option Ext4FsInfo) (pos count : ℕ)
    → n.i_block ≡ 0
    → read_bytes memory n info pos count ≡ some (replicate count 0)
unfolding read_bytes
read_bytes-zeros memory n none pos count e = let b : (n.i_block == 0) ≡ true = ground arith in rw b
read_bytes-zeros memory n (some info) pos count e =
    let b : (n.i_block == 0) ≡ true = ground arith in rw b

-- A read of `count` bytes that are all in the file, which has no data block.
read_inode-zeros :
    (memory : ℕ → ℕ) (s : State) (n : Inode) (fsi : Option ℕ) (count pos : ℕ)
    → n.i_block ≡ 0
    → fs_info s n ≡ some fsi
    → pos + count ≤ n.i_size
    → pos + count < 2 ^ 64
    → read_inode memory s n count pos ≡ some (done count (replicate count 0) (pos + count) s)
unfolding read_inode read_count finish_read
read_inode-zeros memory s n fsi count pos no_block mounted inside small =
    elim (Bool-cases (leb n.i_size pos)) [
      | inl e ↦
          let nothing : count ≡ 0 = ground arith in
          rw (read_inode, mounted, e, nothing) (ap (λ p. some (done 0 [] p s)) (omega arith))
      | inr e ↦
          let c : read_count n.i_size count pos ≡ count = ground arith in
          rw (read_inode, mounted, e)
            (ap (finish_read s pos _) (read_bytes-zeros memory n (follow s fsi) pos _ no_block)
              ∙ ap (λ k. some (done k (replicate k 0) ((pos + k) % 2 ^ 64) s)) c
              ∙ ap (λ p. some (done count (replicate count 0) p s)) (omega arith))
    ]

-- Bytes written through the VFS to a file of ext4 without a data block (every file that ext4_create
-- makes), at a position that does not wrap at 2 ^ 64: the write reports all of them written, and the
-- file reaches at least to their end; but read back from there, as many bytes come, all of them 0.
pub vfs_read-vfs_write :
    (memory : ℕ → ℕ) (s : State) (filp : File) (i : ℕ) (n : Inode) (fsi : Option ℕ) (buf : List ℕ)
    (pos : ℕ)
    → inode_of s filp.f_dentry ≡ some (some i)
    → get_elem? s.inode_table i ≡ some n
    → n.i_fop ≡ ext4_file_operations
    → n.i_block ≡ 0
    → fs_info s n ≡ some fsi
    → pos + length buf < 2 ^ 64
    → (s' : State) × (vfs_write (ext4 memory) s (some filp) buf pos
        ≡ some (done (length buf) buf (pos + length buf) s'))
      × (get_elem? s'.inode_table i ≡ some (record n { i_size = max n.i_size (pos + length buf) }))
      × (vfs_read (ext4 memory) s' (some filp) (length buf) pos
          ≡ some (done (length buf) (replicate (length buf) 0) (pos + length buf) s'))
unfolding set_inode inode_of fs_info
vfs_read-vfs_write memory s filp i n fsi buf pos names slot file no_block mounted small = (
  s',
  vfs_write-ext4 memory s filp i n names slot file buf pos
      ∙ ap₂ (λ p k. some (done (length buf) buf p (set_inode s i (record n { i_size = k })))) end
          size,
  slot',
  vfs_read-ext4 memory s' filp i n' names slot' file (length buf) pos
      ∙ read_inode-zeros memory s' n' fsi (length buf) pos no_block mounted (omega arith) small,
)
  where
    n' : Inode
    n' = record n { i_size = max n.i_size (pos + length buf) }

    s' : State
    s' = set_inode s i n'

    slot' : get_elem? s'.inode_table i ≡ some n'
    slot' = get_elem?-set_self s.inode_table i n' (get_elem?-lt s.inode_table i slot)

    end : (pos + length buf) % 2 ^ 64 ≡ pos + length buf
    end = omega arith

    size :
        (if ltb n.i_size ((pos + length buf) % 2 ^ 64)
          then (pos + length buf) % 2 ^ 64
          else n.i_size)
        ≡ max n.i_size (pos + length buf)
    size = ground arith

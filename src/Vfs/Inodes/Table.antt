-- ===== src/Vfs/Inodes/Table.antt =====
-- demos/vfs/vfs.c: the table of inodes, its bitmap and the lists of the super blocks agree, and
-- vfs_new_inode and vfs_put_inode take and give back the slots of an abstract table.
use os_kernel_from_scratch.Common.{
  ℕ, zero, suc, ◌+◌, ◌^◌, ◌≤◌, ◌<◌, ◌≡◌, refl, ap, ◌∙◌, ◌≢◌, inl, inr, Option, none, some, List, [],
  ◌∷◌, ◌++◌, Bool, true, false, arith, ltb, ◌==◌, if◌then◌else◌, Bool-cases, Option-cases, length,
  get_or, get_or-set, length-set,
}
use os_kernel_from_scratch.Common.Bitmap.{test_bit, test_bit-set_bit, length-set_bit}
use mathlib.Core.Path.{subst}
use os_kernel_from_scratch.Common.Nodes.{count, count-append}
use os_kernel_from_scratch.Vfs.{Inode, SuperBlock, State, zero_inode}
use os_kernel_from_scratch.Vfs.Inodes.{max_inodes, find_free, new_inode, fill_slot, vfs_new_inode}

abbrev pub inode_at : State → ℕ → Inode
inode_at s i = get_or s.inode_table i zero_inode

abbrev pub is_used : State → ℕ → Bool
is_used s i = test_bit s.inode_inuse i

-- Inode `i` is in use and belongs to the super block at `sb`.
abbrev pub belongs : State → ℕ → ℕ → Bool
belongs s sb i =
    if ltb i 1024 then if is_used s i then (inode_at s i).i_sb == sb else false else false

-- The sizes of the arrays, numbers of inodes that were handed out and differ, and lists of the super
-- blocks, each there for its inodes, that hold them once each.
pub record IsValid (s : State) : Type 0 where
  pub slots : length s.inode_table ≡ 1024
  pub words : length s.inode_inuse ≡ 16
  pub numbered : (i : ℕ) → i < 1024 → is_used s i ≡ true → (inode_at s i).ino < s.next_ino
  pub distinct :
      (i j : ℕ)
      → i < 1024
      → j < 1024
      → is_used s i ≡ true
      → is_used s j ≡ true
      → (inode_at s i).ino ≡ (inode_at s j).ino
      → i ≡ j
  pub hosted : (i : ℕ) → i < 1024 → is_used s i ≡ true → s.supers (inode_at s i).i_sb ≢ none
  pub listed :
      (sb : ℕ) (block : SuperBlock)
      → s.supers sb ≡ some block
      → (i : ℕ) → count i block.s_inodes ≡ (if belongs s sb i then 1 else 0)

-- The abstract table: which slots hold an inode, and which inode.
abbrev pub Slots : Type 0
Slots = ℕ → Option Inode

abbrev pub slots_of : State → Slots
slots_of s i = if ltb i 1024 then if is_used s i then some (inode_at s i) else none else none

-- Taking a free slot for an inode, or finding that there is none.
pub data Allocate (v : Slots) (fresh : Inode) : Option ℕ → Slots → Type 0 where
  full : ((i : ℕ) → i < 1024 → v i ≢ none) → Allocate v fresh none v
  placed :
      (i : ℕ)
      → v i ≡ none
      → i < 1024
      → {v' : Slots} → ((j : ℕ) → v' j ≡ (if j == i then some fresh else v j))
      → Allocate v fresh (some i) v'

pub find_free-some :
    (inuse : List ℕ) (i n k : ℕ)
    → find_free inuse i n ≡ some k
    → (test_bit inuse k ≡ false) × (i ≤ k) × (k < i + n)
unfolding find_free
find_free-some inuse i zero k h = absurd (cc)
find_free-some inuse i (suc n) k h = ground (arith, find_free-some inuse (i + 1) n k)

pub find_free-none :
    (inuse : List ℕ) (i n j : ℕ)
    → find_free inuse i n ≡ none
    → i ≤ j
    → j < i + n
    → test_bit inuse j ≡ true
unfolding find_free
find_free-none inuse i zero j h p q = absurd (omega arith)
find_free-none inuse i (suc n) j h p q = ground (arith, find_free-none inuse (i + 1) n j)

-- A free slot `i` that is filled.
module _ (s : State) (i sb mode : ℕ) (block : SuperBlock) (v : IsValid s) (inside : i < 1024)
    (free : is_used s i ≡ false) (there : s.supers sb ≡ some block)
    (room : s.next_ino + 1 < 2 ^ 64) where
  abbrev after : State
  after = fill_slot s sb block mode i

  used_after : (j : ℕ) → is_used after j ≡ (if i == j then true else is_used s j)
  unfolding fill_slot
  used_after j = test_bit-set_bit s.inode_inuse i j (omega (arith, v.words))

  inode_after :
      (j : ℕ) → inode_at after j ≡ (if j == i then new_inode s.next_ino mode sb else inode_at s j)
  unfolding fill_slot
  inode_after j = get_or-set s.inode_table i j _ zero_inode (omega (arith, v.slots))

  slots_after :
      (j : ℕ)
      → slots_of after j ≡ (if j == i then some (new_inode s.next_ino mode sb) else slots_of s j)
  slots_after j = ground (arith, used_after j, inode_after j)

  next_after : after.next_ino ≡ s.next_ino + 1
  unfolding fill_slot
  next_after = omega arith

  listed_after :
      (sb' : ℕ) (block' : SuperBlock)
      → after.supers sb' ≡ some block'
      → (j : ℕ) → count j block'.s_inodes ≡ (if belongs after sb' j then 1 else 0)
  unfolding fill_slot
  listed_after sb' block' e j = elim (Bool-cases (sb' == sb)) [
    | inl same ↦
        let here : sb' ≡ sb = ground arith in
        let grown : block'.s_inodes ≡ block.s_inodes ++ i ∷ [] = ground arith in
        rw grown (
          ground (
            arith,
            count-append j i block.s_inodes,
            v.listed sb block there j,
            used_after j,
            inode_after j,
          ))
    | inr other ↦
        let old : s.supers sb' ≡ some block' = ground arith in
        ground (arith, v.listed sb' block' old j, used_after j, inode_after j)
  ]

  hosted_after :
      (j : ℕ) → j < 1024 → is_used after j ≡ true → after.supers (inode_at after j).i_sb ≢ none
  unfolding fill_slot
  hosted_after j p q = elim (Bool-cases (j == i)) [
    | inl e ↦
        let e' : (inode_at after j).i_sb ≡ sb = ground (arith, inode_after j) in
        λ h. ground (arith, ap after.supers e')
    | inr e ↦
        let old : is_used s j ≡ true = ground (arith, used_after j) in
        let e' : (inode_at after j).i_sb ≡ (inode_at s j).i_sb = ground (arith, inode_after j) in
        λ h. ground (arith, v.hosted j p old, ap after.supers e')
  ]

  filled-IsValid : IsValid after
  unfolding fill_slot
  filled-IsValid = record {
    slots = length-set s.inode_table i _ ∙ v.slots;
    words = length-set_bit s.inode_inuse i ∙ v.words;
    numbered = λ j p q. ground (arith, used_after j, inode_after j, next_after, v.numbered j p);
    distinct = λ j k p q a b e. ground (
      arith,
      used_after j,
      used_after k,
      inode_after j,
      inode_after k,
      v.numbered j p,
      v.numbered k q,
      v.distinct j k p q,
    );
    hosted = hosted_after;
    listed = listed_after;
  }

-- Directory entries are the same in both states.
pub record SameEntries (s s' : State) : Type 0 where
  pub dentries : s'.dentries ≡ s.dentries
  pub next_dentry : s'.next_dentry ≡ s.next_dentry
  pub dentry_hashtable : s'.dentry_hashtable ≡ s.dentry_hashtable
  pub vfs_root_dentry : s'.vfs_root_dentry ≡ s.vfs_root_dentry

fill_slot-SameEntries :
    (s : State) (sb : ℕ) (block : SuperBlock) (mode i : ℕ)
    → SameEntries s (fill_slot s sb block mode i)
unfolding fill_slot
fill_slot-SameEntries s sb block mode i = record {
  dentries = refl;
  next_dentry = refl;
  dentry_hashtable = refl;
  vfs_root_dentry = refl;
}

-- With inode numbers left and a super block to add to, `vfs_new_inode` from a valid state implements
-- the allocation of a slot in the abstract table: it fills a slot that was free with an inode of the
-- next number and one reference, and no other, or returns NULL and changes nothing if all 1024 are
-- in use. Bitmap, table, numbers and the lists of the super blocks agree again, and the directory
-- entries do not change.
pub vfs_new_inode_refines :
    (s : State) (sb mode : ℕ) (block : SuperBlock)
    → IsValid s
    → s.supers sb ≡ some block
    → s.next_ino + 1 < 2 ^ 64
    → (r : Option ℕ) × (s' : State) × (vfs_new_inode s sb mode ≡ some (r, s'))
      × Allocate (slots_of s) (new_inode s.next_ino mode sb) r (slots_of s')
      × IsValid s'
      × SameEntries s s'
unfolding vfs_new_inode
vfs_new_inode_refines s sb mode block v there room =
    elim (Option-cases (find_free s.inode_inuse 0 max_inodes)) [
      | inl e ↦ (
        none,
        s,
        rw (e, vfs_new_inode),
        full (λ i p q. ground (arith, find_free-none s.inode_inuse 0 1024 i e)),
        v,
        record {
          dentries = refl;
          next_dentry = refl;
          dentry_hashtable = refl;
          vfs_root_dentry = refl;
        },
      )
      | inr (i, e) ↦
          let f : (is_used s i ≡ false) × (0 ≤ i) × (i < 0 + 1024) =
            find_free-some s.inode_inuse 0 1024 i e in
          let inside : i < 1024 = omega (arith, f.2) in
          (
            some i,
            fill_slot s sb block mode i,
            rw (e, vfs_new_inode, there),
            placed i (ground arith) inside (slots_after s i sb mode block v inside f.0 there room),
            filled-IsValid s i sb mode block v inside f.0 there room,
            fill_slot-SameEntries s sb block mode i,
          )
    ]

-- An allocation that returned slot `i`.
pub Allocate-some :
    {v v' : Slots} {fresh : Inode} {r : Option ℕ}
    → Allocate v fresh r v'
    → (i : ℕ) → r ≡ some i
    → (v i ≡ none) × (i < 1024) × ((j : ℕ) → v' j ≡ (if j == i then some fresh else v j))
Allocate-some (full h) i e = absurd (cc)
Allocate-some {v} {v'} {fresh} (placed k free inside h) i e =
    let same : k ≡ i = cc in
    subst (λ k. (v k ≡ none) × (k < 1024) × ((j : ℕ) → v' j ≡ (if j == k then some fresh else v j)))
      same (free, inside, h)

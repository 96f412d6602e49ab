-- ===== src/Vfs/Inodes/Release.antt =====
-- demos/vfs/vfs.c: what vfs_put_inode does to the table of inodes.
use os_kernel_from_scratch.Common.{
  ℕ, ◌<◌, ◌≡◌, refl, sym, ap, ◌∙◌, inl, inr, Option, none, some, true, false, arith, ◌==◌,
  if◌then◌else◌, Bool-cases, Option-cases, get_elem?, get_or-set, length-set, get_elem?-eq-get_or,
}
use os_kernel_from_scratch.Common.Bitmap.{clear_bit, test_bit-clear_bit, length-clear_bit}
use os_kernel_from_scratch.Common.Nodes.{list_del, count, count-list_del}
use os_kernel_from_scratch.Vfs.{Inode, SuperBlock, State, zero_inode, set_inode, set_super}
use os_kernel_from_scratch.Vfs.Inodes.{Evict, count_down, release_slot, vfs_put_inode}
use os_kernel_from_scratch.Vfs.Inodes.Table.{
  IsValid, inode_at, is_used, belongs, slots_of, SameEntries,
}

-- No file system of the code has a callback for the end of an inode.
abbrev pub no_evict : Evict
no_evict t = none

-- A change of inode `i` that keeps its number and its super block keeps the state valid.
module _ (s : State) (i : ℕ) (n : Inode) (v : IsValid s) (inside : i < 1024)
    (same_ino : n.ino ≡ (inode_at s i).ino) (same_sb : n.i_sb ≡ (inode_at s i).i_sb) where
  pub inode_at-set_inode :
      (j : ℕ) → inode_at (set_inode s i n) j ≡ (if j == i then n else inode_at s j)
  unfolding set_inode
  inode_at-set_inode j = get_or-set s.inode_table i j _ zero_inode (omega (arith, v.slots))

  ino_kept : (j : ℕ) → (inode_at (set_inode s i n) j).ino ≡ (inode_at s j).ino
  ino_kept j = ground (arith, inode_at-set_inode j)

  pub sb_kept : (j : ℕ) → (inode_at (set_inode s i n) j).i_sb ≡ (inode_at s j).i_sb
  sb_kept j = ground (arith, inode_at-set_inode j)

  pub set_inode-IsValid : IsValid (set_inode s i n)
  unfolding set_inode
  set_inode-IsValid = record {
    slots = length-set s.inode_table i _ ∙ v.slots;
    words = v.words;
    numbered = λ j p q. ground (arith, ino_kept j, v.numbered j p);
    distinct = λ j k p q a b e. ground (arith, ino_kept j, ino_kept k, v.distinct j k p q);
    hosted = λ j p q e. v.hosted j p q (ap s.supers (sym (sb_kept j)) ∙ e);
    listed = λ sb block e j. ground (arith, sb_kept j, v.listed sb block e j);
  }

  pub slots_of-set_inode :
      (j : ℕ)
      → slots_of (set_inode s i n) j
        ≡ (if j == i then if is_used s i then some n else none else slots_of s j)
  unfolding set_inode
  slots_of-set_inode j = ground (arith, inode_at-set_inode j)

-- The slot `i` in use, of an inode on the super block `block`, is given back.
module _ (s : State) (i : ℕ) (block : SuperBlock) (v : IsValid s) (inside : i < 1024)
    (used : is_used s i ≡ true) (there : s.supers (inode_at s i).i_sb ≡ some block) where
  sb : ℕ
  sb = (inode_at s i).i_sb

  abbrev shorter : SuperBlock
  shorter = record block { s_inodes = list_del i block.s_inodes }

  abbrev pub released : State
  released =
      let s' = set_super s (inode_at s i).i_sb (some shorter) in
      record s' { inode_inuse = clear_bit s'.inode_inuse i }

  pub release_slot-released : release_slot s i (inode_at s i).i_sb ≡ some released
  unfolding release_slot
  release_slot-released = rw (there, release_slot)

  used_released : (j : ℕ) → is_used released j ≡ (if i == j then false else is_used s j)
  unfolding set_super
  used_released j = test_bit-clear_bit s.inode_inuse i j (omega (arith, v.words))

  pub slots_released : (j : ℕ) → slots_of released j ≡ (if j == i then none else slots_of s j)
  unfolding set_super
  slots_released j = ground (arith, used_released j)

  listed_released :
      (sb' : ℕ) (block' : SuperBlock)
      → released.supers sb' ≡ some block'
      → (j : ℕ) → count j block'.s_inodes ≡ (if belongs released sb' j then 1 else 0)
  unfolding set_super
  listed_released sb' block' e j = elim (Bool-cases (sb' == (inode_at s i).i_sb)) [
    | inl same ↦
        let here : sb' ≡ (inode_at s i).i_sb = ground arith in
        let cut : block'.s_inodes ≡ list_del i block.s_inodes = ground arith in
        let once : count i block.s_inodes ≡ 1 =
          v.listed (inode_at s i).i_sb block there i ∙ ground arith in
        rw cut (
          ground (
            arith,
            count-list_del i j block.s_inodes (omega (arith, once)),
            v.listed (inode_at s i).i_sb block there j,
            used_released j,
          ))
    | inr other ↦
        let old : s.supers sb' ≡ some block' = ground arith in
        ground (arith, v.listed sb' block' old j, used_released j)
  ]

  pub released-IsValid : IsValid released
  unfolding set_super
  released-IsValid = record {
    slots = v.slots;
    words = length-clear_bit s.inode_inuse i ∙ v.words;
    numbered = λ j p q. ground (arith, used_released j, v.numbered j p);
    distinct =
        λ j k p q a b e. ground (arith, used_released j, used_released k, v.distinct j k p q);
    hosted = λ j p q e. ground (arith, used_released j, v.hosted j p);
    listed = listed_released;
  }

-- One reference less: at 0 the slot is given back.
abbrev pub put_slot : Inode → Option Inode
put_slot n =
    if count_down n.i_count == 0 then none else some (record n { i_count = count_down n.i_count })

-- Inode `i` with another count.
abbrev counted : State → ℕ → ℕ → State
counted s i c = set_inode s i (record (inode_at s i) { i_count = c })

-- The call in terms of the inode's new count.
vfs_put_inode-counted :
    (s : State) (i : ℕ) (v : IsValid s) (inside : i < 1024)
    → let s' = counted s i (count_down (inode_at s i).i_count) in
      vfs_put_inode no_evict s i ≡ (
        if count_down (inode_at s i).i_count == 0
        then release_slot s' i (inode_at s i).i_sb
        else some s')
unfolding vfs_put_inode
vfs_put_inode-counted s i v inside =
    let found : get_elem? s.inode_table i ≡ some (inode_at s i) =
      get_elem?-eq-get_or s.inode_table i zero_inode (omega (arith, v.slots)) in
    rw (vfs_put_inode, found)
      (elim (Bool-cases ((inode_at s i).i_op == 0)) [
        | inl e ↦ rw e (ground arith)
        | inr e ↦ rw e (ground arith)
      ])

-- `vfs_put_inode`, where no file system has a callback, on an inode in use in a valid state: if the
-- count, lowered by 1 in 32 bits, is 0 the slot is given back and leaves the list of its super block,
-- and otherwise it keeps the inode with that count. No other slot changes, nor do directory entries,
-- and the state stays valid.
pub vfs_put_inode_lem :
    (s : State) (i : ℕ)
    → IsValid s
    → i < 1024
    → is_used s i ≡ true
    → (s' : State) × (vfs_put_inode no_evict s i ≡ some s')
      × ((j : ℕ) → slots_of s' j ≡ (if j == i then put_slot (inode_at s i) else slots_of s j))
      × IsValid s'
      × SameEntries s s'
unfolding set_inode set_super
vfs_put_inode_lem s i v inside used = elim (Bool-cases (count_down (inode_at s i).i_count == 0)) [
  | inl one ↦ (
    released s₁ i block v₁ inside used₁ there₁,
    call
        ∙ rw one (
            ap (release_slot s₁ i) (sym sb₁)
            ∙ release_slot-released s₁ i block v₁ inside used₁ there₁),
    λ j.
        slots_released s₁ i block v₁ inside used₁ there₁ j
        ∙ ground (arith, slots_of-set_inode s i n₁ v inside refl refl j),
    released-IsValid s₁ i block v₁ inside used₁ there₁,
    record { dentries = refl; next_dentry = refl; dentry_hashtable = refl; vfs_root_dentry = refl },
  )
  | inr more ↦ (
    s₁,
    call ∙ rw more,
    λ j. ground (arith, slots_of-set_inode s i n₁ v inside refl refl j),
    v₁,
    record { dentries = refl; next_dentry = refl; dentry_hashtable = refl; vfs_root_dentry = refl },
  )
]
  where
    host : (block : SuperBlock) × (s.supers (inode_at s i).i_sb ≡ some block)
    host = elim (Option-cases (s.supers (inode_at s i).i_sb)) [
      | inl e ↦ absurd (v.hosted i inside used e)
      | inr h ↦ h
    ]

    block : SuperBlock
    block = host.0

    n₁ : Inode
    n₁ = record (inode_at s i) { i_count = count_down (inode_at s i).i_count }

    s₁ : State
    s₁ = counted s i (count_down (inode_at s i).i_count)

    v₁ : IsValid s₁
    v₁ = set_inode-IsValid s i n₁ v inside refl refl

    used₁ : is_used s₁ i ≡ true
    used₁ = used

    sb₁ : (inode_at s₁ i).i_sb ≡ (inode_at s i).i_sb
    sb₁ = sb_kept s i n₁ v inside refl refl i

    there₁ : s₁.supers (inode_at s₁ i).i_sb ≡ some block
    there₁ = rw sb₁ host.1

    call : vfs_put_inode no_evict s i ≡ (
        if count_down (inode_at s i).i_count == 0
        then release_slot s₁ i (inode_at s i).i_sb
        else some s₁)
    call = vfs_put_inode-counted s i v inside

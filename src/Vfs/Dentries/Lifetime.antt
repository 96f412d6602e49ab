-- ===== src/Vfs/Dentries/Lifetime.antt =====
-- demos/vfs/vfs.c: an inode with a single name, from vfs_new_inode to vfs_put_dentry.
use os_kernel_from_scratch.Common.{
  ℕ, zero, suc, ◌+◌, ◌^◌, ◌<◌, ◌≡◌, refl, sym, ap, ap₂, ◌∙◌, Option, none, some, List, [], ◌∷◌, map,
  true, arith, ◌==◌, if◌then◌else◌, take, Bool-cases, inl, inr,
}
use mathlib.Core.Path.{subst}
use os_kernel_from_scratch.Common.Nodes.{list_del, count, list_del-absent, list_del-append}
use os_kernel_from_scratch.Vfs.{Inode, SuperBlock, State, update}
use os_kernel_from_scratch.Vfs.Inodes.{count_up, count_down, new_inode, vfs_new_inode}
use os_kernel_from_scratch.Vfs.Inodes.Table.{
  Slots, IsValid, inode_at, slots_of, SameEntries, Allocate-some, vfs_new_inode_refines,
}
use os_kernel_from_scratch.Vfs.Inodes.Release.{no_evict}
use os_kernel_from_scratch.Vfs.Dentries.{hash_dentry, hash_add, vfs_new_dentry, vfs_put_dentry}
use os_kernel_from_scratch.Vfs.Dentries.References.{
  IsName, entry_of, named, put_twice, vfs_new_dentry_lem, vfs_put_dentry_lem,
}
use os_kernel_from_scratch.Vfs.Dentries.Names.{slot-used}

-- No bucket holds the entry at `d`.
abbrev pub Unhashed : ℕ → List (List ℕ) → Type 0
Unhashed d [] = Unit {0}
Unhashed d (bucket ∷ table) = (count d bucket ≡ 0) × Unhashed d table

map-list_del-absent :
    (d : ℕ) (table : List (List ℕ)) → Unhashed d table → map (list_del d) table ≡ table
map-list_del-absent d [] h = refl
map-list_del-absent d (bucket ∷ table) h =
    ap₂ ◌∷◌ (list_del-absent d bucket h.0) (map-list_del-absent d table h.1)

-- Taking a new entry out of the table again leaves the table as it was.
map-list_del-hash_add :
    (d h : ℕ) (table : List (List ℕ))
    → Unhashed d table
    → map (list_del d) (hash_add table h d) ≡ table
unfolding hash_add
map-list_del-hash_add d h [] u = refl
map-list_del-hash_add d zero (bucket ∷ table) u =
    ap₂ ◌∷◌ (list_del-append d bucket u.0) (map-list_del-absent d table u.1)
map-list_del-hash_add d (suc h) (bucket ∷ table) u =
    ap₂ ◌∷◌ (list_del-absent d bucket u.0) (map-list_del-hash_add d h table u.1)

-- The state after a call of `vfs_new_inode` that gave an inode.
made_lem :
    (s s₁ : State) (sb mode i : ℕ) (block : SuperBlock)
    → IsValid s
    → s.supers sb ≡ some block
    → s.next_ino + 1 < 2 ^ 64
    → vfs_new_inode s sb mode ≡ some (some i, s₁)
    → IsValid s₁
      × SameEntries s s₁
      × (slots_of s i ≡ none)
      × (i < 1024)
      × ((j : ℕ)
          → slots_of s₁ j ≡ (if j == i then some (new_inode s.next_ino mode sb) else slots_of s j))
made_lem s s₁ sb mode i block v there room made =
    let (r, s', call, allocated, v', same) = vfs_new_inode_refines s sb mode block v there room in
    let given : r ≡ some i = cc in
    let end : s' ≡ s₁ = cc in
    let (free, inside, slots) = Allocate-some allocated i given in
    subst
      (λ t.
        IsValid t
        × SameEntries s t
        × (slots_of s i ≡ none)
        × (i < 1024)
        × ((j : ℕ)
            → slots_of t j
              ≡ (if j == i then some (new_inode s.next_ino mode sb) else slots_of s j)))
      end (v', same, free, inside, slots)

put_twice-named : (ino mode sb d : ℕ) → put_twice (named (new_inode ino mode sb) d) ≡ none
unfolding count_up count_down
put_twice-named ino mode sb d = refl

-- A slot that was free, was filled twice and is emptied.
emptied :
    (v v₁ v₂ : Slots) (i j : ℕ) (a b : Inode) {end : Option Inode}
    → v i ≡ none
    → v₁ j ≡ (if j == i then some a else v j)
    → v₂ j ≡ (if j == i then some b else v₁ j)
    → end ≡ none
    → (if j == i then end else v₂ j) ≡ v j
emptied v v₁ v₂ i j a b free h₁ h₂ e = elim (Bool-cases (j == i)) [
  | inl same ↦ let here : j ≡ i = ground arith in rw (same, here) (e ∙ sym free)
  | inr other ↦ ground (arith, h₁, h₂, other)
]

-- A cell that was empty, and is filled and emptied.
updated :
    {A : Type 0} (f : ℕ → Option A) (d a : ℕ) (v : A)
    → f d ≡ none
    → update (update f d (some v)) d none a ≡ f a
unfolding update
updated f d a v e = elim (Bool-cases (a == d)) [
  | inl same ↦ let here : a ≡ d = ground arith in rw here (ground (arith, e))
  | inr other ↦ ground (arith, other)
]

-- An inode that `vfs_new_inode` gave in a valid state, with inode numbers left, and its only name, at
-- an address that is free and in no bucket: putting the name gives back the slot, and the abstract
-- table of inodes, the buckets and the directory entries at all addresses are as before the inode was
-- made.
pub put_only_name :
    (s s₁ : State) (sb mode i : ℕ) (block : SuperBlock) (name : List ℕ)
    → IsValid s
    → s.supers sb ≡ some block
    → s.next_ino + 1 < 2 ^ 64
    → vfs_new_inode s sb mode ≡ some (some i, s₁)
    → s.dentries s.next_dentry ≡ none
    → Unhashed s.next_dentry s.dentry_hashtable
    → (s₂ : State) × (s₃ : State) × (vfs_new_dentry true s₁ name i ≡ some (some s.next_dentry, s₂))
      × (vfs_put_dentry no_evict s₂ s.next_dentry ≡ some s₃)
      × IsValid s₃
      × ((j : ℕ) → slots_of s₃ j ≡ slots_of s j)
      × (s₃.dentry_hashtable ≡ s.dentry_hashtable)
      × ((a : ℕ) → s₃.dentries a ≡ s.dentries a)
unfolding update
put_only_name s s₁ sb mode i block name v there room made fresh unhashed =
    let (v₁, same, free, inside, slots₁) = made_lem s s₁ sb mode i block v there room made in
    let (used₁, own₁) =
      slot-used s₁ i (new_inode s.next_ino mode sb) inside (slots₁ i ∙ ground arith) in
    let (s₂, call₂, entries₂, next₂, table₂, slots₂, v₂) =
      vfs_new_dentry_lem s₁ name i v₁ inside used₁ in
    let (used₂, own₂) =
      slot-used s₂ i (named (inode_at s₁ i) s₁.next_dentry) inside (slots₂ i ∙ ground arith) in
    let name₂ : IsName s₂ i s.next_dentry = record {
      name = take 255 name;
      children = [];
      there = ap (λ f. f s.next_dentry) entries₂ ∙ rw same.next_dentry (ground arith);
    } in
    let (s₃, call₃, entries₃, next₃, table₃, slots₃, v₃) =
      vfs_put_dentry_lem s₂ i s.next_dentry v₂ inside used₂ name₂ in
    let gone : put_twice (inode_at s₂ i) ≡ none =
      ap put_twice own₂
      ∙ ap (λ n. put_twice (named n s₁.next_dentry)) own₁
      ∙ put_twice-named s.next_ino mode sb s₁.next_dentry in
    let buckets₂ : s₂.dentry_hashtable
        ≡ hash_add s.dentry_hashtable (hash_dentry name) s.next_dentry =
      table₂ ∙ ap₂ (λ t. hash_add t (hash_dentry name)) same.dentry_hashtable same.next_dentry in
    (
      s₂,
      s₃,
      call₂ ∙ ap (λ d. some (some d, s₂)) same.next_dentry,
      call₃,
      v₃,
      λ j.
          slots₃ j
          ∙ emptied (slots_of s) (slots_of s₁) (slots_of s₂) i j _ _ free (slots₁ j) (slots₂ j)
              gone,
      table₃ ∙ ap (map (list_del s.next_dentry)) buckets₂ ∙ map-list_del-hash_add _ _ _ unhashed,
      λ a.
          ap (λ f. f a) entries₃
          ∙ ap (λ f. update f s.next_dentry none a)
              (entries₂
                ∙ ap₂ (λ f b. update f b (some (entry_of (take 255 name) i []))) same.dentries
                    same.next_dentry)
          ∙ updated s.dentries s.next_dentry a (entry_of (take 255 name) i []) fresh,
    )

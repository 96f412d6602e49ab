-- ===== src/Vfs/Files/Registered.antt =====
-- demos/vfs/vfs.c: the names of the registered file systems.
use os_kernel_from_scratch.Common.{
  ℕ, ◌≡◌, refl, sym, ◌⊎◌, inl, inr, none, some, List, [], ◌∷◌, ◌++◌, true, arith, Bool-cases,
}
use os_kernel_from_scratch.Common.Nodes.{same, same_refl, same_sound}
use os_kernel_from_scratch.Vfs.{State}
use os_kernel_from_scratch.Vfs.Files.{eexist, FilesystemType, is_registered, register_filesystem}

-- A name stands in the list.
abbrev pub Among : List ℕ → List (List ℕ) → Type 0
Among x [] = ⊥
Among x (name ∷ names) = (name ≡ x) ⊎ Among x names

-- No name stands twice in the list.
abbrev pub Different : List (List ℕ) → Type 0
Different [] = Unit {0}
Different (name ∷ names) = ¬ Among name names × Different names

is_registered-Among :
    (names : List (List ℕ)) (x : List ℕ) → is_registered names x ≡ true → Among x names
unfolding is_registered
is_registered-Among [] x h = absurd (cc)
is_registered-Among (name ∷ names) x h = elim (Bool-cases (same name x)) [
  | inl e ↦ inl (same_sound name x e)
  | inr e ↦ inr (is_registered-Among names x (ground arith))
]

Among-is_registered :
    (names : List (List ℕ)) (x : List ℕ) → Among x names → is_registered names x ≡ true
unfolding is_registered
Among-is_registered [] x h = absurd h
Among-is_registered (name ∷ names) x (inl e) = rw e (rw (same_refl x) refl)
Among-is_registered (name ∷ names) x (inr h) = ground (arith, Among-is_registered names x h)

Among-append :
    (names : List (List ℕ)) (name x : List ℕ)
    → Among x (names ++ name ∷ [])
    → Among x names ⊎ (name ≡ x)
Among-append [] name x (inl e) = inr e
Among-append [] name x (inr h) = absurd h
Among-append (n ∷ names) name x (inl e) = inl (inl e)
Among-append (n ∷ names) name x (inr h) = elim (Among-append names name x h) [
  | inl k ↦ inl (inr k)
  | inr e ↦ inr e
]

append-Among : (names : List (List ℕ)) (name : List ℕ) → Among name (names ++ name ∷ [])
append-Among [] name = inl refl
append-Among (n ∷ names) name = inr (append-Among names name)

Different-append :
    (names : List (List ℕ)) (name : List ℕ)
    → Different names
    → ¬ Among name names
    → Different (names ++ name ∷ [])
Different-append [] name d h = (λ b. b, tt)
Different-append (n ∷ names) name d h = (
  λ k. elim (Among-append names name n k) [ inl a ↦ d.0 a | inr e ↦ h (inl (sym e)) ],
  Different-append names name d.1 (λ k. h (inr k)),
)

-- `register_filesystem` with the registered names all different. Either the name is among them, it is
-- refused and nothing changes, or it is not, it goes to the end of the list and is accepted. The names
-- all differ again, and registering the same name a second time is refused and changes nothing.
pub register_filesystem_lem :
    (s : State) (fs : FilesystemType)
    → Different s.registered_filesystems
    → let (r, s') = register_filesystem s fs in
      Different s'.registered_filesystems
      × (register_filesystem s' fs ≡ (some eexist, s'))
      × ((Among fs.name s.registered_filesystems × (r ≡ some eexist) × (s' ≡ s))
          ⊎ (¬ Among fs.name s.registered_filesystems
              × (r ≡ none)
              × (s' ≡ record s {
                registered_filesystems = s.registered_filesystems ++ fs.name ∷ [];
              })))
unfolding register_filesystem
register_filesystem_lem s fs d =
    elim (Bool-cases (is_registered s.registered_filesystems fs.name)) [
      | inl e ↦
          rw e (
            rw e
              (d, refl, inl (is_registered-Among s.registered_filesystems fs.name e, refl, refl)))
      | inr e ↦
          let new : ¬ Among fs.name s.registered_filesystems =
            λ a. ground (arith, e, Among-is_registered s.registered_filesystems fs.name a) in
          let again : is_registered (s.registered_filesystems ++ fs.name ∷ []) fs.name ≡ true =
            Among-is_registered _ _ (append-Among s.registered_filesystems fs.name) in
          rw e (
            rw again (
              Different-append s.registered_filesystems fs.name d new,
              refl,
              inr (new, refl, refl),
            ))
    ]

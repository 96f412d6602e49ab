-- ===== src/Common/Nodes.antt =====
-- The linked lists of the C code, as the list of what their nodes belong to.
use Prim.Native.Nat.{ℕ, ◌+◌, ◌≤◌}
use mathlib.Core.Path.{◌≡◌, refl, ap₂}
use mathlib.Core.Logic.{inl, inr}
use mathlib.Core.List.{List, [], ◌∷◌, ◌++◌}
use native.Mathlib.Omega.{arith}
use os_kernel_from_scratch.Common.Tests.{◌==◌, if◌then◌else◌, Bool-cases}
use mathlib.Core.Bool.{Bool, true, false, ◌&&◌}
use os_kernel_from_scratch.Common.Lists.{length}

-- `list_del` of the node that belongs to `p`.
unfoldable pub list_del : ℕ → List ℕ → List ℕ
list_del p [] = []
list_del p (x ∷ xs) = if p == x then xs else x ∷ list_del p xs

-- How often an item stands in a list.
unfoldable pub count : ℕ → List ℕ → ℕ
count p [] = 0
count p (x ∷ xs) = (if p == x then 1 else 0) + count p xs

pub count-append :
    (p x : ℕ) (xs : List ℕ) → count p (xs ++ x ∷ []) ≡ count p xs + (if p == x then 1 else 0)
unfolding count
count-append p x [] = omega arith
count-append p x (y ∷ xs) = omega (arith, count-append p x xs)

pub count-list_del :
    (p q : ℕ) (xs : List ℕ)
    → 1 ≤ count p xs
    → (count q (list_del p xs) + (if q == p then 1 else 0) ≡ count q xs)
      × (length (list_del p xs) + 1 ≡ length xs)
unfolding count list_del
count-list_del p q [] h = absurd (omega arith)
count-list_del p q (x ∷ xs) h = elim (Bool-cases (p == x)) [
  | inl e ↦ let s : p ≡ x = ground arith in rw e (rw s (omega arith, omega arith))
  | inr n ↦
      let r : (count q (list_del p xs) + (if q == p then 1 else 0) ≡ count q xs)
          × (length (list_del p xs) + 1 ≡ length xs) =
        count-list_del p q xs (ground arith) in
      rw n (omega (arith, r), omega (arith, r))
]

-- What is not on a list is not taken off.
pub list_del-absent : (p : ℕ) (xs : List ℕ) → count p xs ≡ 0 → list_del p xs ≡ xs
unfolding count list_del
list_del-absent p [] h = refl
list_del-absent p (x ∷ xs) h = ground (arith, list_del-absent p xs)

-- What has just been added at the end is what is taken off.
pub list_del-append : (p : ℕ) (xs : List ℕ) → count p xs ≡ 0 → list_del p (xs ++ p ∷ []) ≡ xs
unfolding count list_del
list_del-append p [] h = ground arith
list_del-append p (x ∷ xs) h = ground (arith, list_del-append p xs)

-- Whether two texts are the same: `strcmp(a, b) == 0`.
unfoldable pub same : List ℕ → List ℕ → Bool
same [] [] = true
same [] (y ∷ ys) = false
same (x ∷ xs) [] = false
same (x ∷ xs) (y ∷ ys) = x == y && same xs ys

pub same_refl : (xs : List ℕ) → same xs xs ≡ true
unfolding same
same_refl [] = refl
same_refl (x ∷ xs) = ground (arith, same_refl xs)

pub same_sound : (xs ys : List ℕ) → same xs ys ≡ true → xs ≡ ys
unfolding same
same_sound [] [] h = refl
same_sound [] (y ∷ ys) h = cc
same_sound (x ∷ xs) [] h = cc
same_sound (x ∷ xs) (y ∷ ys) h =
    let first : x ≡ y = ground arith in
    let rest : same xs ys ≡ true = ground arith in ap₂ ◌∷◌ first (same_sound xs ys rest)

-- ===== src/Common/Totals.antt =====
-- Sums of weights over a list: what one write changes, and which items have a weight.
use Prim.Native.Nat.{ℕ, zero, suc, ◌+◌, ◌*◌, ◌≤◌}
use mathlib.Core.Path.{◌≡◌, refl, ap}
use mathlib.Core.Logic.{◌≢◌}
use mathlib.Core.List.{List, [], ◌∷◌}
use mathlib.Core.Option.{some}
use native.Mathlib.Omega.{arith}
use native.Mathlib.Decide.{ℕ_discrete}
use os_kernel_from_scratch.Common.Lists.{get_elem?, set, replicate, total}

module _ {ℓ} {A : Type ℓ} where
  pub total-set :
      (w : A → ℕ) (xs : List A) (i : ℕ) (a b : A)
      → get_elem? xs i ≡ some a
      → total w (set xs i b) + w a ≡ total w xs + w b
  unfolding total
  total-set w [] i a b h = absurd (cc)
  total-set w (x ∷ xs) zero a b h = let e : x ≡ a = cc in rw e (omega arith)
  total-set w (x ∷ xs) (suc i) a b h = omega (arith, total-set w xs i a b h)

  pub total-le : (v w : A → ℕ) (xs : List A) → ((x : A) → v x ≤ w x) → total v xs ≤ total w xs
  unfolding total
  total-le v w [] h = omega arith
  total-le v w (x ∷ xs) h = omega (arith, h x, total-le v w xs h)

  pub total_none : (w : A → ℕ) (xs : List A) → ((x : A) → w x ≡ 0) → total w xs ≡ 0
  unfolding total
  total_none w [] h = refl
  total_none w (x ∷ xs) h = omega (arith, h x, total_none w xs h)

  pub le-total :
      (w : A → ℕ) (xs : List A) (i : ℕ) (a : A) → get_elem? xs i ≡ some a → w a ≤ total w xs
  unfolding total
  le-total w [] i a h = absurd (cc)
  le-total w (x ∷ xs) zero a h = let e : x ≡ a = cc in rw e (omega arith)
  le-total w (x ∷ xs) (suc i) a h = omega (arith, le-total w xs i a h)

  -- Two places have two weights.
  pub two-le-total :
      (w : A → ℕ) (xs : List A) (i j : ℕ) (a b : A)
      → i ≢ j
      → get_elem? xs i ≡ some a
      → get_elem? xs j ≡ some b
      → w a + w b ≤ total w xs
  unfolding total
  two-le-total w [] i j a b n h k = absurd (cc)
  two-le-total w (x ∷ xs) zero zero a b n h k = absurd (n refl)
  two-le-total w (x ∷ xs) zero (suc j) a b n h k =
      let e : x ≡ a = cc in rw e (omega (arith, le-total w xs j b k))
  two-le-total w (x ∷ xs) (suc i) zero a b n h k =
      let e : x ≡ b = cc in rw e (omega (arith, le-total w xs i a h))
  two-le-total w (x ∷ xs) (suc i) (suc j) a b n h k =
      omega (arith, two-le-total w xs i j a b (λ e. n (ap suc e)) h k)

  pub total_find :
      (w : A → ℕ) (xs : List A)
      → 1 ≤ total w xs
      → (i : ℕ) × (a : A) × (get_elem? xs i ≡ some a) × (1 ≤ w a)
  unfolding total
  total_find w [] h = absurd (omega arith)
  total_find w (x ∷ xs) h = elim (ℕ_discrete (w x) 0) [
    | yes e ↦
        let r : (i : ℕ) × (a : A) × (get_elem? xs i ≡ some a) × (1 ≤ w a) =
          total_find w xs (omega arith) in
        (suc r.0, r.1, r.2, r.3)
    | no n ↦ (0, x, refl, omega arith)
  ]

  pub total-replicate : (w : A → ℕ) (n : ℕ) (a : A) → total w (replicate n a) ≡ n * w a
  unfolding total
  total-replicate w zero a = omega arith
  total-replicate w (suc n) a = grind (arith, total-replicate w n a)

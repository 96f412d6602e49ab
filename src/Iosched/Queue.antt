-- ===== src/Iosched/Queue.antt =====
-- The linked lists of requests that the schedulers keep (`list_add_tail`, `list_del`, the insertion
-- by sector), and their laws.
use os_kernel_from_scratch.Common.{ℕ, ◌+◌, ◌≤◌}
use os_kernel_from_scratch.Common.{◌≡◌, refl, ◌≢◌, inl, inr}
use os_kernel_from_scratch.Common.{List, [], ◌∷◌}
use os_kernel_from_scratch.Common.{arith, ℕ_discrete, ltb, ◌==◌, if◌then◌else◌}
use os_kernel_from_scratch.Common.{Bool-cases}
use mathlib.Core.Logic.{ite, if_pos, if_neg}
use os_kernel_from_scratch.Common.{total}
use os_kernel_from_scratch.Iosched.Request.{Request}

-- `list_del` of the node of the request at `address`.
unfoldable pub unlink : ℕ → List Request → List Request
unlink address [] = []
unlink address (r ∷ rs) = if r.address == address then rs else r ∷ unlink address rs

-- The loop that adds a request before the first with a larger sector, or at the end.
unfoldable pub insert_sorted : Request → List Request → List Request
insert_sorted req [] = req ∷ []
insert_sorted req (pos ∷ rs) =
    if ltb req.sector pos.sector then req ∷ pos ∷ rs else pos ∷ insert_sorted req rs

-- All requests of the list start at sector `s` or later.
abbrev pub AllFrom : ℕ → List Request → Type 0
AllFrom s [] = Unit
AllFrom s (r ∷ rs) = (s ≤ r.sector) × AllFrom s rs

abbrev pub IsSorted : List Request → Type 0
IsSorted [] = Unit
IsSorted (r ∷ rs) = AllFrom r.sector rs × IsSorted rs

AllFrom-weaken : (s t : ℕ) (rs : List Request) → s ≤ t → AllFrom t rs → AllFrom s rs
AllFrom-weaken s t [] h a = tt
AllFrom-weaken s t (r ∷ rs) h a = (omega arith, AllFrom-weaken s t rs h a.1)

AllFrom-insert_sorted :
    (s : ℕ) (req : Request) (rs : List Request)
    → s ≤ req.sector
    → AllFrom s rs
    → AllFrom s (insert_sorted req rs)
unfolding insert_sorted
AllFrom-insert_sorted s req [] h a = (h, tt)
AllFrom-insert_sorted s req (r ∷ rs) h a = elim (Bool-cases (ltb req.sector r.sector)) [
  | inl l ↦ rw l (h, a)
  | inr g ↦ rw g (a.0, AllFrom-insert_sorted s req rs h a.1)
]

pub insert_sorted-IsSorted :
    (req : Request) (rs : List Request) → IsSorted rs → IsSorted (insert_sorted req rs)
unfolding insert_sorted
insert_sorted-IsSorted req [] o = (tt, tt)
insert_sorted-IsSorted req (r ∷ rs) o = elim (Bool-cases (ltb req.sector r.sector)) [
  | inl l ↦ rw l ((ground arith, AllFrom-weaken req.sector r.sector rs (ground arith) o.0), o)
  | inr g ↦
      rw g (
        AllFrom-insert_sorted r.sector req rs (ground arith) o.0,
        insert_sorted-IsSorted req rs o.1,
      )
]

AllFrom-unlink : (s a : ℕ) (rs : List Request) → AllFrom s rs → AllFrom s (unlink a rs)
unfolding unlink
AllFrom-unlink s a [] h = tt
AllFrom-unlink s a (r ∷ rs) h = elim (Bool-cases (r.address == a)) [
  | inl e ↦ rw e h.1
  | inr n ↦ rw n (h.0, AllFrom-unlink s a rs h.1)
]

pub unlink-IsSorted : (a : ℕ) (rs : List Request) → IsSorted rs → IsSorted (unlink a rs)
unfolding unlink
unlink-IsSorted a [] o = tt
unlink-IsSorted a (r ∷ rs) o = elim (Bool-cases (r.address == a)) [
  | inl e ↦ rw e o.1
  | inr n ↦ rw n (AllFrom-unlink r.sector a rs o.0, unlink-IsSorted a rs o.1)
]

pub total-insert_sorted :
    (w : Request → ℕ) (req : Request) (rs : List Request)
    → total w (insert_sorted req rs) ≡ w req + total w rs
unfolding insert_sorted total
total-insert_sorted w req [] = refl
total-insert_sorted w req (r ∷ rs) = ground (arith, total-insert_sorted w req rs)

pub data In (r : Request) : List Request → Type 0 where
  here : {rs : List Request} → In r (r ∷ rs)
  there : {s : Request} {rs : List Request} → In r rs → In r (s ∷ rs)

-- 1 for a request at the address.
abbrev pub at_address : ℕ → Request → ℕ
at_address a r = if r.address == a then 1 else 0

pub In-at_address :
    {r : Request} {rs : List Request} → In r rs → 1 ≤ total (at_address r.address) rs
unfolding total
In-at_address here = ground arith
In-at_address (there i) = omega (arith, In-at_address i)

-- Where addresses are unique, `list_del` takes out the very request.
pub total-unlink :
    (w : Request → ℕ) {r : Request} {rs : List Request}
    → In r rs
    → total (at_address r.address) rs ≤ 1
    → w r + total w (unlink r.address rs) ≡ total w rs
unfolding total unlink
total-unlink w here u = ground arith
total-unlink w {r} (there {s} {rs} i) u = elim (Bool-cases (s.address == r.address)) [
  | inl e ↦ absurd (ground (arith, In-at_address i))
  | inr n ↦ ground (arith, n, total-unlink w i)
]

Request-discrete : Discrete Request
Request-discrete = hlevel ℕ_discrete

-- 1 for the very request.
pub is : Request → Request → ℕ
is r s = ite (Request-discrete s r) 1 0

is_self : (r : Request) → is r r ≡ 1
unfolding is
is_self r = if_pos (Request-discrete r r) refl 1 0

is_ne : (r s : Request) → s ≢ r → is r s ≡ 0
unfolding is
is_ne r s n = if_neg (Request-discrete s r) n 1 0

-- Membership is a positive count.
pub In_is : (r : Request) (rs : List Request) → 1 ≤ total (is r) rs → In r rs
unfolding total
In_is r [] h = elim h [ ]
In_is r (s ∷ rs) h = elim (Request-discrete s r) [
  | yes e ↦ rw e here
  | no n ↦ there (In_is r rs (omega (arith, is_ne r s n)))
]

pub is_In : {r : Request} {rs : List Request} → In r rs → 1 ≤ total (is r) rs
unfolding total
is_In {r} here = omega (arith, is_self r)
is_In (there i) = omega (arith, is_In i)

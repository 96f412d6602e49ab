-- ===== src/Iosched/Deadline/Side.antt =====
-- The reads and the writes of a list of requests, and the oldest of them.
use os_kernel_from_scratch.Common.{
  ℕ, ◌+◌, ◌≤◌, ◌≡◌, refl, sym, ap, ◌∙◌, inl, inr, List, [], ◌∷◌, ◌++◌, Bool, true, false, not,
  arith, ◌==◌, if◌then◌else◌, Bool-cases, total,
}
use os_kernel_from_scratch.Iosched.Request.{Request, bio_op_read}
use os_kernel_from_scratch.Iosched.Queue.{unlink, AllFrom, In, here, there, at_address}
use os_kernel_from_scratch.Iosched.Deadline.Books.{absent}

-- The request is a read, or with `false` is none.
abbrev pub goes : Bool → Request → Bool
goes b r = if r.op == bio_op_read then b else not b

-- The requests of one side, in the same order.
abbrev pub side : Bool → List Request → List Request
side b [] = []
side b (r ∷ rs) = if goes b r then r ∷ side b rs else side b rs

pub side-append : (b : Bool) (xs ys : List Request) → side b (xs ++ ys) ≡ side b xs ++ side b ys
side-append b [] ys = refl
side-append b (x ∷ xs) ys = elim (Bool-cases (goes b x)) [
  | inl e ↦ rw e (ap (λ l. x ∷ l) (side-append b xs ys))
  | inr e ↦ rw e (side-append b xs ys)
]

pub total-side :
    (w : Request → ℕ) (rs : List Request)
    → total w (side true rs) + total w (side false rs) ≡ total w rs
unfolding total
total-side w [] = refl
total-side w (r ∷ rs) = elim (Bool-cases (r.op == bio_op_read)) [
  | inl e ↦ rw e (omega (arith, total-side w rs))
  | inr e ↦ rw e (omega (arith, total-side w rs))
]

side_le : (w : Request → ℕ) (b : Bool) (rs : List Request) → total w (side b rs) ≤ total w rs
side_le w true rs = omega (arith, total-side w rs)
side_le w false rs = omega (arith, total-side w rs)

-- Where addresses are unique, `list_del` and the choice of a side commute.
pub side-unlink :
    (b : Bool) (a : ℕ) (rs : List Request)
    → total (at_address a) rs ≤ 1
    → side b (unlink a rs) ≡ unlink a (side b rs)
unfolding unlink total
side-unlink b a [] h = refl
side-unlink b a (r ∷ rs) h = elim (Bool-cases (r.address == a)) [
  | inl e ↦
      let none_left : total (at_address a) rs ≡ 0 = ground arith in
      let gone : unlink a (side b rs) ≡ side b rs =
        absent (at_address a) a (side b rs)
          (omega (arith, none_left, side_le (at_address a) b rs)) in
      elim (Bool-cases (goes b r)) [ inl g ↦ rw (e, g) (rw e refl) | inr g ↦ rw (e, g) (sym gone) ]
  | inr e ↦
      let rest : side b (unlink a rs) ≡ unlink a (side b rs) = side-unlink b a rs (ground arith) in
      elim (Bool-cases (goes b r)) [
        | inl g ↦ rw (e, g) (rw e (ap (λ l. r ∷ l) rest))
        | inr g ↦ rw (e, g) rest
      ]
]

-- The first of its side in the list.
pub record Oldest (b : Bool) (rs : List Request) (r : Request) : Type 0 where
  pub before : List Request
  pub after : List Request
  pub split : rs ≡ before ++ r ∷ after
  pub own : goes b r ≡ true
  pub first : side b before ≡ []

pub side-Oldest :
    (b : Bool) (rs : List Request) (r : Request) (ss : List Request)
    → side b rs ≡ r ∷ ss
    → Oldest b rs r
side-Oldest b [] r ss e = absurd (cc)
side-Oldest b (x ∷ rs) r ss e = elim (Bool-cases (goes b x)) [
  | inl g ↦
      let same : x ∷ side b rs ≡ r ∷ ss = rw g at e in
      let here : x ≡ r = cc in
      record {
        before = [];
        after = rs;
        split = ap (λ y. y ∷ rs) here;
        own = ap (goes b) (sym here) ∙ g;
        first = refl;
      }
  | inr g ↦
      let o = side-Oldest b rs r ss (rw g at e) in
      record {
        before = x ∷ o.before;
        after = o.after;
        split = ap (λ l. x ∷ l) o.split;
        own = o.own;
        first = rw g o.first;
      }
]

pub Oldest-side :
    (b : Bool) (rs : List Request) (r : Request)
    → Oldest b rs r
    → (ss : List Request) × (side b rs ≡ r ∷ ss)
Oldest-side b rs r o = (
  side b o.after,
  ap (side b) o.split
      ∙ side-append b o.before (r ∷ o.after)
      ∙ ap (λ l. l ++ side b (r ∷ o.after)) o.first
      ∙ rw o.own refl,
)

pub AllFrom-In : (s : ℕ) (rs : List Request) (q : Request) → AllFrom s rs → In q rs → s ≤ q.sector
AllFrom-In s [] q h i = elim i [ ]
AllFrom-In s (x ∷ rs) q h here = h.0
AllFrom-In s (x ∷ rs) q h (there i) = AllFrom-In s rs q h.1 i

-- ===== src/Lvm/Lv/Create.antt =====
-- `lv_create` and `lv_extend` map each logical extent to a physical extent of its own.
use os_kernel_from_scratch.Common.{ℕ, zero, suc, ◌+◌, ◌≤◌, ◌<◌}
use os_kernel_from_scratch.Common.{◌≡◌, refl, ap, ◌∙◌, ◌≢◌, inl, inr}
use os_kernel_from_scratch.Common.{Bool, true, false}
use os_kernel_from_scratch.Common.{none, some, List, [], ◌∷◌}
use os_kernel_from_scratch.Common.{arith, dec_lt}
use os_kernel_from_scratch.Common.{Bool-cases, Option-cases, length}
use os_kernel_from_scratch.Lvm.Vg.{Vg, vg_alloc_pe}
use os_kernel_from_scratch.Lvm.Vg.Books
use os_kernel_from_scratch.Lvm.Vg.Books.{occupied, extents, Taken}
use os_kernel_from_scratch.Lvm.Vg.Alloc.{vg_alloc_pe_sound, vg_alloc_pe_one}
use os_kernel_from_scratch.Lvm.Lv.{LeMap, extend}

-- Whether the physical extent of a map entry is in use.
abbrev pub in_use : Vg → LeMap → Bool
in_use g m = occupied g.pvs m.pv_index m.pe_start

-- The physical extent of a map entry exists.
abbrev pub Exists : Vg → LeMap → Type 0
Exists g m = m.pe_start < extents g.pvs m.pv_index

-- The entry `m` went from free to used.
pub record Fresh (g g' : Vg) (m : LeMap) : Type 0 where
  pub exists : Exists g m
  pub was_free : in_use g m ≡ false
  pub now_used : in_use g' m ≡ true

-- An allocation frees nothing and changes no volume's size.
pub record Grows (g g' : Vg) : Type 0 where
  pub keeps : (m : LeMap) → in_use g m ≡ true → in_use g' m ≡ true
  pub same : (i : ℕ) → extents g'.pvs i ≡ extents g.pvs i

abbrev pub All : (LeMap → Type 0) → List LeMap → Type 0
All P [] = Unit
All P (m ∷ ms) = P m × All P ms

-- The new entries of a map are pairwise different physical extents, each of which went from free
-- to used.
abbrev pub AllFresh : Vg → Vg → List LeMap → Type 0
AllFresh g g' ms = All (Fresh g g') ms

abbrev pub Distinct : List LeMap → Type 0
Distinct [] = Unit
Distinct (m ∷ ms) = All (λ k. m ≢ k) ms × Distinct ms

Fresh-trans : {g g' g'' : Vg} {m : LeMap} → Grows g' g'' → Fresh g g' m → Fresh g g'' m
Fresh-trans {m} grows f = record {
  exists = f.exists;
  was_free = f.was_free;
  now_used = grows.keeps m f.now_used;
}

Fresh-earlier :
    (g g' g'' : Vg) (ms : List LeMap) → Grows g g' → AllFresh g' g'' ms → AllFresh g g'' ms
Fresh-earlier g g' g'' [] grows fs = tt
Fresh-earlier g g' g'' (m ∷ ms) grows (f, fs) = (
  record {
    exists = rw (← grows.same m.pv_index) f.exists;
    was_free = before;
    now_used = f.now_used;
  },
  Fresh-earlier g g' g'' ms grows fs,
)
  where
    before : in_use g m ≡ false
    before = elim (Bool-cases (in_use g m)) [
      | inl used ↦ let now : in_use g' m ≡ true = grows.keeps m used in ground (arith, f.was_free)
      | inr free ↦ free
    ]

-- An entry that is used already differs from all that are fresh.
used-Distinct :
    (g g' : Vg) (m : LeMap) (ms : List LeMap)
    → in_use g m ≡ true
    → AllFresh g g' ms
    → All (λ k. m ≢ k) ms
used-Distinct g g' m [] used fs = tt
used-Distinct g g' m (k ∷ ms) used (f, fs) = (differ, used-Distinct g g' m ms used fs)
  where
    differ : m ≢ k
    differ e = let now : in_use g k ≡ true = rw (← e) used in ground (arith, f.was_free)

-- What the loop that maps `n` more extents gives: fresh, pairwise different extents, one for each
-- unit by which the group's free count falls; all `n` of them, or every one that was free.
pub record Extended (n : ℕ) (g : Vg) (done : Bool) (new : List LeMap) (g' : Vg) : Type 0 where
  pub fresh : AllFresh g g' new
  pub distinct : Distinct new
  pub valid : Books.IsValid g'
  pub grows : Grows g g'
  pub books : g'.free_pe + length new ≡ g.free_pe
  pub full : done ≡ true → length new ≡ n
  pub short : done ≡ false → (g'.free_pe ≡ 0) × (length new < n)
  pub at_most : length new ≤ n

Taken-Fresh :
    {g g' : Vg} {i start : ℕ}
    → Taken g.pvs 1 i start g'.pvs
    → Grows g g' × Fresh g g' (record { pv_index = i; pe_start = start })
Taken-Fresh {g} {g'} {i} {start} t = (
  record { keeps = λ m used. ground (arith, t.now m.pv_index m.pe_start); same = t.same_extents },
  record {
    exists = omega (arith, t.within);
    was_free = t.was_free start (omega arith) (omega arith);
    now_used = ground (arith, t.now i start);
  },
)

pub extend-none : (n : ℕ) (g : Vg) → vg_alloc_pe g 1 ≡ none → extend (suc n) g ≡ (false, [], g)
unfolding extend
extend-none n g e = rw (e, extend) refl

-- The entry for an allocation.
abbrev pub entry : ℕ → ℕ → LeMap
entry i start = record { pv_index = i; pe_start = start }

pub extend-some :
    (n : ℕ) (g : Vg) (i start : ℕ) (g' : Vg)
    → vg_alloc_pe g 1 ≡ some (i, start, g')
    → extend (suc n) g ≡ ((extend n g').0, entry i start ∷ (extend n g').1, (extend n g').2)
unfolding extend
extend-some n g i start g' e = rw (e, extend) refl

Extended-none :
    (n : ℕ) (g : Vg) → Books.IsValid g → vg_alloc_pe g 1 ≡ none → Extended (suc n) g false [] g
Extended-none n g v gone = record {
  fresh = tt;
  distinct = tt;
  valid = v;
  grows = record { keeps = λ m used. used; same = λ i. refl };
  books = omega arith;
  full = λ e. cc;
  short = λ _. (empty, omega arith);
  at_most = omega arith;
}
  where
    empty : g.free_pe ≡ 0
    empty = elim (dec_lt 0 g.free_pe) [
      | yes some_left ↦ let (i, start, g', ok) = vg_alloc_pe_one g v some_left in cc
      | no none_left ↦ omega arith
    ]

Extended-some :
    (n : ℕ) (g : Vg) (i start : ℕ) (g' : Vg) (done : Bool) (new : List LeMap) (g'' : Vg)
    → Books.IsValid g
    → vg_alloc_pe g 1 ≡ some (i, start, g')
    → Extended n g' done new g''
    → Extended (suc n) g done (entry i start ∷ new) g''
Extended-some n g i start g' done new g'' v ok x =
    let (t, v', b) = vg_alloc_pe_sound g 1 i start g' v (omega arith) ok in
    let (grows, f) = Taken-Fresh {g = g} {g' = g'} t in
    record {
      fresh = (Fresh-trans x.grows f, Fresh-earlier g g' g'' new grows x.fresh);
      distinct = (used-Distinct g' g'' (entry i start) new f.now_used x.fresh, x.distinct);
      valid = x.valid;
      grows = record {
        keeps = λ m used. x.grows.keeps m (grows.keeps m used);
        same = λ j. x.grows.same j ∙ grows.same j;
      };
      books = omega (arith, x.books);
      full = λ e. ap suc (x.full e);
      short = λ e. omega (arith, x.short e);
      at_most = omega (arith, x.at_most);
    }

pub extend-Extended :
    (n : ℕ) (g : Vg) → Books.IsValid g → Extended n g (extend n g).0 (extend n g).1 (extend n g).2
unfolding extend
extend-Extended zero g v = record {
  fresh = tt;
  distinct = tt;
  valid = v;
  grows = record { keeps = λ m used. used; same = λ i. refl };
  books = omega arith;
  full = λ _. refl;
  short = λ e. cc;
  at_most = omega arith;
}
extend-Extended (suc n) g v = elim (Option-cases (vg_alloc_pe g 1)) [
  | inl gone ↦ rw (extend-none n g gone) (Extended-none n g v gone)
  | inr ((i, start, g'), ok) ↦
      let (_, v', _) = vg_alloc_pe_sound g 1 i start g' v (omega arith) ok in
      rw (extend-some n g i start g' ok)
        (Extended-some n g i start g' _ _ _ v ok (extend-Extended n g' v'))
]

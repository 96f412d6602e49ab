-- ===== src/Route/Longest.antt =====
-- `lookup_route` finds the first route with the longest matching prefix.
use os_kernel_from_scratch.Common.{ℕ, zero, suc, ◌/◌, ◌^◌, ◌≤◌, ◌<◌}
use os_kernel_from_scratch.Common.{◌≡◌, refl, sym, ◌≢◌, inl, inr}
use os_kernel_from_scratch.Common.{true, false}
use os_kernel_from_scratch.Common.{none, some, List, [], ◌∷◌, ◌++◌}
use os_kernel_from_scratch.Common.{arith}
use os_kernel_from_scratch.Common.{Bool-cases}
use mathlib.Core.List.{append-nil, append_assoc}
use os_kernel_from_scratch.Route.{
  RouteEntry, RouteResult, route_matches, count_bits, prefix_len, longer, lookup_from, lookup_route,
}

-- The route matches the address.
abbrev pub Matches : RouteEntry → ℕ → Type 0
Matches r ip = route_matches r.dst r.mask ip ≡ true

-- The loop of `prefix_len` sees every bit of a mask below `2 ^ n` in `n` rounds: more change nothing.
pub count_bits_enough : (n k m : ℕ) → m < 2 ^ n → n ≤ k → count_bits k m ≡ count_bits n m
unfolding count_bits
count_bits_enough zero zero m h l = refl
count_bits_enough zero (suc k) m h l = ground arith
count_bits_enough (suc n) zero m h l = absurd (omega arith)
count_bits_enough (suc n) (suc k) m h l =
    ground (arith, count_bits_enough n k (m / 2) (omega arith) (omega arith))

-- All matching routes of the list have a prefix of at most `l` bits; shorter ones if `strict`.
abbrev pub AllBelow : ℕ → ℕ → List RouteEntry → Type 0
AllBelow ip l [] = Unit
AllBelow ip l (r ∷ rs) = (Matches r ip → prefix_len r.mask ≤ l) × AllBelow ip l rs

abbrev pub AllShorter : ℕ → ℕ → List RouteEntry → Type 0
AllShorter ip l [] = Unit
AllShorter ip l (r ∷ rs) = (Matches r ip → prefix_len r.mask < l) × AllShorter ip l rs

abbrev pub NoneMatches : ℕ → List RouteEntry → Type 0
NoneMatches ip [] = Unit
NoneMatches ip (r ∷ rs) = (route_matches r.dst r.mask ip ≡ false) × NoneMatches ip rs

-- What the lookup may answer for the routes: nothing if no route matches, else a matching route
-- that stands behind routes with shorter prefixes and before none with a longer one.
pub data Longest (routes : List RouteEntry) (ip : ℕ) : RouteResult → Type 0 where
  no_route : NoneMatches ip routes → Longest routes ip none
  best_route :
      (before after : List RouteEntry) (r : RouteEntry) (l : ℕ)
      → routes ≡ before ++ r ∷ after
      → Matches r ip
      → l ≡ prefix_len r.mask
      → AllShorter ip l before
      → AllBelow ip l after
      → Longest routes ip (some (r, l))

NoneMatches-snoc :
    (ip : ℕ) (rs : List RouteEntry) (r : RouteEntry)
    → NoneMatches ip rs
    → route_matches r.dst r.mask ip ≡ false
    → NoneMatches ip (rs ++ r ∷ [])
NoneMatches-snoc ip [] r n m = (m, tt)
NoneMatches-snoc ip (s ∷ rs) r n m = (n.0, NoneMatches-snoc ip rs r n.1 m)

AllBelow-snoc :
    (ip l : ℕ) (rs : List RouteEntry) (r : RouteEntry)
    → AllBelow ip l rs
    → (Matches r ip → prefix_len r.mask ≤ l)
    → AllBelow ip l (rs ++ r ∷ [])
AllBelow-snoc ip l [] r a h = (h, tt)
AllBelow-snoc ip l (s ∷ rs) r a h = (a.0, AllBelow-snoc ip l rs r a.1 h)

NoneMatches-AllShorter : (ip l : ℕ) (rs : List RouteEntry) → NoneMatches ip rs → AllShorter ip l rs
NoneMatches-AllShorter ip l [] n = tt
NoneMatches-AllShorter ip l (r ∷ rs) n = ((λ m. cc), NoneMatches-AllShorter ip l rs n.1)

-- Routes of at most `l` bits are shorter than `k > l`.
AllBelow-AllShorter :
    (ip l k : ℕ) (rs : List RouteEntry) → l < k → AllBelow ip l rs → AllShorter ip k rs
AllBelow-AllShorter ip l k [] h a = tt
AllBelow-AllShorter ip l k (r ∷ rs) h a =
    ((λ m. omega (arith, a.0 m)), AllBelow-AllShorter ip l k rs h a.1)

AllShorter-join :
    (ip l k : ℕ) (before after : List RouteEntry) (r : RouteEntry)
    → l < k
    → prefix_len r.mask ≡ l
    → AllShorter ip l before
    → AllBelow ip l after
    → AllShorter ip k (before ++ r ∷ after)
AllShorter-join ip l k [] after r h e s a =
    ((λ _. omega arith), AllBelow-AllShorter ip l k after h a)
AllShorter-join ip l k (q ∷ before) after r h e s a =
    ((λ m. omega (arith, s.0 m)), AllShorter-join ip l k before after r h e s.1 a)

-- One more route that does not match.
skip :
    (done : List RouteEntry) (ip : ℕ) (r : RouteEntry) (best : RouteResult)
    → Longest done ip best
    → (Matches r ip → longer (prefix_len r.mask) best ≡ false)
    → (best ≡ none → route_matches r.dst r.mask ip ≡ false)
    → Longest (done ++ r ∷ []) ip best
unfolding longer
skip done ip r none (no_route n) h z = no_route (NoneMatches-snoc ip done r n (z refl))
skip done ip r (some p) (best_route before after b l split m e s a) h z =
    best_route before (after ++ r ∷ []) b l (rw split (append_assoc before (b ∷ after) (r ∷ []))) m
      e s (AllBelow-snoc ip l after r a (λ w. ground (arith, h w)))

-- One more route that matches and is longer than the best.
take_longer :
    (done : List RouteEntry) (ip : ℕ) (r : RouteEntry) (best : RouteResult)
    → Longest done ip best
    → Matches r ip
    → longer (prefix_len r.mask) best ≡ true
    → Longest (done ++ r ∷ []) ip (some (r, prefix_len r.mask))
unfolding longer
take_longer done ip r none (no_route n) m h =
    best_route done [] r (prefix_len r.mask) refl m refl (NoneMatches-AllShorter ip _ done n) tt
take_longer done ip r (some p) (best_route before after b l split mb e s a) m h =
    best_route done [] r (prefix_len r.mask) refl m refl
      (rw split
        (AllShorter-join ip l (prefix_len r.mask) before after b (ground arith) (sym e) s a))
      tt

longer-none : (ml : ℕ) (best : RouteResult) → best ≡ none → longer ml best ≢ false
unfolding longer
longer-none ml none z = λ n. cc
longer-none ml (some p) z = λ n. cc

lookup_from-Longest :
    (rs done : List RouteEntry) (ip : ℕ) (best : RouteResult)
    → Longest done ip best
    → Longest (done ++ rs) ip (lookup_from rs ip best)
unfolding lookup_from
lookup_from-Longest [] done ip best h = rw (append-nil done) h
lookup_from-Longest (r ∷ rs) done ip best h =
    rw (← append_assoc done (r ∷ []) rs) (elim (Bool-cases (route_matches r.dst r.mask ip)) [
      | inl m ↦ elim (Bool-cases (longer (prefix_len r.mask) best)) [
        | inl l ↦
            rw (m, l)
              (lookup_from-Longest rs (done ++ r ∷ []) ip _ (take_longer done ip r best h m l))
        | inr n ↦
            rw (m, n)
              (lookup_from-Longest rs (done ++ r ∷ []) ip best (
                skip done ip r best h (λ _. n)
                  (λ z. absurd (longer-none (prefix_len r.mask) best z n))))
      ]
      | inr n ↦ rw n (
          lookup_from-Longest rs (done ++ r ∷ []) ip best
            (skip done ip r best h (λ m. cc) (λ _. n)))
    ])

-- `lookup_route` returns the first of the matching routes with the longest prefix, whatever the
-- metrics; it returns none only if no route matches.
pub lookup_route_lem :
    (routes : List RouteEntry) (ip : ℕ) → Longest routes ip (lookup_route routes ip)
unfolding lookup_route
lookup_route_lem routes ip = lookup_from-Longest routes [] ip none (no_route tt)

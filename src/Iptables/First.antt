-- ===== src/Iptables/First.antt =====
-- Which rule of a chain decides.
use os_kernel_from_scratch.Common.{ℕ, ◌+◌}
use os_kernel_from_scratch.Common.{◌≡◌, refl, ap, ◌⊎◌, inl, inr}
use os_kernel_from_scratch.Common.{true, false}
use os_kernel_from_scratch.Common.{Option, none, some, List, [], ◌∷◌, ◌++◌}
use os_kernel_from_scratch.Common.{arith, if◌then◌else◌}
use os_kernel_from_scratch.Common.{Bool-cases}
use os_kernel_from_scratch.Iptables.{
  TargetType, Rule, Pkt, Chain, match_packet, is_log, eval_rules, or_default, eval_chain, add_rule,
}

-- The rule decides on the packet: it matches, and does not only log.
abbrev pub Decides : Pkt → Rule → Type 0
Decides p r = (match_packet r.matches p ≡ true) × (is_log r.target ≡ false)

abbrev pub Undecided : Pkt → List Rule → Type 0
Undecided p [] = Unit
Undecided p (r ∷ rs) = (¬ Decides p r) × Undecided p rs

-- The matching rules of the list.
abbrev pub matching : Pkt → List Rule → ℕ
matching p [] = 0
matching p (r ∷ rs) = (if match_packet r.matches p then 1 else 0) + matching p rs

-- What a walk along the rules gives: the target of the first that decides, or none, and how many
-- matched on the way.
pub data Verdict (rs : List Rule) (p : Pkt) : Option TargetType → ℕ → Type 0 where
  undecided : Undecided p rs → Verdict rs p none (matching p rs)
  decided :
      (before after : List Rule) (r : Rule)
      → rs ≡ before ++ r ∷ after
      → Undecided p before
      → Decides p r
      → Verdict rs p (some r.target) (matching p before + 1)

cons_verdict :
    (r : Rule) (rs : List Rule) (p : Pkt) (o : Option TargetType) (n k : ℕ)
    → ¬ Decides p r
    → k ≡ (if match_packet r.matches p then 1 else 0) + n
    → Verdict rs p o n
    → Verdict (r ∷ rs) p o k
cons_verdict r rs p none n k d e (undecided u) = rw e (undecided (d, u))
cons_verdict r rs p (some t) n k d e (decided before after q split u w) =
    let same : k ≡ matching p (r ∷ before) + 1 = omega (arith, e) in
    rw same (decided (r ∷ before) after q (ap (λ l. r ∷ l) split) (d, u) w)

eval_rules-Verdict :
    (rs : List Rule) (p : Pkt) → Verdict rs p (eval_rules rs p).0 (eval_rules rs p).1
unfolding eval_rules
eval_rules-Verdict [] p = undecided tt
eval_rules-Verdict (r ∷ rs) p = elim (Bool-cases (match_packet r.matches p)) [
  | inl m ↦ elim (Bool-cases (is_log r.target)) [
    | inl l ↦
        rw (m, l)
          (cons_verdict r rs p _ _ _ (λ d. cc) (ground (arith, m)) (eval_rules-Verdict rs p))
    | inr n ↦ rw (m, n) (decided [] rs r refl tt (m, n))
  ]
  | inr n ↦ rw n (cons_verdict r rs p _ _ _ (λ d. cc) (ground (arith, n)) (eval_rules-Verdict rs p))
]

-- The first rule of a chain that matches and does not only log decides; without one the default
-- policy does. The packet count grows by the number of rules that matched up to there.
pub eval_chain_lem :
    (ch : Chain) (p : Pkt)
    → (o : Option TargetType) × (n : ℕ) × Verdict ch.rules p o n
      × (eval_chain ch p
          ≡ (or_default o ch.default_policy, record ch { packet_count = ch.packet_count + n }))
unfolding eval_chain
eval_chain_lem ch p =
    ((eval_rules ch.rules p).0, (eval_rules ch.rules p).1, eval_rules-Verdict ch.rules p, refl)

-- A rule that is added later goes before all that stand in the chain: if it matches and does not only
-- log it decides alone, and if it does not match nothing changes.
pub eval_chain-add_rule :
    (ch : Chain) (r : Rule) (p : Pkt)
    → (match_packet r.matches p ≡ true
        × is_log r.target ≡ false
        × (eval_chain (add_rule ch r) p).0 ≡ r.target)
      ⊎ (match_packet r.matches p ≡ true
          × is_log r.target ≡ true
          × (eval_chain (add_rule ch r) p).0 ≡ (eval_chain ch p).0)
      ⊎ (match_packet r.matches p ≡ false × (eval_chain (add_rule ch r) p).0 ≡ (eval_chain ch p).0)
unfolding eval_chain add_rule eval_rules or_default
eval_chain-add_rule ch r p = elim (Bool-cases (match_packet r.matches p)) [
  | inl m ↦ elim (Bool-cases (is_log r.target)) [
    | inl l ↦ inr (inl (m, l, rw (m, l) refl))
    | inr n ↦ inl (m, n, rw (m, n) refl)
  ]
  | inr n ↦ inr (inr (n, rw n refl))
]

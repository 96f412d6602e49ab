-- ===== src/Route/Decision.antt =====
-- demos/route/route.c, `route_packet`: what is decided for a packet.
use os_kernel_from_scratch.Common.{ℕ}
use os_kernel_from_scratch.Common.{◌≡◌, refl, ◌≢◌, ◌⊎◌, inl, inr}
use os_kernel_from_scratch.Common.{Bool, true, false}
use os_kernel_from_scratch.Common.{none, some, List}
use os_kernel_from_scratch.Common.{arith, ℕ_discrete, ◌==◌, if◌then◌else◌}
use os_kernel_from_scratch.Common.Bits.{bit_and-zero}
use os_kernel_from_scratch.Route.{
  RouteEntry, rt_deliver, rt_forward, rt_drop, rt_local, RouteDecision, RouteResult, kernel_routes,
  route_matches, lookup_route, decide_transit, decide_local, route_packet,
}
use os_kernel_from_scratch.Route.Longest.{NoneMatches, Longest, no_route, lookup_route_lem}

-- A decision for a packet to `ip` by the route `r`: by the gateway if it has one, else directly.
pub record Via (r : RouteEntry) (ip : ℕ) (d : RouteDecision) : Type 0 where
  pub by : d.route ≡ some r
  pub hop : (r.gw ≡ 0 × d.next_hop ≡ ip) ⊎ (r.gw ≢ 0 × d.next_hop ≡ r.gw)

-- What is decided: a drop (or for a local packet no route) only if nothing matches, else the first
-- longest match, with its gateway as the next hop, or the destination where it has none.
pub data Decided (routes : List RouteEntry) (ip : ℕ) (is_local : Bool) (d : RouteDecision)
    : Type 0 where
  lost :
      NoneMatches ip routes
      → d.action ≡ (if is_local then rt_local else rt_drop)
      → d.route ≡ none
      → Decided routes ip is_local d
  sent :
      (r : RouteEntry) (l : ℕ)
      → Longest routes ip (some (r, l))
      → d.action ≡ (if is_local then rt_local else if r.gw == 0 then rt_deliver else rt_forward)
      → Via r ip d
      → Decided routes ip is_local d

decided :
    (routes : List RouteEntry) (ip : ℕ) (is_local : Bool) (o : RouteResult)
    → Longest routes ip o
    → Decided routes ip is_local (if is_local then decide_local o ip else decide_transit o ip)
unfolding decide_local decide_transit
decided routes ip true none (no_route n) = lost n refl refl
decided routes ip false none (no_route n) = lost n refl refl
decided routes ip true (some (r, l)) h = elim (ℕ_discrete r.gw 0) [
  | yes z ↦ sent r l h refl (record { by = refl; hop = inl (z, ground (arith, z)) })
  | no n ↦ sent r l h refl (record { by = refl; hop = inr (n, ground (arith, n)) })
]
decided routes ip false (some (r, l)) h = elim (ℕ_discrete r.gw 0) [
  | yes z ↦
      sent r l h (ground (arith, z))
        (record { by = ground (arith, z); hop = inl (z, ground (arith, z)) })
  | no n ↦
      sent r l h (ground (arith, n))
        (record { by = ground (arith, n); hop = inr (n, ground (arith, n)) })
]

-- `route_packet` drops a packet from elsewhere only if no route matches; else it goes by the first
-- route with the longest prefix: to the gateway, or straight to its destination if that has none.
pub route_packet_lem :
    (routes : List RouteEntry) (src ip : ℕ) (is_local : Bool)
    → Decided routes ip is_local (route_packet routes src ip is_local)
unfolding route_packet
route_packet_lem routes src ip is_local =
    decided routes ip is_local (lookup_route routes ip) (lookup_route_lem routes ip)

default_matches : (ip : ℕ) → route_matches 0 0 ip ≡ true
unfolding route_matches
default_matches ip = ground (arith, bit_and-zero ip, bit_and-zero 0)

never : (ip : ℕ) (d : RouteDecision) → Decided kernel_routes ip false d → d.action ≢ rt_drop
never ip d (lost n a r) = λ _. ground (arith, default_matches ip, n.1.1.0)
never ip d (sent r l h a v) = λ e. ground (arith, a, e)

-- In the routing table of the file, which has a default route, no packet is ever dropped.
pub route_packet-kernel_routes :
    (src ip : ℕ) → (route_packet kernel_routes src ip false).action ≢ rt_drop
route_packet-kernel_routes src ip = never ip _ (route_packet_lem kernel_routes src ip false)

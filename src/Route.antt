-- ===== src/Route.antt =====
-- demos/route/route.c: the lookup of the longest matching prefix, and the decision for a packet. The
-- names and comments of a route and the printed reasons are left out.
pub mod Longest
pub mod Decision
use os_kernel_from_scratch.Common.{
  ℕ, zero, suc, ◌+◌, ◌-◌, ◌*◌, ◌/◌, ◌%◌, ◌^◌, ◌≤◌, ◌<◌, min, max, bit_and, bit_or, bit_xor,
}
use os_kernel_from_scratch.Common.{◌≡◌, refl, sym, ap, ap₂, ◌∙◌, ◌≢◌, ◌↔◌, ◌⊎◌, inl, inr}
use os_kernel_from_scratch.Common.{Bool, true, false, not, ◌&&◌, ◌||◌}
use os_kernel_from_scratch.Common.{Option, none, some, List, [], ◌∷◌, ◌++◌, map}
use os_kernel_from_scratch.Common.{arith, dec_lt, ℕ_discrete, ltb, leb, ◌==◌, if◌then◌else◌}
use os_kernel_from_scratch.Common.{Bool-cases, Option-cases, length, get_elem?, get_or, set}
use os_kernel_from_scratch.Common.{take, drop, replicate, length-set, length-append}

pub record RouteEntry : Type 0 where
  pub dst : ℕ
  pub mask : ℕ
  pub gw : ℕ
  pub interface : ℕ
  pub metric : ℕ

abbrev pub kernel_routes : List RouteEntry
kernel_routes =
    record { dst = 3232235776; mask = 4294967040; gw = 0; interface = 3232235777; metric = 0 }
    ∷ record { dst = 167772160; mask = 4278190080; gw = 0; interface = 167772170; metric = 0 }
    ∷ record { dst = 0; mask = 0; gw = 3232235777; interface = 3232235777; metric = 100 }
    ∷ []

unfoldable pub route_matches : ℕ → ℕ → ℕ → Bool
route_matches route_dst route_mask target_ip =
    bit_and target_ip route_mask == bit_and route_dst route_mask

-- The loop over the bits of the mask, at most `fuel` of them.
unfoldable pub count_bits : ℕ → ℕ → ℕ
count_bits zero m = 0
count_bits (suc fuel) m = if m == 0 then 0 else m % 2 + count_bits fuel (m / 2)

unfoldable pub prefix_len : ℕ → ℕ
prefix_len mask = count_bits 32 mask

-- `{ NULL, -1 }` is `none`.
abbrev pub RouteResult : Type 0
RouteResult = Option (RouteEntry × ℕ)

-- `ml > best.match_len`.
unfoldable pub longer : ℕ → RouteResult → Bool
longer ml none = true
longer ml (some (r, match_len)) = ltb match_len ml

-- The loop over the routes.
unfoldable pub lookup_from : List RouteEntry → ℕ → RouteResult → RouteResult
lookup_from [] dst_ip best = best
lookup_from (r ∷ rs) dst_ip best =
    let ml = prefix_len r.mask in
    let take_it = lookup_from rs dst_ip (some (r, ml)) in
    let leave_it = lookup_from rs dst_ip best in
    if route_matches r.dst r.mask dst_ip
    then if longer ml best then take_it else leave_it
    else leave_it

unfoldable pub lookup_route : List RouteEntry → ℕ → RouteResult
lookup_route routes dst_ip = lookup_from routes dst_ip none

pub data RouteAction : Type 0 where
  rt_deliver : RouteAction
  rt_forward : RouteAction
  rt_drop : RouteAction
  rt_local : RouteAction

pub record RouteDecision : Type 0 where
  pub action : RouteAction
  pub route : Option RouteEntry
  pub next_hop : ℕ

-- A packet from elsewhere.
unfoldable pub decide_transit : RouteResult → ℕ → RouteDecision
decide_transit none dst_ip = record { action = rt_drop; route = none; next_hop = 0 }
decide_transit (some (r, ml)) dst_ip =
    if r.gw == 0
    then record { action = rt_deliver; route = some r; next_hop = dst_ip }
    else record { action = rt_forward; route = some r; next_hop = r.gw }

-- A packet of this host.
unfoldable pub decide_local : RouteResult → ℕ → RouteDecision
decide_local none dst_ip = record { action = rt_local; route = none; next_hop = 0 }
decide_local (some (r, ml)) dst_ip = record {
  action = rt_local;
  route = some r;
  next_hop = if r.gw == 0 then dst_ip else r.gw;
}

-- `src_ip` is not used by the source.
unfoldable pub route_packet : List RouteEntry → ℕ → ℕ → Bool → RouteDecision
route_packet routes src_ip dst_ip is_local =
    if is_local
    then decide_local (lookup_route routes dst_ip) dst_ip
    else decide_transit (lookup_route routes dst_ip) dst_ip

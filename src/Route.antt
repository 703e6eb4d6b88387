-- ===== src/Route.antt =====
-- The routing table: `sr_add_rt_entry` of simple-router-project/router/sr_rt.c, `lpm_lookup` of
-- sr_router.c (repeated inline in `send_icmp_host_unreachable` of sr_arpcache.c), and
-- `sr_verify_routing_table` of sr_main.c.
pub mod Lpm
pub mod Verify
pub mod Load
use computer_networking.Base.{
  ℕ, ◌+◌, Bool, true, false, ◌&&◌, Option, none, some, List, [], ◌∷◌, bit_and, ltb, ◌==◌,
  if◌then◌else◌, ntohl,
}
use computer_networking.Proto.{iface_namelen}
use computer_networking.State.{If, Rt, strncpy}
use computer_networking.Interface.{get_interface}

unfoldable pub add_rt_entry : ℕ → ℕ → ℕ → List ℕ → List Rt → List Rt
add_rt_entry dest gw mask if_name [] =
    record { dest = dest; gw = gw; mask = mask; interface = strncpy iface_namelen if_name } ∷ []
add_rt_entry dest gw mask if_name (r ∷ rs) = r ∷ add_rt_entry dest gw mask if_name rs

-- The test of the loop body: does the entry's network hold the address?
unfoldable pub matches : ℕ → Rt → Bool
matches dst_ip rt = bit_and dst_ip rt.mask == bit_and rt.dest rt.mask

-- The loop, with the variables `best` and `best_mask`.
unfoldable pub lpm_loop : ℕ → Option Rt → ℕ → List Rt → Option Rt
lpm_loop dst_ip best best_mask [] = best
lpm_loop dst_ip best best_mask (rt ∷ rts) =
    let better = matches dst_ip rt && ltb (ntohl best_mask) (ntohl rt.mask) in
    lpm_loop dst_ip (if better then some rt else best) (if better then rt.mask else best_mask) rts

unfoldable pub lpm_lookup : ℕ → List Rt → Option Rt
lpm_lookup dst_ip table = lpm_loop dst_ip none 0 table

-- The number of entries whose interface does not exist.
unfoldable pub missing : List If → List Rt → ℕ
missing ifs [] = 0
missing ifs (r ∷ rs) = elim (get_interface r.interface ifs) [
  | none ↦ missing ifs rs + 1
  | some _ ↦ missing ifs rs
]

unfoldable pub verify_routing_table : List If → List Rt → ℕ
verify_routing_table [] table = 999
verify_routing_table (i ∷ is) [] = 999
verify_routing_table (i ∷ is) (r ∷ rs) = missing (i ∷ is) (r ∷ rs)

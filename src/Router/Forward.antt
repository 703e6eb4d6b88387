-- ===== src/Router/Forward.antt =====
-- Forwarding: `forward_ip_packet` of simple-router-project/router/sr_router.c.
use computer_networking.Base.{ℕ, ◌-◌, List, ◌++◌, leb, if◌then◌else◌, htons}
use computer_networking.Proto.{
  EthernetHdr, IpHdr, decode_eth, encode_eth, decode_ip, encode_ip, ethertype_ip,
}
use computer_networking.Exec.{M, pure, if_null, gets, lift, ◌>>=◌, ◌>>◌}
use computer_networking.Interface.{get_interface}
use computer_networking.Route.{lpm_lookup}
use computer_networking.ArpCache.{lookup}
use computer_networking.Wire.{send_packet}
use computer_networking.Router.Icmp.{refresh_checksum, next_hop, enqueue, send_icmp_t3}

-- The part behind the checks: route, next hop, and sending or queueing.
unfoldable pub route_packet : ℕ → EthernetHdr → IpHdr → List ℕ → M (Unit {0})
route_packet now eth ip payload = do
  route ← gets (λ s. lpm_lookup ip.ip_dst s.routing_table)
  if_null route (send_icmp_t3 now (encode_eth eth ++ (encode_ip ip ++ payload)) 3 0) λ rt. do
    found ← gets (λ s. get_interface rt.interface s.if_list)
    if_null found (pure tt) λ out_iface. do
      let hop = next_hop rt ip.ip_dst
      let frame = λ (dhost : List ℕ).
          encode_eth (record {
            ether_dhost = dhost;
            ether_shost = out_iface.addr;
            ether_type = htons ethertype_ip;
          })
          ++ (encode_ip ip ++ payload)
      entry ← gets (λ s. lookup hop s.cache)
      if_null entry (enqueue now hop (frame eth.ether_dhost) out_iface)
          λ e. do send_packet (frame e.mac) out_iface.name; pure tt

-- The time to live is above 1.
unfoldable pub forward_on : ℕ → EthernetHdr → IpHdr → List ℕ → M (Unit {0})
forward_on now eth ip payload = do
  sent ← lift (refresh_checksum (record ip { ip_ttl = ip.ip_ttl - 1 }) payload)
  route_packet now eth sent payload

unfoldable pub forward_ip_packet : ℕ → List ℕ → M (Unit {0})
forward_ip_packet now packet = do
  (eth, p) ← lift (decode_eth packet)
  (ip, payload) ← lift (decode_ip p)
  if leb ip.ip_ttl 1 then send_icmp_t3 now packet 11 0 else forward_on now eth ip payload

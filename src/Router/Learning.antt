-- ===== src/Router/Learning.antt =====
-- What the router keeps of an ARP reply.
use mathlib.Core.Path.{subst}
use computer_networking.Base.{ℕ, ◌≡◌, Bool, true, Option, none, some, List}
use computer_networking.Proto.{ArpHdr}
use computer_networking.State.{If, Router, ArpReq, ArpEntry}
use computer_networking.Exec.{modify, ◌>>=◌}
use computer_networking.Exec.Keeps.{Keeps, After, Keeps-pure, Keeps-bind, Keeps-if_null}
use computer_networking.Exec.Runs.{Within-some}
use computer_networking.ArpCache.{lookup, insert, find_ip, destroy}
use computer_networking.ArpCache.Entries.{has_room, new_entry, lookup-insert}
use computer_networking.ArpCache.Requests.{Inv, find_ip-unlinked, find_ip-unlink_node}
use computer_networking.Wire.{send_packet}
use computer_networking.Wire.Safety.{
  Sending, too_short, refused, sent, send_packet-Sending, cache-log_packet,
}
use computer_networking.Router.Arp.{arpcache_insert, arpreq_destroy, handle_arp_answer}
use computer_networking.Router.Keep.{send_waiting-Keeps}
use computer_networking.Router.Returns.{IsReady, handle_arp_answer-Runs}

-- A lookup of the address finds the mapping, and no request asks for the address.
pub record IsLearnt (ip : ℕ) (e : ArpEntry) (s : Router) : Type 0 where
  pub found : lookup ip s.cache ≡ some e
  pub settled : find_ip ip s.cache.requests ≡ none

Sending-IsLearnt :
    (ip : ℕ) (e : ArpEntry) (buf iface : List ℕ) (s : Router) (r : Option (Bool × Router))
    → Sending buf iface s r
    → IsLearnt ip e s
    → After (λ _. IsLearnt ip e) r
Sending-IsLearnt ip e buf iface s _ (too_short h) v = v
Sending-IsLearnt ip e buf iface s _ refused v = record {
  found = rw cache-log_packet v.found;
  settled = rw cache-log_packet v.settled;
}
Sending-IsLearnt ip e buf iface s _ (sent m a) v = record {
  found = rw cache-log_packet v.found;
  settled = rw cache-log_packet v.settled;
}

send_packet-IsLearnt :
    (ip : ℕ) (e : ArpEntry) (buf iface : List ℕ) → Keeps (IsLearnt ip e) (send_packet buf iface)
send_packet-IsLearnt ip e buf iface = record {
  at = λ s v. Sending-IsLearnt ip e buf iface s _ (send_packet-Sending buf iface s) v;
}

destroy-IsLearnt :
    (ip : ℕ) (e : ArpEntry) (req : ArpReq) → Keeps (IsLearnt ip e) (arpreq_destroy req)
unfolding arpreq_destroy modify destroy lookup
destroy-IsLearnt ip e req = record {
  at = λ s v. record {
    found = v.found;
    settled = find_ip-unlink_node ip req.node s.cache.requests v.settled;
  };
}

answer-After :
    (now : ℕ) (a : ArpHdr) (s : Router)
    → Inv s.cache
    → lookup a.ar_sip s.cache ≡ none
    → has_room s.cache.entries ≡ true
    → After (λ _. IsLearnt a.ar_sip (new_entry now a.ar_sha a.ar_sip)) (handle_arp_answer now a s)
unfolding handle_arp_answer arpcache_insert ◌>>=◌ insert
answer-After now a s i n room =
    let e = new_entry now a.ar_sha a.ar_sip in
    (Keeps-if_null {P = IsLearnt a.ar_sip e} (insert now a.ar_sha a.ar_sip s.cache).0 _ _
        (Keeps-pure tt)
        (λ r.
          Keeps-bind _ _ (send_waiting-Keeps (send_packet-IsLearnt a.ar_sip e) a.ar_sha r.packets)
            (λ _. destroy-IsLearnt a.ar_sip e r))).at
      (record s { cache = (insert now a.ar_sha a.ar_sip s.cache).1 })
      (record {
        found = lookup-insert now a.ar_sha a.ar_sip s.cache n room;
        settled = find_ip-unlinked a.ar_sip s.cache.requests i.one_per_ip;
      })

-- From a state whose waiting packets have a known interface and 42 bytes and whose cache is well
-- formed, with no mapping of the sender and a free slot, the handling of an ARP reply returns. A
-- lookup of the sender then finds its link address, and no request for it is on the queue.
pub handle_arp_answer-learns :
    (ifs : List If) (now : ℕ) (a : ArpHdr) (s : Router)
    → IsReady ifs s
    → Inv s.cache
    → lookup a.ar_sip s.cache ≡ none
    → has_room s.cache.entries ≡ true
    → (t : Router) × (handle_arp_answer now a s ≡ some (tt, t))
      × IsLearnt a.ar_sip (new_entry now a.ar_sha a.ar_sip) t
handle_arp_answer-learns ifs now a s v i n room =
    let (t, e, _) =
      Within-some _ (handle_arp_answer now a s) ((handle_arp_answer-Runs ifs now a).at s v) in
    (
      t,
      e,
      subst (After (λ _. IsLearnt a.ar_sip (new_entry now a.ar_sha a.ar_sip))) e
          (answer-After now a s i n room),
    )

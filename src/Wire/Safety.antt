-- ===== src/Wire/Safety.antt =====
-- Every message on the wire is a whole frame, sent by an interface of that name from its own
-- address.
use computer_networking.Base.{
  ℕ, ◌<◌, ◌≡◌, refl, sym, inl, inr, Bool, true, false, Option, some, List, [], ◌∷◌, All, All-append,
  arith, ltb, if◌then◌else◌, length, bytes_eq→eq, Bool-cases, Option-cases, ltb→lt, ltb→ge,
}
use mathlib.Core.Path.{subst}
use computer_networking.Proto.{EthernetHdr, decode_eth}
use computer_networking.Proto.RoundTrip.{decode_eth_total}
use computer_networking.State.{If, Rt, Router}
use computer_networking.Exec.{pure, gets, modify, lift, ◌>>=◌}
use computer_networking.Exec.Keeps.{Keeps, After}
use computer_networking.Interface.{get_interface}
use computer_networking.Wire.{
  log_packet, write_message, packet_message, send_packet, ether_addrs_match_interface,
}

-- `m` carries a frame whose source is the address of an interface of the list.
pub record IsSent (ifs : List If) (m : List ℕ) : Type 0 where
  pub buf : List ℕ
  pub iface : List ℕ
  pub eth : EthernetHdr
  pub payload : List ℕ
  pub sender : If
  pub is_message : m ≡ packet_message buf iface
  pub is_frame : decode_eth buf ≡ some (eth, payload)
  pub known : get_interface iface ifs ≡ some sender
  pub own_address : eth.ether_shost ≡ sender.addr

-- The three results of `send_packet`, all with the configuration and the cache as they were.
pub data Sending (buf iface : List ℕ) (s : Router) : Option (Bool × Router) → Type 0 where
  too_short : length buf < 14 → Sending buf iface s (some (false, s))
  refused : Sending buf iface s (some (false, log_packet buf s))
  sent :
      IsSent s.if_list (packet_message buf iface)
      → s.accepts (packet_message buf iface) ≡ true
      → Sending buf iface s
          (some (true, write_message (packet_message buf iface) (log_packet buf s)))

match_lem :
    (e : EthernetHdr) (name : List ℕ) (ifs : List If)
    → ether_addrs_match_interface e name ifs ≡ true
    → (i : If) × (get_interface name ifs ≡ some i) × (e.ether_shost ≡ i.addr)
unfolding ether_addrs_match_interface
match_lem e name ifs h = elim (Option-cases (get_interface name ifs)) [
  | inl n ↦ absurd (ground arith)
  | inr (i, f) ↦ (i, f, bytes_eq→eq e.ether_shost i.addr (ground arith))
]

pub if_list-log_packet : (buf : List ℕ) (s : Router) → (log_packet buf s).if_list ≡ s.if_list
unfolding log_packet
if_list-log_packet buf s = ground arith

pub wire-log_packet : (buf : List ℕ) (s : Router) → (log_packet buf s).wire ≡ s.wire
unfolding log_packet
wire-log_packet buf s = ground arith

pub cache-log_packet : (buf : List ℕ) (s : Router) → (log_packet buf s).cache ≡ s.cache
unfolding log_packet
cache-log_packet buf s = ground arith

pub table-log_packet :
    (buf : List ℕ) (s : Router) → (log_packet buf s).routing_table ≡ s.routing_table
unfolding log_packet
table-log_packet buf s = ground arith

pub accepts-log_packet : (buf : List ℕ) (s : Router) → (log_packet buf s).accepts ≡ s.accepts
unfolding log_packet
accepts-log_packet buf s = ground arith

pub send_packet_short :
    (buf iface : List ℕ) (s : Router)
    → ltb (length buf) 14 ≡ true
    → send_packet buf iface s ≡ some (false, s)
unfolding send_packet pure
send_packet_short buf iface s h = ground arith

-- What it does with a frame.
pub send_packet_frame :
    (buf iface : List ℕ) (s : Router) (e : EthernetHdr) (p : List ℕ)
    → ltb (length buf) 14 ≡ false
    → decode_eth buf ≡ some (e, p)
    → send_packet buf iface s ≡ (
        if ether_addrs_match_interface e iface s.if_list
        then (if s.accepts (packet_message buf iface)
            then some (true, write_message (packet_message buf iface) (log_packet buf s))
            else some (false, log_packet buf s))
        else some (false, log_packet buf s))
unfolding send_packet ◌>>=◌ lift pure gets modify
send_packet_frame buf iface s e p long d =
    ground (arith, if_list-log_packet buf s, accepts-log_packet buf s)

-- `sr_send_packet` always returns. It writes one message or none, and a message that it writes is
-- a frame of an interface of that name with its own source address.
pub send_packet-Sending :
    (buf iface : List ℕ) (s : Router) → Sending buf iface s (send_packet buf iface s)
send_packet-Sending buf iface s = elim (Bool-cases (ltb (length buf) 14)) [
  | inl short ↦
      subst (Sending buf iface s) (sym (send_packet_short buf iface s short))
        (too_short (ltb→lt (length buf) 14 short))
  | inr long ↦
      let (e, p, d, _, _, _) = decode_eth_total buf (ltb→ge (length buf) 14 long) in
      rw (send_packet_frame buf iface s e p long d) (
        frame_cases (ether_addrs_match_interface e iface s.if_list)
          (s.accepts (packet_message buf iface)) refl
          λ own.
            let (i, known, same) = match_lem e iface s.if_list own in
            record {
              buf = buf;
              iface = iface;
              eth = e;
              payload = p;
              sender = i;
              is_message = refl;
              is_frame = d;
              known = known;
              own_address = same;
            })
]
  where
    frame_cases :
        (own taken : Bool)
        → s.accepts (packet_message buf iface) ≡ taken
        → (own ≡ true → IsSent s.if_list (packet_message buf iface))
        → Sending buf iface s (
            if own
            then (if taken
                then some (true, write_message (packet_message buf iface) (log_packet buf s))
                else some (false, log_packet buf s))
            else some (false, log_packet buf s))
    frame_cases false taken a f = refused
    frame_cases true false a f = refused
    frame_cases true true a f = sent (f refl) a

-- What is configured, and what is on the wire.
pub record IsSafe (ifs : List If) (table : List Rt) (s : Router) : Type 0 where
  pub same_ifs : s.if_list ≡ ifs
  pub same_table : s.routing_table ≡ table
  pub all_sent : All (IsSent ifs) s.wire

Sending-IsSafe :
    (ifs : List If) (table : List Rt) (buf iface : List ℕ) (s : Router) (r : Option (Bool × Router))
    → Sending buf iface s r
    → IsSafe ifs table s
    → After (λ _. IsSafe ifs table) r
Sending-IsSafe ifs table buf iface s _ (too_short h) v = v
Sending-IsSafe ifs table buf iface s _ refused v = record {
  same_ifs = rw if_list-log_packet v.same_ifs;
  same_table = rw table-log_packet v.same_table;
  all_sent = rw wire-log_packet v.all_sent;
}
Sending-IsSafe ifs table buf iface s _ (sent m a) v = record {
  same_ifs = rw if_list-log_packet v.same_ifs;
  same_table = rw table-log_packet v.same_table;
  all_sent = rw wire-log_packet (
      All-append (IsSent ifs) s.wire (packet_message buf iface ∷ []) v.all_sent
        (subst (λ l. IsSent l (packet_message buf iface)) v.same_ifs m, tt));
}

pub send_packet-IsSafe :
    (ifs : List If) (table : List Rt) (buf iface : List ℕ)
    → Keeps (IsSafe ifs table) (send_packet buf iface)
send_packet-IsSafe ifs table buf iface = record {
  at = λ s v. Sending-IsSafe ifs table buf iface s _ (send_packet-Sending buf iface s) v;
}

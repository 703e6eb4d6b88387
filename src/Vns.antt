-- ===== src/Vns.antt =====
-- What the router does with the messages of the server: `sr_arp_req_not_for_us`,
-- `sr_handle_hwinfo`, the reading of a message, and the cases VNSPACKET and VNSHWINFO of
-- `sr_read_from_server_expect`, all of simple-router-project/router/sr_vns_comm.c. A message is
-- the list of its bytes.
pub mod Packets
pub mod Stream
pub mod Setup
pub mod Progress
pub mod Hardware
use computer_networking.Base.{
  ℕ, zero, suc, ◌+◌, ◌-◌, ◌*◌, ◌/◌, ◌^◌, Bool, true, false, not, ◌&&◌, Option, none, some, List, [],
  ◌∷◌, ◌++◌, ltb, ◌==◌, if◌then◌else◌, length, take, split_at?, htons, ntohl,
}
use computer_networking.Proto.{
  EthernetHdr, ArpHdr, decode_eth, decode_arp, load32, ethertype_arp, arp_op_request,
}
use computer_networking.State.{If, Router}
use computer_networking.Exec.{M, pure, fault, gets, modify, lift, if_null, ◌>>=◌, ◌>>◌}
use computer_networking.Interface.{get_interface, add_interface, set_ether_addr, set_ether_ip}
use computer_networking.Route.{verify_routing_table}
use computer_networking.Wire.{log_packet}
use computer_networking.Text.{c_string}
use computer_networking.Router.{handlepacket}

-- Is the frame an ARP request for another address than that of the interface it came by?
unfoldable pub asks_other : EthernetHdr → ArpHdr → If → Bool
asks_other e a iface =
    e.ether_type == htons ethertype_arp
    && (a.ar_op == htons arp_op_request && not (a.ar_tip == iface.ip))

unfoldable pub arp_req_not_for_us : List ℕ → List ℕ → M Bool
arp_req_not_for_us packet interface = do
  found ← gets (λ s. get_interface interface s.if_list)
  if ltb (length packet) 42
      then pure false
      else if_null found fault λ iface. do
        (e, p) ← lift (decode_eth packet)
        (a, _) ← lift (decode_arp p)
        pure (asks_other e a iface)

-- The case VNSPACKET, from the interface's name on: 16 bytes, then the frame. A name that has no
-- NUL runs on into the frame.
unfoldable pub on_packet : ℕ → List ℕ → M (Unit {0})
on_packet now rest = do
  (_, frame) ← lift (split_at? 16 rest)
  let interface = c_string rest
  drop ← arp_req_not_for_us frame interface
  if drop then pure tt else do modify (log_packet frame); handlepacket now frame interface

-- What one call of `recv` or `read` gives: bytes (none at the end of the stream), an interruption
-- by a signal, or another error.
pub data Received : Type 0 where
  bytes : (chunk : List ℕ) → Received
  interrupted : Received
  failed : Received

-- How a loop ends: with the bytes and the answers that were not used, with an error, or not yet
-- when the answers are used up.
pub data Reading : Type 0 where
  whole : (data' : List ℕ) (unused : List Received) → Reading
  failure : Reading
  waiting : (data' : List ℕ) → Reading

-- The loops that read the size and the rest of a message: `n` bytes, after those in `got`.
unfoldable pub read_loop : ℕ → List ℕ → List Received → Reading
read_loop n got [] = if ltb (length got) n then waiting got else whole got []
read_loop n got (bytes chunk ∷ answers) =
    let rest = read_loop n (got ++ chunk) answers in
    if ltb (length got) n then rest else whole got (bytes chunk ∷ answers)
read_loop n got (interrupted ∷ answers) =
    let rest = read_loop n got answers in
    if ltb (length got) n then rest else whole got (interrupted ∷ answers)
read_loop n got (failed ∷ answers) =
    if ltb (length got) n then failure else whole got (failed ∷ answers)

-- The size first, which is checked, and then the rest: the result is what follows the size. Below
-- eight bytes the code writes and reads outside the message.
unfoldable pub read_body : ℕ → List Received → Option Reading
read_body len answers =
    if ltb 10000 len
    then some failure
    else (if ltb len 8 then none else some (read_loop (len - 4) [] answers))

unfoldable pub read_sized : Option (ℕ × List ℕ) → List Received → Option Reading
read_sized none answers = none
read_sized (some (len, _)) answers = read_body (ntohl len) answers

unfoldable pub read_message : List Received → Option Reading
read_message answers = elim (read_loop 4 [] answers) [
  | whole size unused ↦ read_sized (load32 size) unused
  | failure ↦ some failure
  | waiting got ↦ some (waiting got)
]

-- `c_hw_entry`.
pub record HwEntry : Type 0 where
  pub key : ℕ
  pub value : List ℕ

abbrev pub hw_interface : ℕ
hw_interface = 1

abbrev pub hw_ether : ℕ
hw_ether = 32

abbrev pub hw_ethip : ℕ
hw_ethip = 64

-- The entries of a message behind its first eight bytes; the rest that is no whole entry is not
-- read.
unfoldable pub hw_entries : ℕ → List ℕ → Option (List HwEntry)
hw_entries zero buf = some []
hw_entries (suc n) buf = elim (split_at? 4 buf) [
  | none ↦ none
  | some (k, r) ↦ elim (split_at? 32 r) [
    | none ↦ none
    | some (v, rest) ↦ elim (load32 k) [
      | none ↦ none
      | some (key, _) ↦ elim (hw_entries n rest) [
        | none ↦ none
        | some es ↦ some (record { key = ntohl key; value = v } ∷ es)
      ]
    ]
  ]
]

-- One turn of the loop of `sr_handle_hwinfo`, on the interface list. `raw` is what the
-- memory holds that `malloc` gives for a new interface; the keys that are only printed are left out.
unfoldable pub hw_entry : (List If → If) → HwEntry → List If → Option (List If)
hw_entry raw e ifs =
    if e.key == hw_interface
    then some (add_interface (raw ifs) (c_string e.value) ifs)
    else (if e.key == hw_ethip
        then elim (load32 e.value) [ none ↦ none | some (ip, _) ↦ set_ether_ip ip ifs ]
        else (if e.key == hw_ether then set_ether_addr (take 6 e.value) ifs else some ifs))

unfoldable pub handle_hwinfo : (List If → If) → List HwEntry → List If → Option (List If)
handle_hwinfo raw [] ifs = some ifs
handle_hwinfo raw (e ∷ es) ifs = elim (hw_entry raw e ifs) [
  | none ↦ none
  | some after ↦ handle_hwinfo raw es after
]

-- The case VNSHWINFO. The result is true if the session goes on.
unfoldable pub on_hwinfo : (List If → If) → List ℕ → M Bool
on_hwinfo raw rest = do
  entries ← lift (hw_entries (length rest / 36) rest)
  old ← gets (λ s. s.if_list)
  ifs ← lift (handle_hwinfo raw entries old)
  modify (λ s. record s { if_list = ifs })
  wrong ← gets (λ s. verify_routing_table s.if_list s.routing_table)
  pure (wrong == 0)

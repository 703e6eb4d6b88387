-- ===== src/Wire.antt =====
-- Sending: `sr_send_packet`, `sr_ether_addrs_match_interface` and `sr_log_packet` of
-- simple-router-project/router/sr_vns_comm.c.
pub mod Safety
pub mod Delivery
use computer_networking.Base.{
  ℕ, ◌+◌, ◌-◌, ◌%◌, ◌^◌, Bool, true, false, not, Option, none, some, List, [], ◌∷◌, ◌++◌, ltb, leb,
  if◌then◌else◌, length, take, drop, replicate, bytes_eq, u32, htonl,
}
use computer_networking.Proto.Commands.{encode_packet_header}
use computer_networking.Proto.{EthernetHdr, decode_eth}
use computer_networking.State.{If, Router}
use computer_networking.Exec.{M, pure, fault, gets, modify, lift, ◌>>=◌, ◌>>◌}
use computer_networking.Interface.{get_interface}

abbrev pub vns_packet : ℕ
vns_packet = 4

abbrev pub packet_dump_size : ℕ
packet_dump_size = 1024

-- `strncpy(dst, src, n)`, with the zero bytes that it pads with.
abbrev pub strncpy_padded : ℕ → List ℕ → List ℕ
strncpy_padded n src = take n src ++ replicate (n - length src) 0

-- `c_packet_header` and the frame behind it. 24 is `sizeof(c_packet_header)`.
unfoldable pub packet_message : List ℕ → List ℕ → List ℕ
packet_message buf iface =
    encode_packet_header
      (record {
        m_len = htonl (u32 (length buf + 24));
        m_type = htonl vns_packet;
        m_interface_name = strncpy_padded 16 iface;
      })
      buf

-- Appends the first bytes of the packet to the log, if one is open.
unfoldable pub log_packet : List ℕ → Router → Router
log_packet buf s = elim s.logfile [
  | none ↦ s
  | some l ↦ record s { logfile = some (l ++ take packet_dump_size buf ∷ []) }
]

-- Is the source address of the frame that of the named interface?
unfoldable pub ether_addrs_match_interface : EthernetHdr → List ℕ → List If → Bool
ether_addrs_match_interface e name ifs = elim (get_interface name ifs) [
  | none ↦ false
  | some i ↦ bytes_eq e.ether_shost i.addr
]

abbrev pub write_message : List ℕ → Router → Router
write_message m s = record s { wire = s.wire ++ m ∷ [] }

-- The result is true for 0 and false for -1.
unfoldable pub send_packet : List ℕ → List ℕ → M Bool
send_packet buf iface = if ltb (length buf) 14 then pure false else do
  (e, _) ← lift (decode_eth buf)
  modify (log_packet buf)
  ok ← gets (λ s. ether_addrs_match_interface e iface s.if_list)
  if not ok then pure false else do
    taken ← gets (λ s. s.accepts (packet_message buf iface))
    if not taken
        then pure false
        else do modify (write_message (packet_message buf iface)); pure true

-- ===== src/Print.antt =====
-- What the router prints of frames and interfaces: `print_hdrs` and what it calls, of
-- simple-router-project/router/sr_utils.c, and `sr_print_if_list` and `sr_print_if` of
-- simple-router-project/router/sr_if.c.
pub mod Bounds
pub mod Addresses
pub mod Tables
use computer_networking.Base.{
  ℕ, ◌+◌, ◌-◌, ◌*◌, ◌/◌, ◌%◌, ◌^◌, Bool, true, false, not, Option, none, some, List, [], ◌∷◌, ◌++◌,
  ltb, ◌==◌, if◌then◌else◌, length, ntohs, ntohl, bit_and, split_at?,
}
use computer_networking.Proto.{
  ◌>>=◌, decode_eth, decode_ip, decode_icmp, decode_arp, ethertype, ip_protocol, ethertype_ip,
  ethertype_arp, ip_protocol_icmp,
}
use computer_networking.State.{If}
use computer_networking.Text.{text, decimal, inet_ntoa}

abbrev hex_digit : ℕ → ℕ
hex_digit d = if ltb d 10 then b'0' + d else b'A' + (d - 10)

-- `%02X` of a byte.
abbrev pub hex_byte : ℕ → List ℕ
hex_byte b = hex_digit (b / 16 % 16) ∷ hex_digit (b % 16) ∷ []

abbrev colon_bytes : List ℕ → List ℕ
colon_bytes [] = []
colon_bytes (b ∷ bs) = b':' ∷ (hex_byte b ++ colon_bytes bs)

-- Of the six bytes of an address.
unfoldable pub print_addr_eth : List ℕ → List ℕ
print_addr_eth [] = text "\n"
print_addr_eth (b ∷ bs) = hex_byte b ++ (colon_bytes bs ++ text "\n")

-- Of an address in host order; the shifts are those of 32 bits.
unfoldable pub print_addr_ip_int : ℕ → List ℕ
print_addr_ip_int ip =
    decimal (ip / 2 ^ 24)
    ++ (b'.'
        ∷ (decimal (ip * 2 ^ 8 % 2 ^ 32 / 2 ^ 24)
            ++ (b'.'
                ∷ (decimal (ip * 2 ^ 16 % 2 ^ 32 / 2 ^ 24)
                    ++ (b'.' ∷ (decimal (ip * 2 ^ 24 % 2 ^ 32 / 2 ^ 24) ++ text "\n"))))))

-- The same without the newline: `print_ip_addr` of sr_router.c.
unfoldable pub print_ip_addr : ℕ → List ℕ
print_ip_addr ip =
    decimal (ip / 2 ^ 24)
    ++ (b'.'
        ∷ (decimal (ip * 2 ^ 8 % 2 ^ 32 / 2 ^ 24)
            ++ (b'.'
                ∷ (decimal (ip * 2 ^ 16 % 2 ^ 32 / 2 ^ 24)
                    ++ (b'.' ∷ decimal (ip * 2 ^ 24 % 2 ^ 32 / 2 ^ 24))))))

-- Of a `struct in_addr`; `inet_ntop` gives the text that `inet_ntoa` gives, and has room for it.
unfoldable pub print_addr_ip : ℕ → List ℕ
print_addr_ip address = inet_ntoa address ++ text "\n"

-- A line with a number.
abbrev field : List ℕ → ℕ → List ℕ
field label n = label ++ (decimal n ++ text "\n")

unfoldable pub print_hdr_eth : List ℕ → Option (List ℕ)
print_hdr_eth buf = do
  (e, _) ← decode_eth buf
  some (
      text "ETHERNET header:\n"
      ++ (text "\tdestination: "
          ++ (print_addr_eth e.ether_dhost
              ++ (text "\tsource: "
                  ++ (print_addr_eth e.ether_shost
                      ++ field (text "\ttype: ") (ntohs e.ether_type))))))

-- The first flag that is set.
abbrev fragment_flag : ℕ → List ℕ
fragment_flag off =
    if not (bit_and off 0x4000 == 0)
    then text "\tfragment flag: DF\n"
    else if not (bit_and off 0x2000 == 0)
    then text "\tfragment flag: MF\n"
    else if not (bit_and off 0x8000 == 0)
    then text "\tfragment flag: R\n"
    else []

unfoldable pub print_hdr_ip : List ℕ → Option (List ℕ)
print_hdr_ip buf = do
  (h, _) ← decode_ip buf
  some (
      text "IP header:\n"
      ++ (field (text "\tversion: ") h.ip_v
          ++ (field (text "\theader length: ") h.ip_hl
              ++ (field (text "\ttype of service: ") h.ip_tos
                  ++ (field (text "\tlength: ") (ntohs h.ip_len)
                      ++ (field (text "\tid: ") (ntohs h.ip_id)
                          ++ (fragment_flag (ntohs h.ip_off)
                              ++ (field (text "\tfragment offset: ")
                                    (bit_and (ntohs h.ip_off) 0x1fff)
                                  ++ (field (text "\tTTL: ") h.ip_ttl
                                      ++ (field (text "\tprotocol: ") h.ip_p
                                          ++ (field (text "\tchecksum: ") h.ip_sum
                                              ++ (text "\tsource: "
                                                  ++ (print_addr_ip_int (ntohl h.ip_src)
                                                      ++ (text "\tdestination: "
                                                          ++ print_addr_ip_int
                                                            (ntohl h.ip_dst)))))))))))))))

unfoldable pub print_hdr_icmp : List ℕ → Option (List ℕ)
print_hdr_icmp buf = do
  (h, _) ← decode_icmp buf
  some (
      text "ICMP header:\n"
      ++ (field (text "\ttype: ") h.icmp_type
          ++ (field (text "\tcode: ") h.icmp_code ++ field (text "\tchecksum: ") h.icmp_sum)))

unfoldable pub print_hdr_arp : List ℕ → Option (List ℕ)
print_hdr_arp buf = do
  (a, _) ← decode_arp buf
  some (
      text "ARP header\n"
      ++ (field (text "\thardware type: ") (ntohs a.ar_hrd)
          ++ (field (text "\tprotocol type: ") (ntohs a.ar_pro)
              ++ (field (text "\thardware address length: ") a.ar_hln
                  ++ (field (text "\tprotocol address length: ") a.ar_pln
                      ++ (field (text "\topcode: ") (ntohs a.ar_op)
                          ++ (text "\tsender hardware address: "
                              ++ (print_addr_eth a.ar_sha
                                  ++ (text "\tsender ip address: "
                                      ++ (print_addr_ip_int (ntohl a.ar_sip)
                                          ++ (text "\ttarget hardware address: "
                                              ++ (print_addr_eth a.ar_tha
                                                  ++ (text "\ttarget ip address: "
                                                      ++ print_addr_ip_int
                                                          (ntohl a.ar_tip))))))))))))))

-- What is at an offset in the buffer, if it is inside it.
abbrev from : ℕ → List ℕ → Option (List ℕ)
from n buf = do (_, rest) ← split_at? n buf; some rest

unfoldable pub print_hdrs : List ℕ → Option (List ℕ)
unfolding print_hdr_eth print_hdr_ip print_hdr_icmp print_hdr_arp
print_hdrs buf =
    if ltb (length buf) 14
    then some (text "Failed to print ETHERNET header, insufficient length\n")
    else (do
      ethtype ← ethertype buf
      eth ← print_hdr_eth buf
      payload ← from 14 buf
      if ethtype == ethertype_ip
          then (if ltb (length buf) 34
              then some (eth ++ text "Failed to print IP header, insufficient length\n")
              else (do
                ip ← print_hdr_ip payload
                proto ← ip_protocol payload
                if not (proto == ip_protocol_icmp)
                    then some (eth ++ ip)
                    else if ltb (length buf) 38
                    then some
                        (eth ++ (ip ++ text "Failed to print ICMP header, insufficient length\n"))
                    else (do
                      segment ← from 34 buf
                      icmp ← print_hdr_icmp segment
                      some (eth ++ (ip ++ icmp)))))
          else if not (ethtype == ethertype_arp)
          then some (eth ++ field (text "Unrecognized Ethernet Type: ") ethtype)
          else if ltb (length buf) 42
          then some (eth ++ text "Failed to print ARP header, insufficient length\n")
          else (do arp ← print_hdr_arp payload; some (eth ++ arp)))

abbrev hex_digit_lower : ℕ → ℕ
hex_digit_lower d = if ltb d 10 then b'0' + d else b'a' + (d - 10)

-- `DebugMAC` of simple-router-project/router/sr_router.h: `%02x` of each byte, with colons between.
unfoldable pub debug_mac : List ℕ → List ℕ
debug_mac [] = []
debug_mac (b ∷ []) = hex_digit_lower (b / 16 % 16) ∷ hex_digit_lower (b % 16) ∷ []
debug_mac (b ∷ c ∷ bs) =
    hex_digit_lower (b / 16 % 16) ∷ hex_digit_lower (b % 16) ∷ b':' ∷ debug_mac (c ∷ bs)

unfoldable pub print_if : If → List ℕ
unfolding debug_mac
print_if i =
    i.name
    ++ (text "\tHWaddr"
        ++ (debug_mac i.addr ++ (text "\n\tinet addr " ++ (inet_ntoa i.ip ++ text "\n"))))

unfoldable pub print_ifs : List If → List ℕ
print_ifs [] = []
print_ifs (i ∷ is) = print_if i ++ print_ifs is

unfoldable pub print_if_list : List If → List ℕ
unfolding print_ifs
print_if_list [] = text " Interface list empty \n"
print_if_list (i ∷ is) = print_ifs (i ∷ is)

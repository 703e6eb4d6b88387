-- ===== src/Proto.antt =====
-- The packed headers of simple-router-project/router/sr_protocol.h, and their layout in a buffer.
-- A field holds what the little-endian host loads; addresses of interfaces are lists of six bytes.
pub mod RoundTrip
pub mod Commands
use computer_networking.Base.{
  ℕ, ◌+◌, ◌*◌, ◌/◌, ◌%◌, ◌^◌, Option, none, some, List, [], ◌∷◌, ◌++◌, split_at?, htons,
}

infixl 5 ◌>>=◌
abbrev pub ◌>>=◌ {ℓ κ} : {A : Type ℓ} {B : Type κ} → Option A → (A → Option B) → Option B
none >>= f = none
some a >>= f = f a

pub record EthernetHdr : Type 0 where
  pub ether_dhost : List ℕ
  pub ether_shost : List ℕ
  pub ether_type : ℕ

pub record ArpHdr : Type 0 where
  pub ar_hrd : ℕ
  pub ar_pro : ℕ
  pub ar_hln : ℕ
  pub ar_pln : ℕ
  pub ar_op : ℕ
  pub ar_sha : List ℕ
  pub ar_sip : ℕ
  pub ar_tha : List ℕ
  pub ar_tip : ℕ

pub record IpHdr : Type 0 where
  pub ip_hl : ℕ
  pub ip_v : ℕ
  pub ip_tos : ℕ
  pub ip_len : ℕ
  pub ip_id : ℕ
  pub ip_off : ℕ
  pub ip_ttl : ℕ
  pub ip_p : ℕ
  pub ip_sum : ℕ
  pub ip_src : ℕ
  pub ip_dst : ℕ

pub record IcmpHdr : Type 0 where
  pub icmp_type : ℕ
  pub icmp_code : ℕ
  pub icmp_sum : ℕ

pub record IcmpT3Hdr : Type 0 where
  pub icmp_type : ℕ
  pub icmp_code : ℕ
  pub icmp_sum : ℕ
  pub unused : ℕ
  pub next_mtu : ℕ
  pub icmp_data : List ℕ

abbrev pub ethertype_arp : ℕ
ethertype_arp = 0x0806

abbrev pub ethertype_ip : ℕ
ethertype_ip = 0x0800

abbrev pub ip_protocol_icmp : ℕ
ip_protocol_icmp = 0x0001

abbrev pub arp_op_request : ℕ
arp_op_request = 0x0001

abbrev pub arp_op_reply : ℕ
arp_op_reply = 0x0002

abbrev pub arp_hrd_ethernet : ℕ
arp_hrd_ethernet = 0x0001

abbrev pub iface_namelen : ℕ
iface_namelen = 32

abbrev pub icmp_data_size : ℕ
icmp_data_size = 28

-- Loads at the front of a buffer; `none` is a load past its end.
abbrev pub load8 : List ℕ → Option (ℕ × List ℕ)
load8 [] = none
load8 (a ∷ r) = some (a, r)

abbrev pub load16 : List ℕ → Option (ℕ × List ℕ)
load16 p = do (a, p1) ← load8 p; (b, p2) ← load8 p1; some (a + 256 * b, p2)

abbrev pub load32 : List ℕ → Option (ℕ × List ℕ)
load32 p = do (a, p1) ← load16 p; (b, p2) ← load16 p1; some (a + 2 ^ 16 * b, p2)

-- Values as the host stores them.
abbrev pub store8 : ℕ → List ℕ
store8 v = v % 256 ∷ []

abbrev pub store16 : ℕ → List ℕ
store16 v = v % 256 ∷ v / 256 % 256 ∷ []

abbrev pub store32 : ℕ → List ℕ
store32 v = v % 256 ∷ v / 256 % 256 ∷ v / 2 ^ 16 % 256 ∷ v / 2 ^ 24 % 256 ∷ []

unfoldable pub decode_eth : List ℕ → Option (EthernetHdr × List ℕ)
decode_eth p = do
  (d, p1) ← split_at? 6 p
  (s, p2) ← split_at? 6 p1
  (t, p3) ← load16 p2
  some (record { ether_dhost = d; ether_shost = s; ether_type = t }, p3)

unfoldable pub encode_eth : EthernetHdr → List ℕ
encode_eth e = e.ether_dhost ++ (e.ether_shost ++ store16 e.ether_type)

unfoldable pub decode_arp : List ℕ → Option (ArpHdr × List ℕ)
decode_arp p = do
  (hrd, p1) ← load16 p
  (pro, p2) ← load16 p1
  (hln, p3) ← load8 p2
  (pln, p4) ← load8 p3
  (op, p5) ← load16 p4
  (sha, p6) ← split_at? 6 p5
  (sip, p7) ← load32 p6
  (tha, p8) ← split_at? 6 p7
  (tip, p9) ← load32 p8
  some (
    record {
      ar_hrd = hrd;
      ar_pro = pro;
      ar_hln = hln;
      ar_pln = pln;
      ar_op = op;
      ar_sha = sha;
      ar_sip = sip;
      ar_tha = tha;
      ar_tip = tip;
    },
    p9,
  )

unfoldable pub encode_arp : ArpHdr → List ℕ
encode_arp a =
    store16 a.ar_hrd
    ++ (store16 a.ar_pro
        ++ (store8 a.ar_hln
            ++ (store8 a.ar_pln
                ++ (store16 a.ar_op
                    ++ (a.ar_sha ++ (store32 a.ar_sip ++ (a.ar_tha ++ store32 a.ar_tip)))))))

-- The first byte holds `ip_hl` in its low and `ip_v` in its high four bits.
unfoldable pub decode_ip : List ℕ → Option (IpHdr × List ℕ)
decode_ip p = do
  (vhl, p1) ← load8 p
  (tos, p2) ← load8 p1
  (len, p3) ← load16 p2
  (id, p4) ← load16 p3
  (off, p5) ← load16 p4
  (ttl, p6) ← load8 p5
  (proto, p7) ← load8 p6
  (sum, p8) ← load16 p7
  (src, p9) ← load32 p8
  (dst, p10) ← load32 p9
  some (
    record {
      ip_hl = vhl % 16;
      ip_v = vhl / 16;
      ip_tos = tos;
      ip_len = len;
      ip_id = id;
      ip_off = off;
      ip_ttl = ttl;
      ip_p = proto;
      ip_sum = sum;
      ip_src = src;
      ip_dst = dst;
    },
    p10,
  )

unfoldable pub encode_ip : IpHdr → List ℕ
encode_ip h =
    store8 (h.ip_hl % 16 + 16 * h.ip_v)
    ++ (store8 h.ip_tos
        ++ (store16 h.ip_len
            ++ (store16 h.ip_id
                ++ (store16 h.ip_off
                    ++ (store8 h.ip_ttl
                        ++ (store8 h.ip_p
                            ++ (store16 h.ip_sum ++ (store32 h.ip_src ++ store32 h.ip_dst))))))))

unfoldable pub decode_icmp : List ℕ → Option (IcmpHdr × List ℕ)
decode_icmp p = do
  (t, p1) ← load8 p
  (c, p2) ← load8 p1
  (s, p3) ← load16 p2
  some (record { icmp_type = t; icmp_code = c; icmp_sum = s }, p3)

unfoldable pub encode_icmp : IcmpHdr → List ℕ
encode_icmp h = store8 h.icmp_type ++ (store8 h.icmp_code ++ store16 h.icmp_sum)

unfoldable pub encode_icmp_t3 : IcmpT3Hdr → List ℕ
encode_icmp_t3 h =
    store8 h.icmp_type
    ++ (store8 h.icmp_code
        ++ (store16 h.icmp_sum ++ (store16 h.unused ++ (store16 h.next_mtu ++ h.icmp_data))))

-- `ethertype` and `ip_protocol` of simple-router-project/router/sr_utils.c.
unfoldable pub ethertype : List ℕ → Option ℕ
ethertype buf = do (e, _) ← decode_eth buf; some (htons e.ether_type)

unfoldable pub ip_protocol : List ℕ → Option ℕ
ip_protocol buf = do (h, _) ← decode_ip buf; some h.ip_p

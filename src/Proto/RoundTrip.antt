-- ===== src/Proto/RoundTrip.antt =====
-- Headers are read from any buffer that is long enough, and a header that was written to a buffer
-- is read back.
use mathlib.Core.List.{append_assoc}
use computer_networking.Base.{
  ℕ, ◌+◌, ◌*◌, ◌^◌, ◌≤◌, ◌<◌, ◌≡◌, refl, Option, some, List, [], ◌∷◌, ◌++◌, arith, length,
  length-append, split_at?, split_at?-append, split_at?_total,
}
use computer_networking.Proto.{
  EthernetHdr, ArpHdr, IpHdr, ◌>>=◌, load8, load16, load32, store16, store32, decode_eth,
  encode_eth, decode_arp, encode_arp, decode_ip, encode_ip, decode_icmp,
}

load16_total :
    (p : List ℕ)
    → 2 ≤ length p
    → (v : ℕ) × (r : List ℕ) × (load16 p ≡ some (v, r)) × (length r + 2 ≡ length p)
load16_total [] h = absurd (omega arith)
load16_total (a ∷ []) h = absurd (omega arith)
load16_total (a ∷ b ∷ r) h = (a + 256 * b, r, refl, omega arith)

-- Fourteen bytes are enough for an Ethernet header.
pub decode_eth_total :
    (p : List ℕ)
    → 14 ≤ length p
    → (e : EthernetHdr) × (r : List ℕ) × (decode_eth p ≡ some (e, r))
      × (length r + 14 ≡ length p)
      × (length e.ether_dhost ≡ 6)
      × (length e.ether_shost ≡ 6)
unfolding decode_eth
decode_eth_total p h =
    let (d, p1, e1, l1, c1) = split_at?_total 6 p (omega arith) in
    let (s, p2, e2, l2, c2) = split_at?_total 6 p1 (omega (arith, c1)) in
    let (t, r, e3, c3) = load16_total p2 (omega (arith, c1, c2)) in
    (
      record { ether_dhost = d; ether_shost = s; ether_type = t },
      r,
      rw (e1, ◌>>=◌, e2, e3),
      omega (arith, c1, c2, c3),
      l1,
      l2,
    )

-- A parser that takes `k` bytes from any buffer that has them.
abbrev pub Reads : {A : Type 0} → ℕ → (List ℕ → Option (A × List ℕ)) → Type 0
Reads {A} k f =
    (p : List ℕ)
    → k ≤ length p
    → (a : A) × (r : List ℕ) × (f p ≡ some (a, r)) × (length r + k ≡ length p)

Reads-done : {A : Type 0} (a : A) → Reads 0 (λ p. some (a, p))
Reads-done a p h = (a, p, refl, omega arith)

Reads-bind :
    {A B : Type 0} (j k : ℕ) (f : List ℕ → Option (A × List ℕ))
    (g : A → List ℕ → Option (B × List ℕ))
    → Reads j f
    → ((a : A) → Reads k (g a))
    → Reads (j + k) (λ p. f p >>= λ t. g t.0 t.1)
Reads-bind j k f g rf rg p h =
    let (a, q, e, c) = rf p (omega arith) in
    let (b, r, d, c') = rg a q (omega (arith, c)) in (b, r, rw (e, ◌>>=◌, d), omega (arith, c, c'))

Reads-load8 : Reads 1 load8
Reads-load8 [] h = absurd (omega arith)
Reads-load8 (a ∷ r) h = (a, r, refl, omega arith)

Reads-load32 : Reads 4 load32
Reads-load32 p h =
    let (a, r, e, c) = load16_total p (omega arith) in
    let (b, q, f, d) = load16_total r (omega (arith, c)) in
    (a + 2 ^ 16 * b, q, rw (e, ◌>>=◌, f), omega (arith, c, d))

-- Twenty bytes are enough for an IP header.
pub decode_ip_total : Reads 20 decode_ip
unfolding decode_ip
decode_ip_total = Reads-bind 1 19 load8 _ Reads-load8 λ vhl.
    Reads-bind 1 18 load8 _ Reads-load8 λ tos. Reads-bind 2 16 load16 _ load16_total λ len.
      Reads-bind 2 14 load16 _ load16_total λ id. Reads-bind 2 12 load16 _ load16_total λ off.
        Reads-bind 1 11 load8 _ Reads-load8 λ ttl. Reads-bind 1 10 load8 _ Reads-load8 λ proto.
          Reads-bind 2 8 load16 _ load16_total λ sum.
            Reads-bind 4 4 load32 _ Reads-load32
              λ src. Reads-bind 4 0 load32 _ Reads-load32 λ dst. Reads-done _

-- Four bytes are enough for an ICMP header.
pub decode_icmp_total : Reads 4 decode_icmp
unfolding decode_icmp
decode_icmp_total = Reads-bind 1 3 load8 _ Reads-load8 λ type'.
    Reads-bind 1 2 load8 _ Reads-load8
      λ code. Reads-bind 2 0 load16 _ load16_total λ sum. Reads-done _

Reads-mac : Reads 6 (split_at? 6)
Reads-mac p h = let (m, r, e, _, c) = split_at?_total 6 p h in (m, r, e, c)

-- Twenty-eight bytes are enough for an ARP header.
pub decode_arp_total : Reads 28 decode_arp
unfolding decode_arp
decode_arp_total = Reads-bind 2 26 load16 _ load16_total λ hrd.
    Reads-bind 2 24 load16 _ load16_total λ pro. Reads-bind 1 23 load8 _ Reads-load8 λ hln.
      Reads-bind 1 22 load8 _ Reads-load8 λ pln. Reads-bind 2 20 load16 _ load16_total λ op.
        Reads-bind 6 14 (split_at? 6) _ Reads-mac λ sha.
          Reads-bind 4 10 load32 _ Reads-load32 λ sip.
            Reads-bind 6 4 (split_at? 6) _ Reads-mac
              λ tha. Reads-bind 4 0 load32 _ Reads-load32 λ tip. Reads-done _

-- The fields of a header that fit their widths.
pub record EthFits (e : EthernetHdr) : Type 0 where
  pub dhost : length e.ether_dhost ≡ 6
  pub shost : length e.ether_shost ≡ 6
  pub type' : e.ether_type < 2 ^ 16

-- An Ethernet header whose fields fit their widths is read back as written, with what follows it.
pub decode-encode_eth :
    (e : EthernetHdr) (r : List ℕ) → EthFits e → decode_eth (encode_eth e ++ r) ≡ some (e, r)
unfolding decode_eth encode_eth
decode-encode_eth e r f =
    rw (append_assoc e.ether_dhost, split_at?-append 6 e.ether_dhost _ f.dhost)
      (rw (append_assoc e.ether_shost, split_at?-append 6 e.ether_shost _ f.shost) (ground arith))

pub record IpFits (h : IpHdr) : Type 0 where
  pub hl : h.ip_hl < 16
  pub v : h.ip_v < 16
  pub tos : h.ip_tos < 256
  pub len : h.ip_len < 2 ^ 16
  pub id : h.ip_id < 2 ^ 16
  pub off : h.ip_off < 2 ^ 16
  pub ttl : h.ip_ttl < 256
  pub p : h.ip_p < 256
  pub sum : h.ip_sum < 2 ^ 16
  pub src : h.ip_src < 2 ^ 32
  pub dst : h.ip_dst < 2 ^ 32

-- An IP header whose fields fit their widths is read back as written, with what follows it.
pub decode-encode_ip :
    (h : IpHdr) (r : List ℕ) → IpFits h → decode_ip (encode_ip h ++ r) ≡ some (h, r)
unfolding decode_ip encode_ip
decode-encode_ip h r f = ground arith

pub record ArpFits (a : ArpHdr) : Type 0 where
  pub hrd : a.ar_hrd < 2 ^ 16
  pub pro : a.ar_pro < 2 ^ 16
  pub hln : a.ar_hln < 256
  pub pln : a.ar_pln < 256
  pub op : a.ar_op < 2 ^ 16
  pub sha : length a.ar_sha ≡ 6
  pub sip : a.ar_sip < 2 ^ 32
  pub tha : length a.ar_tha ≡ 6
  pub tip : a.ar_tip < 2 ^ 32

pub load32-store32 : (v : ℕ) (r : List ℕ) → v < 2 ^ 32 → load32 (store32 v ++ r) ≡ some (v, r)
load32-store32 v r h = ground arith

-- An ARP header whose fields fit their widths is read back as written, with what follows it.
pub decode-encode_arp :
    (a : ArpHdr) (r : List ℕ) → ArpFits a → decode_arp (encode_arp a ++ r) ≡ some (a, r)
unfolding decode_arp encode_arp
decode-encode_arp a r f =
    rw (append_assoc a.ar_sha, split_at?-append 6 a.ar_sha _ f.sha)
      (rw (append_assoc a.ar_tha, split_at?-append 6 a.ar_tha _ f.tha) (ground arith))

-- The sizes of the headers.
pub length-encode_ip : (h : IpHdr) (r : List ℕ) → length (encode_ip h ++ r) ≡ length r + 20
unfolding encode_ip
length-encode_ip h r = omega arith

pub length-encode_eth :
    (e : EthernetHdr) (r : List ℕ)
    → length e.ether_dhost ≡ 6
    → length e.ether_shost ≡ 6
    → length (encode_eth e ++ r) ≡ length r + 14
unfolding encode_eth
length-encode_eth e r d s =
    rw (append_assoc e.ether_dhost, append_assoc e.ether_shost)
      (omega (
        arith,
        length-append e.ether_dhost (e.ether_shost ++ (store16 e.ether_type ++ r)),
        length-append e.ether_shost (store16 e.ether_type ++ r),
        d,
        s,
      ))

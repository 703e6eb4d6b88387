-- ===== src/Print/Bounds.antt =====
-- Printing a frame reads nothing outside it.
use mathlib.Core.List.{append_assoc}
use computer_networking.Base.{
  ℕ, ◌+◌, ◌*◌, ◌/◌, ◌%◌, ◌^◌, ◌≤◌, ◌<◌, ◌≡◌, refl, ap, Bool, true, false, not, Option, none, some,
  List, ◌++◌, arith, ltb, ltb→ge, ◌==◌, if◌then◌else◌, length, split_at?_total, ntohl,
}
use computer_networking.Proto.{
  ◌>>=◌, decode_eth, decode_ip, decode_icmp, decode_arp, ethertype, ip_protocol, ethertype_ip,
  ethertype_arp, ip_protocol_icmp,
}
use computer_networking.Proto.RoundTrip.{
  decode_eth_total, decode_ip_total, decode_icmp_total, decode_arp_total,
}
use computer_networking.Text.{text, inet_ntoa}
use computer_networking.Print.{
  print_addr_ip_int, print_hdr_eth, print_hdr_ip, print_hdr_icmp, print_hdr_arp, print_hdrs, from,
}

-- It has a value.
abbrev Prints : {A : Type 0} → Option A → Type 0
Prints none = ⊥
Prints (some a) = Unit

Prints-some : {A : Type 0} (o : Option A) (a : A) → o ≡ some a → Prints o
Prints-some o a e = rw e tt

Prints-bind :
    {A B : Type 0} (o : Option A) (f : A → Option B) (a : A)
    → o ≡ some a
    → Prints (f a)
    → Prints (o >>= f)
Prints-bind o f a e p = rw e p

Prints-then :
    {A B : Type 0} (o : Option A) (f : A → Option B)
    → Prints o
    → ((a : A) → Prints (f a))
    → Prints (o >>= f)
Prints-then none f p q = absurd p
Prints-then (some a) f p q = q a

Prints-if :
    {A : Type 0} (b : Bool) (x y : Option A)
    → (b ≡ true → Prints x)
    → (b ≡ false → Prints y)
    → Prints (if b then x else y)
Prints-if true x y p q = p refl
Prints-if false x y p q = q refl

print_hdr_eth-Prints : (buf : List ℕ) → 14 ≤ length buf → Prints (print_hdr_eth buf)
unfolding print_hdr_eth
print_hdr_eth-Prints buf h =
    let (e, r, d, _, _, _) = decode_eth_total buf h in Prints-bind (decode_eth buf) _ (e, r) d tt

print_hdr_ip-Prints : (buf : List ℕ) → 20 ≤ length buf → Prints (print_hdr_ip buf)
unfolding print_hdr_ip
print_hdr_ip-Prints buf h =
    let (e, r, d, _) = decode_ip_total buf h in Prints-bind (decode_ip buf) _ (e, r) d tt

print_hdr_icmp-Prints : (buf : List ℕ) → 4 ≤ length buf → Prints (print_hdr_icmp buf)
unfolding print_hdr_icmp
print_hdr_icmp-Prints buf h =
    let (e, r, d, _) = decode_icmp_total buf h in Prints-bind (decode_icmp buf) _ (e, r) d tt

print_hdr_arp-Prints : (buf : List ℕ) → 28 ≤ length buf → Prints (print_hdr_arp buf)
unfolding print_hdr_arp
print_hdr_arp-Prints buf h =
    let (e, r, d, _) = decode_arp_total buf h in Prints-bind (decode_arp buf) _ (e, r) d tt

ethertype-Prints : (buf : List ℕ) → 14 ≤ length buf → Prints (ethertype buf)
unfolding ethertype
ethertype-Prints buf h =
    let (e, r, d, _, _, _) = decode_eth_total buf h in Prints-bind (decode_eth buf) _ (e, r) d tt

ip_protocol-Prints : (buf : List ℕ) → 20 ≤ length buf → Prints (ip_protocol buf)
unfolding ip_protocol
ip_protocol-Prints buf h =
    let (e, r, d, _) = decode_ip_total buf h in Prints-bind (decode_ip buf) _ (e, r) d tt

from-found :
    (n : ℕ) (buf : List ℕ)
    → n ≤ length buf
    → (rest : List ℕ) × (from n buf ≡ some rest) × (length rest + n ≡ length buf)
from-found n buf h =
    let (_, rest, e, _, c) = split_at?_total n buf h in (rest, ap (λ o. o >>= λ x. some x.1) e, c)

print_hdrs-Prints : (buf : List ℕ) → Prints (print_hdrs buf)
unfolding print_hdrs
print_hdrs-Prints buf =
    Prints-if (ltb (length buf) 14) _ _ (λ _. tt)
      λ l14.
        let h14 : 14 ≤ length buf = ltb→ge (length buf) 14 l14 in
        let (payload, f, c) = from-found 14 buf h14 in
        Prints-then (ethertype buf) _ (ethertype-Prints buf h14) λ ethtype.
          Prints-then (print_hdr_eth buf) _ (print_hdr_eth-Prints buf h14) λ eth.
            Prints-bind (from 14 buf) _ payload f (
              Prints-if (ethtype == ethertype_ip) _ _
                (λ _.
                  Prints-if (ltb (length buf) 34) _ _ (λ _. tt)
                    λ l34.
                      let h34 : 34 ≤ length buf = ltb→ge (length buf) 34 l34 in
                      let (segment, f', c') = from-found 34 buf h34 in
                      Prints-then (print_hdr_ip payload) _
                        (print_hdr_ip-Prints payload (omega arith))
                        λ ip.
                          Prints-then (ip_protocol payload) _
                            (ip_protocol-Prints payload (omega arith))
                            λ proto.
                              Prints-if (not (proto == ip_protocol_icmp)) _ _ (λ _. tt)
                                λ _.
                                  Prints-if (ltb (length buf) 38) _ _ (λ _. tt)
                                    λ l38.
                                      let h38 : 38 ≤ length buf = ltb→ge (length buf) 38 l38 in
                                      Prints-bind (from 34 buf) _ segment f' (
                                        Prints-then (print_hdr_icmp segment) _
                                          (print_hdr_icmp-Prints segment (omega arith)) λ _. tt))
                λ _.
                  Prints-if (not (ethtype == ethertype_arp)) _ _ (λ _. tt)
                    λ _.
                      Prints-if (ltb (length buf) 42) _ _ (λ _. tt)
                        λ l42.
                          let h42 : 42 ≤ length buf = ltb→ge (length buf) 42 l42 in
                          Prints-then (print_hdr_arp payload) _
                            (print_hdr_arp-Prints payload (omega arith)) λ _. tt)

Prints-value : {A : Type 0} (o : Option A) → Prints o → (a : A) × (o ≡ some a)
Prints-value none p = absurd p
Prints-value (some a) p = (a, refl)

-- `print_hdrs` of a buffer of any length and content prints some text, and reads nothing outside
-- the buffer.
pub print_hdrs-total : (buf : List ℕ) → (out : List ℕ) × (print_hdrs buf ≡ some out)
print_hdrs-total buf = Prints-value (print_hdrs buf) (print_hdrs-Prints buf)

-- Of the 32-bit field of a header, `print_addr_ip_int` of the host-order value prints what
-- `inet_ntoa` gives, and a newline.
pub print_addr_ip_int-inet_ntoa :
    (v : ℕ) → v < 2 ^ 32 → print_addr_ip_int (ntohl v) ≡ inet_ntoa v ++ text "\n"
unfolding print_addr_ip_int inet_ntoa
print_addr_ip_int-inet_ntoa v h =
    let e0 : ntohl v / 2 ^ 24 ≡ v % 256 = omega arith in
    let e1 : ntohl v * 2 ^ 8 % 2 ^ 32 / 2 ^ 24 ≡ v / 2 ^ 8 % 256 = omega arith in
    let e2 : ntohl v * 2 ^ 16 % 2 ^ 32 / 2 ^ 24 ≡ v / 2 ^ 16 % 256 = omega arith in
    let e3 : ntohl v * 2 ^ 24 % 2 ^ 32 / 2 ^ 24 ≡ v / 2 ^ 24 % 256 = omega arith in
    rw (e0, e1, e2, e3) (simp append_assoc)

-- ===== src/Router/Messages.antt =====
-- The messages that the router sends, byte by byte and field by field, apart from the functions that
-- build them.
use computer_networking.Base.{
  ℕ, ◌==◌, if◌then◌else◌, zero, suc, ◌+◌, ◌*◌, ◌≤◌, ◌≡◌, refl, some, List, [], ◌∷◌, ◌++◌, arith,
  length, take, htons, split_at?,
}
use computer_networking.Checksum.{ip_checksum, cksum}
use computer_networking.Proto.{
  IpHdr, store8, store16, store32, encode_ip, encode_eth, encode_arp, encode_icmp_t3,
}
use computer_networking.Proto.RoundTrip.{length-encode_ip}
use computer_networking.State.{If, Rt}
use computer_networking.Router.Arp.{arp_request_frame}
use computer_networking.Router.Icmp.{refresh_checksum, t3_body}
use computer_networking.Retry.{unreachable_body}

-- The question who has the address, from the interface to all.
abbrev pub question : If → ℕ → List ℕ
question i tip =
    ((255 ∷ 255 ∷ 255 ∷ 255 ∷ 255 ∷ 255 ∷ []) ++ (i.addr ++ (8 ∷ 6 ∷ [])))
    ++ ((0 ∷ 1 ∷ 8 ∷ 0 ∷ 6 ∷ 4 ∷ 0 ∷ 1 ∷ [])
        ++ (i.addr ++ (store32 i.ip ++ ((0 ∷ 0 ∷ 0 ∷ 0 ∷ 0 ∷ 0 ∷ []) ++ store32 tip))))

pub arp_request_frame-question : (i : If) (tip : ℕ) → arp_request_frame i tip ≡ question i tip
unfolding arp_request_frame encode_eth encode_arp
arp_request_frame-question i tip = refl

-- The IP header of an error: 20 bytes, of 56 in all, with a time to live of 64.
abbrev pub error_ip : ℕ → ℕ → ℕ → List ℕ
error_ip src dst sum =
    69 ∷ 0 ∷ 0 ∷ 56 ∷ 0 ∷ 0 ∷ 0 ∷ 0 ∷ 64 ∷ 1 ∷ (store16 sum ++ (store32 src ++ store32 dst))

-- Its ICMP part: type, code, checksum, four zero bytes, and what it quotes.
abbrev pub error_icmp : ℕ → ℕ → List ℕ → ℕ → List ℕ
error_icmp type' code quoted sum =
    store8 type' ++ (store8 code ++ (store16 sum ++ (0 ∷ 0 ∷ 0 ∷ 0 ∷ quoted)))

-- The error with both checksums, as that function computes them over the part with a zero in the
-- field's place.
abbrev pub icmp_error : (List ℕ → ℕ) → ℕ → ℕ → ℕ → ℕ → List ℕ → List ℕ
icmp_error check src dst type' code quoted =
    error_ip src dst (check (error_ip src dst 0))
    ++ error_icmp type' code quoted (check (error_icmp type' code quoted 0))

pub t3_body-icmp_error :
    (src dst type' code : ℕ) (quoted : List ℕ)
    → t3_body src dst type' code quoted
      ≡ icmp_error (λ bytes. htons (ip_checksum bytes)) src dst type' code quoted
unfolding t3_body encode_ip encode_icmp_t3
t3_body-icmp_error src dst type' code quoted = refl

pub unreachable_body-icmp_error :
    (src dst : ℕ) (quoted : List ℕ)
    → unreachable_body src dst quoted ≡ icmp_error cksum src dst 3 1 quoted
unfolding unreachable_body encode_ip encode_icmp_t3
unreachable_body-icmp_error src dst quoted = refl

-- The ICMP part of an answer to a ping: type and code 0, the checksum, and the rest as it came.
abbrev pub echo_answer : List ℕ → List ℕ
echo_answer rest = 0 ∷ 0 ∷ (store16 (htons (ip_checksum (0 ∷ 0 ∷ 0 ∷ 0 ∷ rest))) ++ rest)

-- The address that a route's packets are handed to: its gateway, or their own destination if the
-- gateway is 0.
abbrev pub via : Rt → ℕ → ℕ
via rt dst = if rt.gw == 0 then dst else rt.gw

-- The checksum that is stored in a header: `htons` of `ip_checksum` of the first `ip_hl * 4` bytes of
-- the header, with a zero in the field's place, and what follows it.
abbrev pub fresh_sum : IpHdr → List ℕ → ℕ
fresh_sum ip payload =
    htons (ip_checksum (take (ip.ip_hl * 4) (encode_ip (record ip { ip_sum = 0 }) ++ payload)))

split_at?-taken :
    (n : ℕ) (xs : List ℕ) → n ≤ length xs → (zs : List ℕ) × (split_at? n xs ≡ some (take n xs, zs))
unfolding split_at?
split_at?-taken zero xs h = (xs, refl)
split_at?-taken (suc n) [] h = absurd (omega arith)
split_at?-taken (suc n) (x ∷ xs) h =
    let (zs, e) = split_at?-taken n xs (omega arith) in (zs, rw e refl)

pub refresh_checksum-fresh :
    (ip : IpHdr) (payload : List ℕ)
    → ip.ip_hl * 4 ≤ length payload + 20
    → refresh_checksum ip payload ≡ some (record ip { ip_sum = fresh_sum ip payload })
unfolding refresh_checksum
refresh_checksum-fresh ip payload h =
    let cleared : IpHdr = record ip { ip_sum = 0 } in
    let (zs, e) =
      split_at?-taken (ip.ip_hl * 4) (encode_ip cleared ++ payload)
        (omega (arith, h, length-encode_ip cleared payload)) in
    rw (e, refresh_checksum) refl

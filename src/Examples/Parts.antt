-- ===== src/Examples/Parts.antt =====
-- The theorems on checksums, headers and the ARP table at concrete inputs.
use computer_networking.Base.{
  ℕ, zero, suc, ◌/◌, ◌%◌, ◌≡◌, refl, ◌↔◌, ◌⊎◌, some, List, [], ◌∷◌, ◌++◌, replicate, arith, htons,
  ◌==◌, ◌&&◌, if◌then◌else◌,
}
use computer_networking.Checksum.{cksum, ip_checksum}
use computer_networking.Checksum.Sums.{IsBytes}
use computer_networking.Checksum.Valid.{
  ip_checksum-cksum, cksum_verifies, htons-ip_checksum_verifies,
}
use computer_networking.State.{ArpCache}
use computer_networking.ArpCache.{init, insert, lookup, expire, zero_entry}
use computer_networking.ArpCache.Entries.{
  new_entry, FreshHit, lookup-insert_map, lookup-insert_stale, lookup-expire, has_room, NoMatch,
}
use computer_networking.Examples.Topology.{machine, client, mac}

-- Eight bytes with a checksum field in the middle.
abbrev pre : List ℕ
pre = 0x45 ∷ 0 ∷ []

abbrev post : List ℕ
post = 0x12 ∷ 0x34 ∷ 0x56 ∷ 0x78 ∷ []

abbrev field : ℕ → List ℕ
field v = pre ++ v % 256 ∷ v / 256 % 256 ∷ post

pre-IsBytes : IsBytes pre
pre-IsBytes = (omega arith, (omega arith, tt))

post-IsBytes : IsBytes post
post-IsBytes = (omega arith, (omega arith, (omega arith, (omega arith, tt))))

ip_checksum-cksum_example :
    (ip_checksum post ≡ cksum post) ⊎ ((ip_checksum post ≡ 0) × (cksum post ≡ 0xffff))
ip_checksum-cksum_example = ip_checksum-cksum post post-IsBytes (omega arith)

cksum_verifies_example : ip_checksum (field (cksum (field 0))) ≡ 0
cksum_verifies_example = cksum_verifies pre post pre-IsBytes post-IsBytes refl (omega arith)

htons-ip_checksum_verifies_example :
    (ip_checksum (field (htons (ip_checksum (field 0)))) ≡ 0)
    ↔ (ip_checksum (field 0) % 256 ≡ ip_checksum (field 0) / 256)
htons-ip_checksum_verifies_example =
    htons-ip_checksum_verifies pre post pre-IsBytes post-IsBytes refl (omega arith) (omega arith)

no_match : (n : ℕ) → NoMatch client (replicate n zero_entry)
no_match zero = tt
no_match (suc n) = (refl, no_match n)

-- The first slot has expired, and the second holds an older mapping of the client.
abbrev after_expiry : ArpCache
after_expiry = record {
  entries = zero_entry ∷ new_entry 90 (mac 14) client ∷ replicate 98 zero_entry;
  requests = [];
  next_node = 0;
}

lookup-insert_stale_example :
    lookup client (insert 100 (mac 13) client after_expiry).1 ≡ some (new_entry 90 (mac 14) client)
unfolding has_room
lookup-insert_stale_example =
    lookup-insert_stale 100 (mac 13) client after_expiry (zero_entry ∷ [])
      (new_entry 90 (mac 14) client) (replicate 98 zero_entry) refl refl refl (no_match 98)

lookup-expire_example : FreshHit 110 client (lookup client (expire 110 after_expiry))
lookup-expire_example = lookup-expire 110 client after_expiry

lookup-insert_map_example : lookup client (insert 100 (mac 13) client init).1 ≡ (
    if client == client && has_room init.entries
    then some (new_entry 100 (mac 13) client)
    else lookup client init)
unfolding machine
lookup-insert_map_example = lookup-insert_map 100 (mac 13) client init refl client

-- ===== src/Vns/Packets.antt =====
-- What `sr_send_packet` writes is in the format in which frames arrive (sr_vns_comm.c).
use mathlib.Core.Path.{subst}
use mathlib.Core.List.{append_assoc}
use computer_networking.Base.{
  ℕ, zero, suc, ◌+◌, ◌-◌, ◌≤◌, ◌<◌, ◌≡◌, refl, ap, ◌∙◌, some, List, [], ◌∷◌, ◌++◌, All, arith,
  length, length-append, take, drop, replicate, take-all, split_at?, split_at?-append, htonl, u32,
}
use computer_networking.Proto.{store32}
use computer_networking.Text.{c_string}
use computer_networking.Wire.{vns_packet, packet_message}
use computer_networking.Vns.{Received, whole, read_message}
use computer_networking.Vns.Stream.{Delivers, read_message_lem}

c_string-field :
    (name rest : List ℕ) (k : ℕ)
    → All (λ b. 0 < b) name
    → c_string (name ++ (replicate (suc k) 0 ++ rest)) ≡ name
unfolding c_string
c_string-field [] rest k h = refl
c_string-field (b ∷ name) rest k h = ground (arith, c_string-field name rest k h.1)

length-replicate : (k : ℕ) → length {A = ℕ} (replicate k 0) ≡ k
length-replicate zero = refl
length-replicate (suc k) = omega (arith, length-replicate k)

module _ (buf iface : List ℕ) (letters : All (λ b. 0 < b) iface) (short : length iface < 16)
    (small : length buf ≤ 9972) where
  abbrev field : List ℕ
  field = iface ++ replicate (16 - length iface) 0

  length-field : length field ≡ 16
  length-field = omega (
    arith,
    short,
    length-append iface (replicate (16 - length iface) 0),
    length-replicate (16 - length iface),
  )

  abbrev body : List ℕ
  body = store32 (htonl vns_packet) ++ (field ++ buf)

  length-body : length body ≡ length buf + 20
  length-body = omega (arith, length-append field buf, length-field)

  room : 16 - length iface ≡ suc (15 - length iface)
  room = omega (arith, short)

  written : packet_message buf iface ≡ store32 (htonl (length body + 4)) ++ body
  unfolding packet_message
  written =
      let size : u32 (length buf + 24) ≡ length body + 4 = omega (arith, length-body, small) in
      let padding : List ℕ = replicate (16 - length iface) 0 in
      ap
        (λ n.
          store32 (htonl n) ++ (store32 (htonl vns_packet) ++ ((take 16 iface ++ padding) ++ buf)))
        size
      ∙ ap
          (λ name.
            store32 (htonl (length body + 4))
            ++ (store32 (htonl vns_packet) ++ ((name ++ padding) ++ buf)))
          (take-all 16 iface (omega (arith, short)))

  -- A message that `sr_send_packet` writes, of at most 9972 bytes of frame and for an interface whose
  -- name has less than 16 bytes that are not NUL, is read whole by `sr_read_from_server_expect`, in whatever
  -- pieces its size and the rest of it arrive: as a message of the command VNSPACKET, which names
  -- this interface and holds this frame. Nothing behind it is used.
  pub read_message-packet_message :
      (s t back : List Received)
      → Delivers 4 (take 4 (packet_message buf iface)) s
      → Delivers (length (drop 4 (packet_message buf iface))) (drop 4 (packet_message buf iface)) t
      → (name : List ℕ) × (rest : List ℕ) × (read_message (s ++ (t ++ back))
          ≡ some (whole (store32 (htonl vns_packet) ++ rest) back))
        × (split_at? 16 rest ≡ some (name, buf))
        × (c_string rest ≡ iface)
  read_message-packet_message s t back ds dt = (
    field,
    field ++ buf,
    read_message_lem body s t back (omega (arith, length-body)) (omega (arith, length-body, small))
        (subst (λ m. Delivers 4 (take 4 m) s) written ds)
        (subst (λ m. Delivers (length (drop 4 m)) (drop 4 m) t) written dt),
    split_at?-append 16 field buf length-field,
    ap c_string (append_assoc iface (replicate (16 - length iface) 0) buf)
        ∙ ap (λ k. c_string (iface ++ (replicate k 0 ++ buf))) room
        ∙ c_string-field iface buf (15 - length iface) letters,
  )

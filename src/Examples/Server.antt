-- ===== src/Examples/Server.antt =====
-- The theorems on the server's messages at concrete inputs.
use computer_networking.Base.{ℕ, ◌≡◌, some, List, [], ◌∷◌, ◌++◌, arith, htonl, replicate}
use computer_networking.Proto.{store32}
use computer_networking.Vns.{
  Received, bytes, interrupted, failed, whole, waiting, read_loop, read_message,
}
use computer_networking.Base.{split_at?}
use computer_networking.Text.{text, c_string}
use computer_networking.Wire.{vns_packet, packet_message}
use computer_networking.Vns.Packets.{read_message-packet_message}
use computer_networking.Vns.Stream.{done, piece, again, read_message_lem, read_loop_eof}

-- A message of eight bytes: its size comes in two pieces with an interruption between them.
abbrev close : List ℕ
close = store32 (htonl 2)

abbrev pieces : List Received
pieces = bytes (0 ∷ []) ∷ interrupted ∷ bytes (0 ∷ 0 ∷ 8 ∷ []) ∷ []

read_message_example :
    read_message (pieces ++ (bytes close ∷ [] ++ failed ∷ [])) ≡ some (whole close (failed ∷ []))
read_message_example =
    read_message_lem close pieces (bytes close ∷ []) (failed ∷ []) (omega arith) (omega arith)
      (piece (0 ∷ []) (omega arith)
        (again (omega arith) (piece (0 ∷ 0 ∷ 8 ∷ []) (omega arith) done)))
      (piece close (omega arith) done)

read_loop_eof_example : read_loop 4 (0 ∷ []) (replicate 3 (bytes [])) ≡ waiting (0 ∷ [])
read_loop_eof_example = read_loop_eof 4 3 (0 ∷ []) (omega arith)

-- A frame of three bytes for eth1.
abbrev size_bytes : List ℕ
size_bytes = 0 ∷ 0 ∷ 0 ∷ 27 ∷ []

abbrev other_bytes : List ℕ
other_bytes = 0 ∷ 0 ∷ 0 ∷ 4 ∷ (text "eth1" ++ (replicate 12 0 ++ 7 ∷ 8 ∷ 9 ∷ []))

read_message-packet_message_example :
    (name : List ℕ) × (rest : List ℕ) × (read_message
        ((bytes size_bytes ∷ []) ++ ((bytes other_bytes ∷ []) ++ failed ∷ []))
      ≡ some (whole (store32 (htonl vns_packet) ++ rest) (failed ∷ [])))
    × (split_at? 16 rest ≡ some (name, 7 ∷ 8 ∷ 9 ∷ []))
    × (c_string rest ≡ text "eth1")
unfolding packet_message
read_message-packet_message_example =
    read_message-packet_message (7 ∷ 8 ∷ 9 ∷ []) (text "eth1")
      (omega arith, (omega arith, (omega arith, (omega arith, tt)))) (omega arith) (omega arith)
      (bytes size_bytes ∷ []) (bytes other_bytes ∷ []) (failed ∷ [])
      (piece size_bytes (omega arith) done) (piece other_bytes (omega arith) done)

-- ===== src/Vns/Stream.antt =====
-- A message is read whole, however the stream is cut into pieces.
use mathlib.Core.List.{append_assoc, append-nil}
use computer_networking.Base.{
  ℕ, zero, suc, ◌+◌, ◌^◌, ◌≤◌, ◌<◌, ◌≡◌, refl, sym, ap, ◌∙◌, true, false, some, List, [], ◌∷◌, ◌++◌,
  arith, ltb, length, length-append, replicate, htonl, ntohl,
}
use computer_networking.Proto.{load32, store32}
use computer_networking.Proto.RoundTrip.{load32-store32}
use computer_networking.Vns.{
  Received, bytes, interrupted, failed, whole, waiting, read_loop, read_body, read_sized,
  read_message,
}

-- The answers to calls that ask for `n` bytes in all, and give these: as many as were asked for at
-- most, and interruptions between.
pub data Delivers : ℕ → List ℕ → List Received → Type 0 where
  done : Delivers 0 [] []
  piece :
      {n : ℕ} {d : List ℕ} {s : List Received} (chunk : List ℕ)
      → 0 < n + length chunk
      → Delivers n d s
      → Delivers (n + length chunk) (chunk ++ d) (bytes chunk ∷ s)
  again :
      {n : ℕ} {d : List ℕ} {s : List Received}
      → 0 < n
      → Delivers n d s
      → Delivers n d (interrupted ∷ s)

read_loop-full :
    (n : ℕ) (got : List ℕ) (s : List Received)
    → ltb (length got) n ≡ false
    → read_loop n got s ≡ whole got s
unfolding read_loop
read_loop-full n got [] e = rw e refl
read_loop-full n got (bytes chunk ∷ s) e = rw e refl
read_loop-full n got (interrupted ∷ s) e = rw e refl
read_loop-full n got (failed ∷ s) e = rw e refl

read_loop-Delivers :
    (m : ℕ) {n : ℕ} {d : List ℕ} {s : List Received} (got : List ℕ) (back : List Received)
    → Delivers n d s
    → length got + n ≡ m
    → read_loop m got (s ++ back) ≡ whole (got ++ d) back
unfolding read_loop
read_loop-Delivers m got back done e =
    rw (append-nil got) (read_loop-full m got back (ground arith))
read_loop-Delivers m got back (piece {n} {d} {s} chunk h r) e =
    let more : ltb (length got) m ≡ true = ground arith in
    rw (more, read_loop)
      (rw (sym (append_assoc got chunk d))
        (read_loop-Delivers m (got ++ chunk) back r (omega (arith, length-append got chunk, e))))
read_loop-Delivers m got back (again h r) e =
    let more : ltb (length got) m ≡ true = ground arith in
    rw (more, read_loop) (read_loop-Delivers m got back r e)

ntohl-htonl : (v : ℕ) → v < 2 ^ 32 → ntohl (htonl v) ≡ v
ntohl-htonl v h = omega arith

read_body_lem :
    (body : List ℕ) (t back : List Received)
    → 4 ≤ length body
    → length body ≤ 9996
    → Delivers (length body) body t
    → read_body (length body + 4) (t ++ back) ≡ some (whole body back)
unfolding read_body
read_body_lem body t back low high dt =
    ground (arith, read_loop-Delivers (length body) [] back dt (omega arith))

-- A message whose size field is right, of 8 to 10000 bytes, is read whole, in whatever pieces its
-- size and its body arrive, and nothing behind it is used.
pub read_message_lem :
    (body : List ℕ) (s t back : List Received)
    → 4 ≤ length body
    → length body ≤ 9996
    → Delivers 4 (store32 (htonl (length body + 4))) s
    → Delivers (length body) body t
    → read_message (s ++ (t ++ back)) ≡ some (whole body back)
unfolding read_message read_sized
read_message_lem body s t back low high ds dt =
    let size = htonl (length body + 4) in
    let loaded : load32 ([] ++ store32 size) ≡ some (size, []) =
      load32-store32 size [] (omega arith) in
    rw (read_loop-Delivers 4 [] (t ++ back) ds refl, read_message)
      (ap (λ o. read_sized o (t ++ back)) loaded
        ∙ (ap (λ n. read_body n (t ++ back)) (ntohl-htonl (length body + 4) (omega (arith, high)))
            ∙ read_body_lem body t back low high dt))

-- At the end of the stream the loop makes no progress, however often it calls.
pub read_loop_eof :
    (n k : ℕ) (got : List ℕ)
    → length got < n
    → read_loop n got (replicate k (bytes [])) ≡ waiting got
unfolding read_loop
read_loop_eof n zero got h = ground arith
read_loop_eof n (suc k) got h =
    let more : ltb (length got) n ≡ true = ground arith in
    rw (more, append-nil got) (read_loop_eof n k got h)

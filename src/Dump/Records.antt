-- ===== src/Dump/Records.antt =====
-- The records of a capture file are found again.
use mathlib.Core.Path.{subst}
use computer_networking.Base.{
  ℕ, zero, suc, ◌^◌, ◌≤◌, ◌<◌, ◌≡◌, refl, sym, ap, ◌∙◌, Option, some, List, [], ◌∷◌, ◌++◌, arith,
  ltb, if◌then◌else◌, length, take, drop, split_at?, split_at?-append,
}
use computer_networking.Proto.{◌>>=◌, load32, store32}
use computer_networking.Proto.RoundTrip.{load32-store32}
use computer_networking.Wire.{packet_dump_size}
use computer_networking.Dump.{PcapPkthdr, dump, log_record}

-- A reader of capture files: one record, and what follows it.
abbrev Record : Type 0
Record = (PcapPkthdr × List ℕ) × List ℕ

abbrev from_len : ℕ → ℕ → ℕ → ℕ × List ℕ → Option Record
from_len sec usec caplen (len, file) = split_at? caplen file >>= λ q.
    some ((record { tv_sec = sec; tv_usec = usec; caplen = caplen; len = len }, q.0), q.1)

abbrev from_caplen : ℕ → ℕ → ℕ × List ℕ → Option Record
from_caplen sec usec (caplen, file) = load32 file >>= from_len sec usec caplen

abbrev from_usec : ℕ → ℕ × List ℕ → Option Record
from_usec sec (usec, file) = load32 file >>= from_caplen sec usec

abbrev from_sec : ℕ × List ℕ → Option Record
from_sec (sec, file) = load32 file >>= from_usec sec

unfoldable pub read_record : List ℕ → Option ((PcapPkthdr × List ℕ) × List ℕ)
read_record file = load32 file >>= from_sec

step : {A B : Type 0} (o : Option A) (f : A → Option B) (a : A) → o ≡ some a → (o >>= f) ≡ f a
step o f a e = ap (λ x. x >>= f) e

take-drop : (n : ℕ) (xs : List ℕ) → take n xs ++ drop n xs ≡ xs
take-drop zero xs = refl
take-drop (suc n) [] = refl
take-drop (suc n) (x ∷ xs) = ap (◌∷◌ x) (take-drop n xs)

length-take :
    (n : ℕ) (xs : List ℕ) → length (take n xs) ≡ (if ltb n (length xs) then n else length xs)
length-take zero xs = ground arith
length-take (suc n) [] = ground arith
length-take (suc n) (x ∷ xs) = ground (arith, length-take n xs)

-- The bytes of a record, with what the packet gives.
record_bytes : PcapPkthdr → List ℕ → List ℕ
record_bytes h captured =
    store32 h.tv_sec ++ (store32 h.tv_usec ++ (store32 h.caplen ++ (store32 h.len ++ captured)))

dump-log_record :
    (sec usec : ℕ) (buf : List ℕ)
    → dump (log_record sec usec buf) buf
      ≡ some (record_bytes (log_record sec usec buf) (take packet_dump_size buf))
unfolding dump log_record record_bytes
dump-log_record sec usec buf =
    let h = log_record sec usec buf in
    step (split_at? h.caplen buf) _ (take packet_dump_size buf, drop packet_dump_size buf)
      (subst
        (λ b. split_at? h.caplen b ≡ some (take packet_dump_size buf, drop packet_dump_size buf))
        (take-drop packet_dump_size buf)
        (split_at?-append h.caplen (take packet_dump_size buf) (drop packet_dump_size buf)
          (length-take packet_dump_size buf)))

read_record-bytes :
    (h : PcapPkthdr) (captured rest : List ℕ)
    → h.tv_sec < 2 ^ 32
    → h.tv_usec < 2 ^ 32
    → h.caplen < 2 ^ 32
    → h.len < 2 ^ 32
    → length captured ≡ h.caplen
    → read_record (record_bytes h captured ++ rest) ≡ some ((h, captured), rest)
unfolding read_record record_bytes
read_record-bytes h captured rest s u c l e =
    let f4 = captured ++ rest in
    let f3 = store32 h.len ++ f4 in
    let f2 = store32 h.caplen ++ f3 in
    let f1 = store32 h.tv_usec ++ f2 in
    step (load32 (store32 h.tv_sec ++ f1)) from_sec (h.tv_sec, f1) (load32-store32 h.tv_sec f1 s)
    ∙ (step (load32 f1) (from_usec h.tv_sec) (h.tv_usec, f2) (load32-store32 h.tv_usec f2 u)
        ∙ (step (load32 f2) (from_caplen h.tv_sec h.tv_usec) (h.caplen, f3)
              (load32-store32 h.caplen f3 c)
            ∙ (step (load32 f3) (from_len h.tv_sec h.tv_usec h.caplen) (h.len, f4)
                  (load32-store32 h.len f4 l)
                ∙ step (split_at? h.caplen f4) (λ q. some ((h, q.0), q.1)) (captured, rest)
                    (split_at?-append h.caplen captured rest e))))

at_most : (m : ℕ) → (if ltb 1024 m then 1024 else m) ≤ 1024
at_most m = ground arith

no_cut : (n : ℕ) → n ≤ 1024 → (if ltb n 1024 then n else 1024) ≡ n
no_cut n h = ground arith

length-captured : (buf : List ℕ) → length (take packet_dump_size buf) ≤ 1024
length-captured buf = rw (length-take packet_dump_size buf) (at_most (length buf))

-- Both lengths of the record are the number of the bytes that are kept.
log_record-lengths :
    (sec usec : ℕ) (buf : List ℕ)
    → let n = length (take packet_dump_size buf) in
      log_record sec usec buf ≡ record { tv_sec = sec; tv_usec = usec; caplen = n; len = n }
unfolding log_record
log_record-lengths sec usec buf =
    let n = length (take packet_dump_size buf) in
    ap
      (λ c. record {
        tv_sec = sec;
        tv_usec = usec;
        caplen = c;
        len = if ltb c packet_dump_size then c else packet_dump_size;
      })
      (sym (length-take packet_dump_size buf))
    ∙ ap (λ l. record { tv_sec = sec; tv_usec = usec; caplen = n; len = l })
        (no_cut n (length-captured buf))

-- For a time whose seconds and microseconds are stored in 32 bits: the record that
-- `sr_log_packet` dumps of a packet of any length is read back, in front of any other records, with
-- the time and the first 1024 bytes of the packet. Both of its lengths are the number of the bytes
-- that are kept.
pub read_record-dump :
    (sec usec : ℕ) (buf rest : List ℕ)
    → sec < 2 ^ 32
    → usec < 2 ^ 32
    → (bytes : List ℕ) × (dump (log_record sec usec buf) buf ≡ some bytes)
      × (read_record (bytes ++ rest)
          ≡ some (
            (
              record {
                tv_sec = sec;
                tv_usec = usec;
                caplen = length (take packet_dump_size buf);
                len = length (take packet_dump_size buf);
              },
              take packet_dump_size buf,
            ),
            rest,
          ))
read_record-dump sec usec buf rest s u =
    let captured = take packet_dump_size buf in
    let n = length captured in
    let few : n < 2 ^ 32 = omega (arith, length-captured buf) in
    let h : PcapPkthdr = record { tv_sec = sec; tv_usec = usec; caplen = n; len = n } in
    (
      record_bytes h captured,
      dump-log_record sec usec buf
          ∙ ap (λ k. some (record_bytes k captured)) (log_record-lengths sec usec buf),
      read_record-bytes h captured rest s u few few refl,
    )

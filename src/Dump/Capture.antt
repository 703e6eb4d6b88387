-- ===== src/Dump/Capture.antt =====
-- A whole capture file is read back.
use mathlib.Core.List.{append_assoc, append-nil}
use computer_networking.Base.{
  ℕ, zero, suc, ◌^◌, ◌<◌, ◌≡◌, refl, sym, ap, ◌∙◌, Bool, true, ◌||◌, Option, none, some, List, [],
  ◌∷◌, ◌++◌, map, All, length, take, if◌then◌else◌, bytes_eq, inl, inr, Bool-cases,
}
use computer_networking.Proto.{◌>>=◌, load32, load16}
use computer_networking.Text.{text}
use computer_networking.Wire.{packet_dump_size}
use computer_networking.Dump.{
  PcapPkthdr, Captured, tcpdump_magic, linktype_ethernet, sf_write_header, dump_open, dump_packets,
  capture_file,
}
use computer_networking.Dump.Records.{read_record, read_record-dump}

-- The fields of `struct pcap_file_header`.
pub record PcapFileHeader : Type 0 where
  pub magic : ℕ
  pub version_major : ℕ
  pub version_minor : ℕ
  pub thiszone : ℕ
  pub sigfigs : ℕ
  pub snaplen : ℕ
  pub linktype : ℕ

-- A reader of the file's header.
unfoldable pub read_header : List ℕ → Option (PcapFileHeader × List ℕ)
read_header file = do
  (magic, file) ← load32 file
  (major, file) ← load16 file
  (minor, file) ← load16 file
  (zone, file) ← load32 file
  (sigfigs, file) ← load32 file
  (snaplen, file) ← load32 file
  (linktype, file) ← load32 file
  some (
    record {
      magic = magic;
      version_major = major;
      version_minor = minor;
      thiszone = zone;
      sigfigs = sigfigs;
      snaplen = snaplen;
      linktype = linktype;
    },
    file,
  )

-- A reader of that many records.
unfoldable pub read_records : ℕ → List ℕ → Option (List (PcapPkthdr × List ℕ) × List ℕ)
unfolding read_record
read_records zero file = some ([], file)
read_records (suc n) file = do
  (r, file) ← read_record file
  (rs, file) ← read_records n file
  some (r ∷ rs, file)

-- What is kept of a packet: the time, and its first 1024 bytes with their number.
abbrev pub kept : Captured → PcapPkthdr × List ℕ
kept p = (
  record {
    tv_sec = p.sec;
    tv_usec = p.usec;
    caplen = length (take packet_dump_size p.buf);
    len = length (take packet_dump_size p.buf);
  },
  take packet_dump_size p.buf,
)

-- The time is stored in 32 bits each.
pub record TimeFits (p : Captured) : Type 0 where
  pub sec : p.sec < 2 ^ 32
  pub usec : p.usec < 2 ^ 32

records-back :
    (ps : List Captured) (rest : List ℕ)
    → All TimeFits ps
    → (bytes : List ℕ) × (dump_packets ps ≡ some bytes)
      × (read_records (length ps) (bytes ++ rest) ≡ some (map kept ps, rest))
unfolding dump_packets read_records
records-back [] rest f = ([], refl, refl)
records-back (p ∷ ps) rest f =
    let (others, e, r) = records-back ps rest f.1 in
    let (bytes, e', r') = read_record-dump p.sec p.usec p.buf (others ++ rest) f.0.sec f.0.usec in
    (bytes ++ others, rw (e', e) refl, rw (append_assoc bytes others rest, r', r) refl)

abbrev pub header : PcapFileHeader
header = record {
  magic = tcpdump_magic;
  version_major = 2;
  version_minor = 4;
  thiszone = 0;
  sigfigs = 0;
  snaplen = packet_dump_size;
  linktype = linktype_ethernet;
}

read_header-back :
    (rest : List ℕ) → read_header (sf_write_header 0 packet_dump_size ++ rest) ≡ some (header, rest)
unfolding read_header sf_write_header
read_header-back rest = refl

-- A reader of a whole file with that many records.
unfoldable pub read_capture :
    ℕ → List ℕ → Option (PcapFileHeader × List (PcapPkthdr × List ℕ) × List ℕ)
unfolding read_header read_records
read_capture n file = do
  (h, file) ← read_header file
  (rs, file) ← read_records n file
  some (h, rs, file)

dump_open-opens :
    (opens : List ℕ → Bool) (name : List ℕ)
    → (bytes_eq name (text "-") || opens name) ≡ true
    → dump_open opens name 0 packet_dump_size ≡ some (sf_write_header 0 packet_dump_size)
unfolding dump_open
dump_open-opens opens name e = elim (Bool-cases (bytes_eq name (text "-"))) [
  | inl dash ↦
      ap
        (λ b.
          if b
          then some (sf_write_header 0 packet_dump_size)
          else if opens name
          then some (sf_write_header 0 packet_dump_size)
          else none)
        dash
  | inr file ↦
      let open' : opens name ≡ true = sym (ap (λ b. b || opens name) file) ∙ e in
      rw (file, open') refl
]

-- Where the dump file can be opened, or is the standard output, and the times of the packets are
-- stored in 32 bits: the file that the program leaves of any sequence of packets is read back, as one
-- of version 2.4 for Ethernet with 1024 bytes of a packet at most, and with one record for each
-- packet, in their order: its time and its first 1024 bytes. Nothing is left over.
pub read_capture-capture_file :
    (opens : List ℕ → Bool) (name : List ℕ) (ps : List Captured)
    → (bytes_eq name (text "-") || opens name) ≡ true
    → All TimeFits ps
    → (file : List ℕ) × (capture_file opens name ps ≡ some file)
      × (read_capture (length ps) file ≡ some (header, map kept ps, []))
unfolding capture_file read_capture
read_capture-capture_file opens name ps e f =
    let (bytes, d, r) = records-back ps [] f in
    (
      sf_write_header 0 packet_dump_size ++ bytes,
      rw (dump_open-opens opens name e, d) refl,
      ap (λ o. o >>= λ q. some (header, q.0, q.1))
          (ap (read_records (length ps)) (sym (append-nil bytes)) ∙ r),
    )

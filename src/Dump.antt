-- ===== src/Dump.antt =====
-- The capture file of the packets: `sf_write_header`, `sr_dump` and the record that
-- `sr_log_packet` hands to it, of simple-router-project/router/sr_dumper.c, sr_dumper.h and
-- sr_vns_comm.c.
pub mod Records
pub mod Capture
use computer_networking.Base.{
  ℕ, ◌+◌, ◌^◌, Bool, bytes_eq, Option, none, some, List, [], ◌∷◌, ◌++◌, ltb, if◌then◌else◌, length,
  take, split_at?,
}
use computer_networking.Proto.{◌>>=◌, load32, store16, store32}
use computer_networking.Text.{text}
use computer_networking.Wire.{packet_dump_size}

abbrev pub tcpdump_magic : ℕ
tcpdump_magic = 0xa1b2c3d4

abbrev pub linktype_ethernet : ℕ
linktype_ethernet = 1

-- `struct pcap_file_header`, with the version 2.4.
unfoldable pub sf_write_header : ℕ → ℕ → List ℕ
sf_write_header thiszone snaplen =
    store32 tcpdump_magic
    ++ (store16 2
        ++ (store16 4
            ++ (store32 thiszone ++ (store32 0 ++ (store32 snaplen ++ store32 linktype_ethernet)))))

-- `sr_dump_open`: what the file starts with, if it can be opened; `-` is the standard output.
unfoldable pub dump_open : (List ℕ → Bool) → List ℕ → ℕ → ℕ → Option (List ℕ)
unfolding sf_write_header
dump_open opens name thiszone snaplen =
    if bytes_eq name (text "-")
    then some (sf_write_header thiszone snaplen)
    else if opens name
    then some (sf_write_header thiszone snaplen)
    else none

-- The fields of `struct pcap_pkthdr`. The file holds the time in 32 bits each.
pub record PcapPkthdr : Type 0 where
  pub tv_sec : ℕ
  pub tv_usec : ℕ
  pub caplen : ℕ
  pub len : ℕ

-- `struct pcap_sf_pkthdr` and the captured bytes; `none` is a read behind the packet.
unfoldable pub dump : PcapPkthdr → List ℕ → Option (List ℕ)
dump h sp = do
  (captured, _) ← split_at? h.caplen sp
  some
      (store32 h.tv_sec ++ (store32 h.tv_usec ++ (store32 h.caplen ++ (store32 h.len ++ captured))))

-- The record that `sr_log_packet` makes of a packet at that time.
unfoldable pub log_record : ℕ → ℕ → List ℕ → PcapPkthdr
log_record sec usec buf =
    let size = if ltb packet_dump_size (length buf) then packet_dump_size else length buf in
    record {
      tv_sec = sec;
      tv_usec = usec;
      caplen = size;
      len = if ltb size packet_dump_size then size else packet_dump_size;
    }

-- A packet that is captured, and when.
pub record Captured : Type 0 where
  pub sec : ℕ
  pub usec : ℕ
  pub buf : List ℕ

-- What the calls of `sr_log_packet` for these packets append to the file.
unfoldable pub dump_packets : List Captured → Option (List ℕ)
unfolding dump log_record
dump_packets [] = some []
dump_packets (p ∷ ps) = do
  record_bytes ← dump (log_record p.sec p.usec p.buf) p.buf
  others ← dump_packets ps
  some (record_bytes ++ others)

-- The file that a run of the program with these packets leaves, as `main` opens it.
unfoldable pub capture_file : (List ℕ → Bool) → List ℕ → List Captured → Option (List ℕ)
unfolding dump_open dump_packets
capture_file opens name ps = do
  header ← dump_open opens name 0 packet_dump_size
  records ← dump_packets ps
  some (header ++ records)

-- ===== src/Examples/Files.antt =====
-- What the router prints and captures, at concrete inputs.
use computer_networking.Base.{
  ℕ, ◌≡◌, refl, some, List, [], ◌∷◌, ◌++◌, arith, map, true, ntohl, bytes_eq,
}
use computer_networking.Text.{text, inet_ntoa, inet_aton, decimal}
use computer_networking.Print.{print_addr_eth, print_hdrs, print_if, debug_mac}
use computer_networking.Print.Bounds.{print_hdrs-total}
use computer_networking.Print.{print_addr_ip, print_addr_ip_int, print_ip_addr}
use computer_networking.Print.Addresses.{printed_addresses}
use computer_networking.Dump.{Captured, capture_file}
use computer_networking.Dump.Capture.{header, kept, read_capture, read_capture-capture_file}
use computer_networking.Examples.Topology.{mac, server1, who_has}

printed_mac : print_addr_eth (mac 171) ≡ text "02:00:00:00:00:AB\n"
unfolding print_addr_eth
printed_mac = refl

printed_if :
    print_if (record { name = text "eth3"; addr = mac 171; ip = server1; speed = 0 })
    ≡ text "eth3\tHWaddr02:00:00:00:00:ab\n\tinet addr 192.168.2.2\n"
unfolding print_if debug_mac inet_ntoa decimal
printed_if = refl

short_frame :
    print_hdrs (1 ∷ 2 ∷ []) ≡ some (text "Failed to print ETHERNET header, insufficient length\n")
unfolding print_hdrs
short_frame = refl

print_hdrs-total_example : (out : List ℕ) × (print_hdrs who_has ≡ some out)
print_hdrs-total_example = print_hdrs-total who_has

printed_addresses_example :
    (print_addr_ip server1 ≡ print_ip_addr (ntohl server1) ++ text "\n")
    × (print_addr_ip_int (ntohl server1) ≡ print_addr_ip server1)
    × (inet_aton (print_ip_addr (ntohl server1)) ≡ some server1)
printed_addresses_example = printed_addresses server1 (omega arith)

abbrev packets : List Captured
packets =
    record { sec = 100; usec = 7; buf = who_has }
    ∷ record { sec = 101; usec = 0; buf = 1 ∷ 2 ∷ [] }
    ∷ []

read_capture-capture_file_example :
    (file : List ℕ) × (capture_file (λ _. true) (text "log.pcap") packets ≡ some file)
    × (read_capture 2 file ≡ some (header, map kept packets, []))
unfolding bytes_eq
read_capture-capture_file_example =
    read_capture-capture_file (λ _. true) (text "log.pcap") packets refl
      (
        record { sec = omega arith; usec = omega arith },
        (record { sec = omega arith; usec = omega arith }, tt),
      )

-- ===== src/Print/Addresses.antt =====
-- The three ways of printing an address agree.
use mathlib.Core.List.{append_assoc}
use computer_networking.Base.{
  ℕ, ◌*◌, ◌/◌, ◌%◌, ◌^◌, ◌<◌, ◌≡◌, refl, sym, ap, ◌∙◌, some, ◌++◌, arith, ntohl,
}
use computer_networking.Text.{text, decimal, inet_ntoa, inet_aton}
use computer_networking.Text.Dotted.{inet_aton-inet_ntoa}
use computer_networking.Print.{print_addr_ip_int, print_ip_addr, print_addr_ip}

-- The four bytes of the address, in the order of the text.
module _ (v : ℕ) where
  first_byte : ntohl v / 2 ^ 24 ≡ v % 256
  first_byte = omega arith

  second_byte : ntohl v * 2 ^ 8 % 2 ^ 32 / 2 ^ 24 ≡ v / 2 ^ 8 % 256
  second_byte = omega arith

  third_byte : ntohl v * 2 ^ 16 % 2 ^ 32 / 2 ^ 24 ≡ v / 2 ^ 16 % 256
  third_byte = omega arith

  fourth_byte : ntohl v * 2 ^ 24 % 2 ^ 32 / 2 ^ 24 ≡ v / 2 ^ 24 % 256
  fourth_byte = omega arith

  -- Of an address in host order, `print_ip_addr` prints what `inet_ntoa` gives for the address in
  -- network order.
  print_ip_addr-inet_ntoa : print_ip_addr (ntohl v) ≡ inet_ntoa v
  unfolding print_ip_addr inet_ntoa
  print_ip_addr-inet_ntoa = rw (first_byte, second_byte, third_byte, fourth_byte) refl

  print_addr_ip_int-print_addr_ip : print_addr_ip_int (ntohl v) ≡ print_addr_ip v
  unfolding print_addr_ip_int print_addr_ip inet_ntoa
  print_addr_ip_int-print_addr_ip =
      rw (first_byte, second_byte, third_byte, fourth_byte)
        (rw
          (
            append_assoc (decimal (v % 256)),
            append_assoc (decimal (v / 2 ^ 8 % 256)),
            append_assoc (decimal (v / 2 ^ 16 % 256)),
          )
          refl)

  -- For an address of 32 bits, the three functions that print an address print the same, up to a
  -- newline, and inet_aton reads what they print as the address.
  pub printed_addresses :
      v < 2 ^ 32
      → (print_addr_ip v ≡ print_ip_addr (ntohl v) ++ text "\n")
        × (print_addr_ip_int (ntohl v) ≡ print_addr_ip v)
        × (inet_aton (print_ip_addr (ntohl v)) ≡ some v)
  unfolding print_addr_ip
  printed_addresses h = (
    ap (λ t. t ++ text "\n") (sym print_ip_addr-inet_ntoa),
    print_addr_ip_int-print_addr_ip,
    ap inet_aton print_ip_addr-inet_ntoa ∙ inet_aton-inet_ntoa v h,
  )

-- ===== src/Print/Tables.antt =====
-- What the router prints of its ARP table, and of its options: `sr_arpcache_dump` of
-- simple-router-project/router/sr_arpcache.c and `usage` of simple-router-project/router/sr_main.c.
use computer_networking.Base.{
  ℕ, ◌+◌, ◌-◌, ◌/◌, ◌%◌, ◌^◌, List, [], ◌∷◌, ◌++◌, ltb, if◌then◌else◌, ntohl,
}
use computer_networking.State.{ArpEntry, ArpCache}
use computer_networking.Text.{text, decimal}

abbrev hex_lower : ℕ → ℕ
hex_lower d = if ltb d 10 then b'0' + d else b'a' + (d - 10)

-- `%.1x` of a byte: at least one digit.
abbrev hex_short : ℕ → List ℕ
hex_short b =
    if ltb b 16 then hex_lower b ∷ [] else hex_lower (b / 16 % 16) ∷ hex_lower (b % 16) ∷ []

abbrev hex_bytes : List ℕ → List ℕ
hex_bytes [] = []
hex_bytes (b ∷ bs) = hex_short b ++ hex_bytes bs

-- `%.8x`: eight digits.
abbrev hex_word : ℕ → List ℕ
hex_word v =
    hex_lower (v / 2 ^ 28 % 16)
    ∷ hex_lower (v / 2 ^ 24 % 16)
    ∷ hex_lower (v / 2 ^ 20 % 16)
    ∷ hex_lower (v / 2 ^ 16 % 16)
    ∷ hex_lower (v / 2 ^ 12 % 16)
    ∷ hex_lower (v / 2 ^ 8 % 16)
    ∷ hex_lower (v / 2 ^ 4 % 16)
    ∷ hex_lower (v % 16)
    ∷ []

-- A line of the table. `ctime` gives the 24 characters of a time.
unfoldable pub dump_entry : (ℕ → List ℕ) → ArpEntry → List ℕ
dump_entry ctime cur =
    hex_bytes cur.mac
    ++ (text "   "
        ++ (hex_word (ntohl cur.ip)
            ++ (text "   "
                ++ (ctime cur.added
                    ++ (text "   " ++ (decimal (if cur.valid then 1 else 0) ++ text "\n"))))))

abbrev pub dump_entries : (ℕ → List ℕ) → List ArpEntry → List ℕ
dump_entries ctime [] = text "\n"
dump_entries ctime (cur ∷ entries) = dump_entry ctime cur ++ dump_entries ctime entries

unfoldable pub arpcache_dump : (ℕ → List ℕ) → ArpCache → List ℕ
unfolding dump_entry
arpcache_dump ctime cache =
    text "\nMAC            IP         ADDED                      VALID\n"
    ++ (text "-----------------------------------------------------------\n"
        ++ dump_entries ctime cache.entries)

unfoldable pub usage : List ℕ → List ℕ
usage argv0 =
    text "Simple Router Client\n"
    ++ (text "Format: "
        ++ (argv0
            ++ (text " [-h] [-v host] [-s server] [-p port] \n"
                ++ (text "           [-T template_name] [-u username] \n"
                    ++ (text "           [-t topo id] [-r routing table] \n"
                        ++ (text "           [-l log file] \n"
                            ++ text "   defaults server=localhost port=8888 host=vrhost  \n"))))))

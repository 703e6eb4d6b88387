-- ===== src/Examples/Table.antt =====
-- The routing table's file at concrete inputs.
use computer_networking.Base.{ℕ, ◌<◌, ◌≡◌, refl, true, some, List, [], ◌∷◌, ◌++◌, All, arith}
use computer_networking.Route.{add_rt_entry}
use computer_networking.Text.{text, decimal, inet_ntoa, inet_aton, fgets_lines, c_string, scan_word}
use computer_networking.Route.Load.{load_rt, print_routing_entry, print_entries}
use computer_networking.Route.Load.Entries.{IsPrintable}
use computer_networking.Route.Load.Reload.{load_rt-print_entries}
use computer_networking.Session.{Surroundings, Client, idsize, rtable_prefix, handle_rtable}
use computer_networking.Session.Table.{padded, handle_rtable-load_rt}
use computer_networking.Examples.Topology.{host_route, client, server1, server2, routes, ready}

printed :
    print_entries (host_route client 3 ∷ [])
    ≡ text "10.0.1.100\t\t10.0.1.100\t255.255.255.255\teth3\n"
unfolding print_entries print_routing_entry inet_ntoa decimal
printed = refl

host_route-IsPrintable : (n ip : ℕ) → n < 4 → ip < 0x1_0000_0000 → IsPrintable (host_route ip n)
host_route-IsPrintable n ip h l = record {
  dest = omega arith;
  gw = omega arith;
  mask = omega arith;
  name = (omega arith, (omega arith, (omega arith, (omega arith, tt))));
  some_name = omega arith;
  short = omega arith;
}

pub routes-IsPrintable : All IsPrintable routes
routes-IsPrintable = (
  host_route-IsPrintable 3 client (omega arith) (omega arith),
  (
    host_route-IsPrintable 1 server1 (omega arith) (omega arith),
    (host_route-IsPrintable 2 server2 (omega arith) (omega arith), tt),
  ),
)

load_rt-print_entries_example :
    load_rt (some (print_entries routes)) (host_route 7 1 ∷ []) ≡ some (true, routes)
load_rt-print_entries_example =
    load_rt-print_entries (host_route client 3) (host_route server1 1 ∷ host_route server2 2 ∷ [])
      (host_route 7 1 ∷ []) routes-IsPrintable

abbrev pub around : Surroundings
around = record {
  sha1 = λ _. some (1 ∷ 2 ∷ 3 ∷ 4 ∷ 5 ∷ []);
  writable = λ _. true;
  stack = [];
  raw = λ _. record { name = []; addr = []; ip = 7; speed = 9 };
}

abbrev pub fresh : Client
fresh = record { router = ready; files = λ _. some (text "secret\n"); answers = [] }

handle_rtable-load_rt_example :
    (after : Client) × (handle_rtable around
        (padded idsize (text "vrhost") ++ print_entries routes)
        fresh
      ≡ some (true, after))
    × (load_rt (after.files (rtable_prefix ++ text "vrhost")) [] ≡ some (true, routes))
handle_rtable-load_rt_example =
    handle_rtable-load_rt around (text "vrhost") (host_route client 3)
      (host_route server1 1 ∷ host_route server2 2 ∷ []) [] fresh (ground arith) (omega arith) refl
      routes-IsPrintable

sample : List ℕ
sample =
    text "0.0.0.0 10.0.1.100 0.0.0.0 eth3"
    ++ 10 ∷ text "192.168.2.2  192.168.2.2 255.255.255.255 eth1"

load_rt-sample :
    load_rt (some sample) []
    ≡ some (
      true,
      record { dest = 0; gw = 0x6401000a; mask = 0; interface = text "eth3" }
          ∷ record {
            dest = 0x0202a8c0;
            gw = 0x0202a8c0;
            mask = 0xffffffff;
            interface = text "eth1";
          }
          ∷ [],
    )
unfolding load_rt sample fgets_lines c_string scan_word inet_aton add_rt_entry
load_rt-sample = refl

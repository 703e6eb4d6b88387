-- ===== src/Lib.antt =====
-- The simple router of simple-router-project/router, in C: a user-space IPv4 router that takes
-- Ethernet frames from a server, answers ARP and pings, forwards IP packets by longest prefix
-- match, and reports errors by ICMP.
--
-- The parts, and the files that model them:
--   Checksum   `cksum` (sr_utils.c) and `ip_checksum` (sr_router.c).
--   Proto      the packed header structs of sr_protocol.h, `ethertype` and `ip_protocol`; in
--              Proto/Commands the structs of vnscommand.h that are sent.
--   State      `struct sr_instance` (sr_router.h) with the lists and the cache that hang on it.
--   Exec       the functions' calls as actions on that state, and the proof rules for actions.
--   Interface  sr_if.c, and `sr_get_interface_by_ip` of sr_router.c.
--   Text       what the program uses of the C library's text functions.
--   Route      `sr_add_rt_entry` (sr_rt.c), `lpm_lookup` (sr_router.c), and
--              `sr_verify_routing_table` (sr_main.c); in Route/Load `sr_load_rt` and the printing
--              of the table (sr_rt.c).
--   ArpCache   the table and the queue of sr_arpcache.c.
--   Wire       `sr_send_packet` and what it calls (sr_vns_comm.c).
--   Router     the handlers of sr_router.c: Router/Arp, Router/Icmp, Router/Forward, and
--              `sr_handlepacket` itself in Router. Router/Messages holds the messages that the
--              results speak of, written out apart from the code.
--   Retry      `sr_arpcache_sweepreqs`, `handle_arpreq` and the thread `sr_arpcache_timeout`.
--   System     sequences of calls: frames that arrive, and rounds of the timer; in System/Threads
--              the main thread and the timer's thread together.
--   Vns        the server's messages (sr_vns_comm.c): reading one, `sr_arp_req_not_for_us`,
--              `sr_handle_hwinfo`, and the cases VNSPACKET and VNSHWINFO of the dispatch; in
--              Vns/Packets that what is sent has the format of what is read.
--   Session    the other cases of that dispatch, `sr_read_from_server_expect` itself, the
--              authentication and the table that the server sends (sr_vns_comm.c).
--   Client     `sr_connect_to_server` (sr_vns_comm.c), and the main loop of sr_main.c; in
--              Client/Opening what the server reads in the message that opens a session.
--   Program    `main` and what it calls (sr_main.c), with `sr_init` (sr_router.c).
--   Print      `print_hdrs` and what it calls and `print_addr_ip` (sr_utils.c), `print_ip_addr`
--              (sr_router.c), the printing of interfaces (sr_if.c), of the ARP table
--              (`sr_arpcache_dump`) and of the options (`usage` of sr_main.c).
--   Dump       the capture file: its opening (sr_dumper.c), and the records that `sr_log_packet`
--              (sr_vns_comm.c) appends to it.
--   Examples   the topology of simple-router-project/IP_CONFIG, with runs on it.
-- Base holds what the parts share: tests, lists, machine words.
--
-- `sr_handlepacket` passes a frame to the ARP or the IP handlers. These look up interfaces, routes
-- and the ARP cache, and end in `sr_send_packet`, or in `sr_arpcache_queuereq` when the address of
-- the next hop is not known. An ARP reply fills the cache and releases what waited. The timer
-- expires mappings, repeats requests, and gives up after five.
--
-- How the model stands for the code. An action takes the router's state and returns a value and
-- the new state; `none` is undefined behaviour or a failed `assert`: an access outside a buffer, or
-- a null pointer that is read. A buffer is the list of its bytes. Numbers are unbounded, and where
-- the code computes in 16 or 32 bits the wrap-around is written out. The host is little-endian, as
-- the Makefile's Linux build is; a header field holds the value that the host loads, so that
-- `htons` stands where the code has it. `now` is what `time(NULL)` gives, one value during a call.
-- `wire` lists the messages that `write` took whole, and `accepts` is the socket's answer; a short
-- write leaves no trace on `wire`. A node of the request queue has its address, which is new when
-- the node is allocated, and writes through a pointer go to the node of that address.
--
-- The session adds the files that can be read and the answers of the socket to come. Outside the
-- program are the digest of SHA-1, which files can be written, what uninitialised memory holds,
-- whether the server is reached, and when the timer fires; they are fields of `Surroundings` and
-- `Host`. In Program the timer's rounds, from the thread that `sr_init` starts, run between two
-- turns of the main loop.
--
-- In System/Threads they also run inside a handler. The functions of sr_arpcache.c hold the mutex
-- of the cache, and a round holds it from its start to its end; so a round may come before and
-- after each use of the shared state by the main thread, and is taken whole. The request that
-- `sr_arpcache_queuereq` returns is used without the mutex, and a round may come there too. Each
-- use has the rounds that come before it as an argument, so that a run is a sequence of events with
-- their rounds.
--
-- Fuel is used in the main loop only, where each turn takes an answer of the socket: one more than
-- there are answers is enough. Loops over lists, and over the answers of the socket, are recursion
-- on the list, and the loop that folds a checksum is recursion on the accessibility of its sum.
--
-- Not modelled: what else is printed, and when; freeing and failing allocation; the main thread's
-- unlocked reads and writes of a request, and its messages, in the middle of a round; sha1.c, a
-- copy of the reference implementation of RFC 3174, whose digest is a parameter; the socket calls,
-- `getopt` and `atoi`, whose results are parameters; the closing of the capture file; the Python
-- scripts.
mod Base
pub mod Checksum
pub mod Text
pub mod Proto
pub mod State
pub mod Exec
pub mod Interface
pub mod Route
pub mod ArpCache
pub mod Wire
pub mod Router
pub mod Retry
pub mod System
pub mod Vns
mod Examples
pub mod Session
pub mod Client
pub mod Program
pub mod Print
pub mod Dump

-- ===== src/Lib.antt =====
-- dnsperf: a library that models the core of the tools dnsperf and resperf and states what it does.
--
-- The program reads queries from a data file, builds a DNS message from each line (src/dns.c,
-- src/edns.c, src/tsig.c, in the buffers of src/buffer.h), sends them over a transport and matches
-- the responses by their ids. The model covers how the data file is read (src/datafile.c), how
-- messages are built, the state that a sending and a receiving thread of dnsperf share, with the
-- query ids, the outstanding queries and the statistics (src/dnsperf.c, src/list.h), the transport
-- over TCP and over TLS (src/net_tcp.c, src/net_dot.c), the receiving side of the one over HTTPS
-- (src/net_doh.c) and the loop of resperf (src/resperf.c).
--
-- Files:
--   Common       shared names, tests on numbers, lists with native indices, and `Outcome`: the
--                perf_result_t of src/result.h, with `abort` for a failed assert() and `stuck` for a
--                loop of the model that ran out of fuel
--   Buffer       src/buffer.h; a buffer is its used bytes and its size. Laws: what the writes do
--   Libc         the functions of the C library that the source calls on text
--   Dns.Name     perf_dname_fromstring of src/dns.c. `scan_label` and `copy_label` are its two passes
--                over a label, one state for each `at++`; `name_loop` is `while (len)`, on fuel: each
--                round takes an octet of the text at least, so the text's length is enough
--   Dns.Qtype, Dns.Query   src/qtype.c, perf_qtype_fromstring and build_query
--   Dns.Edns     src/edns.c
--   Dns.Tsig     perf_add_tsig of src/tsig.c; OpenSSL's HMAC is a function that is passed in. Record:
--                proofs. Key: perf_tsig_parsekey, with the answer of EVP_DecodeUpdate() passed in;
--                Parsed: proofs
--   Dns.Request  perf_dns_buildrequest, in a build without LDNS. Id: proofs
--   Dns.Update   token_equals, read_update_line and build_update, in a build with LDNS, which is the
--                parameter `Ldns`. The loop over the lines is on fuel for the octets of the record:
--                each round passes one at least. Line, Records, Rounds, Built: proofs
--   Datafile     src/datafile.c. Reader: read_one_line and read_one_blob. Runs: perf_datafile_next.
--                Valid, Keeps: the invariant of the state. Lines, Reads, FirstLine, Pending, Calls,
--                AllRuns: what the calls give of a text file. read(2) and the wait for a pipe are a
--                parameter, `System`; lseek() is taken to succeed. Each loop is on fuel: every round
--                reads an octet from the file or passes an octet of the buffer
--   Links        src/list.h; a list is the sequence of its elements. Count: how often one is in it.
--                Store: the macros over the links; Chain, Parts, Refines, Inserts: that they do
--                the same
--   Perf         src/dnsperf.c: the lists of queries, query_move, process_timeouts, cancel_queries, the
--                callbacks. The loops are on fuel for the outstanding queries, of which each round
--                takes one. Receive: recv_one and a batch of do_recv; the time and the result of
--                perf_net_recv are arguments. Share: per_thread. Start: threadinfo_init. Totals:
--                sum_stats and diff_stats. Pace: the limit of queries a second of do_send; a round is
--                given the time, and whether its query is sent. System: do_send and do_recv, with
--                process_timeouts, as steps over what they share, a step for each change and for each
--                read that a branch depends on; what only the thread with the lock touches is merged.
--                What the data file, the message builder and the transport answer is left open, and
--                so are the sockets that are tried for a query; num_outstanding, a round of the loop
--                that matches the responses, and a callback of a socket are taken at one time; the
--                number of queries is a parameter, NQIDS in the source. Partition, Take, Timeouts,
--                Batch, Runs, Reached, Replied, Interleavings, Slices, Sleeps: proofs
--   Tcp          src/net_tcp.c; what the calls of the system answer is an argument. Tcp itself is
--                perf__tcp_recv; Send: perf__tcp_sendto, perf__tcp_sockready, and what a new
--                connection sets. `stream` records what the connection took. Frames, Packets,
--                Connects, Midway, Reached: proofs
--   Dot          src/net_dot.c; what the calls of OpenSSL and of the system answer is an argument. Dot
--                itself is perf__dot_recv and the new connection; Send: perf__dot_sendto and
--                perf__dot_sockready. `stream` records what the session took, `is_locked` whether a
--                call returned with the lock. Same, Frames, Sound, Reached, Faults: proofs
--   Doh          src/net_doh.c, the receiving side: perf__doh_recv and the callbacks of nghttp2, which
--                get a sequence of events that is an argument, like the answers of OpenSSL. Within,
--                Response: proofs
--   Opt          parse_uint and perf_opt_parse_suppress of src/opt.c
--   Resperf      src/resperf.c: the static variables as `State` and `Config`. Send: do_one_line. Receive:
--                try_process_response and retire_old_queries. Round: the loop of main(), a round at a
--                time, with the answers of the network, the float num_scheduled and the time as
--                arguments. Start: setup(). Partition, Balance, Answers, Limits, Ids: proofs
--   Tests        runs on concrete inputs
--
-- A call that fails leaves a partly written buffer in the source; no caller reads it (do_send and
-- do_one_line clear the message before the next use), and the model drops it. exit(1) on a bad
-- command line is the result `err failure`. Numbers are natural numbers; the stores into octets
-- reduce them mod 256.
--
-- Not modelled: the sending side of the transport over HTTPS, the transport over UDP, what a
-- callback of a socket does, the waits of both threads, the bit sets of sockets, the printed
-- summaries, logging, the other options, and the libraries that are copied into src/ext.
pub mod Common
pub mod Buffer
pub mod Libc
pub mod Dns
pub mod Datafile
pub mod Links
pub mod Perf
pub mod Tcp
pub mod Dot
pub mod Doh
pub mod Opt
pub mod Resperf
pub mod Tests

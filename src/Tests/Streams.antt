-- ===== src/Tests/Streams.antt =====
-- Runs of the framing of TCP and of the options' parsers, and the theorem on the framing.
use dnsperf.Tcp.{read}
use dnsperf.Common.{none, ◌≡◌, refl, true, false, [], ◌∷◌, arith, failure, ok, err}
use dnsperf.Libc.{codes, strtoul}
use dnsperf.Tcp.{
  TcpSocket, bytes, packet, again, take_packet, tcp_recv-framed, tcp_recv, follow_fd, receive,
}
use dnsperf.Opt.{parse_uint, parse_suppress, suppress_loop, suppress_one, split_comma, is_start}

abbrev socket : TcpSocket
socket = record {
  fd = 4;
  recvfd = 4;
  recvbuf = 0 ∷ [];
  have_more = false;
  recv_need_reconn = none;
  counts_queries = true;
  nqpc_recv = 6;
}

-- Two octets more complete the packet; without them the call is to be made again.
stream :
    ((tcp_recv (λ _. bytes (1 ∷ 9 ∷ [])) 512 socket).0 ≡ packet 1 (9 ∷ []))
    × ((tcp_recv (λ _. bytes (2 ∷ 9 ∷ [])) 512 socket).0 ≡ again)
unfolding tcp_recv follow_fd receive take_packet
stream = (refl, refl)

tcp_recv-framed_example :
    ((tcp_recv (λ _. bytes (2 ∷ 7 ∷ 8 ∷ 0 ∷ 1 ∷ [])) 512 socket).0 ≡ packet 2 (7 ∷ 8 ∷ []))
    × ((tcp_recv (λ _. bytes (2 ∷ 7 ∷ 8 ∷ 0 ∷ 1 ∷ [])) 512 socket).1.recvbuf ≡ 0 ∷ 1 ∷ [])
unfolding follow_fd
tcp_recv-framed_example =
    tcp_recv-framed (λ _. bytes (2 ∷ 7 ∷ 8 ∷ 0 ∷ 1 ∷ [])) socket (7 ∷ 8 ∷ []) (0 ∷ 1 ∷ []) 512
      (read 2 (7 ∷ 8 ∷ 0 ∷ 1 ∷ []) refl refl refl (omega arith)) (omega arith) (omega arith)

numbers :
    (parse_uint (codes "12") 1 100 ≡ ok 12)
    × ((parse_uint (codes "0") 1 100 ≡ err failure) × (parse_uint (codes "1x") 1 100 ≡ err failure))
unfolding parse_uint strtoul
numbers = (refl, (refl, refl))

-- An empty entry is the start of "timeouts".
empty_entry :
    parse_suppress (codes ",s")
    ≡ ok (record {
      timeouts = true;
      congestion = false;
      sendfailed = true;
      sockready = false;
      unexpected = false;
    })
unfolding parse_suppress suppress_loop suppress_one split_comma is_start
empty_entry = refl

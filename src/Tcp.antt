-- ===== src/Tcp.antt =====
-- src/net_tcp.c, perf__tcp_recv: responses out of a stream. `recvbuf` is recvbuf[0] to
-- recvbuf[at - 1], so `at` is its length; recv_need_reconn is `none` for -1.
pub mod Send
pub mod Frames
pub mod Packets
pub mod Connects
pub mod Midway
pub mod Reached
use dnsperf.Common.{◌∙◌}
use dnsperf.Common.{if_false}
use dnsperf.Common.{if_true}
use dnsperf.Common.{sym}
use dnsperf.Common.{true}
use dnsperf.Common.{subst}
use dnsperf.Common.{
  Option, some, drop-append, suc, ℕ, ◌+◌, ◌-◌, ◌*◌, ◌/◌, ◌%◌, ◌^◌, ◌≤◌, ◌<◌, ◌≡◌, ap, Bool, false,
  ◌&&◌, [], ◌∷◌, ◌++◌, arith, ltb, leb, ◌==◌, if◌then◌else◌, Bytes, length, length-append, get_or,
  take, drop,
}
use dnsperf.Common.{take-append, drop-append}
use dnsperf.Buffer.{uint16}

pub record TcpSocket : Type 0 where
  pub fd : ℕ
  pub recvfd : ℕ
  pub recvbuf : Bytes
  pub have_more : Bool
  pub recv_need_reconn : Option ℕ
  pub counts_queries : Bool
  pub nqpc_recv : ℕ

-- TCP_RECV_BUF_SIZE
abbrev pub recv_buf_size : ℕ
recv_buf_size = 65535 + 2

-- What recv() does, given the room: the bytes that it reads, or -1 with `errno` EBADF,
-- ECONNREFUSED, ECONNRESET or ENOTCONN, or with another one.
pub data RecvCall : Type 0 where
  bytes : Bytes → RecvCall
  disconnected : RecvCall
  failed : ℕ → RecvCall

-- What perf__tcp_recv answers: a packet's size and what it copies of it, 0, or -1 with `errno`.
pub data TcpResult : Type 0 where
  packet : ℕ → Bytes → TcpResult
  closed : TcpResult
  again : TcpResult
  error : ℕ → TcpResult

abbrev pub length_field : Bytes → ℕ
length_field b = get_or b 0 0 * 256 + get_or b 1 0

-- The check for a reconnection.
unfoldable pub follow_fd : TcpSocket → TcpSocket
follow_fd s =
    if s.fd == s.recvfd then s else record s { have_more = false; recvbuf = []; recvfd = s.fd }

-- The part behind recv().
unfoldable pub take_packet : ℕ → TcpSocket → TcpResult × TcpSocket
take_packet len s =
    let dnslen = length_field s.recvbuf in
    let rest = drop (2 + dnslen) s.recvbuf in
    if ltb (length s.recvbuf) (dnslen + 2) then (again, s) else (
      packet dnslen (take (if ltb len dnslen then len else dnslen) (drop 2 s.recvbuf)),
      record s {
        recvbuf = rest;
        have_more = ltb 2 (length rest) && leb (length_field rest + 2) (length rest);
        nqpc_recv = if s.counts_queries then (s.nqpc_recv + 1) % 2 ^ 32 else s.nqpc_recv;
      },
    )

-- The part with recv(), and the rest.
unfoldable pub receive : RecvCall → ℕ → TcpSocket → TcpResult × TcpSocket
unfolding take_packet
receive (bytes []) len s = (closed, record s { recv_need_reconn = some s.fd })
receive (bytes (x ∷ xs)) len s =
    let s' = record s { recvbuf = s.recvbuf ++ x ∷ xs } in
    if ltb (length s'.recvbuf) 3 then (again, s') else take_packet len s'
receive disconnected len s = (again, record s { recv_need_reconn = some s.fd })
receive (failed errno) len s = (error errno, s)

-- perf__tcp_recv; `recv room` is what recv() does.
unfoldable pub tcp_recv : (ℕ → RecvCall) → ℕ → TcpSocket → TcpResult × TcpSocket
unfolding follow_fd receive take_packet
tcp_recv recv len s =
    let s' = follow_fd s in
    if s'.have_more
    then take_packet len s'
    else receive (recv (recv_buf_size - length s'.recvbuf)) len s'

-- A socket with these bytes in its buffer.
abbrev pub holds : TcpSocket → Bytes → TcpSocket
holds s b = record s { recvbuf = b }

take_packet-framed :
    (s : TcpSocket) (p rest : Bytes) (len : ℕ)
    → length p < 2 ^ 16
    → length p ≤ len
    → ((take_packet len (holds s (uint16 (length p) ++ (p ++ rest)))).0 ≡ packet (length p) p)
      × ((take_packet len (holds s (uint16 (length p) ++ (p ++ rest)))).1.recvbuf ≡ rest)
unfolding take_packet
take_packet-framed s p rest len h k =
    rw (field, enough, short)
      (ap (packet (length p)) (take-append p rest), rw (two) (drop-append p rest))
  where
    field : length p / 256 % 256 * 256 + length p % 256 ≡ length p
    field = omega arith

    enough : ltb (length (uint16 (length p) ++ (p ++ rest))) (length p + 2) ≡ false
    enough = ground (arith, length-append p rest)

    short : ltb len (length p) ≡ false
    short = ground arith

    two : 2 + length p ≡ suc (suc (length p))
    two = omega arith

-- How octets are in the buffer behind the check for a reconnection: they are there, with a whole packet
-- known to be among them; or recv() adds at least one octet to make them, and they are three at
-- least.
pub data Arrives (recv : ℕ → RecvCall) (s : TcpSocket) (b : Bytes) : Type 0 where
  kept : s.have_more ≡ true → s.recvbuf ≡ b → Arrives recv s b
  read :
      (x : ℕ) (xs : Bytes)
      → s.have_more ≡ false
      → recv (recv_buf_size - length s.recvbuf) ≡ bytes (x ∷ xs)
      → s.recvbuf ++ x ∷ xs ≡ b
      → 2 < length b
      → Arrives recv s b

-- The packet is given, and what follows it is kept.
abbrev Framed : Bytes → Bytes → TcpResult × TcpSocket → Type 0
Framed p rest r = (r.0 ≡ packet (length p) p) × (r.1.recvbuf ≡ rest)

-- If the octets of the buffer, with those that recv() adds where no packet is known to be there, start
-- with a packet of less than 2^16 octets behind its length in two octets, and are three at least
-- where recv() is called; and the caller has room for the packet; then perf__tcp_recv gives the
-- packet and its size, and keeps the octets that follow.
pub tcp_recv-framed :
    (recv : ℕ → RecvCall) (s : TcpSocket) (p rest : Bytes) (len : ℕ)
    → Arrives recv (follow_fd s) (uint16 (length p) ++ (p ++ rest))
    → length p < 2 ^ 16
    → length p ≤ len
    → ((tcp_recv recv len s).0 ≡ packet (length p) p) × ((tcp_recv recv len s).1.recvbuf ≡ rest)
unfolding tcp_recv receive
tcp_recv-framed recv s p rest len (kept more same) h k =
    subst (Framed p rest) (sym (if_true (follow_fd s).have_more _ _ more)) (
      subst (λ (b : Bytes). Framed p rest (take_packet len (holds (follow_fd s) b))) (sym same)
        (take_packet-framed (follow_fd s) p rest len h k))
tcp_recv-framed recv s p rest len (read x xs no_more got same long) h k =
    subst (Framed p rest)
      (sym (
        if_false (follow_fd s).have_more _ _ no_more
        ∙ ap (λ (r : RecvCall). receive r len (follow_fd s)) got
        ∙ if_false (ltb (length ((follow_fd s).recvbuf ++ x ∷ xs)) 3) _ _
            (ground (arith, ap length same, long))))
      (subst (λ (b : Bytes). Framed p rest (take_packet len (holds (follow_fd s) b))) (sym same)
        (take_packet-framed (follow_fd s) p rest len h k))

-- ===== src/Tcp/Packets.antt =====
-- src/net_tcp.c, perf__tcp_sendto: a new packet.
use dnsperf.Common.{
  ℕ, ◌-◌, ◌^◌, ◌≤◌, ◌<◌, ◌≡◌, refl, ap, ◌∙◌, Bool, true, false, [], ◌∷◌, ◌++◌, arith, ltb,
  if◌then◌else◌, Bytes, length, take, All-append,
}
use dnsperf.Common.{if_cases, take_all, length-take}
use mathlib.Core.List.{append_assoc}
use dnsperf.Buffer.{uint16}
use dnsperf.Tcp.Send.{
  TcpSender, SendCall, accepted, try_again, disconnected, failed, TcpSent, is_lost, put_off,
  first_send, tcp_sendto, send_buf_size,
}
use dnsperf.Tcp.Frames.{IsFrame, joined, Position, IsFramed, idle, rested, through}

-- A new packet for a socket that has none on its way.
abbrev pub with_packet : Bytes → ℕ → TcpSender → TcpSender
with_packet f qid s = record s { sendbuf = f; qid = qid }

pub with_packet-IsFramed :
    (f : Bytes) (qid : ℕ) (s : TcpSender)
    → s.is_sending ≡ false
    → IsFramed s
    → IsFramed (with_packet f qid s)
with_packet-IsFramed f qid s e v = record {
  frames = v.frames;
  whole = v.whole;
  part = v.part;
  stream_is = v.stream_is;
  position = same s.is_sending e v.position;
}
  where
    same : (b : Bool) → b ≡ false → Position b s v.part → Position b (with_packet f qid s) v.part
    same true e h = cc
    same false e h = h

pub put_off-IsFramed :
    (s : TcpSender) → s.is_sending ≡ false → IsFrame s.sendbuf → IsFramed s → IsFramed (put_off s)
put_off-IsFramed s e frame v = record {
  frames = v.frames;
  whole = v.whole;
  part = [];
  stream_is =
      v.stream_is ∙ ap (λ ys. joined v.frames ++ ys) (idle s.is_sending s v.part e v.position);
  position = (refl, (frame, omega (arith, frame)));
}

pub first_send-IsFramed :
    (call : SendCall) (s : TcpSender)
    → s.is_sending ≡ false
    → IsFrame s.sendbuf
    → IsFramed s
    → IsFramed (first_send call s).1
unfolding first_send
first_send-IsFramed try_again s e frame v = v
first_send-IsFramed failed s e frame v = v
first_send-IsFramed disconnected s e frame v = put_off-IsFramed s e frame v
first_send-IsFramed (accepted n) s e frame v =
    if_cases (λ (r : TcpSent × TcpSender). IsFramed r.1) (ltb n (length s.sendbuf)) _ _
      (λ short. record {
        frames = v.frames;
        whole = v.whole;
        part = take n s.sendbuf;
        stream_is =
            ap (λ ys. ys ++ take n s.sendbuf) v.stream_is
            ∙ append_assoc (joined v.frames) v.part (take n s.sendbuf)
            ∙ ap (λ ys. joined v.frames ++ (ys ++ take n s.sendbuf)) none_yet;
        position = (refl, (frame, ground arith));
      })
      (λ long. record {
        frames = v.frames ++ s.sendbuf ∷ [];
        whole = All-append IsFrame v.frames (s.sendbuf ∷ []) v.whole (frame, tt);
        part = [];
        stream_is =
            through s v (take n s.sendbuf)
              (ap (λ ys. ys ++ take n s.sendbuf) none_yet ∙ take_all n s.sendbuf (ground arith));
        position = rested s.is_sending _ e;
      })
  where
    none_yet : v.part ≡ []
    none_yet = idle s.is_sending s v.part e v.position

-- How much of a packet is sent.
abbrev pub cut : Bytes → ℕ
cut buf = if ltb (length buf) (send_buf_size - 2) then length buf else send_buf_size - 2

pub packet-IsFrame : (buf : Bytes) → IsFrame (uint16 (cut buf) ++ take (cut buf) buf)
packet-IsFrame buf =
    let fits : (cut buf ≤ length buf) × (cut buf < 2 ^ 16) = ground arith in
    omega (arith, fits, length-take (cut buf) buf fits.0)

-- If no packet is on its way, then after perf__tcp_sendto the octets that the connection has taken
-- are whole packets behind their lengths, and the start of the new packet if that is on its way.
pub tcp_sendto-IsFramed :
    (call : SendCall) (qid : ℕ) (buf : Bytes) (s : TcpSender)
    → s.is_sending ≡ false
    → IsFramed s
    → IsFramed (tcp_sendto call qid buf s).1
unfolding tcp_sendto
tcp_sendto-IsFramed call qid buf s e v =
    if_cases (λ (r : TcpSent × TcpSender). IsFramed r.1) (is_lost s) _ _
      (λ _. put_off-IsFramed _ e (packet-IsFrame buf) (with_packet-IsFramed _ qid s e v))
      (λ _. first_send-IsFramed call _ e (packet-IsFrame buf) (with_packet-IsFramed _ qid s e v))

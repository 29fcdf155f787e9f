-- ===== src/Tcp/Frames.antt =====
-- src/net_tcp.c: what a connection takes is whole packets behind their lengths, and a part of the
-- packet that is on its way.
use dnsperf.Common.{
  ℕ, ◌+◌, ◌≤◌, ◌<◌, ◌≡◌, refl, sym, ap, ◌∙◌, Bool, true, false, not, List, [], ◌∷◌, ◌++◌, arith,
  ltb, Bytes, length, take, drop, All, All-append,
}
use dnsperf.Common.{if_cases, take_all, take-add}
use mathlib.Core.List.{append_assoc, append-nil}
use dnsperf.Tcp.{length_field}
use dnsperf.Tcp.Send.{
  TcpSender, SendCall, accepted, try_again, disconnected, failed, unsent, pushed,
}

-- A packet behind its length.
abbrev pub IsFrame : Bytes → Type 0
IsFrame f = length_field f + 2 ≡ length f

unfoldable pub joined : List Bytes → Bytes
joined [] = []
joined (f ∷ fs) = f ++ joined fs

joined-append : (fs : List Bytes) (f : Bytes) → joined (fs ++ f ∷ []) ≡ joined fs ++ f
unfolding joined
joined-append [] f = append-nil f
joined-append (g ∷ fs) f =
    ap (λ xs. g ++ xs) (joined-append fs f) ∙ sym (append_assoc g (joined fs) f)

-- What the connection has of the packet that is on its way, if one is.
abbrev pub Position : Bool → TcpSender → Bytes → Type 0
Position false s part = part ≡ []
Position true s part =
    (part ≡ take s.sending s.sendbuf) × (IsFrame s.sendbuf × (s.sending < length s.sendbuf))

pub record IsFramed (s : TcpSender) : Type 0 where
  pub frames : List Bytes
  pub whole : All IsFrame frames
  pub part : Bytes
  pub stream_is : s.stream ≡ joined frames ++ part
  pub position : Position s.is_sending s part

underway :
    (b : Bool) (s : TcpSender) (part : Bytes) → b ≡ true → Position b s part → Position true s part
underway true s part e h = h
underway false s part e h = cc

pub idle : (b : Bool) (s : TcpSender) (part : Bytes) → b ≡ false → Position b s part → part ≡ []
idle true s part e h = cc
idle false s part e h = h

still :
    (b : Bool) (s : TcpSender) (part : Bytes) → b ≡ true → Position true s part → Position b s part
still true s part e h = h
still false s part e h = cc

pub rested : (b : Bool) (s : TcpSender) → b ≡ false → Position b s []
rested true s e = cc
rested false s e = refl

-- What sendto() may take of `room` octets.
abbrev pub Fits : ℕ → SendCall → Type 0
Fits room (accepted n) = n ≤ room
Fits room try_again = Unit {0}
Fits room disconnected = Unit {0}
Fits room failed = Unit {0}

unsent_is : (s : TcpSender) → IsFrame s.sendbuf → unsent s ≡ drop s.sending s.sendbuf
unsent_is s h =
    ap (λ xs. drop s.sending xs) (take_all (length_field s.sendbuf + 2) s.sendbuf (omega arith))

-- A frame that is through.
pub through :
    (s : TcpSender) (v : IsFramed s) (xs : Bytes)
    → v.part ++ xs ≡ s.sendbuf
    → s.stream ++ xs ≡ joined (v.frames ++ s.sendbuf ∷ []) ++ []
through s v xs e =
    ap (λ ys. ys ++ xs) v.stream_is
    ∙ append_assoc (joined v.frames) v.part xs
    ∙ ap (λ ys. joined v.frames ++ ys) e
    ∙ sym (joined-append v.frames s.sendbuf)
    ∙ sym (append-nil (joined (v.frames ++ s.sendbuf ∷ [])))

-- The answer of a push says whether the packet is through.
abbrev pub Pushed : Bool × TcpSender → Type 0
Pushed r = IsFramed r.1 × (r.1.is_sending ≡ not r.0)

pub pushed-IsFramed :
    (n : ℕ) (s : TcpSender)
    → s.is_sending ≡ true
    → n ≤ length (unsent s)
    → IsFramed s
    → Pushed (pushed n s)
unfolding pushed
pushed-IsFramed n s e fits v =
    if_cases Pushed (ltb (s.sending + n) (length_field s.sendbuf + 2)) _ _
      (λ short. (
        record {
          frames = v.frames;
          whole = v.whole;
          part = v.part ++ take n (unsent s);
          stream_is =
              ap (λ ys. ys ++ take n (unsent s)) v.stream_is
              ∙ append_assoc (joined v.frames) v.part (take n (unsent s));
          position = still s.is_sending _ _ e (both, (here.1.0, ground arith));
        },
        e,
      ))
      (λ long. (
        record {
          frames = v.frames ++ s.sendbuf ∷ [];
          whole = All-append IsFrame v.frames (s.sendbuf ∷ []) v.whole (here.1.0, tt);
          part = [];
          stream_is =
              through s v (take n (unsent s))
                (both ∙ take_all (s.sending + n) s.sendbuf (ground arith));
          position = refl;
        },
        refl,
      ))
  where
    here : Position true s v.part
    here = underway s.is_sending s v.part e v.position

    both : v.part ++ take n (unsent s) ≡ take (s.sending + n) s.sendbuf
    both =
        ap (λ ys. ys ++ take n (unsent s)) here.0
        ∙ ap (λ ys. take s.sending s.sendbuf ++ take n ys) (unsent_is s here.1.0)
        ∙ take-add s.sending n s.sendbuf

-- A change that leaves the packet and the stream alone.
abbrev pub with_flags : Bool → Bool → ℕ → ℕ → TcpSender → TcpSender
with_flags is_ready need sent ts s = record s {
  is_ready = is_ready;
  need_reconnect = need;
  nqpc_sent = sent;
  nqpc_ts = ts;
}

pub flags-IsFramed :
    (is_ready need : Bool) (sent ts : ℕ) (s : TcpSender)
    → IsFramed s
    → IsFramed (with_flags is_ready need sent ts s)
flags-IsFramed is_ready need sent ts s v = record {
  frames = v.frames;
  whole = v.whole;
  part = v.part;
  stream_is = v.stream_is;
  position = same s.is_sending v.position;
}
  where
    same : (b : Bool) → Position b s v.part → Position b (with_flags is_ready need sent ts s) v.part
    same true h = h
    same false h = h

-- ===== src/Dns/Update/Built.antt =====
-- src/dns.c, build_update: what the whole function gives.
use native.Mathlib.Nat.{zero-add}
use dnsperf.Common.{leb}
use dnsperf.Common.{
  suc, ◌≡◌, refl, true, Option, none, some, List, ◌++◌, arith, if_cases, ltb, Bytes, length, drop,
  err, ◌>>=◌, Code, All, ◌⊎◌, inl, inr, set, ◌%◌,
}
use dnsperf.Buffer.{Buffer, used_length, available, put_mem, uint16}
use dnsperf.Libc.{c_string}
use dnsperf.Dns.Update.{
  Rr, Ldns, Command, Writer, Ending, complete, unwritten, update_loop, finish, build_update,
}
use dnsperf.Dns.Update.Line.{Gives, Gives-bind}
use dnsperf.Dns.Update.Records.{
  Script, IsSend, Stopped, write_all, Ended, IsPrereqLine, IsUpdateLine,
}
use dnsperf.Dns.Update.Rounds.{update_loop-Ended}

-- A message with the update that the record describes.
pub record Describes (L : Ldns) (input : Bytes) (msg m : Buffer) : Type 0 where
  pub origin : Bytes
  pub origin_is : L.origin_of (c_string input) ≡ some origin
  pub zone : Bytes
  pub names : L.Tree
  pub zone_is : L.write_name msg.bytes L.no_names origin ≡ some (zone, names)
  pub ps : List (Command × Rr)
  pub us : List (Command × Rr)
  pub script : Script L origin IsSend input (ps ++ us)
  pub are_prereqs : All IsPrereqLine ps
  pub are_updates : All IsUpdateLine us
  pub lmsg : Bytes
  pub end_names : L.Tree
  pub output : write_all L (zone ++ uint16 6 ++ uint16 1, names) (ps ++ us) ≡ some (lmsg, end_names)
  pub bytes_are :
      m.bytes
      ≡ set (set (msg.bytes ++ drop (used_length msg) lmsg) 7 (length ps % 256)) 9 (length us % 256)

abbrev started : (L : Ldns) → Bytes → Bytes → L.Tree → Writer L
started L input zone names = record {
  input = input;
  lmsg = zone ++ uint16 6 ++ uint16 1;
  names = names;
  prereqs = 0;
  updates = 0;
}

-- The record has a line that LDNS cannot write behind the zone and the lines before it.
pub record IsUnwritten (L : Ldns) (input : Bytes) (msg : Buffer) : Type 0 where
  pub origin : Bytes
  pub origin_is : L.origin_of (c_string input) ≡ some origin
  pub zone : Bytes
  pub names : L.Tree
  pub zone_is : L.write_name msg.bytes L.no_names origin ≡ some (zone, names)
  pub stopped : Stopped L origin (started L input zone names)

abbrev pub Built : Ldns → Bytes → Buffer → Buffer → Type 0
Built L input msg m = ((m ≡ msg) × IsUnwritten L input msg) ⊎ Describes L input msg m

finish-Built :
    (L : Ldns) (input : Bytes) (msg : Buffer) (origin zone : Bytes) (names : L.Tree) (e : Ending)
    → L.origin_of (c_string input) ≡ some origin
    → L.write_name msg.bytes L.no_names origin ≡ some (zone, names)
    → Ended L origin (started L input zone names) e
    → Gives (Built L input msg) (finish e msg)
unfolding finish put_mem
finish-Built L input msg origin zone names unwritten oe ze v = inl (
  refl,
  record { origin = origin; origin_is = oe; zone = zone; names = names; zone_is = ze; stopped = v },
)
finish-Built L input msg origin zone names (complete lmsg p u) oe ze v =
    if_cases (Gives (Built L input msg))
      (ltb (available msg) (length (drop (used_length msg) lmsg))) _ _ (λ _. tt)
      (λ fits.
        let room : leb (length (drop (used_length msg) lmsg)) (available msg) ≡ true =
          ground arith in
        rw (room) (
          inr (record {
            origin = origin;
            origin_is = oe;
            zone = zone;
            names = names;
            zone_is = ze;
            ps = v.ps;
            us = v.us;
            script = v.script;
            are_prereqs = v.are_prereqs;
            are_updates = v.are_updates;
            lmsg = lmsg;
            end_names = v.names;
            output = v.output;
            bytes_are = rw (v.prereqs_are, zero-add, v.updates_are, zero-add) refl;
          })))

-- On every record build_update returns, and no assert() of the buffer fails: it gives an error; or it
-- succeeds and the message describes the record's lines up to "send", which are prerequisites first
-- and then updates, with the class that RFC 2136 gives to each command, as LDNS writes them behind
-- the zone, and with their numbers, modulo 256, in the header; or it succeeds and leaves the
-- message as it is, and the record has a line that LDNS cannot write behind those before it.
pub build_update-Built :
    (L : Ldns) (input : Bytes) (msg : Buffer) → Gives (Built L input msg) (build_update L input msg)
unfolding build_update
build_update-Built L input msg = origin_read (L.origin_of (c_string input)) refl
  where
    zone_written :
        (origin : Bytes) (o : Option (Bytes × L.Tree))
        → L.origin_of (c_string input) ≡ some origin
        → L.write_name msg.bytes L.no_names origin ≡ o
        → Gives (Built L input msg) (elim o [
          | none ↦ err Code.failure
          | some (zone, names) ↦
              update_loop L (suc (length input)) origin (started L input zone names) >>= λ section.
              finish section msg
        ])
    zone_written origin none oe ze = tt
    zone_written origin (some (zone, names)) oe ze =
        Gives-bind (Ended L origin (started L input zone names)) (Built L input msg)
          (update_loop L (suc (length input)) origin (started L input zone names)) _
          (update_loop-Ended L origin (suc (length input)) (started L input zone names)
            (omega arith))
          (λ e v. finish-Built L input msg origin zone names e oe ze v)

    origin_read :
        (o : Option Bytes)
        → L.origin_of (c_string input) ≡ o
        → Gives (Built L input msg) (elim o [
          | none ↦ err Code.failure
          | some origin ↦ elim (L.write_name msg.bytes L.no_names origin) [
            | none ↦ err Code.failure
            | some (zone, names) ↦
                update_loop L (suc (length input)) origin (started L input zone names)
                >>= λ section. finish section msg
          ]
        ])
    origin_read none e = tt
    origin_read (some origin) e =
        zone_written origin (L.write_name msg.bytes L.no_names origin) e refl

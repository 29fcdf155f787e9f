-- ===== src/Dns/Update/Rounds.antt =====
-- src/dns.c, build_update: a round of the loop, and all of them.
use dnsperf.Common.{
  ℕ, zero, suc, ◌≡◌, ◌<◌, refl, Bool, true, false, not, ◌&&◌, Option, none, some, [], arith,
  if_cases, ltb, ◌==◌, Bytes, length, length-drop, Outcome, ok, err, abort, stuck, ◌>>=◌, Code,
}
use dnsperf.Libc.{codes, c_string, token, behind_token}
use dnsperf.Dns.Update.{
  Rr, Ldns, Command, add, delete, require, prohibit, is_update, run_command, token_equals,
  command_of, Writer, Ending, complete, unwritten, next_input, counted, update_loop,
}
use dnsperf.Dns.Update.Line.{Gives, IsClassed, run_command-Gives}
use dnsperf.Dns.Update.Records.{
  IsLine, last, write_all, Ended, extend_update, extend_prereq, extend_unwritten,
}

module _ (L : Ldns) (origin : Bytes) (f : ℕ) (w : Writer L) where
  abbrev next : Bytes
  next = next_input w.input

  abbrev text_line : Bytes
  text_line = c_string next

  -- The rest of the loop.
  abbrev Rest : Type 0
  Rest =
      (w' : Writer L) → length w'.input < f → Gives (Ended L origin w') (update_loop L f origin w')

  counted_input : (cmd : Command) (out : Bytes × L.Tree) → (counted cmd next w out).input ≡ next
  counted_input add out = refl
  counted_input delete out = refl
  counted_input require out = refl
  counted_input prohibit out = refl

  counted_output :
      (cmd : Command) (out : Bytes × L.Tree)
      → ((counted cmd next w out).lmsg, (counted cmd next w out).names) ≡ out
  counted_output add out = refl
  counted_output delete out = refl
  counted_output require out = refl
  counted_output prohibit out = refl

  extended :
      (cmd : Command) (rr : Rr) (out : Bytes × L.Tree) (o : Outcome Ending)
      → (not (is_update cmd) && ltb 0 w.updates) ≡ false
      → IsClassed cmd rr
      → L.write_rr w.lmsg w.names rr ≡ some out
      → IsLine L origin w.input cmd rr
      → Gives (Ended L origin (counted cmd next w out)) o
      → Gives (Ended L origin w) o
  extended cmd rr out (err e) b classed wrote front v = tt
  extended cmd rr out abort b classed wrote front v = v
  extended cmd rr out stuck b classed wrote front v = v
  extended cmd rr out (ok unwritten) b classed wrote front v =
      extend_unwritten L origin w cmd rr out wrote front (counted cmd next w out)
        (counted_input cmd out) (counted_output cmd out) v
  extended add rr out (ok (complete l p u)) b classed wrote front v =
      extend_update L origin w add rr out l p u refl classed wrote front v
  extended delete rr out (ok (complete l p u)) b classed wrote front v =
      extend_update L origin w delete rr out l p u refl classed wrote front v
  extended require rr out (ok (complete l p u)) b classed wrote front v =
      extend_prereq L origin w require rr out l p u refl (ground arith) classed wrote front v
  extended prohibit rr out (ok (complete l p u)) b classed wrote front v =
      extend_prereq L origin w prohibit rr out l p u refl (ground arith) classed wrote front v

  write_line :
      (cmd : Command) (rr : Rr) (o : Option (Bytes × L.Tree))
      → length next < f
      → (not (is_update cmd) && ltb 0 w.updates) ≡ false
      → IsClassed cmd rr
      → L.write_rr w.lmsg w.names rr ≡ o
      → IsLine L origin w.input cmd rr
      → Rest
      → Gives (Ended L origin w) (elim o [
        | none ↦ ok unwritten
        | some out ↦ update_loop L f origin (counted cmd next w out)
      ])
  unfolding write_all
  write_line cmd rr none h b classed wrote front rest = record {
    rs = [];
    cmd = cmd;
    rr = rr;
    script = last w.input front;
    lmsg = w.lmsg;
    names = w.names;
    output = refl;
    fails = wrote;
  }
  write_line cmd rr (some out) h b classed wrote front rest =
      extended cmd rr out (update_loop L f origin (counted cmd next w out)) b classed wrote front
        (rest (counted cmd next w out) h)

  order_line :
      (cmd : Command) (rr : Rr) (b : Bool)
      → length next < f
      → (not (is_update cmd) && ltb 0 w.updates) ≡ b
      → IsClassed cmd rr
      → IsLine L origin w.input cmd rr
      → Rest
      → Gives (Ended L origin w) (elim b [
        | true ↦ err Code.failure
        | false ↦ elim (L.write_rr w.lmsg w.names rr) [
          | none ↦ ok unwritten
          | some out ↦ update_loop L f origin (counted cmd next w out)
        ]
      ])
  order_line cmd rr true h e classed front rest = tt
  order_line cmd rr false h e classed front rest =
      write_line cmd rr (L.write_rr w.lmsg w.names rr) h e classed refl front rest

  run_line :
      (cmd : Command) (m : Outcome Rr)
      → length next < f
      → run_command L origin cmd (behind_token text_line) ≡ m
      → Gives (IsClassed cmd) m
      → ((rr : Rr) → m ≡ ok rr → IsLine L origin w.input cmd rr)
      → Rest
      → Gives (Ended L origin w) (
          m >>= λ rr. elim (not (is_update cmd) && ltb 0 w.updates) [
            | true ↦ err Code.failure
            | false ↦ elim (L.write_rr w.lmsg w.names rr) [
              | none ↦ ok unwritten
              | some out ↦ update_loop L f origin (counted cmd next w out)
            ]
          ])
  run_line cmd (ok rr) h e classed front rest =
      order_line cmd rr (not (is_update cmd) && ltb 0 w.updates) h refl classed (front rr refl) rest
  run_line cmd (err c) h e classed front rest = tt
  run_line cmd abort h e classed front rest = classed
  run_line cmd stuck h e classed front rest = classed

  any_line :
      (o : Option Command)
      → length next < f
      → 0 < length next
      → token_equals (token text_line) (codes "send") ≡ false
      → command_of (token text_line) ≡ o
      → Rest
      → Gives (Ended L origin w) (elim o [
        | none ↦ err Code.failure
        | some cmd ↦ run_command L origin cmd (behind_token text_line) >>= λ rr.
            elim (not (is_update cmd) && ltb 0 w.updates) [
              | true ↦ err Code.failure
              | false ↦ elim (L.write_rr w.lmsg w.names rr) [
                | none ↦ ok unwritten
                | some out ↦ update_loop L f origin (counted cmd next w out)
              ]
            ]
      ])
  any_line none h more no_send e rest = tt
  any_line (some cmd) h more no_send e rest =
      run_line cmd (run_command L origin cmd (behind_token text_line)) h refl
        (run_command-Gives L origin cmd (behind_token text_line))
        (λ rr ran. record { more = more; no_send = no_send; word = e; ran = ran }) rest

  round : length w.input < suc f → Rest → Gives (Ended L origin w) (update_loop L (suc f) origin w)
  unfolding update_loop write_all
  round h rest =
      if_cases (Gives (Ended L origin w)) (length next == 0) _ _ (λ _. tt)
        (λ more.
          if_cases (Gives (Ended L origin w)) (token_equals (token text_line) (codes "send")) _ _
            (λ sends. record {
              ps = [];
              us = [];
              names = w.names;
              script = last w.input (ground arith, sends);
              output = refl;
              prereqs_are = omega arith;
              updates_are = omega arith;
              are_prereqs = tt;
              are_updates = tt;
              order = λ k. refl;
            })
            (λ no_send.
              let some_line : 0 < length next = ground arith in
              let shorter : length next < f =
                omega (arith, some_line, length-drop (suc (length (c_string w.input))) w.input) in
              any_line (command_of (token text_line)) shorter some_line no_send refl rest))

pub update_loop-Ended :
    (L : Ldns) (origin : Bytes) (f : ℕ) (w : Writer L)
    → length w.input < f
    → Gives (Ended L origin w) (update_loop L f origin w)
update_loop-Ended L origin zero w h = absurd (omega arith)
update_loop-Ended L origin (suc f) w h =
    round L origin f w h (λ w' k. update_loop-Ended L origin f w' k)

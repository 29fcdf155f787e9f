-- ===== src/Dns/Update/Records.antt =====
-- src/dns.c, build_update: the records that the loop writes, and their order.
use dnsperf.Common.{subst}
use dnsperf.Common.{
  ℕ, ◌+◌, ◌≡◌, ◌<◌, refl, ap, true, false, Option, none, some, List, [], ◌∷◌, ◌++◌, arith, Bytes,
  length, ok, All,
}
use dnsperf.Libc.{codes, c_string, token, behind_token}
use dnsperf.Dns.Update.{
  Rr, Ldns, Command, is_update, run_command, token_equals, command_of, Writer, Ending, complete,
  unwritten, next_input,
}
use dnsperf.Dns.Update.Line.{IsClassed}

-- The line behind the one that ends at the start of `input` is a command with its record.
pub record IsLine (L : Ldns) (origin input : Bytes) (cmd : Command) (rr : Rr) : Type 0 where
  pub more : 0 < length (next_input input)
  pub no_send : token_equals (token (c_string (next_input input))) (codes "send") ≡ false
  pub word : command_of (token (c_string (next_input input))) ≡ some cmd
  pub ran : run_command L origin cmd (behind_token (c_string (next_input input))) ≡ ok rr

-- That line is "send".
abbrev pub IsSend : Bytes → Type 0
IsSend input =
    (0 < length (next_input input))
    × (token_equals (token (c_string (next_input input))) (codes "send") ≡ true)

-- The lines behind the one that ends at the start of `input`, up to one with the property: each is a
-- command with its record.
pub data Script (L : Ldns) (origin : Bytes) (End : Bytes → Type 0)
    : Bytes → List (Command × Rr) → Type 0 where
  last : (input : Bytes) → End input → Script L origin End input []
  line :
      (input : Bytes) (cmd : Command) (rr : Rr) (rest : List (Command × Rr))
      → IsLine L origin input cmd rr
      → Script L origin End (next_input input) rest
      → Script L origin End input ((cmd, rr) ∷ rest)

-- What LDNS writes of records, one behind the other.
unfoldable pub write_all :
    (L : Ldns) → Bytes × L.Tree → List (Command × Rr) → Option (Bytes × L.Tree)
write_all L out [] = some out
write_all L out (r ∷ rs) = elim (L.write_rr out.0 out.1 r.1) [
  | none ↦ none
  | some out' ↦ write_all L out' rs
]

abbrev pub IsPrereqLine : Command × Rr → Type 0
IsPrereqLine r = (is_update r.0 ≡ false) × IsClassed r.0 r.1

abbrev pub IsUpdateLine : Command × Rr → Type 0
IsUpdateLine r = (is_update r.0 ≡ true) × IsClassed r.0 r.1

-- What the loop wrote from the state `w` on, where it came to "send".
pub record Written (L : Ldns) (origin : Bytes) (w : Writer L) (lmsg : Bytes) (prereqs updates : ℕ)
    : Type 0 where
  pub ps : List (Command × Rr)
  pub us : List (Command × Rr)
  pub names : L.Tree
  pub script : Script L origin IsSend w.input (ps ++ us)
  pub output : write_all L (w.lmsg, w.names) (ps ++ us) ≡ some (lmsg, names)
  pub prereqs_are : prereqs ≡ w.prereqs + length ps
  pub updates_are : updates ≡ w.updates + length us
  pub are_prereqs : All IsPrereqLine ps
  pub are_updates : All IsUpdateLine us
  pub order : 0 < w.updates → ps ≡ []

-- What the loop wrote from the state `w` on, where it came to a record that LDNS cannot write behind
-- the others.
pub record Stopped (L : Ldns) (origin : Bytes) (w : Writer L) : Type 0 where
  pub rs : List (Command × Rr)
  pub cmd : Command
  pub rr : Rr
  pub script : Script L origin (λ input. IsLine L origin input cmd rr) w.input rs
  pub lmsg : Bytes
  pub names : L.Tree
  pub output : write_all L (w.lmsg, w.names) rs ≡ some (lmsg, names)
  pub fails : L.write_rr lmsg names rr ≡ none

abbrev pub Ended : (L : Ldns) → Bytes → Writer L → Ending → Type 0
Ended L origin w unwritten = Stopped L origin w
Ended L origin w (complete lmsg prereqs updates) = Written L origin w lmsg prereqs updates

module _ (L : Ldns) (origin : Bytes) (w : Writer L) where
  -- One line more in front.
  pub extend_update :
      (cmd : Command) (rr : Rr) (out : Bytes × L.Tree) (l : Bytes) (p u : ℕ)
      → is_update cmd ≡ true
      → IsClassed cmd rr
      → L.write_rr w.lmsg w.names rr ≡ some out
      → IsLine L origin w.input cmd rr
      → Written L origin
          (record w {
            input = next_input w.input;
            lmsg = out.0;
            names = out.1;
            prereqs = w.prereqs;
            updates = w.updates + 1;
          })
          l
          p
          u
      → Written L origin w l p u
  unfolding write_all
  extend_update cmd rr out l p u e classed wrote front v =
      let none_left : v.ps ≡ [] = v.order (omega arith) in
      record {
        ps = [];
        us = (cmd, rr) ∷ v.us;
        names = v.names;
        script = line w.input cmd rr v.us front (
            subst
              (λ (xs : List (Command × Rr)).
                Script L origin IsSend (next_input w.input) (xs ++ v.us))
              none_left v.script);
        output =
            rw (wrote, write_all)
              (subst
                (λ (xs : List (Command × Rr)). write_all L out (xs ++ v.us) ≡ some (l, v.names))
                none_left v.output);
        prereqs_are = omega (arith, v.prereqs_are, ap length none_left);
        updates_are = omega (arith, v.updates_are);
        are_prereqs = tt;
        are_updates = ((e, classed), v.are_updates);
        order = λ k. refl;
      }

  pub extend_prereq :
      (cmd : Command) (rr : Rr) (out : Bytes × L.Tree) (l : Bytes) (p u : ℕ)
      → is_update cmd ≡ false
      → w.updates ≡ 0
      → IsClassed cmd rr
      → L.write_rr w.lmsg w.names rr ≡ some out
      → IsLine L origin w.input cmd rr
      → Written L origin
          (record w {
            input = next_input w.input;
            lmsg = out.0;
            names = out.1;
            prereqs = w.prereqs + 1;
            updates = w.updates;
          })
          l
          p
          u
      → Written L origin w l p u
  unfolding write_all
  extend_prereq cmd rr out l p u e zero_updates classed wrote front v = record {
    ps = (cmd, rr) ∷ v.ps;
    us = v.us;
    names = v.names;
    script = line w.input cmd rr (v.ps ++ v.us) front v.script;
    output = rw (wrote, write_all) v.output;
    prereqs_are = omega (arith, v.prereqs_are);
    updates_are = v.updates_are;
    are_prereqs = ((e, classed), v.are_prereqs);
    are_updates = v.are_updates;
    order = λ k. absurd (omega (arith, zero_updates));
  }

  pub extend_unwritten :
      (cmd : Command) (rr : Rr) (out : Bytes × L.Tree)
      → L.write_rr w.lmsg w.names rr ≡ some out
      → IsLine L origin w.input cmd rr
      → (u : Writer L) → u.input ≡ next_input w.input
      → (u.lmsg, u.names) ≡ out
      → Stopped L origin u
      → Stopped L origin w
  unfolding write_all
  extend_unwritten cmd rr out wrote front u e k v = record {
    rs = (cmd, rr) ∷ v.rs;
    cmd = v.cmd;
    rr = v.rr;
    script = line w.input cmd rr v.rs front (
        subst (λ (xs : Bytes). Script L origin (λ input. IsLine L origin input v.cmd v.rr) xs v.rs)
          e v.script);
    lmsg = v.lmsg;
    names = v.names;
    output =
        rw (wrote, write_all)
          (subst (λ (o : Bytes × L.Tree). write_all L o v.rs ≡ some (v.lmsg, v.names)) k v.output);
    fails = v.fails;
  }

-- ===== src/Dns/Update.antt =====
-- src/dns.c, in a build with LDNS: dynamic updates. LDNS is the parameter `Ldns`.
pub mod Line
pub mod Records
pub mod Rounds
pub mod Built
use dnsperf.Common.{◌^◌}
use dnsperf.Common.{◌||◌}
use dnsperf.Common.{◌-◌}
use dnsperf.Common.{
  ℕ, zero, suc, ◌+◌, ◌%◌, Bool, true, false, not, ◌&&◌, Option, none, some, List, [], ◌∷◌, ◌++◌,
  ltb, ◌==◌, if◌then◌else◌, Bytes, length, set, drop, failure, no_space, invalid_update, Outcome,
  ok, err, abort, stuck, ◌>>=◌,
}
use dnsperf.Buffer.{Buffer, used_length, available, put_mem, uint16}
use dnsperf.Libc.{
  codes, c_string, token, behind_token, skip_spaces, strtoul, strncasecmp_eq, ulong_max,
}

-- ldns_rr; `rdata` holds its fields, so ldns_rr_rd_count() is its length.
pub record Rr : Type 0 where
  pub owner : Bytes
  pub ttl : ℕ
  pub type : ℕ
  pub class : ℕ
  pub rdata : List Bytes

-- What the source calls of LDNS; names are in wire format. `origin_of` is ldns_rdf_new_frm_str() of a
-- domain name, `name_of` ldns_dname_new_frm_str(), `is_absolute` ldns_dname_str_absolute(), `cat`
-- ldns_dname_cat(), `type_of` ldns_get_rr_type_by_name(), with 0 for no type, `rr_of`
-- ldns_rr_new_frm_str() with an origin, `write_name` and `write_rr` the two calls that write behind the
-- octets of a buffer, with the tree of names for the compression.
pub record Ldns : Type 1 where
  pub Tree : Type 0
  pub no_names : Tree
  pub origin_of : Bytes → Option Bytes
  pub name_of : Bytes → Option Bytes
  pub is_absolute : Bytes → Bool
  pub cat : Bytes → Bytes → Option Bytes
  pub type_of : Bytes → ℕ
  pub rr_of : Bytes → Bytes → Option Rr
  pub write_name : Bytes → Tree → Bytes → Option (Bytes × Tree)
  pub write_rr : Bytes → Tree → Rr → Option (Bytes × Tree)

abbrev pub class_in : ℕ
class_in = 1

abbrev pub class_none : ℕ
class_none = 254

-- LDNS_RR_CLASS_ANY, and LDNS_RR_TYPE_ANY.
abbrev pub class_any : ℕ
class_any = 255

-- `char tmp[256]`
abbrev pub tmp_size : ℕ
tmp_size = 256

-- token_equals
unfoldable pub token_equals : Bytes → Bytes → Bool
unfolding strncasecmp_eq
token_equals word str = length str == length word && strncasecmp_eq (length word) str word

-- The part of read_update_line that reads the owner's name.
unfoldable pub read_owner : Ldns → Bytes → Bytes → Outcome Bytes
read_owner L origin name =
    if ltb (tmp_size - 1) (length name) then err no_space else elim (L.name_of name) [
      | none ↦ err failure
      | some owner ↦
          if L.is_absolute name
          then ok owner
          else elim (L.cat owner origin) [ none ↦ err failure | some whole ↦ ok whole ]
    ]

-- The part that reads the TTL, a uint32_t, and what stands behind it.
unfoldable pub read_ttl : Bool → ℕ → Bytes → Outcome (ℕ × Bytes)
unfolding strtoul skip_spaces token behind_token
read_ttl want_ttl ttl str =
    let word = token str in
    let (u, behind) = strtoul 10 word in
    if not want_ttl
    then ok (ttl, str)
    else if ltb (tmp_size - 1) (length word)
    then err no_space
    else if not (length behind == 0) || u == ulong_max
    then err invalid_update
    else ok (u % 2 ^ 32, skip_spaces (behind_token str))

-- The part that reads the data; `line` is the line from its owner's name on.
unfoldable pub read_rdata : Ldns → Bytes → Bytes → Bool → Bool → Bytes → Rr → Outcome Rr
read_rdata L origin line want_rdata need_rdata str rr =
    if not want_rdata
    then ok rr
    else if length str == 0
    then (if need_rdata then err invalid_update else ok rr)
    else elim (L.rr_of line origin) [
      | none ↦ err invalid_update
      | some rr₂ ↦ ok (record rr₂ { ttl = rr.ttl })
    ]

-- The part that reads the type, and the rest.
unfoldable pub read_type : Ldns → Bytes → Bytes → Bool → Bool → Bool → Bytes → Rr → Outcome Rr
unfolding read_rdata skip_spaces token behind_token
read_type L origin line need_type want_rdata need_rdata str rr =
    let word = token str in
    let rest =
      read_rdata L origin line want_rdata need_rdata (skip_spaces (behind_token str))
        (record rr { type = L.type_of word }) in
    if length word == 0
    then (if need_type then err invalid_update else ok rr)
    else if ltb (tmp_size - 1) (length word)
    then err no_space
    else if L.type_of word == 0
    then err invalid_update
    else rest

-- Which parts of a line a command wants and needs.
pub record Wanted : Type 0 where
  pub want_ttl : Bool
  pub need_type : Bool
  pub want_rdata : Bool
  pub need_rdata : Bool

-- read_update_line
unfoldable pub read_update_line : Ldns → Bytes → Bytes → Wanted → Rr → Outcome Rr
unfolding read_owner read_ttl read_type skip_spaces token behind_token
read_update_line L str origin w rr =
    let line = skip_spaces str in
    read_owner L origin (token line) >>= λ owner.
    read_ttl w.want_ttl rr.ttl (skip_spaces (behind_token line)) >>= λ r.
    read_type L origin line w.need_type w.want_rdata w.need_rdata r.1
      (record rr { owner = owner; ttl = r.0 })

pub data Command : Type 0 where
  add delete require prohibit : Command

-- The tests of build_update on the first word of a line.
unfoldable pub command_of : Bytes → Option Command
unfolding token_equals
command_of word =
    if token_equals word (codes "add")
    then some add
    else if token_equals word (codes "delete")
    then some delete
    else if token_equals word (codes "require")
    then some require
    else if token_equals word (codes "prohibit")
    then some prohibit
    else none

abbrev pub is_update : Command → Bool
is_update add = true
is_update delete = true
is_update require = false
is_update prohibit = false

abbrev pub new_rr : Rr
new_rr = record { owner = []; ttl = 0; type = class_any; class = class_in; rdata = [] }

abbrev pub wanted : Command → Wanted
wanted add = record { want_ttl = true; need_type = true; want_rdata = true; need_rdata = true }
wanted delete = record {
  want_ttl = false;
  need_type = false;
  want_rdata = true;
  need_rdata = false;
}
wanted require = record {
  want_ttl = false;
  need_type = false;
  want_rdata = true;
  need_rdata = false;
}
wanted prohibit = record {
  want_ttl = false;
  need_type = false;
  want_rdata = false;
  need_rdata = false;
}

-- The class that a command sets, from the number of fields.
abbrev pub class_of : Command → ℕ → ℕ
class_of add n = class_in
class_of delete n = if n == 0 then class_any else class_none
class_of require n = if n == 0 then class_any else class_in
class_of prohibit n = class_none

-- The branches of build_update for the commands.
unfoldable pub run_command : Ldns → Bytes → Command → Bytes → Outcome Rr
unfolding read_update_line
run_command L origin cmd text = read_update_line L text origin (wanted cmd) new_rr >>= λ rr.
    ok (record rr { class = class_of cmd (length rr.rdata) })

-- The variables of the loop of build_update; `input` is the record from `input.base` on.
pub record Writer (L : Ldns) : Type 0 where
  pub input : Bytes
  pub lmsg : Bytes
  pub names : L.Tree
  pub prereqs : ℕ
  pub updates : ℕ

-- How the loop ends where the result is PERF_R_SUCCESS: at "send", or at a record that LDNS cannot
-- write.
pub data Ending : Type 0 where
  complete : Bytes → ℕ → ℕ → Ending
  unwritten : Ending

abbrev pub next_input : Bytes → Bytes
next_input input = drop (suc (length (c_string input))) input

abbrev pub counted : {L : Ldns} → Command → Bytes → Writer L → Bytes × L.Tree → Writer L
counted cmd input w out = record w {
  input = input;
  lmsg = out.0;
  names = out.1;
  prereqs = if is_update cmd then w.prereqs else w.prereqs + 1;
  updates = if is_update cmd then w.updates + 1 else w.updates;
}

-- The loop, on fuel for the octets of the record, of which each round passes one at least.
unfoldable pub update_loop : (L : Ldns) → ℕ → Bytes → Writer L → Outcome Ending
unfolding c_string token behind_token token_equals command_of run_command
update_loop L zero origin w = stuck
update_loop L (suc f) origin w =
    let input = next_input w.input in
    let line = c_string input in
    if length input == 0
    then err failure
    else if token_equals (token line) (codes "send")
    then ok (complete w.lmsg w.prereqs w.updates)
    else elim (command_of (token line)) [
      | none ↦ err failure
      | some cmd ↦ run_command L origin cmd (behind_token line) >>= λ rr.
          elim (not (is_update cmd) && ltb 0 w.updates) [
            | true ↦ err failure
            | false ↦ elim (L.write_rr w.lmsg w.names rr) [
              | none ↦ ok unwritten
              | some out ↦ update_loop L f origin (counted cmd input w out)
            ]
          ]
    ]

-- The end of build_update.
unfoldable pub finish : Ending → Buffer → Outcome Buffer
unfolding put_mem
finish unwritten msg = ok msg
finish (complete lmsg prereqs updates) msg =
    let body = drop (used_length msg) lmsg in
    if ltb (available msg) (length body)
    then err no_space
    else put_mem msg body >>= λ m.
        ok (record m { bytes = set (set m.bytes 7 (prereqs % 256)) 9 (updates % 256) })

-- build_update; `input` is the record: lines, each with its NUL.
unfoldable pub build_update : Ldns → Bytes → Buffer → Outcome Buffer
unfolding c_string update_loop finish
build_update L input msg = elim (L.origin_of (c_string input)) [
  | none ↦ err failure
  | some origin ↦ elim (L.write_name msg.bytes L.no_names origin) [
    | none ↦ err failure
    | some (zone, names) ↦
        update_loop L (suc (length input)) origin (record {
          input = input;
          lmsg = zone ++ uint16 6 ++ uint16 1;
          names = names;
          prereqs = 0;
          updates = 0;
        })
        >>= λ section. finish section msg
  ]
]

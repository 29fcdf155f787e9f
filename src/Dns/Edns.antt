-- ===== src/Dns/Edns.antt =====
-- src/edns.c: EDNS options from the command line, and the OPT record.
pub mod Record
use dnsperf.Common.{
  ℕ, zero, suc, ◌+◌, ◌-◌, ◌*◌, ◌/◌, ◌%◌, ◌^◌, ◌≤◌, ◌<◌, ◌≡◌, refl, sym, ap, ◌∙◌, ◌≢◌, ◌↔◌, ◌⊎◌, inl,
  inr, Bool, true, false, not, ◌&&◌, ◌||◌, Option, none, some, List, [], ◌∷◌, ◌++◌, map, arith, ltb,
  leb, ◌==◌, if◌then◌else◌, Bool-cases, is_digit, Bytes, length, length-append, get_or, set, take,
  drop, All, All-append, Code, failure, eof, invalid_file, no_space, Outcome, ok, err, abort, stuck,
  ◌>>=◌, bind-eq-ok,
}
use dnsperf.Buffer.{
  Buffer, init, used_length, available, put_mem, put_uint8, put_uint16, add_zeros, overwrite_uint16,
  increment,
}
use mathlib.Core.Option
use dnsperf.Libc.{strtoul, ulong_max}

-- strchr(copy, ':'): the text in front of the first colon, and the text behind it.
unfoldable pub split_colon : Bytes → Option (Bytes × Bytes)
split_colon [] = none
split_colon (c ∷ cs) =
    let later = Option.map (λ (p : Bytes × Bytes). (c ∷ p.0, p.1)) (split_colon cs) in
    if c == b':' then some ([], cs) else later

-- `while (*value)`: two hexadecimal digits for each octet.
unfoldable pub hex_loop : Bytes → Buffer → Outcome Buffer
hex_loop [] b = ok b
hex_loop (c ∷ []) b = abort
hex_loop (c ∷ d ∷ cs) b =
    let (u, rest) = strtoul 16 (c ∷ d ∷ []) in
    let stored = put_uint8 b (u % 256) >>= λ b'. hex_loop cs b' in
    if not (length rest == 0) || u == ulong_max then err failure else stored

-- perf_edns_parseoption, without the allocation; `err failure` stands for exit(1). The result is
-- the option's buffer.
unfoldable pub parse_option : Bytes → Outcome Buffer
parse_option arg = elim (split_colon arg) [
  | none ↦ err failure
  | some (copy, value) ↦
      if length value == 0
      then err failure
      else if length value % 2 == 1
      then err failure
      else (let (u, rest) = strtoul 10 copy in
          if not (length rest == 0) || u == ulong_max
          then err failure
          else put_uint16 (init (length value / 2 + 4)) (u % 65536) >>= λ save.
              add_zeros save 2 >>= λ b. hex_loop value b >>= λ done.
              ok (overwrite_uint16 done (used_length save) (used_length done - 4)))
]

abbrev pub edns_len : ℕ
edns_len = 11

abbrev pub max_edns_packet : ℕ
max_edns_packet = 4096

abbrev pub option_bytes : Option Buffer → Bytes
option_bytes none = []
option_bytes (some option) = option.bytes

-- perf_add_edns
unfoldable pub add_edns : Buffer → Bool → Option Buffer → Outcome Buffer
add_edns packet dnssec option =
    let option_length = length (option_bytes option) in
    if ltb (available packet) (edns_len + option_length)
    then err no_space
    else put_uint8 packet 0 >>= λ p₁. put_uint16 p₁ 41 >>= λ p₂.
        put_uint16 p₂ max_edns_packet >>= λ p₃. put_uint8 p₃ 0 >>= λ p₄. put_uint8 p₄ 0 >>= λ p₅.
        put_uint16 p₅ (if dnssec then 0x8000 else 0) >>= λ p₆. put_uint16 p₆ option_length >>= λ p₇.
        put_mem p₇ (option_bytes option) >>= λ p₈. ok (increment p₈ 11)

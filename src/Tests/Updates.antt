-- ===== src/Tests/Updates.antt =====
-- Runs of the dynamic updates, and the theorems on them, with an LDNS that writes names as they stand.
use dnsperf.Common.{◌≡◌, ◌++◌, refl, false, none, some, [], ◌∷◌, Bytes, ok, err, failure}
use dnsperf.Buffer.{Buffer}
use dnsperf.Libc.{codes, c_string, token}
use dnsperf.Dns.Update.{Ldns, new_rr, build_update, token_equals, command_of, run_command}
use dnsperf.Dns.Update.Line.{Gives}
use dnsperf.Dns.Update.Built.{Built, build_update-Built}

abbrev sample_ldns : Ldns
sample_ldns = record {
  Tree = Unit {0};
  no_names = tt;
  origin_of = λ s. some s;
  name_of = λ s. some s;
  is_absolute = λ s. false;
  cat = λ a b. some (a ++ b);
  type_of = λ s. 1;
  rr_of = λ line origin. some (record new_rr { owner = origin; rdata = line ∷ [] });
  write_name = λ out t name. some (out ++ name, t);
  write_rr = λ out t rr. some (out ++ rr.owner ++ rr.ttl ∷ rr.class ∷ [], t);
}

-- An LDNS that cannot write a record.
abbrev failing_ldns : Ldns
failing_ldns = record sample_ldns { write_rr = λ out t rr. none }

abbrev sample_header : Buffer
sample_header = record { cap = 64; bytes = 0 ∷ 1 ∷ 2 ∷ 3 ∷ 4 ∷ 5 ∷ 6 ∷ 7 ∷ 8 ∷ 9 ∷ 10 ∷ 11 ∷ [] }

abbrev lines : Bytes
lines =
    codes "a"
    ++ 0 ∷ codes "require b"
    ++ 0 ∷ codes "add c 60 A 1"
    ++ 0 ∷ codes "delete d"
    ++ 0 ∷ codes "send"
    ++ 0 ∷ []

update_built :
    build_update sample_ldns lines sample_header
    ≡ ok (record sample_header {
      bytes =
          0 ∷ 1 ∷ 2 ∷ 3 ∷ 4 ∷ 5 ∷ 6 ∷ 1 ∷ 8 ∷ 2 ∷ 10 ∷ 11 ∷ 97 ∷ 0 ∷ 6 ∷ 0 ∷ 1 ∷ 98 ∷ 97 ∷ 0 ∷ 255
          ∷ 97 ∷ 60 ∷ 1 ∷ 100 ∷ 97 ∷ 0 ∷ 255 ∷ [];
    })
unfolding build_update
update_built = refl

-- A prerequisite behind an update, and a record without "send".
update_refused :
    (build_update sample_ldns
        (codes "a" ++ 0 ∷ codes "delete d" ++ 0 ∷ codes "require b" ++ 0 ∷ [])
        sample_header
      ≡ err failure)
    × (build_update sample_ldns (codes "a" ++ 0 ∷ codes "delete d" ++ 0 ∷ []) sample_header
        ≡ err failure)
unfolding build_update
update_refused = (refl, refl)

build_update-Built_example :
    Gives (Built sample_ldns lines sample_header) (build_update sample_ldns lines sample_header)
build_update-Built_example = build_update-Built sample_ldns lines sample_header

-- A record that LDNS cannot write.
unwritten_lines :
    build_update failing_ldns
      (codes "a" ++ 0 ∷ codes "add c 60 A 1" ++ 0 ∷ codes "send" ++ 0 ∷ [])
      sample_header
    ≡ ok sample_header
unfolding c_string token_equals token command_of run_command build_update
unwritten_lines = refl

-- ===== src/Handler/Reports/Tests.antt =====
-- A result that is captured, promoted and read.
use looking_glass.Common.{
  ℕ, ◌≡◌, refl, List, [], ◌∷◌, true, some, arith, Text, Text-discrete, ℕ_discrete, codes, lookup,
  assign, delete, none,
}
use looking_glass.RateLimit.{new, new_per_hour, allow, allow_entry}
use looking_glass.Report.Ephemeral as Ephemeral
use looking_glass.Report.Id.{new_id, encode_to_string, valid_id}
use looking_glass.Report.Store as Store
use looking_glass.Report.Store.Sample.{sample, sample-RoundTrips, get_text, get_number, take_text}
use looking_glass.Handler.State.{State}
use looking_glass.Handler.Reports.{
  created, found, promote_report, promote_body, promote_counted, promote_entry, answer, read_report,
}
use looking_glass.Handler.Reports.Links.{read_report-promote_report}

abbrev random : List ℕ
random =
    0 ∷ 1 ∷ 15 ∷ 16 ∷ 171 ∷ 255 ∷ 7 ∷ 8 ∷ 9 ∷ 10 ∷ 11 ∷ 12 ∷ 13 ∷ 14 ∷ 200 ∷ 201 ∷ 202 ∷ 203 ∷ 204
    ∷ 205 ∷ []

abbrev id : Text
id = codes "00010f10abff0708090a0b0c0d0ec8c9cacbcccd"

abbrev req : Text
req = codes "ffffffffffffffffffffffffffffffffffffffff"

abbrev captured : Ephemeral.Ephemeral
captured = record {
  kind = codes "bgp";
  target = codes "192.0.2.1";
  payload = codes "{}";
  created_at = 3;
}

abbrev cache : Ephemeral.Cache
cache = (req, captured) ∷ []

abbrev store : Store.Store
store = record { disk = []; active = 0 }

abbrev world : Store.World
world = record {
  random = some random;
  now = 5;
  written = Store.whole;
  renamed = true;
  removed = true;
}

abbrev state : State
state = record {
  ephemeral = some cache;
  reports = some store;
  store = record { current = none };
  geo = none;
  semaphore = 0;
  ip_sem = [];
  resolvers = [];
  rl = new 60 10;
  promote_rl = new_per_hour 10 10;
}

abbrev promoted : State
promoted = (promote_report sample state (codes "a") 5 (some req) world).0

program : Unit {0}
unfolding sample get_text get_number take_text new_id encode_to_string valid_id Text-discrete
    ℕ_discrete lookup assign delete promote_report promote_body promote_counted promote_entry answer
    Store.promote Ephemeral.get Store.write_report allow allow_entry
program = tt

answered : promote_report sample state (codes "a") 5 (some req) world ≡ (promoted, created id)
unfolding program
answered = refl

read_report-promote_report_example :
    (read_report sample promoted (codes "b") id 9).1
    ≡ found (record {
      id = id;
      kind = codes "bgp";
      target = codes "192.0.2.1";
      captured_at = 5;
      payload = sample.compact (codes "{}");
    })
unfolding program
read_report-promote_report_example =
    read_report-promote_report sample sample-RoundTrips state promoted cache store captured
      (codes "a") (codes "b") req id 5 9 world random refl refl refl (omega arith) (omega arith)
      refl (omega arith) answered refl (omega arith)

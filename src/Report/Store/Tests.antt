-- ===== src/Report/Store/Tests.antt =====
use looking_glass.Common.{
  ℕ, ◌+◌, ◌-◌, ◌*◌, ◌≤◌, ◌<◌, ◌≡◌, refl, List, [], ◌∷◌, ◌++◌, true, false, none, some, arith, ltb,
  if◌then◌else◌, Text, Text-discrete, ℕ_discrete, codes, lookup, assign, delete, ◌⊎◌,
}
use looking_glass.Report.Id.{new_id, encode_to_string, valid_id}
use looking_glass.Report.Id.Hex.{IsRandom}
use looking_glass.Report.Store.{
  Report, file, Store, hour, report_ttl, max_active_total, path, has_suffix, content, read_file,
  read_report, unexpired, report_in, is_active, count_loop, count_active, whole, broken, World,
  at_capacity, failed, ok, err, write_report, promote, get, sweep_entry, sweep_loop, sweep,
}
use looking_glass.Report.Store.Sample.{
  put_text, take_text, get_text, get_number, sample, sample-RoundTrips,
}
use looking_glass.Report.Store.Counting.{promote-active, sweep-active}
use looking_glass.Report.Store.Reading.{get-promote, get-promote_other}
use looking_glass.Report.Store.Slots.{
  Slots, Reach, here, next, reserve, started, Reach-bounded, Reach-unbounded, Always,
}

abbrev random : List ℕ
random =
    0 ∷ 1 ∷ 15 ∷ 16 ∷ 171 ∷ 255 ∷ 7 ∷ 8 ∷ 9 ∷ 10 ∷ 11 ∷ 12 ∷ 13 ∷ 14 ∷ 200 ∷ 201 ∷ 202 ∷ 203 ∷ 204
    ∷ 205 ∷ []

abbrev id : Text
id = codes "00010f10abff0708090a0b0c0d0ec8c9cacbcccd"

abbrev other : Text
other = codes "ffffffffffffffffffffffffffffffffffffffff"

abbrev world : World
world = record { random = some random; now = 5; written = whole; renamed = true; removed = true }

abbrev store : Store
store = record { disk = []; active = 0 }

program : Unit {0}
unfolding sample get_text get_number take_text new_id encode_to_string valid_id Text-discrete
    ℕ_discrete lookup assign delete has_suffix content read_file read_report unexpired report_in
    is_active count_loop count_active write_report promote get sweep_entry sweep_loop sweep
program = tt

promoted : (promote sample store (codes "bgp") (codes "192.0.2.1") (codes "{}") world).1 ≡ ok id
unfolding program
promoted = refl

promoted_read :
    get sample (promote sample store (codes "bgp") (codes "192.0.2.1") (codes "{}") world).0 id 9
    ≡ some (record {
      id = id;
      kind = codes "bgp";
      target = codes "192.0.2.1";
      captured_at = 5;
      payload = codes "{}";
    })
unfolding program
promoted_read = refl

random-IsRandom : IsRandom random
random-IsRandom = omega arith

get-promote_example :
    (id ≡ encode_to_string random)
    × (get sample
          (promote sample store (codes "bgp") (codes "192.0.2.1") (codes "{}") world).0
          id
          (25 * hour)
        ≡ (if ltb report_ttl (25 * hour - 5)
            then none
            else some (record {
              id = id;
              kind = codes "bgp";
              target = codes "192.0.2.1";
              captured_at = 5;
              payload = sample.compact (codes "{}");
            })))
unfolding program
get-promote_example =
    get-promote sample sample-RoundTrips store (codes "bgp") (codes "192.0.2.1") (codes "{}") world
      random id (25 * hour) (omega arith) (omega arith) refl random-IsRandom refl

-- The disk fills up in the middle of the write.
abbrev broken_world : World
broken_world = record world { written = broken (some (codes "{")) }

get-promote_other_example :
    get sample
      (promote sample store (codes "bgp") (codes "192.0.2.1") (codes "{}") broken_world).0
      other
      9
    ≡ get sample store other 9
unfolding program
get-promote_other_example =
    get-promote_other sample store (codes "bgp") (codes "192.0.2.1") (codes "{}") broken_world other
      9 (λ e. cc)

abbrev full : Store
full = record { disk = []; active = 2000 }

promote-active_example :
    ((max_active_total ≤ full.active)
      × (promote sample full (codes "bgp") [] [] world ≡ (full, err at_capacity)))
    ⊎ ((i : Text) × ((promote sample full (codes "bgp") [] [] world).1 ≡ ok i)
        × ((promote sample full (codes "bgp") [] [] world).0.active ≡ full.active + 1)
        × (full.active < max_active_total))
    ⊎ (((promote sample full (codes "bgp") [] [] world).1 ≡ err failed)
        × ((promote sample full (codes "bgp") [] [] world).0.active ≡ full.active)
        × (full.active < max_active_total))
promote-active_example = promote-active sample full (codes "bgp") [] [] world

abbrev old_report : Report
old_report = record { id = other; kind = []; target = []; captured_at = 3; payload = codes "{}" }

abbrev kept : Store
kept = record {
  disk =
      (codes "notes.txt", file [])
      ∷ (path other, file (40 ∷ (other ++ put_text [] (put_text [] (3 ∷ codes "{}")))))
      ∷ [];
  active = 7;
}

kept_read : get sample kept other (hour) ≡ some old_report
unfolding program
kept_read = refl

sweep-active_example :
    ((sweep sample (25 * hour) true (λ _. true) kept).active
      ≡ count_active sample (25 * hour) (some kept.disk))
    × ((sweep sample (25 * hour) true (λ _. true) kept).active
        ≡ count_active sample
            (25 * hour)
            (some (sweep sample (25 * hour) true (λ _. true) kept).disk))
    × (sweep sample (25 * hour) false (λ _. true) kept ≡ kept)
sweep-active_example = sweep-active sample (25 * hour) (λ _. true) kept

abbrev one_waits : Slots
one_waits = record { ups = 4; downs = 0; pending = 1; stored = 3 }

Reach-bounded_example : 1 + 3 ≤ max_active_total
Reach-bounded_example =
    Reach-bounded 3 {s = one_waits} (omega arith) (next here (reserve (omega arith)))

Reach-unbounded_example : (s : Slots) × Reach Always (started 0) s × (s.stored ≡ 2001)
Reach-unbounded_example = Reach-unbounded 2001

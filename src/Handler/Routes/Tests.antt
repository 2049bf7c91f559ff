-- ===== src/Handler/Routes/Tests.antt =====
-- Requests for routes and for information on addresses.
use looking_glass.Common.{
  ◌≡◌, refl, List, [], ◌∷◌, ◌++◌, Option, none, some, if◌then◌else◌, Text, Text-discrete,
  ℕ_discrete, codes, lookup, assign, take,
}
use looking_glass.Ip.{to4, to16}
use looking_glass.Radix.{update, find, best_match}
use looking_glass.Radix.Longest.{Deepest}
use looking_glass.RateLimit.{allow, allow_entry}
use looking_glass.Report.Id.{new_id, encode_to_string}
use looking_glass.Bgp.Sample as Bgp
use looking_glass.Bgp.Sample.{v4_text, knows, routes, r2, r3, nothing, the_store}
use looking_glass.Bgp.Store.{decoded, load, has_default, store_lookup_ip}
use looking_glass.Bgp.Store.Index.{parsed}
use looking_glass.Bgp.Table.{address_bits, routes_for, listed}
use looking_glass.Bgp.Trie.{
  Route, root_for, add_route, insert, insert_within, available, in_range, answer, lookup_ip, or_nil,
}
use looking_glass.Geoip.Sample as Geoip
use looking_glass.Strings.{is_space, trim_space, split}
use looking_glass.Validator.{member, contains_any, validate_target}
use looking_glass.Handler.{client_ip, query_get}
use looking_glass.Handler.Gate.{Env}
use looking_glass.Handler.IpInfo.{Entry, find_entry, ip_info, max_targets}
use looking_glass.Handler.IpInfo.Entries.{is_among, targets_of, lookup-ip_info}
use looking_glass.Handler.Routes.{Answer, Lookups, Keeping, bgp}
use looking_glass.Handler.Routes.Answers.{Passes, answer_of, bgp-loaded}
use looking_glass.Handler.Sample.{random, id, cache, state, request}
use looking_glass.Handler.Sample as Handler
use looking_glass.Handler.State.{State, json}

abbrev env : Env
env = record Handler.env { network = record Handler.env.network { parsers = Bgp.net } }

abbrev at_work : State
at_work = record state {
  store = the_store (load Bgp.net 1 (decoded 1 routes) nothing);
  geo = some Geoip.file_db;
}

abbrev lookups : Lookups
lookups = record { netip = Geoip.net; now = 5 }

abbrev keeping : Keeping Answer
keeping = record { random = some random; stored = 7; marshal = λ a. some a.qtype }

abbrev asked : List (Text × Text)
asked = (codes "type", codes " IP") ∷ (codes "query", codes "10.1.2.3 ") ∷ []

program : Unit {0}
unfolding knows Bgp.net ℕ_discrete Text-discrete lookup assign to4 to16 update find best_match
    root_for add_route insert insert_within available in_range answer lookup_ip load has_default
    store_lookup_ip allow allow_entry client_ip is_space trim_space split member contains_any
    validate_target new_id encode_to_string
program = tt

passes : Passes env lookups (request asked) at_work v4_text
unfolding program
passes = record { of_ip = refl; named = refl; not_empty = refl; allowed = refl; valid = refl }

load-at_work : load Bgp.net 1 (decoded 1 routes) nothing ≡ some (at_work.store, none)
unfolding program
load-at_work = refl

bgp-loaded_example :
    (best : Option (List Route)) × (i : Option Text) × ((bgp env lookups keeping
        (request asked)
        at_work).0
      ≡ json
          (record (answer_of env lookups at_work v4_text
            (if has_default (or_nil best) then [] else or_nil best)) { request_id = i }))
    × Deepest
        (λ q. listed (routes_for (root_for (10 ∷ 1 ∷ 2 ∷ 3 ∷ [])).0 q (parsed Bgp.net routes)))
        (address_bits (10 ∷ 1 ∷ 2 ∷ 3 ∷ []))
        none
        best
unfolding Bgp.net Text-discrete ℕ_discrete
bgp-loaded_example =
    bgp-loaded env lookups keeping (request asked) at_work v4_text passes 1 1 routes nothing
      (10 ∷ 1 ∷ 2 ∷ 3 ∷ []) load-at_work refl

abbrev listed_targets : List (Text × Text)
listed_targets = (codes "targets", codes " 10.1.2.3," ++ 10 ∷ 1 ∷ 2 ∷ 3 ∷ []) ∷ []

lookup-ip_info_example :
    (m : List (Text × Entry)) × ((ip_info env lookups (request listed_targets) at_work).0 ≡ json m)
    × (lookup Text-discrete v4_text m ≡ (
        if is_among v4_text (
          take max_targets
            (targets_of (split b',' (query_get (request listed_targets) (codes "targets")))))
        then find_entry env Geoip.net Geoip.file_db at_work.store v4_text
        else none))
unfolding program
lookup-ip_info_example =
    lookup-ip_info env lookups (request listed_targets) at_work Geoip.file_db v4_text refl refl refl

-- ===== src/Bgp/Tests.antt =====
-- Runs of the store on a table of four routes, and the theorems on them.
use looking_glass.Common.{
  ℕ, ◌≡◌, refl, ◌⊎◌, List, [], ◌∷◌, Option, none, some, true, false, Text-discrete, ℕ_discrete,
  codes, take, lookup, assign,
}
use looking_glass.Ip.{to4, to16}
use looking_glass.Radix.{update, find, best_match}
use looking_glass.Bgp.Sample.{
  v4_text, net, route, r1, r2, r3, routes, nothing, host_route, mapped_text, mapped_route,
  the_store,
}
use looking_glass.Bgp.Store.{
  Store, Opened, open_error, decoded, load, ok, has_default, store_lookup_ip, store_lookup_prefix,
  lookup_asn, stats,
}
use looking_glass.Bgp.Store.Index.{with_network, parsed, via}
use looking_glass.Bgp.Store.Range.{all_in_range}
use looking_glass.Bgp.Store.Ticks.{Served, run_ticks, run_ticks-current}
use looking_glass.Bgp.Store.Load.{
  lookup_asn-load, PrefixAnswer, store_lookup_prefix-load, AddressAnswer, store_lookup_ip-load,
}
use looking_glass.Bgp.Trie.{
  Route, root_for, add_route, insert, insert_within, available, in_range, answer, lookup_ip,
  lookup_exact_prefix,
}

program : Unit {0}
unfolding net ℕ_discrete Text-discrete lookup assign to4 to16 update find best_match root_for
    add_route insert insert_within available in_range with_network parsed all_in_range answer
    lookup_ip lookup_exact_prefix load has_default store_lookup_ip store_lookup_prefix lookup_asn
    stats
program = tt

abbrev loaded : List Route → Store
loaded file = the_store (load net 1 (decoded 1 file) nothing)

longest : store_lookup_ip net (loaded routes) v4_text ≡ ok (r2 ∷ r3 ∷ [])
unfolding program
longest = refl

exact : store_lookup_prefix net (loaded routes) (codes "10.0.0.0/8") ≡ some (ok (r1 ∷ []))
unfolding program
exact = refl

by_asn : lookup_asn (loaded routes) 7 ≡ r1 ∷ r3 ∷ []
unfolding program
by_asn = refl

counted : stats (loaded routes) ≡ (3, some 1)
unfolding program
counted = refl

hidden : store_lookup_ip net (loaded (route (codes "0.0.0.0/0") (7 ∷ []) ∷ [])) v4_text ≡ ok []
unfolding program
hidden = refl

-- A mapped prefix in the file, and a mapped prefix as a query.
load_panics : load net 1 (decoded 1 (r1 ∷ mapped_route ∷ [])) nothing ≡ none
unfolding program
load_panics = refl

lookup_panics : store_lookup_prefix net (loaded (host_route ∷ [])) mapped_text ≡ none
unfolding program
lookup_panics = refl

lookup_of_mapped : store_lookup_prefix net (loaded routes) mapped_text ≡ some (ok [])
unfolding program
lookup_of_mapped = refl

lookup_asn-load_example :
    ((all_in_range (parsed net routes) ≡ false) × (load net 1 (decoded 1 routes) nothing ≡ none))
    ⊎ ((t : Store) × (all_in_range (parsed net routes) ≡ true)
        × (load net 1 (decoded 1 routes) nothing ≡ some (t, none))
        × (lookup_asn t 7 ≡ take 1000 (via 7 (parsed net routes))))
lookup_asn-load_example = lookup_asn-load net 1 1 routes nothing 7

routes-in_range : all_in_range (parsed net routes) ≡ true
unfolding program
routes-in_range = refl

store_lookup_prefix-load_example :
    (t : Store) × (load net 1 (decoded 1 routes) nothing ≡ some (t, none))
    × PrefixAnswer net 1 1 routes nothing
        (net.parse_cidr (codes "10.1.0.0/16"))
        (store_lookup_prefix net t (codes "10.1.0.0/16"))
store_lookup_prefix-load_example =
    store_lookup_prefix-load net 1 1 routes nothing (codes "10.1.0.0/16") routes-in_range

v4_text-parses : net.parse_ip v4_text ≡ some (10 ∷ 1 ∷ 2 ∷ 3 ∷ [])
unfolding program
v4_text-parses = refl

store_lookup_ip-load_example :
    (t : Store) × (load net 1 (decoded 1 routes) nothing ≡ some (t, none))
    × AddressAnswer net 1 1 routes nothing (10 ∷ 1 ∷ 2 ∷ 3 ∷ []) (store_lookup_ip net t v4_text)
store_lookup_ip-load_example =
    store_lookup_ip-load net 1 1 routes nothing v4_text (10 ∷ 1 ∷ 2 ∷ 3 ∷ []) routes-in_range
      v4_text-parses

abbrev ticks : List (ℕ × Option ℕ × Opened)
ticks = (1, none, open_error) ∷ (2, some 1, decoded 1 routes) ∷ (3, some 9, open_error) ∷ []

run_ticks-current_example : Served net nothing ticks (run_ticks net nothing ticks)
run_ticks-current_example = run_ticks-current net nothing ticks

-- ===== src/Bgp/Store/Load.antt =====
-- What the lookups answer once a file is loaded.
use looking_glass.Common.{
  ℕ, zero, suc, ◌≤◌, ◌≡◌, refl, ap, sym, ◌∙◌, ◌⊎◌, inl, inr, List, [], ◌∷◌, Option, none, some,
  arith, ltb, if◌then◌else◌, Text, length, take, lookup, Bool-cases, Bool, true, false, subst,
  ℕ_discrete,
}
use looking_glass.Ip.{Address, IpNet, Parsers}
use looking_glass.Radix.Longest.{Deepest}
use looking_glass.Bgp.Trie.{
  Route, root_for, lookup_ip, lookup_exact_prefix, or_nil, in_range, empty_trie,
}
use looking_glass.Bgp.Table.{
  network, address_bits, routes_for, listed, lookup_exact_prefix-build, lookup_ip-build, whole,
  build, lookup_exact_prefix-past,
}
use looking_glass.Bgp.Store.{
  Store, decoded, load, invalid_cidr, Result, ok, err, has_default, from_snapshot, hide_default,
  store_lookup_ip, prefix_result, store_lookup_prefix, max_asn_routes, first_routes, lookup_asn,
  stats, ok_or_panic, from_trie,
}
use looking_glass.Bgp.Store.Index.{parsed, via}
use looking_glass.Bgp.Store.Range.{all_in_range, Serves, load_cases, load-Serves, loaded-Serves}

take_all : (n : ℕ) (xs : List Route) → length xs ≤ n → take n xs ≡ xs
take_all zero [] h = refl
take_all zero (x ∷ xs) h = absurd (omega arith)
take_all (suc n) [] h = refl
take_all (suc n) (x ∷ xs) h = ap (λ r. x ∷ r) (take_all n xs (omega arith))

first_routes-take : (xs : List Route) → first_routes xs ≡ take max_asn_routes xs
first_routes-take xs = elim (Bool-cases (ltb max_asn_routes (length xs))) [
  | inl long ↦ rw long refl
  | inr short ↦ rw short (sym (take_all max_asn_routes xs (ground arith)))
]

module _ (net : Parsers) (now mtime : ℕ) (routes : List Route) (before : Store) where
  -- A load of a decoded file panics, and does so just if a prefix of the file that can be parsed has
  -- more bits than the bytes that are left of its address; or else an AS number has, in the store
  -- it gives, the first 1000 of its routes with a prefix that can be parsed and with the number in
  -- their path, in the order of the file and each once.
  pub lookup_asn-load :
      (a : ℕ)
      → ((all_in_range (parsed net routes) ≡ false)
          × (load net now (decoded mtime routes) before ≡ none))
        ⊎ ((t : Store) × (all_in_range (parsed net routes) ≡ true)
            × (load net now (decoded mtime routes) before ≡ some (t, none))
            × (lookup_asn t a ≡ take 1000 (via a (parsed net routes))))
  unfolding lookup_asn lookup
  lookup_asn-load a = elim (load_cases net now mtime routes before) [
    | inl panics ↦ inl panics
    | inr (t, all, is, serves) ↦ inr (
      t,
      all,
      is,
      ap (λ c. from_snapshot c (λ snap. first_routes (or_nil (lookup ℕ_discrete a snap.by_asn))))
            serves.current
          ∙ (first_routes-take _ ∙ ap (take max_asn_routes) (serves.loads.index a)),
    )
  ]

  -- What a prefix query may come to, in range or out of it.
  abbrev pub NetworkAnswer : IpNet → Bool → Option (Result (List Route)) → Type 0
  NetworkAnswer n true result =
      result ≡ some (ok (routes_for (network n).0 (network n).1 (parsed net routes)))
  NetworkAnswer n false result =
      ((result ≡ some (ok []))
        × (routes_for (network (whole n)).0 (network (whole n)).1 (parsed net routes) ≡ []))
      ⊎ (result ≡ none)

  abbrev pub PrefixAnswer : Option IpNet → Option (Result (List Route)) → Type 0
  PrefixAnswer none result = result ≡ some (err invalid_cidr)
  PrefixAnswer (some n) result = NetworkAnswer n (in_range n) result

  network_lookup :
      (n : IpNet) (b : Bool)
      → in_range n ≡ b
      → NetworkAnswer n b
          (ok_or_panic (lookup_exact_prefix (build empty_trie (parsed net routes)) n))
  network_lookup n true within =
      ap ok_or_panic (lookup_exact_prefix-build (parsed net routes) n within)
  network_lookup n false past = elim (lookup_exact_prefix-past (parsed net routes) n past) [
    | inl (is, no_routes) ↦ inl (ap ok_or_panic is, no_routes)
    | inr is ↦ inr (ap ok_or_panic is)
  ]

  prefix_lookup :
      (o : Option IpNet)
      → PrefixAnswer o
          (prefix_result o (λ n. lookup_exact_prefix (build empty_trie (parsed net routes)) n))
  prefix_lookup none = refl
  prefix_lookup (some n) = network_lookup n (in_range n) refl

  -- A file without a prefix out of range is loaded, and then a prefix query in range has the routes
  -- of the file for the same network, in the order of the file; a text that is no prefix is refused.
  -- A query out of range panics, or has no routes, and it does panic where the file has routes for
  -- all the bits that are left of its address.
  pub store_lookup_prefix-load :
      (text : Text)
      → all_in_range (parsed net routes) ≡ true
      → (t : Store) × (load net now (decoded mtime routes) before ≡ some (t, none))
        × PrefixAnswer (net.parse_cidr text) (store_lookup_prefix net t text)
  unfolding store_lookup_prefix
  store_lookup_prefix-load text all =
      let (t, is, serves) = load-Serves net now mtime routes before all in
      (
        t,
        is,
        subst (PrefixAnswer (net.parse_cidr text))
            (sym (
              ap
                (λ c.
                  prefix_result (net.parse_cidr text)
                    (λ n. from_trie c (λ snap. lookup_exact_prefix snap.trie n)))
                serves.current
              ∙ ap (λ u. prefix_result (net.parse_cidr text) (λ n. lookup_exact_prefix u n))
                  serves.loads.trie))
            (prefix_lookup (net.parse_cidr text)),
      )

  -- What an address query must answer: the routes of the longest network that holds the address,
  -- or none where those include a default route.
  abbrev pub AddressAnswer : Address → Result (List Route) → Type 0
  AddressAnswer ip result =
      (best : Option (List Route)) × (result
        ≡ ok (if has_default (or_nil best) then [] else or_nil best))
      × Deepest (λ q. listed (routes_for (root_for ip).0 q (parsed net routes))) (address_bits ip)
          none best

  Serves-AddressAnswer :
      (t : Store) (text : Text) (ip : Address)
      → Serves net now mtime routes t
      → net.parse_ip text ≡ some ip
      → AddressAnswer ip (store_lookup_ip net t text)
  unfolding store_lookup_ip
  Serves-AddressAnswer t text ip serves e =
      let (best, is, deepest) = lookup_ip-build (parsed net routes) ip in
      (
        best,
        rw (e, store_lookup_ip)
            (ap (λ c. ok (from_snapshot c (λ snap. hide_default (lookup_ip snap.trie ip))))
                serves.current
              ∙ ap (λ rs. ok (hide_default rs)) (ap (λ u. lookup_ip u ip) serves.loads.trie ∙ is)),
        deepest,
      )

  pub loaded-AddressAnswer :
      (t : Store) (text : Text) (ip : Address)
      → load net now (decoded mtime routes) before ≡ some (t, none)
      → net.parse_ip text ≡ some ip
      → AddressAnswer ip (store_lookup_ip net t text)
  loaded-AddressAnswer t text ip h e =
      Serves-AddressAnswer t text ip (loaded-Serves net now mtime routes before t h) e

  -- A file without a prefix out of range is loaded, and then a text that parses as an address has
  -- the routes of the longest network of the file that holds the address, in the order of the file,
  -- or none; and it has none, too, where those include a default route.
  pub store_lookup_ip-load :
      (text : Text) (ip : Address)
      → all_in_range (parsed net routes) ≡ true
      → net.parse_ip text ≡ some ip
      → (t : Store) × (load net now (decoded mtime routes) before ≡ some (t, none))
        × AddressAnswer ip (store_lookup_ip net t text)
  store_lookup_ip-load text ip all e =
      let (t, is, serves) = load-Serves net now mtime routes before all in
      (t, is, Serves-AddressAnswer t text ip serves e)

  -- After such a load the statistics count the routes with a prefix that can be parsed.
  pub stats-load :
      (t : Store)
      → load net now (decoded mtime routes) before ≡ some (t, none)
      → stats t ≡ (length (parsed net routes), some now)
  unfolding stats
  stats-load t h =
      let serves = loaded-Serves net now mtime routes before t h in
      ground (arith, serves.current, serves.loads.count, serves.loads.loaded_at)

-- ===== src/Handler/IpInfo.antt =====
-- `IPInfo` of internal/handler/handler.go: who runs the networks of a list of addresses.
pub mod Entries
use looking_glass.Common.{
  ℕ, suc, ◌+◌, List, [], ◌∷◌, ◌++◌, Bool, true, false, Option, none, some, ltb, ite, if◌then◌else◌,
  Text, Text-discrete, codes, assign,
}
use looking_glass.Ip.{Parsers}
use looking_glass.Bgp.Trie.{Route}
use looking_glass.Bgp.Store as Bgp
use looking_glass.Bgp.Store.{store_lookup_ip}
use looking_glass.Geoip as Geoip
use looking_glass.Geoip.{Netip, db_lookup, db_lookup_asn}
use looking_glass.Strings.{trim_space, split}
use looking_glass.Handler.{Request, query_get}
use looking_glass.Handler.Gate.{
  Env, Outcome, go, Action, ◌>>=◌, ◌>>◌, require, require_rate, respond,
}
use looking_glass.Handler.Routes.{Lookups, not_blank}
use looking_glass.Handler.State.{State, Response, json}

pub record Entry : Type 0 where
  pub asn : Text
  pub name : Text
  pub domain : Text

abbrev pub max_targets : ℕ
max_targets = 50

-- `rec == nil || rec.ASN == ""`
abbrev pub lacks_asn : Option Geoip.Record → Bool
lacks_asn none = true
lacks_asn (some rec) = ite (Text-discrete rec.asn []) true false

unfoldable pub last_of : List ℕ → Option ℕ
last_of [] = none
last_of (a ∷ []) = some a
last_of (a ∷ b ∷ path) = last_of (b ∷ path)

-- The origin of the first route; an error of the lookup gives no routes.
abbrev pub first_origin : List Route → Option ℕ
first_origin [] = none
first_origin (route ∷ routes) = last_of route.as_path

abbrev pub origin_of : Bgp.Result (List Route) → Option ℕ
origin_of (Bgp.ok routes) = first_origin routes
origin_of (Bgp.err e) = none

abbrev pub own_entry : Option Geoip.Record → Option Entry
own_entry none = none
own_entry (some rec) = some (record { asn = rec.asn; name = rec.as_name; domain = rec.as_domain })

abbrev pub asn_entry : (ℕ → Text) → Geoip.Db → Option ℕ → Option Entry
asn_entry itoa db none = none
asn_entry itoa db (some origin) = elim (db_lookup_asn itoa db origin) [
  | none ↦ none
  | some rec ↦
      some (record { asn = codes "AS" ++ itoa origin; name = rec.as_name; domain = rec.as_domain })
]

abbrev pub or_entry : Option Entry → Option Entry → Option Entry
or_entry none e = e
or_entry (some first) e = some first

-- What the body of the loop finds for a target.
unfoldable pub find_entry : Env → Netip → Geoip.Db → Bgp.Store → Text → Option Entry
unfolding last_of
find_entry env netip db store t =
    let rec = db_lookup netip db t in
    let by_route =
      asn_entry env.itoa db (origin_of (store_lookup_ip env.network.parsers store t)) in
    if lacks_asn rec then or_entry by_route (own_entry rec) else own_entry rec

abbrev pub put_entry : Text → Option Entry → List (Text × Entry) → List (Text × Entry)
put_entry t none result = result
put_entry t (some e) result = assign Text-discrete t e result

-- The loop over the targets.
unfoldable pub info_loop :
    (Text → Option Entry) → ℕ → List (Text × Entry) → List Text → List (Text × Entry)
info_loop find count result [] = result
info_loop find count result (part ∷ parts) =
    let t = trim_space part in
    let skipped = info_loop find count result parts in
    let rest = info_loop find (count + 1) (put_entry t (find t) result) parts in
    if not_blank t then (if ltb max_targets (count + 1) then result else rest) else skipped

abbrev pub entries : Env → Netip → Option Geoip.Db → Bgp.Store → Text → List (Text × Entry)
entries env netip none store targets = []
entries env netip (some db) store targets =
    info_loop (find_entry env netip db store) 0 [] (split b',' targets)

abbrev pub give_entries :
    Env → Netip → Text → Action (List (Text × Entry)) (Response (List (Text × Entry)))
give_entries env netip targets s = (go (json (entries env netip s.geo s.store targets)), s)

-- `IPInfo`
unfoldable pub ip_info_steps :
    Env → Lookups → Request → Action (List (Text × Entry)) (Response (List (Text × Entry)))
unfolding require_rate find_entry info_loop
ip_info_steps env l r = do
  let targets = query_get r (codes "targets")
  require (not_blank targets) (codes "targets is required")
  require_rate env r l.now
  give_entries env l.netip targets

unfoldable pub ip_info : Env → Lookups → Request → State → Response (List (Text × Entry)) × State
unfolding ip_info_steps
ip_info env l r s = respond (ip_info_steps env l r s)

-- ===== src/Bgp/Sample.antt =====
-- A table of four routes, and a parser that knows their prefixes.
use looking_glass.Common.{
  ℕ, List, [], ◌∷◌, Option, none, some, ite, Text, Text-discrete, codes, lookup,
}
use looking_glass.Ip.{IpNet, Parsers}
use looking_glass.Bgp.Store.{Store, LoadError}
use looking_glass.Bgp.Trie.{Route}

abbrev pub v4_text : Text
v4_text = codes "10.1.2.3"

abbrev pub wide : IpNet
wide = record { ip = 10 ∷ 0 ∷ 0 ∷ 0 ∷ []; ones = 8 }

abbrev pub narrow : IpNet
narrow = record { ip = 10 ∷ 1 ∷ 0 ∷ 0 ∷ []; ones = 16 }

abbrev pub everything : IpNet
everything = record { ip = 0 ∷ 0 ∷ 0 ∷ 0 ∷ []; ones = 0 }

-- ::ffff:10.1.2.3/128
abbrev pub mapped : IpNet
mapped = record {
  ip = 0 ∷ 0 ∷ 0 ∷ 0 ∷ 0 ∷ 0 ∷ 0 ∷ 0 ∷ 0 ∷ 0 ∷ 255 ∷ 255 ∷ 10 ∷ 1 ∷ 2 ∷ 3 ∷ [];
  ones = 128;
}

-- 10.1.2.3/32
abbrev pub single : IpNet
single = record { ip = 10 ∷ 1 ∷ 2 ∷ 3 ∷ []; ones = 32 }

abbrev pub mapped_text : Text
mapped_text = codes "::ffff:10.1.2.3/128"

unfoldable pub knows : List (Text × IpNet) → Text → Option IpNet
knows table s = lookup Text-discrete s table

unfoldable pub net : Parsers
unfolding knows
net = record {
  parse_ip = λ s. ite (Text-discrete s v4_text) (some (10 ∷ 1 ∷ 2 ∷ 3 ∷ [])) none;
  parse_cidr = knows (
      (codes "10.0.0.0/8", wide)
      ∷ (codes "10.1.0.0/16", narrow)
      ∷ (codes "0.0.0.0/0", everything)
      ∷ (codes "10.1.2.3/32", single)
      ∷ (mapped_text, mapped)
      ∷ []);
}

abbrev pub route : Text → List ℕ → Route
route prefix as_path = record {
  prefix = prefix;
  next_hop = codes "192.0.2.1";
  as_path = as_path;
  origin = codes "IGP";
  med = 0;
  local_pref = 100;
  communities = [];
}

abbrev pub r1 : Route
r1 = route (codes "10.0.0.0/8") (7 ∷ 8 ∷ 7 ∷ [])

abbrev pub r2 : Route
r2 = route (codes "10.1.0.0/16") (8 ∷ [])

abbrev pub r3 : Route
r3 = route (codes "10.1.0.0/16") (9 ∷ 7 ∷ [])

abbrev pub bad : Route
bad = route (codes "10.1.0.0/99") (7 ∷ [])

abbrev pub routes : List Route
routes = r1 ∷ r2 ∷ bad ∷ r3 ∷ []

abbrev pub host_route : Route
host_route = route (codes "10.1.2.3/32") (5 ∷ [])

abbrev pub mapped_route : Route
mapped_route = route mapped_text (5 ∷ [])

abbrev pub nothing : Store
nothing = record { current = none }

-- The store that a load left, if it did not panic.
abbrev pub the_store : Option (Store × Option LoadError) → Store
the_store none = nothing
the_store (some (s, e)) = s

-- ===== src/Geoip/Sample.antt =====
-- A small file of networks, and a library that knows their addresses.
use looking_glass.Common.{ℕ, List, [], ◌∷◌, ◌++◌, Option, none, some, Text, codes}
use looking_glass.Ip.{v4}
use looking_glass.Geoip.{Record, Addr, Prefix, Netip, Line, fields, Db}
use looking_glass.Geoip.Load.{whole}

-- A text of four bytes is an address, and one of five a prefix with its bits.
unfoldable pub parse_four : Text → Option Addr
parse_four (a ∷ b ∷ c ∷ d ∷ []) = some (record { family = v4; bytes = a ∷ b ∷ c ∷ d ∷ [] })
parse_four _ = none

unfoldable pub parse_five : Text → Option Prefix
parse_five (a ∷ b ∷ c ∷ d ∷ n ∷ []) =
    some (record { addr = record { family = v4; bytes = a ∷ b ∷ c ∷ d ∷ [] }; bits = n })
parse_five _ = none

unfoldable pub net : Netip
net = record { parse_addr = parse_four; parse_prefix = parse_five; masked = λ p. p }

abbrev pub digits : ℕ → Text
digits n = n ∷ []

abbrev pub line_for : Text → Text → Line
line_for network asn = fields (network ∷ [] ∷ codes "DE" ∷ [] ∷ [] ∷ asn ∷ [] ∷ [] ∷ [])

abbrev pub record_for : Text → Record
record_for n = record {
  country = [];
  country_code = codes "DE";
  continent = [];
  continent_code = [];
  asn = n;
  as_name = [];
  as_domain = [];
}

abbrev pub file_lines : List Line
file_lines =
    line_for (10 ∷ 0 ∷ 0 ∷ 0 ∷ 8 ∷ []) (codes "AS" ++ digits 7)
    ∷ line_for (10 ∷ 1 ∷ 0 ∷ 0 ∷ 16 ∷ []) (codes "AS" ++ digits 9)
    ∷ []

abbrev pub file_db : Db
file_db = record { current = some (whole net file_lines) }

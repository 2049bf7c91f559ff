-- ===== src/Validator/Sample.antt =====
-- A network to run the validators on.
use looking_glass.Common.{
  ℕ, List, [], ◌∷◌, Bool, false, ◌==◌, Option, none, some, Text, codes, length, if◌then◌else◌,
}
use looking_glass.Ip.{Address, Parsers}
use looking_glass.Validator.{is_alnum, Kinds, Network}

-- A text of four bytes that do not begin with a letter is an address.
unfoldable pub parse_four : Text → Option Address
parse_four (a ∷ b ∷ c ∷ d ∷ []) = if is_alnum a then none else some (a ∷ b ∷ c ∷ d ∷ [])
parse_four _ = none

unfoldable pub starts : ℕ → Address → Bool
starts n [] = false
starts n (a ∷ s) = a == n

abbrev pub parsers : Parsers
parsers = record { parse_ip = parse_four; parse_cidr = λ s. none }

abbrev pub kinds : Kinds
kinds = record {
  is_loopback = starts 127;
  is_private = starts 10;
  is_link_local_unicast = starts 169;
  is_link_local_multicast = starts 224;
  is_unspecified = starts 0;
  is_multicast = starts 225;
}

abbrev pub public_ip : Address
public_ip = 8 ∷ 8 ∷ 8 ∷ 8 ∷ []

abbrev pub private_ip : Address
private_ip = 10 ∷ 0 ∷ 0 ∷ 1 ∷ []

-- Names of five characters resolve to a private address, too.
unfoldable pub resolve_name : Text → Option (List Address)
resolve_name s = if length s == 5 then some (public_ip ∷ private_ip ∷ []) else some (public_ip ∷ [])

abbrev pub net : Network
net = record {
  parsers = parsers;
  kinds = kinds;
  resolve = resolve_name;
  parse_url = λ s. some (record { scheme = codes "https"; hostname = s });
}

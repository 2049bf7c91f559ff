-- ===== src/Ip.antt =====
-- Addresses and networks of Go's `net` package, as the program uses them: an address is 4 or 16
-- bytes, a network is its address and the length of its mask. Parsing of texts is a parameter.
use looking_glass.Common.{
  ℕ, List, [], ◌∷◌, ◌++◌, true, false, ◌&&◌, Option, none, some, ◌==◌, ite, if◌then◌else◌, Text,
  Text-discrete, length, take, drop,
}

abbrev pub Address : Type 0
Address = List ℕ

-- `::ffff:0:0/96`
abbrev pub mapped_prefix : Address
mapped_prefix = 0 ∷ 0 ∷ 0 ∷ 0 ∷ 0 ∷ 0 ∷ 0 ∷ 0 ∷ 0 ∷ 0 ∷ 255 ∷ 255 ∷ []

unfoldable pub to4 : Address → Option Address
to4 ip =
    if length ip == 4
    then some ip
    else if (length ip == 16) && ite (Text-discrete (take 12 ip) mapped_prefix) true false
    then some (drop 12 ip)
    else none

unfoldable pub to16 : Address → Address
to16 ip = if length ip == 4 then mapped_prefix ++ ip else if length ip == 16 then ip else []

pub record IpNet : Type 0 where
  pub ip : Address
  pub ones : ℕ

-- `net.ParseIP` and `net.ParseCIDR`.
pub record Parsers : Type 0 where
  pub parse_ip : Text → Option Address
  pub parse_cidr : Text → Option IpNet

-- The families of addresses, and the bits of their addresses.
pub data Family : Type 0 where
  v4 v6 : Family

unfoldable pub Family-discrete : Discrete Family
Family-discrete = hlevel

abbrev pub max_bits : Family → ℕ
max_bits v4 = 32
max_bits v6 = 128

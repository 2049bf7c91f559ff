-- ===== src/Validator.antt =====
-- internal/validator/valid.go: the checks of what a client asks to be probed.
-- A text is its bytes; `validate_asn` is about texts of ASCII, where `ToUpper` and `TrimSpace` go
-- byte by byte. Of the libraries, the parsers of addresses and URLs, the resolver and the tests of
-- `net.IP` are parameters. The context and its timeout only make the resolver fail.
pub mod Hosts
pub mod Public
pub mod Asn
pub mod Sample
mod Tests
use looking_glass.Common.{
  ℕ, zero, suc, ◌+◌, ◌-◌, ◌*◌, ◌^◌, List, [], ◌∷◌, ◌++◌, Bool, true, false, ◌&&◌, ◌||◌, not, Option,
  none, some, ltb, leb, ◌==◌, ite, if◌then◌else◌, Text, Text-discrete, codes, length, all,
}
use looking_glass.Ip.{Address, IpNet, Parsers}
use looking_glass.Strings.{trim_space, to_upper, ℤ, pos, negsuc, atoi}

pub data Fault : Type 0 where
  required too_long bad_characters no_target private no_url bad_scheme no_host bad_cidr bad_asn :
      Fault

pub data Checked {ℓ} (A : Type ℓ) : Type ℓ where
  ok : A → Checked A
  err : Fault → Checked A

-- `;&|$(){}[]<>'"` and the back quote, line feed, carriage return, tab and backslash
abbrev pub forbidden : Text
forbidden = codes ";&|$(){}[]<>'\"`" ++ 10 ∷ 13 ∷ 9 ∷ 92 ∷ []

unfoldable pub member : ℕ → Text → Bool
member c [] = false
member c (d ∷ s) = c == d || member c s

-- `strings.ContainsAny`
unfoldable pub contains_any : Text → Text → Bool
contains_any [] set = false
contains_any (c ∷ s) set = member c set || contains_any s set

-- `[a-zA-Z0-9]`
unfoldable pub is_alnum : ℕ → Bool
is_alnum c =
    (leb b'a' c && leb c b'z') || ((leb b'A' c && leb c b'Z') || (leb b'0' c && leb c b'9'))

-- The rest of a label after its first character, which was alphanumeric: `left` characters are
-- allowed, the last of them alphanumeric; a dot starts the next label.
unfoldable pub match_rest : ℕ → Bool → Text → Bool
unfolding is_alnum
match_rest left last_alnum [] = last_alnum
match_rest left last_alnum (c ∷ []) = is_alnum c && ltb 0 left
match_rest left last_alnum (c ∷ d ∷ s) =
    let label = match_rest (left - 1) (is_alnum c) (d ∷ s) in
    let next = match_rest 62 true s in
    if c == b'.'
    then last_alnum && (is_alnum d && next)
    else (is_alnum c || c == b'-') && (ltb 0 left && label)

-- `hostnameRe`: a label is at most 63 characters, of which the first and the last are alphanumeric
-- and the others alphanumeric or a hyphen.
unfoldable pub match_hostname : Text → Bool
match_hostname [] = false
match_hostname (c ∷ s) = is_alnum c && match_rest 62 true s

unfoldable pub validate_target : Parsers → Text → Option Fault
unfolding contains_any match_hostname
validate_target net [] = some required
validate_target net (c ∷ s) =
    if ltb 253 (length (c ∷ s))
    then some too_long
    else if contains_any (c ∷ s) forbidden
    then some bad_characters
    else elim (net.parse_ip (c ∷ s)) [
      | some ip ↦ none
      | none ↦ if match_hostname (c ∷ s) then none else some no_target
    ]

-- The tests of `net.IP`.
pub record Kinds : Type 0 where
  pub is_loopback : Address → Bool
  pub is_private : Address → Bool
  pub is_link_local_unicast : Address → Bool
  pub is_link_local_multicast : Address → Bool
  pub is_unspecified : Address → Bool
  pub is_multicast : Address → Bool

unfoldable pub is_private_ip : Kinds → Address → Bool
is_private_ip k ip =
    k.is_loopback ip
    || (k.is_private ip
        || (k.is_link_local_unicast ip
            || (k.is_link_local_multicast ip || (k.is_unspecified ip || k.is_multicast ip))))

pub record Url : Type 0 where
  pub scheme : Text
  pub hostname : Text

-- The parameters: `net.ParseIP`, the tests of addresses, the resolver, whose failure is `none`, and
-- `url.Parse`.
pub record Network : Type 0 where
  pub parsers : Parsers
  pub kinds : Kinds
  pub resolve : Text → Option (List Address)
  pub parse_url : Text → Option Url

-- The loop over the resolved addresses.
unfoldable pub any_private : Kinds → List Address → Bool
unfolding is_private_ip
any_private k [] = false
any_private k (ip ∷ ips) = is_private_ip k ip || any_private k ips

-- The result is the address to connect to; `none` is the nil of a name that does not resolve.
unfoldable pub check_resolved : Kinds → Option (List Address) → Checked (Option Address)
unfolding any_private
check_resolved k none = ok none
check_resolved k (some []) = ok none
check_resolved k (some (ip ∷ ips)) = if any_private k (ip ∷ ips) then err private else ok (some ip)

unfoldable pub check_literal : Network → Text → Option Address → Checked (Option Address)
unfolding check_resolved is_private_ip
check_literal net s (some ip) = if is_private_ip net.kinds ip then err private else ok (some ip)
check_literal net s none = check_resolved net.kinds (net.resolve s)

unfoldable pub validate_not_private : Network → Text → Checked (Option Address)
unfolding check_literal
validate_not_private net s = check_literal net s (net.parsers.parse_ip s)

abbrev pub is_web : Text → Bool
is_web scheme =
    ite (Text-discrete scheme (codes "http")) true
      (ite (Text-discrete scheme (codes "https")) true false)

unfoldable pub check_url : Network → Option Url → Checked (Option Address)
check_url net none = err no_url
check_url net (some u) =
    if is_web u.scheme
    then ite (Text-discrete u.hostname []) (err no_host) (validate_not_private net u.hostname)
    else err bad_scheme

unfoldable pub validate_http_target : Network → Text → Checked (Option Address)
unfolding check_url
validate_http_target net s = check_url net (net.parse_url s)

unfoldable pub validate_prefix : Parsers → Text → Option Fault
validate_prefix net s = elim (net.parse_cidr s) [ some n ↦ none | none ↦ some bad_cidr ]

-- `strings.TrimPrefix(s, "AS")`
abbrev pub trim_as : Text → Text
trim_as [] = []
trim_as (c ∷ []) = c ∷ []
trim_as (c ∷ d ∷ s) = if (c == b'A') && (d == b'S') then s else c ∷ d ∷ s

abbrev pub max_asn : ℕ
max_asn = 4_294_967_295

unfoldable pub check_asn : Option ℤ → Checked ℕ
check_asn none = err bad_asn
check_asn (some (negsuc n)) = err bad_asn
check_asn (some (pos n)) = if leb n 0 || ltb max_asn n then err bad_asn else ok n

unfoldable pub validate_asn : Text → Checked ℕ
unfolding trim_space atoi check_asn
validate_asn s = check_asn (atoi (trim_as (to_upper (trim_space s))))

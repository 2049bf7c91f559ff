-- ===== src/Validator/Public.antt =====
-- No private address passes the checks.
use looking_glass.Common.{
  ◌≡◌, refl, ◌⊎◌, inl, inr, List, [], ◌∷◌, true, false, Option, none, some, arith, Text, codes,
  Text-discrete, All, ◌≢◌, Bool-cases,
}
use looking_glass.Ip.{Address}
use looking_glass.Validator.{
  private, Checked, ok, err, is_private_ip, Url, Network, any_private, check_resolved,
  check_literal, validate_not_private, is_web, check_url, validate_http_target,
}

abbrev pub IsPublic : Network → Address → Type 0
IsPublic net ip = is_private_ip net.kinds ip ≡ false

abbrev or_resolved : Option Address → Option (List Address) → List Address
or_resolved (some ip) ips = ip ∷ []
or_resolved none none = []
or_resolved none (some ips) = ips

-- The addresses that a text stands for: its own, if it is one, or those that it resolves to.
unfoldable pub addresses_of : Network → Text → List Address
addresses_of net s = or_resolved (net.parsers.parse_ip s) (net.resolve s)

-- What a check of a text that stands for these addresses comes to.
pub data Verdict (net : Network) (ips : List Address) (r : Checked (Option Address)) : Type 0 where
  unresolved : ips ≡ [] → r ≡ ok none → Verdict net ips r
  public :
      (ip : Address) (rest : List Address)
      → ips ≡ ip ∷ rest
      → All (IsPublic net) ips
      → r ≡ ok (some ip)
      → Verdict net ips r
  refused : ¬ All (IsPublic net) ips → r ≡ err private → Verdict net ips r

any_private-All :
    (net : Network) (ips : List Address)
    → any_private net.kinds ips ≡ false
    → All (IsPublic net) ips
unfolding any_private
any_private-All net [] h = tt
any_private-All net (ip ∷ ips) h = (ground arith, any_private-All net ips (ground arith))

any_private-refutes :
    (net : Network) (ips : List Address)
    → any_private net.kinds ips ≡ true
    → ¬ All (IsPublic net) ips
unfolding any_private
any_private-refutes net [] h a = cc h
any_private-refutes net (ip ∷ ips) h a = elim (Bool-cases (is_private_ip net.kinds ip)) [
  | inl p ↦ cc (p, a.0)
  | inr n ↦ any_private-refutes net ips (ground arith) a.1
]

check_resolved-Verdict :
    (net : Network) (ips : List Address) → Verdict net ips (check_resolved net.kinds (some ips))
unfolding check_resolved
check_resolved-Verdict net [] = unresolved refl refl
check_resolved-Verdict net (ip ∷ ips) = elim (Bool-cases (any_private net.kinds (ip ∷ ips))) [
  | inl p ↦ refused (any_private-refutes net (ip ∷ ips) p) (rw p refl)
  | inr n ↦ public ip ips refl (any_private-All net (ip ∷ ips) n) (rw n refl)
]

check_literal-Verdict :
    (net : Network) (s : Text) (o : Option Address) (found : Option (List Address))
    → net.resolve s ≡ found
    → Verdict net (or_resolved o found) (check_literal net s o)
unfolding check_literal check_resolved
check_literal-Verdict net s (some ip) found e = elim (Bool-cases (is_private_ip net.kinds ip)) [
  | inl p ↦ refused (λ a. cc (p, a.0)) (rw p refl)
  | inr n ↦ public ip [] refl (n, tt) (rw n refl)
]
check_literal-Verdict net s none none e = unresolved refl (rw e refl)
check_literal-Verdict net s none (some ips) e = rw e (check_resolved-Verdict net ips)

-- A text is refused if any address that it stands for is private. Otherwise the address to connect
-- to is the first of them, and all of them are public; there is none only for a name that does not
-- resolve.
pub validate_not_private-Verdict :
    (net : Network) (s : Text) → Verdict net (addresses_of net s) (validate_not_private net s)
unfolding validate_not_private addresses_of
validate_not_private-Verdict net s =
    check_literal-Verdict net s (net.parsers.parse_ip s) (net.resolve s) refl

-- A check that succeeds leaves public addresses only.
succeeds-IsPublic :
    (net : Network) (s : Text) (o : Option Address)
    → validate_not_private net s ≡ ok o
    → All (IsPublic net) (addresses_of net s)
succeeds-IsPublic net s o h = elim (validate_not_private-Verdict net s) [
  | unresolved e is ↦ rw e tt
  | public ip rest e all is ↦ all
  | refused n is ↦ cc (h, is)
]

-- What an accepted URL is.
pub record WebTarget (net : Network) (u : Url) : Type 0 where
  pub scheme : (u.scheme ≡ codes "http") ⊎ (u.scheme ≡ codes "https")
  pub host : u.hostname ≢ []
  pub addresses : All (IsPublic net) (addresses_of net u.hostname)

is_web-cases : (s : Text) → is_web s ≡ true → (s ≡ codes "http") ⊎ (s ≡ codes "https")
is_web-cases s h = elim (Text-discrete s (codes "http")) [
  | yes p ↦ inl p
  | no p ↦ elim (Text-discrete s (codes "https")) [ yes q ↦ inr q | no q ↦ absurd (ground arith) ]
]

check_url-WebTarget :
    (net : Network) (u : Url) (o : Option Address) → check_url net (some u) ≡ ok o → WebTarget net u
unfolding check_url
check_url-WebTarget net u o h = elim (Bool-cases (is_web u.scheme)) [
  | inr other ↦ absurd (ground arith)
  | inl web ↦ elim (Text-discrete u.hostname []) [
    | yes e ↦ absurd (ground arith)
    | no named ↦ record {
      scheme = is_web-cases u.scheme web;
      host = named;
      addresses = succeeds-IsPublic net u.hostname o (ground arith);
    }
  ]
]

-- A URL that is accepted has the scheme http or https and a host, and every address that its host
-- stands for is public.
pub validate_http_target-WebTarget :
    (net : Network) (s : Text) (o : Option Address)
    → validate_http_target net s ≡ ok o
    → (u : Url) × (net.parse_url s ≡ some u) × WebTarget net u
unfolding validate_http_target check_url
validate_http_target-WebTarget net s o h = from_parsed (net.parse_url s) refl h
  where
    from_parsed :
        (p : Option Url)
        → net.parse_url s ≡ p
        → check_url net p ≡ ok o
        → (u : Url) × (net.parse_url s ≡ some u) × WebTarget net u
    from_parsed none e c = cc c
    from_parsed (some u) e c = (u, e, check_url-WebTarget net u o c)

-- ===== src/Validator/Tests.antt =====
-- Runs of the validators, and the theorems on concrete texts.
use looking_glass.Common.{
  ℕ, ◌≤◌, ◌≡◌, refl, ◌∷◌, ◌++◌, true, none, some, arith, Text, Text-discrete, ℕ_discrete, codes,
  length, All,
}
use looking_glass.Strings.{is_space, trim_space, digits_value, atoi}
use looking_glass.Validator.{
  bad_characters, no_target, private, ok, err, is_alnum, match_rest, match_hostname, member,
  contains_any, validate_target, is_private_ip, any_private, check_resolved, check_literal, Url,
  validate_not_private, check_url, validate_http_target, check_asn, validate_asn,
}
use looking_glass.Validator.Asn.{value, small, validate_asn-digits}
use looking_glass.Validator.Hosts.{host_char, validate_target-host}
use looking_glass.Validator.Sample.{parse_four, starts, parsers, public_ip, resolve_name, net}
use looking_glass.Validator.Public.{
  addresses_of, Verdict, WebTarget, validate_not_private-Verdict, validate_http_target-WebTarget,
}

program : Unit {0}
unfolding parse_four starts resolve_name is_alnum match_rest match_hostname member contains_any
    validate_target is_private_ip any_private check_resolved check_literal validate_not_private
    check_url validate_http_target is_space trim_space digits_value atoi check_asn validate_asn
    Text-discrete ℕ_discrete addresses_of
program = tt

host_accepted : validate_target parsers (codes "www.example-1.org") ≡ none
unfolding program
host_accepted = refl

hyphen_refused : validate_target parsers (codes "www.-example.org") ≡ some no_target
unfolding program
hyphen_refused = refl

shell_refused : validate_target parsers (codes "a.org;id") ≡ some bad_characters
unfolding program
shell_refused = refl

mixed_refused : validate_not_private net (codes "a.org") ≡ err private
unfolding program
mixed_refused = refl

spaced_accepted : validate_asn (codes " as64512 ") ≡ ok 64512
unfolding program
spaced_accepted = refl

validate_target-host_example :
    (length (codes "a.org") ≤ 253)
    × All (λ c. host_char c ≡ true) (codes "a.org")
    × (c : ℕ) × (rest : Text) × (codes "a.org" ≡ c ∷ rest)
    × (is_alnum c ≡ true)
unfolding program
validate_target-host_example = validate_target-host parsers (codes "a.org") refl refl

validate_not_private-Verdict_example :
    Verdict net (addresses_of net (codes "b.com.")) (validate_not_private net (codes "b.com."))
validate_not_private-Verdict_example = validate_not_private-Verdict net (codes "b.com.")

validate_http_target-WebTarget_example :
    (u : Url) × (net.parse_url (codes "ab.com") ≡ some u) × WebTarget net u
unfolding program
validate_http_target-WebTarget_example =
    validate_http_target-WebTarget net (codes "ab.com") (some public_ip) refl

validate_asn-digits_example :
    validate_asn (codes "as" ++ codes "64512") ≡ ok (value 0 (codes "64512"))
unfolding value
validate_asn-digits_example =
    validate_asn-digits (codes "as") b'6' (codes "4512") small (omega arith) (omega arith)
      (omega arith)

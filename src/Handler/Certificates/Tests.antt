-- ===== src/Handler/Certificates/Tests.antt =====
-- A certificate that is verified.
use looking_glass.Common.{◌≡◌, refl, ◌↔◌, [], ◌∷◌, Bool, true, false, none, Text, codes}
use looking_glass.Strings.{pos, cut_prefix, after_first}
use looking_glass.Handler.Certificates.{
  Certificate, Dialed, not_dialed, dialed, Tls, check_certificate, extract_cert, host_and_port,
}
use looking_glass.Handler.Certificates.Validity.{Verified, check_certificate-valid}

abbrev certificate : Certificate
certificate = record {
  subject = codes "example.org";
  issuer = codes "ca";
  not_before = codes "a";
  not_after = codes "b";
  days_left = pos 9;
  sans = [];
}

-- Only a connection that verifies nothing is made.
dial_unverified : Bool → Text → Text → Dialed
dial_unverified true addr host = not_dialed (codes "dial tcp: 10.0.0.1->192.0.2.1: expired")
dial_unverified false addr host = dialed (certificate ∷ [])

abbrev tls : Tls
tls = record {
  split_host_port = λ target. none;
  join_host_port = λ host port. host;
  dial = dial_unverified;
}

port_443 : host_and_port tls (codes "example.org") ≡ (codes "example.org", codes "443")
unfolding host_and_port after_first cut_prefix
port_443 = refl

invalid : (check_certificate tls (codes "192.0.2.1") (codes "example.org")).valid ≡ false
unfolding check_certificate extract_cert dial_unverified
invalid = refl

check_certificate-valid_example :
    ((check_certificate tls (codes "192.0.2.1") (codes "example.org")).valid ≡ true)
    ↔ Verified tls (codes "192.0.2.1") (codes "example.org")
check_certificate-valid_example =
    check_certificate-valid tls (codes "192.0.2.1") (codes "example.org")

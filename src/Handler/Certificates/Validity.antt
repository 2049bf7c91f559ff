-- ===== src/Handler/Certificates/Validity.antt =====
-- When a certificate counts as valid.
use looking_glass.Common.{◌≡◌, refl, ap, ◌↔◌, List, [], ◌∷◌, true, false, Text}
use looking_glass.Handler.Certificates.{
  Certificate, Dialed, not_dialed, dialed, Tls, extract_cert, first_dial, check_certificate,
}

-- A verified connection that gave a certificate.
abbrev pub Verified : Tls → Text → Text → Type 0
Verified tls addr host =
    (cert : Certificate) × (certs : List Certificate) × (tls.dial true addr host
      ≡ dialed (cert ∷ certs))

valid-dialed :
    (d again : Dialed)
    → (first_dial d again).valid ≡ true
    → (cert : Certificate) × (certs : List Certificate) × (d ≡ dialed (cert ∷ certs))
unfolding extract_cert
valid-dialed (dialed []) again h = cc h
valid-dialed (dialed (cert ∷ certs)) again h = (cert, certs, refl)
valid-dialed (not_dialed e) (not_dialed e') h = cc h
valid-dialed (not_dialed e) (dialed certs) h = cc h

dialed-valid :
    (d again : Dialed)
    → (cert : Certificate) × (certs : List Certificate) × (d ≡ dialed (cert ∷ certs))
    → ((first_dial d again).valid ≡ true)
unfolding extract_cert
dialed-valid d again (cert, certs, e) = ap (λ x. (first_dial x again).valid) e

-- A certificate is said to be valid just if the connection that verifies it was made, and gave one:
-- what the second connection gives, which verifies nothing, never makes it valid.
pub check_certificate-valid :
    (tls : Tls) (addr host : Text)
    → ((check_certificate tls addr host).valid ≡ true) ↔ Verified tls addr host
unfolding check_certificate
check_certificate-valid tls addr host = (
  valid-dialed (tls.dial true addr host) (tls.dial false addr host),
  dialed-valid (tls.dial true addr host) (tls.dial false addr host),
)

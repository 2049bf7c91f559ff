-- ===== src/Handler/Certificates.antt =====
-- `SSLCheck` of internal/handler/handler.go. `crypto/tls` is a function of the address, the name of
-- the server and whether the certificate is verified.
pub mod Validity
mod Tests
use looking_glass.Common.{
  ℕ, List, [], ◌∷◌, Bool, true, false, Option, none, some, if◌then◌else◌, Text, codes,
}
use looking_glass.Ip.{Address}
use looking_glass.Strings.{ℤ, pos, atoi, contains, cut_prefix, after_first}
use looking_glass.Handler.{Request, query_get}
use looking_glass.Handler.Agents.{sanitize_err}
use looking_glass.Handler.Gate.{
  Env, Outcome, go, Action, ◌>>=◌, ◌>>◌, require, require_target, require_public, require_rate,
  respond,
}
use looking_glass.Handler.PortCheck.{is_port}
use looking_glass.Handler.Probe.{pinned_or}
use looking_glass.Handler.Routes.{Keeping, captured}
use looking_glass.Handler.State.{State, Response, json}

-- The fields of the first certificate, formatted, with the days that are left.
pub record Certificate : Type 0 where
  pub subject : Text
  pub issuer : Text
  pub not_before : Text
  pub not_after : Text
  pub days_left : ℤ
  pub sans : List Text

pub data Dialed : Type 0 where
  not_dialed : Text → Dialed
  dialed : List Certificate → Dialed

pub record Tls : Type 0 where
  pub split_host_port : Text → Option (Text × Text)
  pub join_host_port : Text → Text → Text
  pub dial : Bool → Text → Text → Dialed

pub record Checked : Type 0 where
  pub valid : Bool
  pub error : Text
  pub certificate : Option Certificate
  pub request_id : Option Text

abbrev pub or_443 : Text → Option (Text × Text) → Text × Text
or_443 target none = (target, codes "443")
or_443 target (some p) = p

-- The host and the port of a target.
unfoldable pub host_and_port : Tls → Text → Text × Text
unfolding after_first cut_prefix
host_and_port tls target =
    if contains (codes ":") target
    then or_443 target (tls.split_host_port target)
    else (target, codes "443")

-- `extractCert`
unfoldable pub extract_cert : Bool → List Certificate → Checked
extract_cert verified [] = record {
  valid = false;
  error = codes "no certificate returned";
  certificate = none;
  request_id = none;
}
extract_cert verified (cert ∷ certs) = record {
  valid = verified;
  error = [];
  certificate = some cert;
  request_id = none;
}

abbrev pub unverified : Text → Dialed → Checked
unverified e (not_dialed e') = record {
  valid = false;
  error = sanitize_err e;
  certificate = none;
  request_id = none;
}
unverified e (dialed certs) = record (extract_cert false certs) {
  valid = false;
  error = sanitize_err e;
}

abbrev pub first_dial : Dialed → Dialed → Checked
first_dial (dialed certs) again = extract_cert true certs
first_dial (not_dialed e) again = unverified e again

-- Both attempts.
unfoldable pub check_certificate : Tls → Text → Text → Checked
unfolding extract_cert sanitize_err
check_certificate tls addr host = first_dial (tls.dial true addr host) (tls.dial false addr host)

-- `send`
abbrev pub send_checked : Keeping Checked → Text → Checked → Action Checked (Response Checked)
send_checked k target c s =
    let (t, id) = captured k (codes "ssl") target (k.marshal c) s in
    (go (json (record c { request_id = id })), t)

unfoldable pub ssl_check_steps :
    Env → Tls → ℕ → Keeping Checked → Request → Action Checked (Response Checked)
unfolding host_and_port require_target is_port require_rate require_public check_certificate
ssl_check_steps env tls now k r = do
  let target = query_get r (codes "target")
  let (host, port) = host_and_port tls target
  require_target env host
  require (is_port (atoi port)) (codes "invalid port")
  require_rate env r now
  pinned ← require_public env host
  send_checked k target
      (check_certificate tls (tls.join_host_port (pinned_or env host pinned) port) host)

-- `SSLCheck`
unfoldable pub ssl_check :
    Env → Tls → ℕ → Keeping Checked → Request → State → Response Checked × State
unfolding ssl_check_steps
ssl_check env tls now k r s = respond (ssl_check_steps env tls now k r s)

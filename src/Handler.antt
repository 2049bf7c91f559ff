-- ===== src/Handler.antt =====
-- internal/handler/handler.go, its beginning: requests, the address that a client counts under, and
-- the one slot that each client has for checks. The handlers are in the modules below.
pub mod Address
pub mod Slots
pub mod Running
pub mod State
pub mod Capture
pub mod Gate
pub mod Probe
pub mod Sse
pub mod Relay
pub mod Agents
pub mod Proxy
pub mod PortCheck
pub mod FanOut
pub mod Dig
pub mod Certificates
pub mod Pages
pub mod Routes
pub mod IpInfo
pub mod Reports
pub mod Sample
mod Tests
use looking_glass.Common.{
  ℕ, ◌+◌, ◌-◌, ◌*◌, List, [], ◌∷◌, Bool, true, false, Option, none, some, ltb, ◌==◌, if◌then◌else◌,
  Text, Text-discrete, lookup, assign, delete,
}
use looking_glass.Strings.{split, trim_space}

pub record Request : Type 0 where
  pub forwarded_for : Text
  pub real_ip : Text
  pub remote_addr : Text
  pub query : List (Text × Text)

-- `r.URL.Query().Get(name)`: the first value, or the empty text.
abbrev pub or_empty : Option Text → Text
or_empty none = []
or_empty (some v) = v

abbrev pub query_get : Request → Text → Text
query_get r name = or_empty (lookup Text-discrete name r.query)

-- `net.ParseIP` and then `String`, and the host of `net.SplitHostPort`.
pub record Net : Type 0 where
  pub canonical : Text → Option Text
  pub host_of : Text → Option Text

-- `parts[len(parts)-2]`, if there are at least two.
unfoldable pub second_last : List Text → Option Text
second_last [] = none
second_last (a ∷ []) = none
second_last (a ∷ b ∷ []) = some a
second_last (a ∷ b ∷ c ∷ parts) = second_last (b ∷ c ∷ parts)

abbrev pub parse_trimmed : Net → Option Text → Option Text
parse_trimmed net none = none
parse_trimmed net (some part) = net.canonical (trim_space part)

abbrev pub from_forwarded : Net → Text → Option Text
from_forwarded net [] = none
from_forwarded net (c ∷ v) = parse_trimmed net (second_last (split b',' (c ∷ v)))

abbrev pub from_real : Net → Text → Option Text
from_real net [] = none
from_real net (c ∷ v) = net.canonical (trim_space (c ∷ v))

abbrev pub or_else {ℓ} : {A : Type ℓ} → Option A → A → A
or_else none a = a
or_else (some b) a = b

-- `clientIP`
unfoldable pub client_ip : Net → Request → Text
unfolding split second_last
client_ip net r =
    or_else (from_forwarded net r.forwarded_for)
      (or_else (from_real net r.real_ip) (or_else (net.host_of r.remote_addr) r.remote_addr))

-- `ipSemEntry`: whether the channel of one place is full, and the time of the last attempt, in
-- nanoseconds.
pub record Slot : Type 0 where
  pub busy : Bool
  pub last : ℕ

abbrev pub Sem : Type 0
Sem = List (Text × Slot)

abbrev pub is_busy : Option Slot → Bool
is_busy none = false
is_busy (some slot) = slot.busy

-- A call as one step; its three accesses are steps of their own in Handler/Running.antt.
unfoldable pub acquire_ip : Sem → Text → ℕ → Sem × Bool
acquire_ip sem ip now = (
  assign Text-discrete ip (record { busy = true; last = now }) sem,
  if is_busy (lookup Text-discrete ip sem) then false else true,
)

abbrev pub emptied : Text → Option Slot → Sem → Sem
emptied ip none sem = sem
emptied ip (some slot) sem = assign Text-discrete ip (record slot { busy = false }) sem

unfoldable pub release_ip : Sem → Text → Sem
release_ip sem ip = emptied ip (lookup Text-discrete ip sem) sem

abbrev pub slot_idle_limit : ℕ
slot_idle_limit = 30 * 60 * 1_000_000_000

-- One tick of `cleanupIPSem`.
unfoldable pub cleanup_ip_sem : ℕ → Sem → Sem
cleanup_ip_sem now [] = []
cleanup_ip_sem now (e ∷ sem) =
    if ltb (e.1.last + slot_idle_limit) now
    then cleanup_ip_sem now sem
    else e ∷ cleanup_ip_sem now sem

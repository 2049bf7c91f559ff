-- ===== src/Bgp/Trie.antt =====
-- internal/bgp/trie.go: routes by prefix, in a trie for each family of addresses. An index past the
-- bytes of an address panics, which `none` stands for: `net.ParseCIDR` reads a prefix such as
-- ::ffff:0:0/96 with a mask of 128 bits, of whose address `rootFor` leaves four bytes.
use looking_glass.Common.{
  ℕ, List, [], ◌∷◌, ◌++◌, Bool, true, false, Option, none, some, if◌then◌else◌, Text, leb, length,
  ◌*◌,
}
use looking_glass.Ip.{Address, IpNet, Family, v4, v6, max_bits, to4, to16}
use looking_glass.Radix.{Node, nil, node, update, find, best_match}

pub record Route : Type 0 where
  pub prefix : Text
  pub next_hop : Text
  pub as_path : List ℕ
  pub origin : Text
  pub med : ℕ
  pub local_pref : ℕ
  pub communities : List Text

-- What a node holds besides its children.
pub record Held : Type 0 where
  pub routes : List Route
  pub is_terminal : Bool

abbrev pub new_node : Held
new_node = record { routes = []; is_terminal = false }

pub record Trie : Type 0 where
  pub root4 : Node Held
  pub root6 : Node Held

-- `var t Trie`
abbrev pub empty_trie : Trie
empty_trie = record { root4 = node new_node nil nil; root6 = node new_node nil nil }

abbrev pub root : Trie → Family → Node Held
root t v4 = t.root4
root t v6 = t.root6

abbrev pub set_root : Trie → Family → Node Held → Trie
set_root t v4 n = record t { root4 = n }
set_root t v6 n = record t { root6 = n }

-- The root and the bytes for an address.
unfoldable pub root_for : Address → Family × Address
root_for ip = elim (to4 ip) [ some b ↦ (v4, b) | none ↦ (v6, to16 ip) ]

unfoldable pub add_route : Route → Held → Held
add_route r h = record { routes = h.routes ++ r ∷ []; is_terminal = true }

-- The bits of the bytes that `rootFor` leaves of an address.
unfoldable pub available : IpNet → ℕ
unfolding root_for
available prefix = 8 * length (root_for prefix.ip).1

-- No round of the loop over a prefix indexes past the bytes.
unfoldable pub in_range : IpNet → Bool
unfolding available
in_range prefix = leb prefix.ones (available prefix)

-- The loop of `Insert` where it does not panic.
unfoldable pub insert_within : Trie → IpNet → Route → Trie
unfolding root_for add_route
insert_within t prefix r =
    let (family, bytes) = root_for prefix.ip in
    set_root t family (update new_node (add_route r) prefix.ones 0 bytes (root t family))

unfoldable pub insert : Trie → IpNet → Route → Option Trie
insert t prefix r = if in_range prefix then some (insert_within t prefix r) else none

unfoldable pub answer : Held → Option (List Route)
answer h = if h.is_terminal then some h.routes else none

-- A nil slice is the empty list.
abbrev pub or_nil {ℓ} : {A : Type ℓ} → Option (List A) → List A
or_nil none = []
or_nil (some xs) = xs

unfoldable pub lookup_ip : Trie → Address → List Route
unfolding root_for answer
lookup_ip t ip =
    let (family, bytes) = root_for ip in
    or_nil (best_match answer (max_bits family) 0 bytes none (root t family))

abbrev pub held_routes : Option Held → List Route
held_routes none = []
held_routes (some h) = h.routes

-- The index past the bytes is read at the node where they end, if there is one.
abbrev pub past_bytes : Option Held → Option (List Route)
past_bytes none = some []
past_bytes (some h) = none

unfoldable pub lookup_exact_prefix : Trie → IpNet → Option (List Route)
unfolding root_for in_range
lookup_exact_prefix t prefix =
    let (family, bytes) = root_for prefix.ip in
    if in_range prefix
    then some (held_routes (find prefix.ones 0 bytes (root t family)))
    else past_bytes (find (available prefix) 0 bytes (root t family))

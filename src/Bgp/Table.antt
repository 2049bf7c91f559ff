-- ===== src/Bgp/Table.antt =====
-- The trie as the table of the routes that were inserted.
use mathlib.Core.Path.{fun_ext}
use looking_glass.Common.{
  ℕ, ◌≡◌, refl, ap, sym, subst, ◌∙◌, List, [], ◌∷◌, ◌++◌, Bool, true, false, not, Option, none,
  some, arith, ite, if_pos, if_neg, append-nil, append_assoc, ◌⊎◌, inl, inr,
}
use looking_glass.Ip.{Family, Family-discrete, v4, v6, max_bits, Address, IpNet}
use looking_glass.Radix.{Node, update, find, best_match}
use looking_glass.Radix.Longest.{Deepest, best_match-Deepest, answers_at}
use looking_glass.Radix.Paths.{Bits, Bits-discrete, path, at, at-update, find-at, get_or_empty}
use looking_glass.Bgp.Trie.{
  Route, Held, new_node, Trie, empty_trie, root, set_root, root_for, add_route, insert_within,
  answer, or_nil, lookup_ip, lookup_exact_prefix, held_routes, past_bytes, in_range, available,
}

-- The family and the bits that a network stands for.
abbrev pub Network : Type 0
Network = Family × Bits

pub network : IpNet → Network
network n = ((root_for n.ip).0, path (root_for n.ip).1 0 n.ones)

-- The bits of an address, from the first.
pub address_bits : Address → Bits
address_bits ip = path (root_for ip).1 0 (max_bits (root_for ip).0)

-- The routes that were inserted for a network, in that order.
pub routes_for : Family → Bits → List (IpNet × Route) → List Route
unfolding network
routes_for f q [] = []
routes_for f q (e ∷ es) =
    let rest = routes_for f q es in
    ite (Family-discrete (network e.0).0 f)
      (ite (Bits-discrete (network e.0).1 q) (e.1 ∷ rest) rest) rest

unfoldable pub build : Trie → List (IpNet × Route) → Trie
build t [] = t
build t (e ∷ es) = build (insert_within t e.0 e.1) es

abbrev pub is_nil : List Route → Bool
is_nil [] = true
is_nil (x ∷ xs) = false

abbrev pub holding : List Route → Held
holding rs = record { routes = rs; is_terminal = not (is_nil rs) }

-- The trie holds exactly what the table lists.
abbrev Represents : Trie → (Family → Bits → List Route) → Type 0
Represents t table = (f : Family) (q : Bits) → at new_node (root t f) q ≡ holding (table f q)

extended : (Family → Bits → List Route) → IpNet → Route → Family → Bits → List Route
extended table n r f q =
    ite (Family-discrete (network n).0 f)
      (ite (Bits-discrete (network n).1 q) (table f q ++ r ∷ []) (table f q)) (table f q)

add_route-holding :
    (r : Route) (rs : List Route) → add_route r (holding rs) ≡ holding (rs ++ r ∷ [])
unfolding add_route
add_route-holding r [] = refl
add_route-holding r (x ∷ rs) = refl

root-set_root :
    (t : Trie) (f g : Family) (n : Node Held)
    → root (set_root t f n) g ≡ ite (Family-discrete f g) n (root t g)
unfolding Family-discrete
root-set_root t v4 v4 n = refl
root-set_root t v4 v6 n = refl
root-set_root t v6 v4 n = refl
root-set_root t v6 v6 n = refl

placed :
    (t : Trie) (table : Family → Bits → List Route) (f : Family) (b : Address) (ones : ℕ)
    (r : Route)
    → Represents t table
    → (g : Family) (q : Bits)
    → at new_node (root (set_root t f (update new_node (add_route r) ones 0 b (root t f))) g) q
      ≡ holding (
          ite
            (Family-discrete f g)
            (ite (Bits-discrete (path b 0 ones) q) (table g q ++ r ∷ []) (table g q))
            (table g q))
placed t table f b ones r h g q =
    let u = update new_node (add_route r) ones 0 b (root t f) in
    elim (Family-discrete f g) [
      | yes p ↦
          rw (root-set_root t f g u, if_pos (Family-discrete f g) p, if_pos (Family-discrete f g) p)
            (at-update new_node (add_route r) ones 0 b (root t f) q
              ∙ rw p (same (table g q) (h g q)))
      | no p ↦
          rw (root-set_root t f g u, if_neg (Family-discrete f g) p, if_neg (Family-discrete f g) p)
            (h g q)
    ]
  where
    same :
        (rs : List Route)
        → at new_node (root t g) q ≡ holding rs
        → ite
            (Bits-discrete (path b 0 ones) q)
            (add_route r (at new_node (root t g) q))
            (at new_node (root t g) q)
          ≡ holding (ite (Bits-discrete (path b 0 ones) q) (rs ++ r ∷ []) rs)
    same rs e = elim (Bits-discrete (path b 0 ones) q) [
      | yes p ↦ rw (if_pos _ p, if_pos _ p, e) (add_route-holding r rs)
      | no p ↦ rw (if_neg _ p, if_neg _ p) e
    ]

insert_within-Represents :
    (t : Trie) (table : Family → Bits → List Route) (n : IpNet) (r : Route)
    → Represents t table
    → Represents (insert_within t n r) (extended table n r)
unfolding insert_within extended network
insert_within-Represents t table n r h =
    placed t table (root_for n.ip).0 (root_for n.ip).1 n.ones r h

extended-routes_for :
    (table : Family → Bits → List Route) (n : IpNet) (r : Route) (es : List (IpNet × Route))
    (f : Family) (q : Bits)
    → extended table n r f q ++ routes_for f q es ≡ table f q ++ routes_for f q ((n, r) ∷ es)
unfolding extended routes_for
extended-routes_for table n r es f q =
    ground (arith, append_assoc (table f q) (r ∷ []) (routes_for f q es))

build-Represents :
    (t : Trie) (table : Family → Bits → List Route) (es : List (IpNet × Route))
    → Represents t table
    → Represents (build t es) (λ f q. table f q ++ routes_for f q es)
unfolding build routes_for
build-Represents t table [] h f q = h f q ∙ ap holding (sym (append-nil (table f q)))
build-Represents t table ((n, r) ∷ es) h f q =
    build-Represents (insert_within t n r) (extended table n r) es
      (insert_within-Represents t table n r h) f q
    ∙ ap holding (extended-routes_for table n r es f q)

empty-Represents : Represents empty_trie (λ f q. [])
unfolding at
empty-Represents v4 [] = refl
empty-Represents v4 (false ∷ q) = refl
empty-Represents v4 (true ∷ q) = refl
empty-Represents v6 [] = refl
empty-Represents v6 (false ∷ q) = refl
empty-Represents v6 (true ∷ q) = refl

pub built_holds :
    (es : List (IpNet × Route)) (f : Family) (q : Bits)
    → at new_node (root (build empty_trie es) f) q ≡ holding (routes_for f q es)
built_holds es = build-Represents empty_trie (λ f q. []) es empty-Represents

held_routes-found : (o : Option Held) → held_routes o ≡ (get_or_empty new_node o).routes
unfolding get_or_empty
held_routes-found none = refl
held_routes-found (some h) = refl

-- A trie that is built from any routes, in any order, returns for a prefix in range the routes that
-- were inserted for the very same network, in the order of their insertion.
pub lookup_exact_prefix-build :
    (es : List (IpNet × Route)) (n : IpNet)
    → in_range n ≡ true
    → lookup_exact_prefix (build empty_trie es) n ≡ some (routes_for (network n).0 (network n).1 es)
unfolding lookup_exact_prefix network
lookup_exact_prefix-build es n within =
    let f = (root_for n.ip).0 in
    let b = (root_for n.ip).1 in
    let t = root (build empty_trie es) f in
    rw within (
      ap some (
        held_routes-found (find n.ones 0 b t)
        ∙ ap (λ h. h.routes) (find-at new_node n.ones 0 b t ∙ built_holds es f (path b 0 n.ones))))

-- The network of all the bits that are left of an address.
abbrev pub whole : IpNet → IpNet
whole n = record n { ones = available n }

past_bytes-found :
    (o : Option Held) (rs : List Route)
    → get_or_empty new_node o ≡ holding rs
    → (past_bytes o ≡ some []) × (rs ≡ []) ⊎ (past_bytes o ≡ none)
unfolding get_or_empty
past_bytes-found none [] e = inl (refl, refl)
past_bytes-found none (r ∷ rs) e = let odd : false ≡ true = ap (λ h. h.is_terminal) e in cc
past_bytes-found (some h) rs e = inr refl

-- For a prefix out of range it panics, except where no route was inserted for all the bits that are
-- left of the address, when it may return nothing.
pub lookup_exact_prefix-past :
    (es : List (IpNet × Route)) (n : IpNet)
    → in_range n ≡ false
    → ((lookup_exact_prefix (build empty_trie es) n ≡ some [])
        × (routes_for (network (whole n)).0 (network (whole n)).1 es ≡ []))
      ⊎ (lookup_exact_prefix (build empty_trie es) n ≡ none)
unfolding lookup_exact_prefix network
lookup_exact_prefix-past es n past =
    let f = (root_for n.ip).0 in
    let b = (root_for n.ip).1 in
    let t = root (build empty_trie es) f in
    rw past (
      past_bytes-found (find (available n) 0 b t) (routes_for f (path b 0 (available n)) es)
        (find-at new_node (available n) 0 b t ∙ built_holds es f (path b 0 (available n))))

-- The routes for a network, if there are any.
abbrev pub listed : List Route → Option (List Route)
listed [] = none
listed (r ∷ rs) = some (r ∷ rs)

answer-holding : (rs : List Route) → answer (holding rs) ≡ listed rs
unfolding answer
answer-holding [] = refl
answer-holding (r ∷ rs) = refl

-- A trie that is built from any routes, in any order, returns for an address the routes of the
-- longest network among them that holds the address, in the order of their insertion, and nothing
-- if none holds it.
pub lookup_ip-build :
    (es : List (IpNet × Route)) (ip : Address)
    → (best : Option (List Route)) × (lookup_ip (build empty_trie es) ip ≡ or_nil best)
      × Deepest (λ q. listed (routes_for (root_for ip).0 q es)) (address_bits ip) none best
unfolding lookup_ip answer address_bits
lookup_ip-build es ip =
    let f = (root_for ip).0 in
    let b = (root_for ip).1 in
    let t = root (build empty_trie es) f in
    let table : answers_at new_node answer t ≡ (λ q. listed (routes_for f q es)) =
      fun_ext (λ q. ap answer (built_holds es f q) ∙ answer-holding (routes_for f q es)) in
    (
      best_match answer (max_bits f) 0 b none t,
      refl,
      subst
          (λ a. Deepest a (path b 0 (max_bits f)) none (best_match answer (max_bits f) 0 b none t))
          table (best_match-Deepest new_node answer (max_bits f) 0 b none t refl),
    )

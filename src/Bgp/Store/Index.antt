-- ===== src/Bgp/Store/Index.antt =====
-- The index of routes by AS number, and what a load puts in a snapshot.
use looking_glass.Common.{
  ℕ, suc, ◌+◌, ◌≡◌, ap, ◌∙◌, List, [], ◌∷◌, ◌++◌, Bool, true, false, ◌&&◌, ◌||◌, not, Option, none,
  some, arith, ◌==◌, if◌then◌else◌, ℕ_discrete, length, lookup, assign, lookup-assign, append-nil,
  append_assoc, Bool-cases, inl, inr,
}
use looking_glass.Ip.{IpNet, Parsers}
use looking_glass.Bgp.Store.{Snapshot, seen_asn, index_path}
use looking_glass.Bgp.Table.{build}
use looking_glass.Bgp.Trie.{Route, or_nil, insert_within}

abbrev pub routes_of : ℕ → List (ℕ × List Route) → List Route
routes_of a m = or_nil (lookup ℕ_discrete a m)

abbrev pub once : Bool → Route → List Route
once b r = if b then r ∷ [] else []

routes_of-assign :
    (a x : ℕ) (rs : List Route) (m : List (ℕ × List Route))
    → routes_of a (assign ℕ_discrete x rs m) ≡ (if x == a then rs else routes_of a m)
routes_of-assign a x rs m = ground (arith, lookup-assign ℕ_discrete a x rs m)

-- A route is added once to each AS number of its path that was not seen before.
pub routes_of-index_path :
    (a : ℕ) (seen path : List ℕ) (r : Route) (m : List (ℕ × List Route))
    → routes_of a (index_path seen path r m)
      ≡ routes_of a m ++ once (not (seen_asn seen a) && seen_asn path a) r
unfolding index_path
routes_of-index_path a seen [] r m = ground (arith, append-nil (routes_of a m))
routes_of-index_path a seen (x ∷ path) r m = elim (Bool-cases (seen_asn seen x)) [
  | inl old ↦
      rw (old, index_path)
        (routes_of-index_path a seen path r m ∙ ap (λ b. routes_of a m ++ once b r) (known old))
  | inr new ↦
      rw (new, index_path)
        (routes_of-index_path a (x ∷ seen) path r (assign ℕ_discrete x (routes_of x m ++ r ∷ []) m)
          ∙ added new)
]
  where
    known :
        seen_asn seen x ≡ true
        → (not (seen_asn seen a) && seen_asn path a)
          ≡ (not (seen_asn seen a) && (x == a || seen_asn path a))
    known old = ground arith

    added :
        seen_asn seen x ≡ false
        → routes_of a (assign ℕ_discrete x (routes_of x m ++ r ∷ []) m)
            ++ once (not (x == a || seen_asn seen a) && seen_asn path a) r
          ≡ routes_of a m ++ once (not (seen_asn seen a) && (x == a || seen_asn path a)) r
    added new = ground (
      arith,
      routes_of-assign a x (routes_of x m ++ r ∷ []) m,
      append-nil (routes_of x m ++ r ∷ []),
    )

unfoldable pub with_network : Route → Option IpNet → List (IpNet × Route) → List (IpNet × Route)
with_network r none es = es
with_network r (some n) es = (n, r) ∷ es

-- The routes with a prefix that can be parsed, with their networks.
unfoldable pub parsed : Parsers → List Route → List (IpNet × Route)
unfolding with_network
parsed net [] = []
parsed net (r ∷ routes) = with_network r (net.parse_cidr r.prefix) (parsed net routes)

-- Those that have the AS number in their path.
unfoldable pub via : ℕ → List (IpNet × Route) → List Route
via a [] = []
via a (e ∷ es) = if seen_asn e.1.as_path a then e.1 ∷ via a es else via a es

-- What a load of `total` routes, of which `es` could be parsed, has made of a snapshot.
pub record Loads (before : Snapshot × ℕ) (es : List (IpNet × Route)) (total : ℕ)
    (after : Snapshot × ℕ) : Type 0 where
  pub trie : after.0.trie ≡ build before.0.trie es
  pub index : (a : ℕ) → routes_of a after.0.by_asn ≡ routes_of a before.0.by_asn ++ via a es
  pub count : after.0.route_count ≡ before.0.route_count + length es
  pub skipped : after.0.route_count + after.1 ≡ before.0.route_count + before.1 + total
  pub loaded_at : after.0.loaded_at ≡ before.0.loaded_at
  pub file_mtime : after.0.file_mtime ≡ before.0.file_mtime

via-cons :
    (a : ℕ) (n : IpNet) (r : Route) (es : List (IpNet × Route)) (rs : List Route)
    → (rs ++ once (true && seen_asn r.as_path a) r) ++ via a es ≡ rs ++ via a ((n, r) ∷ es)
unfolding via
via-cons a n r es rs = ground (arith, append_assoc rs (r ∷ []) (via a es), append-nil rs)

pub load_parsed_none-Loads :
    (snap : Snapshot) (k total : ℕ) (es : List (IpNet × Route)) (after : Snapshot × ℕ)
    → Loads (snap, k + 1) es total after
    → Loads (snap, k) es (suc total) after
load_parsed_none-Loads snap k total es after h = record {
  trie = h.trie;
  index = h.index;
  count = h.count;
  skipped = omega arith;
  loaded_at = h.loaded_at;
  file_mtime = h.file_mtime;
}

-- A snapshot with a route in it.
unfoldable pub grown : Route → IpNet → Snapshot → Snapshot
unfolding index_path
grown r n snap = record snap {
  trie = insert_within snap.trie n r;
  by_asn = index_path [] r.as_path r snap.by_asn;
  route_count = snap.route_count + 1;
}

pub load_parsed_some-Loads :
    (r : Route) (n : IpNet) (snap : Snapshot) (k total : ℕ) (es : List (IpNet × Route))
    (after : Snapshot × ℕ)
    → Loads (grown r n snap, k) es total after
    → Loads (snap, k) ((n, r) ∷ es) (suc total) after
unfolding grown
load_parsed_some-Loads r n snap k total es after h = record {
  trie = unfold build in h.trie;
  index = λ a.
      h.index a
      ∙ ap (λ rs. rs ++ via a es) (routes_of-index_path a [] r.as_path r snap.by_asn)
      ∙ via-cons a n r es (routes_of a snap.by_asn);
  count = omega arith;
  skipped = omega arith;
  loaded_at = h.loaded_at;
  file_mtime = h.file_mtime;
}

-- ===== src/Bgp/Store/Range.antt =====
-- A load of a file panics just if a prefix of the file is out of range.
use looking_glass.Common.{
  ℕ, suc, ◌+◌, ◌≡◌, refl, sym, List, [], ◌∷◌, Bool, true, false, ◌&&◌, Option, none, some, arith,
  if◌then◌else◌, length, append-nil, Bool-cases, inl, inr, ◌⊎◌, subst,
}
use looking_glass.Ip.{IpNet, Parsers}
use looking_glass.Bgp.Store.{
  Store, Snapshot, decoded, load, new_snapshot, add_parsed, load_parsed, load_route, load_routes,
}
use looking_glass.Bgp.Store.Index.{
  routes_of, with_network, parsed, via, Loads, grown, load_parsed_none-Loads,
  load_parsed_some-Loads,
}
use looking_glass.Bgp.Table.{build}
use looking_glass.Bgp.Trie.{Route, insert, in_range}

load_parsed-in_range :
    (r : Route) (n : IpNet) (snap : Snapshot) (k : ℕ)
    → load_parsed r (some n) (snap, k) ≡ (if in_range n then some (grown r n snap, k) else none)
unfolding load_parsed add_parsed insert grown
load_parsed-in_range r n snap k = elim (Bool-cases (in_range n)) [
  | inl within ↦ rw (load_parsed, add_parsed, insert, within) refl
  | inr past ↦ rw (load_parsed, add_parsed, insert, past) refl
]

-- None of the networks has bits past the bytes of its address.
unfoldable pub all_in_range : List (IpNet × Route) → Bool
all_in_range [] = true
all_in_range (e ∷ es) = in_range e.0 && all_in_range es

-- A load from a snapshot panics just if some network is out of range, and else adds the routes.
abbrev pub LoadsOrPanics : Snapshot × ℕ → List (IpNet × Route) → ℕ → Option (Snapshot × ℕ) → Type 0
LoadsOrPanics before es total result =
    ((all_in_range es ≡ false) × (result ≡ none))
    ⊎ ((after : Snapshot × ℕ) × (all_in_range es ≡ true)
        × (result ≡ some after)
        × Loads before es total after)

LoadsOrPanics-skip :
    (snap : Snapshot) (k total : ℕ) (es : List (IpNet × Route)) (o : Option (Snapshot × ℕ))
    → LoadsOrPanics (snap, k + 1) es total o
    → LoadsOrPanics (snap, k) es (suc total) o
LoadsOrPanics-skip snap k total es o (inl panics) = inl panics
LoadsOrPanics-skip snap k total es o (inr (after, all, is, h)) =
    inr (after, all, is, load_parsed_none-Loads snap k total es after h)

LoadsOrPanics-add :
    (r : Route) (n : IpNet) (snap : Snapshot) (k total : ℕ) (es : List (IpNet × Route))
    (o : Option (Snapshot × ℕ))
    → in_range n ≡ true
    → LoadsOrPanics (grown r n snap, k) es total o
    → LoadsOrPanics (snap, k) ((n, r) ∷ es) (suc total) o
unfolding all_in_range
LoadsOrPanics-add r n snap k total es o within (inl (out, is)) = inl (rw within out, is)
LoadsOrPanics-add r n snap k total es o within (inr (after, all, is, h)) =
    inr (after, rw within all, is, load_parsed_some-Loads r n snap k total es after h)

round-LoadsOrPanics :
    (net : Parsers) (snap : Snapshot) (k total : ℕ) (r : Route) (o : Option IpNet)
    (es : List (IpNet × Route)) (rest : Snapshot × ℕ → Option (Snapshot × ℕ))
    → ((s : Snapshot × ℕ) → LoadsOrPanics s es total (rest s))
    → LoadsOrPanics
        (snap, k)
        (with_network r o es)
        (suc total)
        (elim (load_parsed r o (snap, k)) [ none ↦ none | some t ↦ rest t ])
unfolding load_parsed with_network
round-LoadsOrPanics net snap k total r none es rest h =
    LoadsOrPanics-skip snap k total es _ (h (snap, k + 1))
round-LoadsOrPanics net snap k total r (some n) es rest h = elim (Bool-cases (in_range n)) [
  | inl within ↦
      rw (load_parsed-in_range r n snap k, within)
        (LoadsOrPanics-add r n snap k total es _ within (h (grown r n snap, k)))
  | inr past ↦
      rw (load_parsed-in_range r n snap k, past) (inl (unfold all_in_range in rw past refl, refl))
]

load_routes-Loads :
    (net : Parsers) (snap : Snapshot) (k : ℕ) (routes : List Route)
    → LoadsOrPanics (snap, k) (parsed net routes) (length routes) (load_routes net (snap, k) routes)
unfolding load_routes load_route parsed build via all_in_range
load_routes-Loads net snap k [] = inr (
  (snap, k),
  refl,
  refl,
  record {
    trie = refl;
    index = λ a. sym (append-nil (routes_of a snap.by_asn));
    count = omega arith;
    skipped = omega arith;
    loaded_at = refl;
    file_mtime = refl;
  },
)
load_routes-Loads net snap k (r ∷ routes) =
    round-LoadsOrPanics net snap k (length routes) r (net.parse_cidr r.prefix) (parsed net routes)
      (λ s. load_routes net s routes) (λ s. load_routes-Loads net s.0 s.1 routes)

-- A load of routes into a new snapshot panics, or gives a snapshot.
pub load_routes-cases :
    (net : Parsers) (now mtime : ℕ) (routes : List Route)
    → ((all_in_range (parsed net routes) ≡ false)
        × (load_routes net (new_snapshot now mtime, 0) routes ≡ none))
      ⊎ ((snap : Snapshot) × (skipped : ℕ) × (load_routes net (new_snapshot now mtime, 0) routes
            ≡ some (snap, skipped)))
load_routes-cases net now mtime routes =
    elim (load_routes-Loads net (new_snapshot now mtime) 0 routes) [
      | inl panics ↦ inl panics
      | inr ((snap, skipped), all, is, loads) ↦ inr (snap, skipped, is)
    ]

-- A store that a load of the routes has left.
pub record Serves (net : Parsers) (now mtime : ℕ) (routes : List Route) (t : Store) : Type 0 where
  pub snap : Snapshot
  pub skipped : ℕ
  pub current : t.current ≡ some snap
  pub loads : Loads (new_snapshot now mtime, 0) (parsed net routes) (length routes) (snap, skipped)

module _ (net : Parsers) (now mtime : ℕ) (routes : List Route) (before : Store) where
  -- A load of a decoded file panics just if a prefix of the file is out of range.
  pub load_cases :
      ((all_in_range (parsed net routes) ≡ false)
        × (load net now (decoded mtime routes) before ≡ none))
      ⊎ ((t : Store) × (all_in_range (parsed net routes) ≡ true)
          × (load net now (decoded mtime routes) before ≡ some (t, none))
          × Serves net now mtime routes t)
  unfolding load
  load_cases = elim (load_routes-Loads net (new_snapshot now mtime) 0 routes) [
    | inl (out, is) ↦ inl (out, rw (load, is) refl)
    | inr ((snap, skipped), all, is, loads) ↦ inr (
      record { current = some snap },
      all,
      rw (load, is) refl,
      record { snap = snap; skipped = skipped; current = refl; loads = loads },
    )
  ]

  pub load-Serves :
      all_in_range (parsed net routes) ≡ true
      → (t : Store) × (load net now (decoded mtime routes) before ≡ some (t, none))
        × Serves net now mtime routes t
  load-Serves all = elim load_cases [
    | inl (out, is) ↦ cc
    | inr (t, fine, is, serves) ↦ (t, is, serves)
  ]

  pub loaded-Serves :
      (t : Store)
      → load net now (decoded mtime routes) before ≡ some (t, none)
      → Serves net now mtime routes t
  loaded-Serves t h = elim load_cases [
    | inl (out, is) ↦ cc
    | inr (u, fine, is, serves) ↦
        let same : u ≡ t = cc in subst (Serves net now mtime routes) same serves
  ]

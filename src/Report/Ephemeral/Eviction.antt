-- ===== src/Report/Ephemeral/Eviction.antt =====
-- Which entry makes room, and what every other key still reads.
use looking_glass.Common.{
  ℕ, ◌≤◌, ◌≡◌, refl, ◌≢◌, ap, [], ◌∷◌, true, false, none, some, arith, ltb, leb, ite, if_pos,
  if◌then◌else◌, Text, Text-discrete, length, All, lookup, lookup-assign, lookup-delete, Distinct,
  Bool-cases, inl, inr, ◌⊎◌,
}
use looking_glass.Report.Ephemeral.{
  Ephemeral, Cache, Oldest, max_ephemeral_size, search_start, search_step, find_oldest, victim,
  make_room, put, get,
}

-- The search has seen an entry, which the map holds, and nothing older.
pub record Found (whole : Cache) (o : Oldest) : Type 0 where
  pub seen : o.first ≡ false
  pub entry : Ephemeral
  pub held : lookup Text-discrete o.oldest_id whole ≡ some entry
  pub time : entry.created_at ≡ o.oldest_at

abbrev pub NotOlder : ℕ → Cache → Type 0
NotOlder t = All (λ e. t ≤ e.1.created_at)

-- Every entry of a list of distinct keys is what its key reads.
abbrev Reads : Cache → Cache → Type 0
Reads whole = All (λ e. lookup Text-discrete e.0 whole ≡ some e.1)

find_oldest-le :
    (o : Oldest) (c : Cache) → o.first ≡ false → (find_oldest o c).oldest_at ≤ o.oldest_at
unfolding find_oldest
find_oldest-le o [] h = omega arith
find_oldest-le o ((k, v) ∷ c) h = ground (arith, find_oldest-le (search_step o (k, v)) c)

taken :
    (whole : Cache) (k : Text) (v : Ephemeral)
    → lookup Text-discrete k whole ≡ some v
    → Found whole (record { oldest_id = k; oldest_at = v.created_at; first = false })
taken whole k v h = record { seen = refl; entry = v; held = h; time = refl }

search_step-Found :
    (whole : Cache) (o : Oldest) (k : Text) (v : Ephemeral)
    → lookup Text-discrete k whole ≡ some v
    → (o.first ≡ true) ⊎ Found whole o
    → Found whole (search_step o (k, v)) × ((search_step o (k, v)).oldest_at ≤ v.created_at)
unfolding search_step
search_step-Found whole o k v h (inl start) = rw start (taken whole k v h, omega arith)
search_step-Found whole o k v h (inr f) = elim (Bool-cases (ltb v.created_at o.oldest_at)) [
  | inl older ↦ rw (f.seen, older) (taken whole k v h, omega arith)
  | inr newer ↦ simp (f.seen, newer) (f, ground arith)
]

find_oldest-Found :
    (whole : Cache) (o : Oldest) (c : Cache)
    → Reads whole c
    → Found whole o
    → Found whole (find_oldest o c) × NotOlder (find_oldest o c).oldest_at c
unfolding find_oldest
find_oldest-Found whole o [] r f = (f, tt)
find_oldest-Found whole o ((k, v) ∷ c) r f =
    let (g, least) = search_step-Found whole o k v r.0 (inr f) in
    let (found, rest) = find_oldest-Found whole (search_step o (k, v)) c r.1 g in
    (found, (omega (arith, find_oldest-le (search_step o (k, v)) c g.seen), rest))

lookup_later :
    (e : Text × Ephemeral) (k : Text) (x : Ephemeral) (c : Cache)
    → lookup Text-discrete e.0 c ≡ none
    → lookup Text-discrete k c ≡ some x
    → lookup Text-discrete k (e ∷ c) ≡ some x
unfolding lookup
lookup_later e k x c h r = ground arith

Reads-later :
    (whole : Cache) (e : Text × Ephemeral) (c : Cache)
    → lookup Text-discrete e.0 whole ≡ none
    → Reads whole c
    → Reads (e ∷ whole) c
Reads-later whole e [] h r = tt
Reads-later whole e (x ∷ c) h r = (lookup_later e x.0 x.1 whole h r.0, Reads-later whole e c h r.1)

Reads-of_Distinct : (c : Cache) → Distinct Text-discrete c → Reads c c
unfolding lookup
Reads-of_Distinct [] d = tt
Reads-of_Distinct (e ∷ c) d =
    (if_pos (Text-discrete e.0 e.0) refl _ _, Reads-later c e c d.0 (Reads-of_Distinct c d.1))

All-lookup :
    (t : ℕ) (c : Cache) (k : Text) (e : Ephemeral)
    → NotOlder t c
    → lookup Text-discrete k c ≡ some e
    → t ≤ e.created_at
unfolding lookup
All-lookup t [] k e a h = cc
All-lookup t (x ∷ c) k e a h = ground (arith, All-lookup t c k e a.1)

pub victim-Found :
    (c : Cache)
    → Distinct Text-discrete c
    → c ≢ []
    → Found c (find_oldest search_start c) × NotOlder (find_oldest search_start c).oldest_at c
unfolding find_oldest
victim-Found [] d h = absurd (h refl)
victim-Found ((k, v) ∷ c) d h =
    let r = Reads-of_Distinct ((k, v) ∷ c) d in
    let (g, least) = search_step-Found ((k, v) ∷ c) search_start k v r.0 (inl refl) in
    let (found, rest) = find_oldest-Found ((k, v) ∷ c) (search_step search_start (k, v)) c r.1 g in
    (found, (omega (arith, find_oldest-le (search_step search_start (k, v)) c g.seen), rest))

-- If a key reads an entry, the victim is an entry of the cache too, and is no younger.
pub victim-oldest :
    (c : Cache) (k : Text) (x : Ephemeral)
    → Distinct Text-discrete c
    → get c k ≡ some x
    → (e : Ephemeral) × (get c (victim c) ≡ some e) × (e.created_at ≤ x.created_at)
unfolding get victim lookup
victim-oldest [] k x d held = cc
victim-oldest (y ∷ c) k x d held =
    let (f, least) = victim-Found (y ∷ c) d (λ e. cc) in
    (f.entry, f.held, rw f.time (All-lookup _ (y ∷ c) k x least held))

-- What `Put` changes, for every key: its own reads the new check, and of the others only the
-- victim's is lost, and that from a full cache alone. (An entry under the empty key is not evicted.)
pub get-put :
    (c : Cache) (id key : Text) (e : Ephemeral)
    → get (put c id e) key
      ≡ ite (Text-discrete id key) (some e) (
          if leb max_ephemeral_size (length c)
          then ite
              (Text-discrete (victim c) [])
              (get c key)
              (ite (Text-discrete (victim c) key) none (get c key))
          else get c key)
unfolding get put make_room
get-put c id key e =
    rw (lookup-assign Text-discrete key id e (make_room c))
      (ap (ite (Text-discrete id key) (some e)) room)
  where
    room : lookup Text-discrete key (make_room c) ≡ (
        if leb max_ephemeral_size (length c)
        then ite
            (Text-discrete (victim c) [])
            (lookup Text-discrete key c)
            (ite (Text-discrete (victim c) key) none (lookup Text-discrete key c))
        else lookup Text-discrete key c)
    room = ground (arith, lookup-delete Text-discrete key (victim c) c)

-- ===== src/Report/Ephemeral/Retention.antt =====
-- How long a check stays in the cache.
use looking_glass.Common.{
  ℕ, suc, ◌+◌, ◌≤◌, ◌<◌, ◌≡◌, refl, ◌≢◌, subst, sym, ap, ◌∙◌, lookup-assign_self, List, [], ◌∷◌,
  some, arith, leb, if◌then◌else◌, Text, Text-discrete, length, All, assign, delete,
}
use looking_glass.Report.Ephemeral.{
  Ephemeral, Cache, ephemeral_ttl, max_ephemeral_size, victim, make_room, put, get, sweep,
}
use looking_glass.Report.Ephemeral.Bounds.{
  IsValid, Event, puts, sweeps, step, run, put-IsValid, sweep-IsValid, get-sweep, nonempty,
}
use looking_glass.Report.Ephemeral.Eviction.{NotOlder, victim-Found, get-put}

-- The entries that are no older than `t`.
newer : ℕ → Cache → ℕ
newer t [] = 0
newer t (e ∷ c) = if leb t e.1.created_at then suc (newer t c) else newer t c

newer-assign :
    (t : ℕ) (id : Text) (e : Ephemeral) (c : Cache)
    → newer t (assign Text-discrete id e c) ≤ newer t c + 1
unfolding newer assign
newer-assign t id e [] = ground arith
newer-assign t id e (x ∷ c) = ground (arith, newer-assign t id e c)

newer-delete : (t : ℕ) (id : Text) (c : Cache) → newer t (delete Text-discrete id c) ≤ newer t c
unfolding newer delete
newer-delete t id [] = omega arith
newer-delete t id (x ∷ c) = ground (arith, newer-delete t id c)

newer-sweep : (t now : ℕ) (c : Cache) → newer t (sweep now c) ≤ newer t c
unfolding newer sweep
newer-sweep t now [] = omega arith
newer-sweep t now (x ∷ c) = ground (arith, newer-sweep t now c)

newer_of_NotOlder : (t : ℕ) (c : Cache) → NotOlder t c → newer t c ≡ length c
unfolding newer
newer_of_NotOlder t [] h = refl
newer_of_NotOlder t (x ∷ c) h = ground (arith, newer_of_NotOlder t c h.1)

newer_of_older : (t : ℕ) (c : Cache) → All (λ x. x.1.created_at < t) c → newer t c ≡ 0
unfolding newer
newer_of_older t [] h = refl
newer_of_older t (x ∷ c) h = ground (arith, newer_of_older t c h.1)

newer-put : (t : ℕ) (id : Text) (e : Ephemeral) (c : Cache) → newer t (put c id e) ≤ newer t c + 1
unfolding put make_room
newer-put t id e c = ground (arith, newer-assign t id e (make_room c), newer-delete t (victim c) c)

-- With fewer than 2000 entries as new as the key's, the key's is not the oldest of a full cache.
victim_spares :
    (c : Cache) (key : Text) (e : Ephemeral)
    → IsValid c
    → get c key ≡ some e
    → newer e.created_at c < max_ephemeral_size
    → max_ephemeral_size ≤ length c
    → victim c ≢ key
unfolding get victim
victim_spares c key e v held few full p =
    let (f, least) = victim-Found c v.distinct (nonempty c full) in
    let same : f.entry ≡ e = cc (f.held, held) in
    let oldest : NotOlder e.created_at c =
      subst (λ t. NotOlder t c) (sym f.time ∙ ap (λ x. x.created_at) same) least in
    omega (arith, newer_of_NotOlder e.created_at c oldest)

put_spares :
    (c : Cache) (key id : Text) (e x : Ephemeral)
    → IsValid c
    → id ≢ key
    → get c key ≡ some e
    → newer e.created_at c < max_ephemeral_size
    → get (put c id x) key ≡ some e
put_spares c key id e x v other held few =
    ground (arith, get-put c id key x, victim_spares c key e v held few)

-- What may happen between: puts of checks that are no older, under other keys that are not empty,
-- and sweeps while the check is within its 30 minutes.
abbrev pub Meanwhile : Text → ℕ → List Event → Type 0
Meanwhile key t [] = Unit {0}
Meanwhile key t (puts id e ∷ xs) = (id ≢ key) × (id ≢ []) × (t ≤ e.created_at) × Meanwhile key t xs
Meanwhile key t (sweeps now ∷ xs) = (now ≤ t + ephemeral_ttl) × Meanwhile key t xs

abbrev pub count_puts : List Event → ℕ
count_puts [] = 0
count_puts (puts id e ∷ xs) = suc (count_puts xs)
count_puts (sweeps now ∷ xs) = count_puts xs

run_spares :
    (c : Cache) (key : Text) (e : Ephemeral) (xs : List Event)
    → IsValid c
    → get c key ≡ some e
    → newer e.created_at c + count_puts xs ≤ max_ephemeral_size
    → Meanwhile key e.created_at xs
    → get (run c xs) key ≡ some e
unfolding run step
run_spares c key e [] v held few m = held
run_spares c key e (puts id x ∷ xs) v held few m =
    run_spares (put c id x) key e xs (put-IsValid c id x m.1 v)
      (put_spares c key id e x v m.0 held (omega arith))
      (omega (arith, newer-put e.created_at id x c)) m.3
run_spares c key e (sweeps now ∷ xs) v held few m =
    run_spares (sweep now c) key e xs (sweep-IsValid now c v)
      (rw (get-sweep now c key v.distinct, held) (ground arith))
      (omega (arith, newer-sweep e.created_at now c)) m.1

-- A check that is put in a valid cache of older checks can still be read after up to 1999 further
-- puts of checks that are no older, under other keys, with sweeps at times up to 30 minutes after it
-- in between.
pub get-run-put :
    (c : Cache) (key : Text) (e : Ephemeral) (xs : List Event)
    → IsValid c
    → key ≢ []
    → All (λ x. x.1.created_at < e.created_at) c
    → Meanwhile key e.created_at xs
    → count_puts xs < max_ephemeral_size
    → get (run (put c key e) xs) key ≡ some e
unfolding put get
get-run-put c key e xs v n older m few =
    run_spares (put c key e) key e xs (put-IsValid c key e n v)
      (lookup-assign_self Text-discrete key e (make_room c))
      (omega (arith, newer-put e.created_at key e c, newer_of_older e.created_at c older)) m

-- ===== src/RateLimit/Cleanup.antt =====
-- The cleanup is not observable where a bucket refills within its 30 minutes.
use looking_glass.Common.{
  ℕ, ◌-◌, ◌*◌, ◌≤◌, ◌≡◌, refl, ◌≢◌, List, true, Option, none, some, arith, ap, Text, Text-discrete,
  lookup, lookup-assign_self, lookup-assign_ne, Distinct,
}
use looking_glass.RateLimit.{Entry, Limiter, idle_limit, allow_entry, allow, stale, cleanup}
use looking_glass.RateLimit.Window.{IsConfigured, Fits, after_cleanup, lookup-drop_stale}

elapsed_mono : (m n rate : ℕ) → m ≤ n → m * rate ≤ n * rate
elapsed_mono m n rate h = grind arith

-- A forgotten entry would have been full by now: the next call sees the same state either way.
allow_entry-after_cleanup :
    (l : Limiter) (t now : ℕ) (o : Option Entry)
    → IsConfigured l
    → t ≤ now
    → Fits l t o
    → allow_entry (cleanup l t) now (after_cleanup t o) ≡ allow_entry l now o
unfolding allow_entry stale cleanup
allow_entry-after_cleanup l t now none c h f = refl
allow_entry-after_cleanup l t now (some e) c h f =
    ground (arith, elapsed_mono idle_limit (now - e.last_check) l.rate)

allow_entry_after_wait :
    (l : Limiter) (t now : ℕ) (o : Option Entry)
    → IsConfigured l
    → Fits l t o
    → t ≤ now
    → l.scale ≤ (now - t) * l.rate
    → (allow_entry l now o).1 ≡ true
unfolding allow_entry
allow_entry_after_wait l t now none c f h w = refl
allow_entry_after_wait l t now (some e) c f h w =
    ground (arith, elapsed_mono (now - t) (now - e.last_check) l.rate)

-- With the bucket refilled within 30 minutes and the entry of the key in order, a cleanup before a
-- call of `Allow` changes neither its answer nor the entry that it leaves for the key.
pub allow-cleanup :
    (l : Limiter) (key : Text) (t now : ℕ)
    → IsConfigured l
    → Distinct Text-discrete l.entries
    → Fits l t (lookup Text-discrete key l.entries)
    → t ≤ now
    → ((allow (cleanup l t) key now).1 ≡ (allow l key now).1)
      × (lookup Text-discrete key (allow (cleanup l t) key now).0.entries
          ≡ lookup Text-discrete key (allow l key now).0.entries)
unfolding allow cleanup
allow-cleanup l key t now c d f h =
    let o = lookup Text-discrete key l.entries in
    let same = allow_entry-after_cleanup l t now o c h f in
    rw (lookup-drop_stale t key l.entries d) (
      ap (λ p. p.1) same,
      rw (lookup-assign_self Text-discrete key)
          (rw (lookup-assign_self Text-discrete key) (ap (λ p. some p.0) same)),
    )

pub allow_entry_of_entries :
    (l : Limiter) (m : List (Text × Entry)) (now : ℕ) (o : Option Entry)
    → allow_entry (record l { entries = m }) now o ≡ allow_entry l now o
unfolding allow_entry
allow_entry_of_entries l m now none = refl
allow_entry_of_entries l m now (some e) = refl

-- A call for one key neither reads nor writes what another key holds.
pub allow-other_key :
    (l : Limiter) (key other : Text) (now later : ℕ)
    → other ≢ key
    → (lookup Text-discrete other (allow l key now).0.entries
        ≡ lookup Text-discrete other l.entries)
      × ((allow (allow l key now).0 other later).1 ≡ (allow l other later).1)
unfolding allow
allow-other_key l key other now later h =
    let e = (allow_entry l now (lookup Text-discrete key l.entries)).0 in
    let kept = lookup-assign_ne Text-discrete other key e l.entries h in
    (
      kept,
      rw kept
          (ap (λ p. p.1) (allow_entry_of_entries l _ later (lookup Text-discrete other l.entries))),
    )

-- A key that has waited long enough to earn a token is served.
pub allow_after_wait :
    (l : Limiter) (key : Text) (t now : ℕ)
    → IsConfigured l
    → Fits l t (lookup Text-discrete key l.entries)
    → t ≤ now
    → l.scale ≤ (now - t) * l.rate
    → (allow l key now).1 ≡ true
unfolding allow
allow_after_wait l key t now c f h w = allow_entry_after_wait l t now _ c f h w

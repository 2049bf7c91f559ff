-- ===== src/RateLimit/Window.antt =====
-- What a key can be granted over a stretch of time, cleanups included.
use looking_glass.Common.{
  ℕ, ◌+◌, ◌-◌, ◌*◌, ◌≤◌, ◌≡◌, refl, List, [], ◌∷◌, Bool, true, false, Option, none, some, arith,
  min, ite, if◌then◌else◌, Text, Text-discrete, lookup, lookup-assign_self, lookup-assign_ne,
  assign-Distinct, Distinct, subst, sym, if_pos, if_neg,
}
use looking_glass.RateLimit.{
  Entry, Limiter, idle_limit, allow_entry, allow, stale, drop_stale, cleanup,
}

-- The burst is at least one token, and an idle stretch refills a whole bucket.
pub record IsConfigured (l : Limiter) : Type 0 where
  pub one : l.scale ≤ l.max_tok
  pub refills : l.max_tok ≤ idle_limit * l.rate

-- The entry of a key was last touched by `now` and owes nothing.
abbrev pub Fits : Limiter → ℕ → Option Entry → Type 0
Fits l now none = Unit {0}
Fits l now (some e) = (l.scale ≤ e.credit) × (e.last_check ≤ now)

-- What the key could spend at `now`, in units and with one token added.
abbrev pub worth : Limiter → ℕ → Option Entry → ℕ
worth l now none = l.max_tok + l.scale
worth l now (some e) = min (l.max_tok + l.scale) (e.credit + (now - e.last_check) * l.rate)

abbrev pub cost : Limiter → Bool → ℕ
cost l true = l.scale
cost l false = 0

elapsed_split :
    (last t u rate : ℕ) → last ≤ t → t ≤ u → (u - last) * rate ≡ (t - last) * rate + (u - t) * rate
elapsed_split last t u rate h k = grind arith

-- A call pays for its grant out of what the key is worth.
pub allow_entry_pays :
    (l : Limiter) (t u : ℕ) (o : Option Entry)
    → IsConfigured l
    → t ≤ u
    → Fits l t o
    → Fits l u (some (allow_entry l u o).0)
      × (cost l (allow_entry l u o).1 + worth l u (some (allow_entry l u o).0)
          ≤ worth l t o + (u - t) * l.rate)
unfolding allow_entry
allow_entry_pays l t u none c h f = ground arith
allow_entry_pays l t u (some e) c h f = ground (arith, elapsed_split e.last_check t u l.rate f.1 h)

lookup-drop_stale-none :
    (now : ℕ) (k : Text) (m : List (Text × Entry))
    → lookup Text-discrete k m ≡ none
    → lookup Text-discrete k (drop_stale now m) ≡ none
unfolding lookup drop_stale
lookup-drop_stale-none now k [] h = refl
lookup-drop_stale-none now k (e ∷ m) h = ground (arith, lookup-drop_stale-none now k m)

abbrev pub after_cleanup : ℕ → Option Entry → Option Entry
after_cleanup now none = none
after_cleanup now (some e) = if stale now e then none else some e

-- A cleanup forgets the stale entry of a key and keeps any other.
pub lookup-drop_stale :
    (now : ℕ) (k : Text) (m : List (Text × Entry))
    → Distinct Text-discrete m
    → lookup Text-discrete k (drop_stale now m) ≡ after_cleanup now (lookup Text-discrete k m)
unfolding lookup drop_stale
lookup-drop_stale now k [] h = refl
lookup-drop_stale now k (e ∷ m) h =
    ground (arith, lookup-drop_stale now k m h.1, lookup-drop_stale-none now k m)

pub drop_stale-Distinct :
    (now : ℕ) (m : List (Text × Entry))
    → Distinct Text-discrete m
    → Distinct Text-discrete (drop_stale now m)
unfolding drop_stale
drop_stale-Distinct now [] h = tt
drop_stale-Distinct now (e ∷ m) h =
    ground (arith, drop_stale-Distinct now m h.1, lookup-drop_stale-none now e.0 m)

after_cleanup_pays :
    (l : Limiter) (t u : ℕ) (o : Option Entry)
    → IsConfigured l
    → t ≤ u
    → Fits l t o
    → Fits l u (after_cleanup u o)
      × (worth l u (after_cleanup u o) ≤ worth l t o + (u - t) * l.rate)
unfolding stale
after_cleanup_pays l t u none c h f = ground arith
after_cleanup_pays l t u (some e) c h f =
    ground (arith, elapsed_split e.last_check t u l.rate f.1 h, stale_refills (u - e.last_check))
  where
    stale_refills : (n : ℕ) → idle_limit ≤ n → idle_limit * l.rate ≤ n * l.rate
    stale_refills n k = grind arith

pub data Event : Type 0 where
  allows : Text → Event
  cleans : Event

-- Times do not fall.
abbrev pub Ordered : ℕ → List (ℕ × Event) → Type 0
Ordered t [] = Unit {0}
Ordered t (x ∷ r) = (t ≤ x.0) × Ordered x.0 r

abbrev pub end_time : ℕ → List (ℕ × Event) → ℕ
end_time t [] = t
end_time t (x ∷ r) = end_time x.0 r

abbrev pub tally : Bool → ℕ
tally true = 1
tally false = 0

-- How often a history grants the key a request.
unfoldable pub grants : Limiter → Text → List (ℕ × Event) → ℕ
grants l key [] = 0
grants l key ((u, allows k) ∷ r) =
    let after = allow l k u in
    let rest = grants after.0 key r in ite (Text-discrete k key) (tally after.1 + rest) rest
grants l key ((u, cleans) ∷ r) = grants (cleanup l u) key r

-- A limiter between two events, seen from one key.
record Holds (l : Limiter) (t : ℕ) (key : Text) : Type 0 where
  configured : IsConfigured l
  distinct : Distinct Text-discrete l.entries
  fits : Fits l t (lookup Text-discrete key l.entries)

abbrev worth_of : Limiter → ℕ → Text → ℕ
worth_of l t key = worth l t (lookup Text-discrete key l.entries)

waiting_pays :
    (l : Limiter) (t u : ℕ) (o : Option Entry)
    → t ≤ u
    → Fits l t o
    → Fits l u o × (worth l u o ≤ worth l t o + (u - t) * l.rate)
waiting_pays l t u none h f = ground arith
waiting_pays l t u (some e) h f = ground (arith, elapsed_split e.last_check t u l.rate f.1 h)

paid : Limiter → Text → Text → Bool → ℕ
paid l k key b = ite (Text-discrete k key) (cost l b) 0

-- The limiter with other entries, at what they hold for the key.
Holds-of_lookup :
    (l : Limiter) (m : List (Text × Entry)) (u : ℕ) (key : Text) (o : Option Entry) (n bound : ℕ)
    → lookup Text-discrete key m ≡ o
    → IsConfigured l
    → Distinct Text-discrete m
    → Fits l u o × (n + worth l u o ≤ bound)
    → Holds (record l { entries = m }) u key
      × (n + worth_of (record l { entries = m }) u key ≤ bound)
Holds-of_lookup l m u key o n bound e c d f = (
  record {
    configured = record { one = c.one; refills = c.refills };
    distinct = d;
    fits = subst (Fits l u) (sym e) f.0;
  },
  subst (λ x. n + worth l u x ≤ bound) (sym e) f.1,
)

allow-Holds_self :
    (l : Limiter) (t u : ℕ) (key : Text)
    → t ≤ u
    → Holds l t key
    → Holds (allow l key u).0 u key
      × (cost l (allow l key u).1 + worth_of (allow l key u).0 u key
          ≤ worth_of l t key + (u - t) * l.rate)
unfolding allow
allow-Holds_self l t u key h v =
    let o = lookup Text-discrete key l.entries in
    let e = (allow_entry l u o).0 in
    Holds-of_lookup l _ u key (some e) (cost l (allow_entry l u o).1) _
      (lookup-assign_self Text-discrete key e l.entries) v.configured
      (assign-Distinct Text-discrete key e l.entries v.distinct)
      (allow_entry_pays l t u o v.configured h v.fits)

allow-Holds :
    (l : Limiter) (t u : ℕ) (k key : Text)
    → t ≤ u
    → Holds l t key
    → Holds (allow l k u).0 u key
      × (paid l k key (allow l k u).1 + worth_of (allow l k u).0 u key
          ≤ worth_of l t key + (u - t) * l.rate)
unfolding paid
allow-Holds l t u k key h v = elim (Text-discrete k key) [
  | yes p ↦ rw (if_pos _ p, p) (allow-Holds_self l t u key h v)
  | no p ↦ rw (if_neg _ p) (other p)
]
  where
    other :
        ¬ (k ≡ key)
        → Holds (allow l k u).0 u key
          × (0 + worth_of (allow l k u).0 u key ≤ worth_of l t key + (u - t) * l.rate)
    other p =
        unfold allow in
        let o = lookup Text-discrete key l.entries in
        let e = (allow_entry l u (lookup Text-discrete k l.entries)).0 in
        let w = waiting_pays l t u o h v.fits in
        Holds-of_lookup l _ u key o 0 _
          (lookup-assign_ne Text-discrete key k e l.entries (λ q. p (sym q))) v.configured
          (assign-Distinct Text-discrete k e l.entries v.distinct) (w.0, omega arith)

cleanup-Holds :
    (l : Limiter) (t u : ℕ) (key : Text)
    → t ≤ u
    → Holds l t key
    → Holds (cleanup l u) u key
      × (0 + worth_of (cleanup l u) u key ≤ worth_of l t key + (u - t) * l.rate)
unfolding cleanup
cleanup-Holds l t u key h v =
    let o = lookup Text-discrete key l.entries in
    let w = after_cleanup_pays l t u o v.configured h v.fits in
    Holds-of_lookup l _ u key (after_cleanup u o) 0 _ (lookup-drop_stale u key l.entries v.distinct)
      v.configured (drop_stale-Distinct u l.entries v.distinct) (w.0, omega arith)

end_time-ge : (t : ℕ) (xs : List (ℕ × Event)) → Ordered t xs → t ≤ end_time t xs
end_time-ge t [] h = omega arith
end_time-ge t (x ∷ r) h = omega (arith, end_time-ge x.0 r h.1)

worth_of-ge : (l : Limiter) (t : ℕ) (o : Option Entry) → Fits l t o → l.scale ≤ worth l t o
worth_of-ge l t none f = omega arith
worth_of-ge l t (some e) f = omega arith

scale-tally : (l : Limiter) (b : Bool) (n : ℕ) → l.scale * (tally b + n) ≡ cost l b + l.scale * n
scale-tally l true n = omega arith
scale-tally l false n = omega arith

scale-paid :
    (l : Limiter) (k key : Text) (b : Bool) (n : ℕ)
    → l.scale * ite (Text-discrete k key) (tally b + n) n ≡ paid l k key b + l.scale * n
unfolding paid
scale-paid l k key b n = elim (Text-discrete k key) [
  | yes p ↦ rw (if_pos _ p, if_pos _ p) (scale-tally l b n)
  | no p ↦ rw (if_neg _ p, if_neg _ p) (omega arith)
]

-- A grant costs one token of what the key was worth at the start and has earned since.
grants_paid :
    (l : Limiter) (t : ℕ) (key : Text) (xs : List (ℕ × Event))
    → Holds l t key
    → Ordered t xs
    → l.scale * grants l key xs + l.scale ≤ worth_of l t key + (end_time t xs - t) * l.rate
unfolding grants allow cleanup
grants_paid l t key [] v h =
    omega (arith, worth_of-ge l t (lookup Text-discrete key l.entries) v.fits)
grants_paid l t key ((u, allows k) ∷ r) v h =
    let step = allow-Holds l t u k key h.0 v in
    let ih = grants_paid (allow l k u).0 u key r step.0 h.1 in
    let split = elapsed_split t u (end_time u r) l.rate h.0 (end_time-ge u r h.1) in
    let spent = scale-paid l k key (allow l k u).1 (grants (allow l k u).0 key r) in
    rw spent (omega (arith, ih, step.1, split))
grants_paid l t key ((u, cleans) ∷ r) v h =
    let step = cleanup-Holds l t u key h.0 v in
    let ih = grants_paid (cleanup l u) u key r step.0 h.1 in
    let split = elapsed_split t u (end_time u r) l.rate h.0 (end_time-ge u r h.1) in
    omega (arith, ih, step.1, split)

new-Holds : (l : Limiter) (t : ℕ) (key : Text) → l.entries ≡ [] → IsConfigured l → Holds l t key
unfolding lookup
new-Holds l t key e c =
    let empty : lookup Text-discrete key l.entries ≡ none = rw e in
    record {
      configured = c;
      distinct = subst (Distinct Text-discrete) (sym e) tt;
      fits = subst (Fits l t) (sym empty) tt;
    }

-- Whatever calls and cleanups follow one another from `t` on, in the order of time, a new limiter
-- with a burst of at least one token, which it refills within the 30 minutes after which the
-- cleanup forgets a key, grants a key no more tokens than the burst and what the key earns at the
-- rate in that time.
pub grants-le :
    (l : Limiter) (t : ℕ) (key : Text) (xs : List (ℕ × Event))
    → l.entries ≡ []
    → IsConfigured l
    → Ordered t xs
    → l.scale * grants l key xs ≤ l.max_tok + (end_time t xs - t) * l.rate
unfolding lookup
grants-le l t key xs e c h =
    let empty : lookup Text-discrete key l.entries ≡ none = rw e in
    let full : worth_of l t key ≡ l.max_tok + l.scale = rw empty in
    omega (arith, grants_paid l t key xs (new-Holds l t key e c) h, full)

-- ===== src/RateLimit/Burst.antt =====
-- Calls that come at once: the burst, and no more.
use looking_glass.Common.{
  ℕ, zero, suc, ◌+◌, ◌*◌, ◌-◌, ◌<◌, ◌≤◌, ◌≡◌, refl, List, true, false, Option, none, some, arith,
  min, ◌∙◌, Text, Text-discrete, lookup, lookup-assign_self, assign,
}
use looking_glass.RateLimit.{Entry, Limiter, allow_entry, allow, fresh}
use looking_glass.RateLimit.Cleanup.{allow_entry_of_entries}
use looking_glass.RateLimit.Window.{tally}

-- The grants among `n` calls for a key at one moment.
pub granted_at : Limiter → Text → ℕ → ℕ → ℕ
granted_at l key now zero = 0
granted_at l key now (suc n) =
    let after = allow l key now in tally after.1 + granted_at after.0 key now n

granted_entry : Limiter → ℕ → Option Entry → ℕ → ℕ
granted_entry l now o zero = 0
granted_entry l now o (suc n) =
    let after = allow_entry l now o in tally after.1 + granted_entry l now (some after.0) n

-- An entry that was just checked and holds `held` units with one token added.
abbrev holding : ℕ → ℕ → Entry
holding now held = record { credit = held; last_check = now }

no_time : (now rate : ℕ) → (now - now) * rate ≡ 0
no_time now rate = grind arith

allow_entry_granted :
    (l : Limiter) (now held : ℕ)
    → 2 * l.scale ≤ held
    → held ≤ l.max_tok + l.scale
    → allow_entry l now (some (holding now held)) ≡ (holding now (held - l.scale), true)
unfolding allow_entry
allow_entry_granted l now held s m = ground (arith, no_time now l.rate)

allow_entry_refused :
    (l : Limiter) (now held : ℕ)
    → held < 2 * l.scale
    → held ≤ l.max_tok + l.scale
    → allow_entry l now (some (holding now held)) ≡ (holding now held, false)
unfolding allow_entry
allow_entry_refused l now held s m = ground (arith, no_time now l.rate)

granted_entry_refused :
    (l : Limiter) (now n held : ℕ)
    → held < 2 * l.scale
    → held ≤ l.max_tok + l.scale
    → granted_entry l now (some (holding now held)) n ≡ 0
unfolding granted_entry
granted_entry_refused l now zero held s m = refl
granted_entry_refused l now (suc n) held s m =
    rw (allow_entry_refused l now held s m) (omega (arith, granted_entry_refused l now n held s m))

granted_entry_spends :
    (l : Limiter) (now left n held : ℕ)
    → 0 < l.scale
    → held ≡ left * l.scale + l.scale
    → held ≤ l.max_tok + l.scale
    → granted_entry l now (some (holding now held)) n ≡ min n left
unfolding granted_entry
granted_entry_spends l now left zero held s e m = omega arith
granted_entry_spends l now zero (suc n) held s e m =
    omega (arith, granted_entry_refused l now (suc n) held (omega arith) m)
granted_entry_spends l now (suc left) (suc n) held s e m =
    rw (allow_entry_granted l now held (grind arith) m) (
      omega
        (arith, granted_entry_spends l now left n (held - l.scale) s (omega arith) (omega arith)))

granted_entry_of_entries :
    (l : Limiter) (m : List (Text × Entry)) (now n : ℕ) (o : Option Entry)
    → granted_entry (record l { entries = m }) now o n ≡ granted_entry l now o n
unfolding granted_entry
granted_entry_of_entries l m now zero o = refl
granted_entry_of_entries l m now (suc n) o =
    rw (allow_entry_of_entries l m now o, granted_entry_of_entries l m now n)

granted_at-entry :
    (l : Limiter) (key : Text) (now n : ℕ)
    → granted_at l key now n ≡ granted_entry l now (lookup Text-discrete key l.entries) n
unfolding granted_at granted_entry allow
granted_at-entry l key now zero = refl
granted_at-entry l key now (suc n) =
    let e = (allow_entry l now (lookup Text-discrete key l.entries)).0 in
    let m = assign Text-discrete key e l.entries in
    rw (
      granted_at-entry (record l { entries = m }) key now n,
      lookup-assign_self Text-discrete key e l.entries,
      granted_entry_of_entries l m now n,
    )

mul_pred : (b s : ℕ) → 0 < b → b * s ≡ (b - 1) * s + s
mul_pred zero s h = absurd (omega arith)
mul_pred (suc b) s h = let e : suc b - 1 ≡ b = omega arith in rw e (omega arith)

-- Of `n` calls at one moment for a key that a limiter does not know yet, a burst of whole tokens
-- serves as many as it has tokens, and refuses the rest.
pub granted_at-min :
    (l : Limiter) (key : Text) (now n burst : ℕ)
    → 0 < l.scale
    → 0 < burst
    → l.max_tok ≡ burst * l.scale
    → lookup Text-discrete key l.entries ≡ none
    → granted_at l key now n ≡ min n burst
granted_at-min l key now n burst s b m e = rw (granted_at-entry l key now n, e) (unknown n)
  where
    unknown : (n : ℕ) → granted_entry l now none n ≡ min n burst
    unknown zero = unfold granted_entry in omega arith
    unknown (suc n) =
        unfold granted_entry allow_entry fresh in
        omega (
          arith,
          granted_entry_spends l now (burst - 1) n l.max_tok s (m ∙ mul_pred burst l.scale b)
              (omega arith),
        )

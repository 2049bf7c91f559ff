-- ===== src/Report/Store/Slots.antt =====
-- Concurrent promotions and sweeps, as the steps of `Promote` and `sweepLoop` on the shared counter.
-- The counter is `ups - downs`, which may fall below zero. A sweep that runs while promotions are
-- between their reservation and the end of their writes does not see those.
use looking_glass.Common.{ℕ, zero, suc, ◌+◌, ◌-◌, ◌≤◌, ◌<◌, ◌≡◌, arith, subst}
use looking_glass.Report.Store.{max_active_total}

pub record Slots : Type 0 where
  pub ups : ℕ
  pub downs : ℕ
  pub pending : ℕ
  pub stored : ℕ

-- `Sweeps s`: a sweep may run in the state `s`.
pub data Step (Sweeps : Slots → Type 0) (s : Slots) : Slots → Type 0 where
  reserve :
      s.ups < max_active_total + s.downs
      → Step Sweeps s (record s { ups = s.ups + 1; pending = s.pending + 1 })
  place :
      0 < s.pending → Step Sweeps s (record s { pending = s.pending - 1; stored = s.stored + 1 })
  fail : 0 < s.pending → Step Sweeps s (record s { pending = s.pending - 1; downs = s.downs + 1 })
  tick :
      (live : ℕ)
      → live ≤ s.stored
      → Sweeps s
      → Step Sweeps s (record s { ups = live; downs = 0; stored = live })

pub data Reach (Sweeps : Slots → Type 0) (s : Slots) : Slots → Type 0 where
  here : Reach Sweeps s s
  next : {t u : Slots} → Reach Sweeps s t → Step Sweeps t u → Reach Sweeps s u

-- The store that `NewStore` makes over a directory with `n` active reports.
abbrev pub started : ℕ → Slots
started n = record { ups = n; downs = 0; pending = 0; stored = n }

abbrev pub Idle : Slots → Type 0
Idle s = s.pending ≡ 0

abbrev pub Always : Slots → Type 0
Always s = Unit {0}

record Counted (s : Slots) : Type 0 where
  balance : s.ups ≡ s.downs + s.pending + s.stored
  bounded : s.pending + s.stored ≤ max_active_total

Step-Counted : {s t : Slots} → Step Idle s t → Counted s → Counted t
Step-Counted (reserve h) c = record { balance = omega arith; bounded = omega arith }
Step-Counted (place h) c = record { balance = omega arith; bounded = omega arith }
Step-Counted (fail h) c = record { balance = omega arith; bounded = omega arith }
Step-Counted (tick live h i) c = record { balance = omega arith; bounded = omega arith }

Reach-Counted : {s t : Slots} → Reach Idle s t → Counted s → Counted t
Reach-Counted here c = c
Reach-Counted (next r st) c = Step-Counted st (Reach-Counted r c)

-- From a directory with at most 2000 active reports, promotions that interleave in any way keep the
-- reports and the reserved slots together within the cap, if no sweep runs while a promotion is
-- under way.
pub Reach-bounded :
    (n : ℕ) {s : Slots}
    → n ≤ max_active_total
    → Reach Idle (started n) s
    → s.pending + s.stored ≤ max_active_total
Reach-bounded n h r =
    (Reach-Counted r (record { balance = omega arith; bounded = omega arith })).bounded

-- Between two sweeps: the counter at 0, promotions under way, and reports.
abbrev between : ℕ → ℕ → Slots
between m k = record { ups = 0; downs = 0; pending = m; stored = k }

reserve_many : (m : ℕ) → Reach Always (started 0) (between m 0)
reserve_many zero = here
reserve_many (suc m) =
    let e : m + 1 ≡ suc m = omega arith in
    subst (λ p. Reach Always (started 0) (between p 0)) e
      (next (next (reserve_many m) (reserve (omega arith))) (tick 0 (omega arith) tt))

place_many :
    (m k : ℕ)
    → Reach Always (started 0) (between m k)
    → Reach Always (started 0) (between 0 (m + k))
place_many zero k r =
    let e : k ≡ 0 + k = omega arith in subst (λ n. Reach Always (started 0) (between 0 n)) e r
place_many (suc m) k r =
    let e : m + (k + 1) ≡ suc m + k = omega arith in
    let p : suc m - 1 ≡ m = omega arith in
    subst (λ n. Reach Always (started 0) (between 0 n)) e
      (place_many m (k + 1) (
        subst (λ n. Reach Always (started 0) (between n (k + 1))) p (next r (place (omega arith)))))

-- Where sweeps may run at any time, they forget reserved slots: every number of reports can come to
-- be stored, however far above the cap.
pub Reach-unbounded : (n : ℕ) → (s : Slots) × Reach Always (started 0) s × (s.stored ≡ n)
Reach-unbounded n = (between 0 (n + 0), place_many n 0 (reserve_many n), omega arith)

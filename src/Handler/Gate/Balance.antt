-- ===== src/Handler/Gate/Balance.antt =====
-- Handlers give back the slots that they take, on every path.
use looking_glass.Common.{
  ℕ, ◌≡◌, refl, ◌∙◌, Bool, true, false, Option, none, some, arith, leb, ite, if◌then◌else◌, Text,
  Text-discrete, lookup, lookup-assign, Bool-cases, inl, inr, if_pos, if_neg, subst,
}
use looking_glass.Handler.{Request, Slot, Sem, is_busy, acquire_ip, emptied, release_ip}
use looking_glass.Validator.{Fault, Checked, ok, err, validate_target, validate_not_private}
use looking_glass.Handler.Gate.{
  Env, refuse_if, unless_fault, require, require_target, require_public, require_rate,
  require_flusher, respond, Outcome, go, stop, Action, ◌>>=◌, take_slot, with_semaphore,
  if_acquired, with_ip,
}
use looking_glass.Handler.State.{State, Response, max_probes}

abbrev pub is_taken : Sem → Text → Bool
is_taken sem ip = is_busy (lookup Text-discrete ip sem)

-- As many probes under way after as before, of the same clients.
pub record Balanced (s t : State) : Type 0 where
  pub probes : t.semaphore ≡ s.semaphore
  pub clients : (ip : Text) → is_taken t.ip_sem ip ≡ is_taken s.ip_sem ip

-- An action after which the slots are as before.
pub record Balances {R A : Type 0} (m : Action R A) : Type 0 where
  pub at : (s : State) → Balanced s (m s).1

pub Balanced-refl : (s : State) → Balanced s s
Balanced-refl s = record { probes = refl; clients = λ ip. refl }

pub Balanced-trans : {s t u : State} → Balanced s t → Balanced t u → Balanced s u
Balanced-trans p q = record {
  probes = q.probes ∙ p.probes;
  clients = λ ip. q.clients ip ∙ p.clients ip;
}

pub acquired-taken :
    (sem : Sem) (ip other : Text) (now : ℕ)
    → is_taken (acquire_ip sem ip now).0 other
      ≡ ite (Text-discrete ip other) true (is_taken sem other)
unfolding acquire_ip
acquired-taken sem ip other now =
    ground (arith, lookup-assign Text-discrete other ip (record { busy = true; last = now }) sem)

pub released-taken :
    (sem : Sem) (ip other : Text)
    → is_taken (release_ip sem ip) other ≡ ite (Text-discrete ip other) false (is_taken sem other)
unfolding release_ip
released-taken sem ip other = by_slot (lookup Text-discrete ip sem) refl
  where
    by_slot :
        (o : Option Slot)
        → lookup Text-discrete ip sem ≡ o
        → is_busy (lookup Text-discrete other (emptied ip o sem))
          ≡ ite (Text-discrete ip other) false (is_busy (lookup Text-discrete other sem))
    by_slot none e = elim (Text-discrete ip other) [
      | yes p ↦
          rw (if_pos (Text-discrete ip other) p) (subst (λ k. is_taken sem k ≡ false) p (rw e refl))
      | no n ↦ rw (if_neg (Text-discrete ip other) n) refl
    ]
    by_slot (some slot) e =
        ground (arith, lookup-assign Text-discrete other ip (record slot { busy = false }) sem)

pub acquired-free :
    (sem : Sem) (ip : Text) (now : ℕ)
    → (acquire_ip sem ip now).1 ≡ (if is_taken sem ip then false else true)
unfolding acquire_ip
acquired-free sem ip now = refl

module _ {R : Type 0} where
  bind_outcome :
      {A B : Type 0} (r : Outcome R A) (s t : State) (f : A → Action R B)
      → Balanced s t
      → ((a : A) → Balances (f a))
      → Balanced s (elim r as (λ x. Outcome R B × State) [ go a ↦ f a t | stop x ↦ (stop x, t) ]).1
  bind_outcome (go a) s t f p h = Balanced-trans p ((h a).at t)
  bind_outcome (stop x) s t f p h = p

  pub >>=-Balances :
      {A B : Type 0} (m : Action R A) (f : A → Action R B)
      → Balances m
      → ((a : A) → Balances (f a))
      → Balances (m >>= f)
  >>=-Balances m f p h = record { at = λ s. bind_outcome (m s).0 s (m s).1 f (p.at s) h }

  module _ {A : Type 0} where
    pub with_semaphore-Balances :
        (x : Response R) (m : Action R A) → Balances m → Balances (with_semaphore x m)
    unfolding with_semaphore
    with_semaphore-Balances x m h = record {
      at = λ s. elim (Bool-cases (leb max_probes s.semaphore)) [
        | inl full ↦ rw full (Balanced-refl s)
        | inr room ↦
            let b = h.at (take_slot s) in
            rw room (record { probes = omega (arith, b.probes); clients = b.clients })
      ];
    }

    pub with_ip-Balances :
        (ip : Text) (now : ℕ) (x : Response R) (m : Action R A)
        → Balances m
        → Balances (with_ip ip now x m)
    unfolding with_ip
    with_ip-Balances ip now x m h = record {
      at = λ s. by_grant s (acquire_ip s.ip_sem ip now).1 refl;
    }
      where
        t : State → State
        t s = record s { ip_sem = (acquire_ip s.ip_sem ip now).0 }

        by_grant :
            (s : State) (granted : Bool)
            → (acquire_ip s.ip_sem ip now).1 ≡ granted
            → Balanced s (if_acquired ip x m granted (t s)).1
        by_grant s true e = record {
          probes = (h.at (t s)).probes;
          clients = λ other. ground (
            arith,
            released-taken (m (t s)).1.ip_sem ip other,
            (h.at (t s)).clients other,
            acquired-taken s.ip_sem ip other now,
            acquired-free s.ip_sem ip now,
            e,
          );
        }
        by_grant s false e = record {
          probes = refl;
          clients = λ other.
              ground
                (arith, acquired-taken s.ip_sem ip other now, acquired-free s.ip_sem ip now, e);
        }

-- The guards take no slots.
module _ (R : Type 0) where
  refuse_if-Balances : (o : Option Fault) → Balances (refuse_if {R = R} o)
  refuse_if-Balances none = record { at = Balanced-refl }
  refuse_if-Balances (some f) = record { at = Balanced-refl }

  pub require-Balances : (b : Bool) (msg : Text) → Balances (require {R = R} b msg)
  require-Balances true msg = record { at = Balanced-refl }
  require-Balances false msg = record { at = Balanced-refl }

  unless_fault-Balances : {A : Type 0} (c : Checked A) → Balances (unless_fault {R = R} c)
  unless_fault-Balances (ok a) = record { at = Balanced-refl }
  unless_fault-Balances (err f) = record { at = Balanced-refl }

  pub require_target-Balances :
      (env : Env) (target : Text) → Balances (require_target {R = R} env target)
  unfolding require_target
  require_target-Balances env target =
      refuse_if-Balances (validate_target env.network.parsers target)

  pub require_public-Balances :
      (env : Env) (target : Text) → Balances (require_public {R = R} env target)
  unfolding require_public
  require_public-Balances env target =
      unless_fault-Balances (validate_not_private env.network target)

  pub require_rate-Balances :
      (env : Env) (r : Request) (now : ℕ) → Balances (require_rate {R = R} env r now)
  unfolding require_rate
  require_rate-Balances env r now = record {
    at = λ s. record { probes = refl; clients = λ ip. refl };
  }

  pub require_flusher-Balances : (flusher : Bool) → Balances (require_flusher {R = R} flusher)
  unfolding require_flusher
  require_flusher-Balances flusher = record { at = Balanced-refl }

pub respond-Balanced :
    {R : Type 0} (s : State) (r : Outcome R (Response R) × State)
    → Balanced s r.1
    → Balanced s (respond r).1
respond-Balanced s (go x, t) h = h
respond-Balanced s (stop x, t) h = h

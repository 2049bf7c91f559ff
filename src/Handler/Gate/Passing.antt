-- ===== src/Handler/Gate/Passing.antt =====
-- Guards that let a request through.
use looking_glass.Common.{ℕ, ◌≡◌, refl, ap, Bool, true, Option, none, Text}
use looking_glass.RateLimit.{allow}
use looking_glass.Validator.{Fault, Checked, ok}
use looking_glass.Handler.{Request, client_ip}
use looking_glass.Handler.Gate.{
  Env, Outcome, go, stop, Action, ◌>>=◌, refuse_if, unless_fault, require, require_rate,
}
use looking_glass.Handler.State.{State}

-- The state with the limiter after a call.
abbrev pub counted : Env → Request → ℕ → State → State
counted env r now s = record s { rl = (allow s.rl (client_ip env.client r) now).0 }

module _ {R : Type 0} where
  pub >>=-go :
      {A B : Type 0} (m : Action R A) (f : A → Action R B) (s t : State) (a : A)
      → m s ≡ (go a, t)
      → (m >>= f) s ≡ f a t
  >>=-go {A} {B} m f s t a h =
      ap (λ p. elim p.0 as (λ x. Outcome R B × State) [ go x ↦ f x p.1 | stop x ↦ (stop x, p.1) ]) h

pub require-go :
    (R : Type 0) (b : Bool) (msg : Text) (s : State)
    → b ≡ true
    → require {R = R} b msg s ≡ (go tt, s)
require-go R b msg s h = rw h refl

pub refuse_if-none :
    (R : Type 0) (o : Option Fault) (s : State) → o ≡ none → refuse_if {R = R} o s ≡ (go tt, s)
refuse_if-none R o s h = rw h refl

pub require_rate-go :
    (R : Type 0) (env : Env) (r : Request) (now : ℕ) (s : State)
    → (allow s.rl (client_ip env.client r) now).1 ≡ true
    → require_rate {R = R} env r now s ≡ (go tt, counted env r now s)
unfolding require_rate
require_rate-go R env r now s h = rw h refl

pub unless_fault-ok :
    (R : Type 0) {A : Type 0} (c : Checked A) (a : A) (s : State)
    → c ≡ ok a
    → unless_fault {R = R} c s ≡ (go a, s)
unless_fault-ok R c a s h = ap (λ x. unless_fault {R = R} x s) h

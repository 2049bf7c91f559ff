-- ===== src/Handler/Gate/Agree.antt =====
-- Actions that come to the same.
use mathlib.Core.Path.{fun_ext}
use looking_glass.Common.{ℕ, ◌≡◌, refl, ap, Bool, true, false, Option, none, some, Text}
use looking_glass.Validator.{Fault, Checked, ok, err}
use looking_glass.Handler.Gate.{
  Outcome, go, stop, Action, ◌>>=◌, refuse_if, require, unless_fault, with_semaphore, with_ip,
}
use looking_glass.Handler.State.{State, Response}

pub record Agree {R A : Type 0} (m n : Action R A) : Type 0 where
  pub at : (s : State) → m s ≡ n s

module _ {R : Type 0} where
  agree_after :
      {A B : Type 0} (r r' : Outcome R A) (t : State) (f g : A → Action R B)
      → r ≡ r'
      → ((a : A) → r' ≡ go a → Agree (f a) (g a))
      → ◌≡◌ {A = Outcome R B × State}
          (elim r as (λ x. Outcome R B × State) [ go a ↦ f a t | stop x ↦ (stop x, t) ])
          (elim r as (λ x. Outcome R B × State) [ go a ↦ g a t | stop x ↦ (stop x, t) ])
  agree_after r (go a) t f g e h = rw e ((h a refl).at t)
  agree_after r (stop x) t f g e h = rw e refl

  -- The same action, and then what agrees on all that it can go on with.
  pub >>=-Agree :
      {A B : Type 0} (m : Action R A) (f g : A → Action R B)
      → ((s : State) (a : A) → (m s).0 ≡ go a → Agree (f a) (g a))
      → Agree (m >>= f) (m >>= g)
  >>=-Agree m f g h = record { at = λ s. agree_after (m s).0 (m s).0 (m s).1 f g refl (h s) }

  module _ {A : Type 0} where
    pub with_semaphore-Agree :
        (x : Response R) (m n : Action R A)
        → Agree m n
        → Agree (with_semaphore x m) (with_semaphore x n)
    with_semaphore-Agree x m n h = record {
      at = λ s. ap (λ k. with_semaphore x k s) (fun_ext h.at);
    }

    pub with_ip-Agree :
        (ip : Text) (now : ℕ) (x : Response R) (m n : Action R A)
        → Agree m n
        → Agree (with_ip ip now x m) (with_ip ip now x n)
    with_ip-Agree ip now x m n h = record {
      at = λ s. ap (λ k. with_ip ip now x k s) (fun_ext h.at);
    }

pub refuse_if-go :
    (R : Type 0) (o : Option Fault) (u : Unit {0}) (s : State)
    → (refuse_if {R = R} o s).0 ≡ go u
    → o ≡ none
refuse_if-go R none u s h = refl
refuse_if-go R (some f) u s h = cc h

pub unless_fault-go :
    (R : Type 0) {A : Type 0} (c : Checked A) (a : A) (s : State)
    → (unless_fault {R = R} c s).0 ≡ go a
    → c ≡ ok a
unless_fault-go R (ok x) a s h = cc h
unless_fault-go R (err f) a s h = cc h

pub require-if_go :
    (R : Type 0) (b : Bool) (msg : Text) (u : Unit {0}) (s : State)
    → (require {R = R} b msg s).0 ≡ go u
    → b ≡ true
require-if_go R true msg u s h = refl
require-if_go R false msg u s h = cc h

-- ===== src/Handler/Running/Accounts.antt =====
-- What the semaphore and the slots of the clients say of the checks under way.
use looking_glass.Common.{
  ℕ, ◌+◌, ◌≤◌, ◌≡◌, refl, ap, sym, ◌∙◌, List, [], ◌∷◌, ◌++◌, Bool, true, false, Option, none, some,
  arith, if◌then◌else◌, Text, Text-discrete, length, length-append, lookup, suc, Distinct, delete,
  assign-Distinct, lookup-assign, lookup-delete, delete-Distinct,
}
use looking_glass.Handler.{Slot, Sem, emptied, release_ip}
use looking_glass.Handler.Gate.Balance.{is_taken, released-taken}
use looking_glass.Handler.State.{max_probes}
use looking_glass.Handler.Running.{
  Phase, has_place, looked_up, stamped, checking, leaving, Thread, Server, new_slot, stored, stamp,
  send, phase_after, one, checks, holds, holding, thread, Step, enters, looks_up, stamps, sends,
  finishes, leaves, deletes, Reachable, started, stepped,
}

abbrev pub weight : Bool → ℕ
weight b = if b then 1 else 0

-- The semaphore counts the requests, of which there are at most 30, and a client's slot is taken
-- just if a check of the client is under way.
pub record Accounted (s : Server) : Type 0 where
  pub counted : s.semaphore ≡ length s.threads
  pub bounded : s.semaphore ≤ max_probes
  pub proper : Distinct Text-discrete s.ip_sem
  pub owned : (ip : Text) → checks ip s.threads ≡ weight (is_taken s.ip_sem ip)

checks-append :
    (ip : Text) (xs ys : List Thread) → checks ip (xs ++ ys) ≡ checks ip xs + checks ip ys
unfolding checks
checks-append ip [] ys = omega arith
checks-append ip (t ∷ xs) ys = omega (arith, checks-append ip xs ys)

checks-split :
    (ip : Text) (threads before after : List Thread) (t : Thread)
    → threads ≡ before ++ t ∷ after
    → checks ip threads ≡ checks ip before + (one ip t + checks ip after)
unfolding checks
checks-split ip threads before after t e = rw e (checks-append ip before (t ∷ after))

length-split :
    (threads before after : List Thread) (t : Thread)
    → threads ≡ before ++ t ∷ after
    → length threads ≡ length before + suc (length after)
length-split threads before after t e = rw e (length-append before (t ∷ after))

length-swapped :
    (threads before after : List Thread) (t u : Thread)
    → threads ≡ before ++ t ∷ after
    → length threads ≡ length (before ++ u ∷ after)
length-swapped threads before after t u e =
    length-split threads before after t e ∙ sym (length-append before (u ∷ after))

stored-taken :
    (sem : Sem) (ip other : Text) (o : Option Slot)
    → lookup Text-discrete ip sem ≡ o
    → is_taken (stored ip o sem) other ≡ is_taken sem other
stored-taken sem ip other none e =
    ground (arith, e, lookup-assign Text-discrete other ip new_slot sem)
stored-taken sem ip other (some slot) e = refl

stored-Distinct :
    (sem : Sem) (ip : Text) (o : Option Slot)
    → Distinct Text-discrete sem
    → Distinct Text-discrete (stored ip o sem)
stored-Distinct sem ip none d = assign-Distinct Text-discrete ip new_slot sem d
stored-Distinct sem ip (some slot) d = d

stamped-taken :
    (sem : Sem) (ip other : Text) (slot : Slot) (now : ℕ)
    → lookup Text-discrete ip sem ≡ some slot
    → is_taken (stamp ip slot now sem) other ≡ is_taken sem other
stamped-taken sem ip other slot now e =
    ground (arith, e, lookup-assign Text-discrete other ip (record slot { last = now }) sem)

sent-owned :
    (b c : ℕ) (sem : Sem) (ip other : Text) (slot : Slot) (busy : Bool)
    → slot.busy ≡ busy
    → lookup Text-discrete ip sem ≡ some slot
    → b + (0 + c) ≡ weight (is_taken sem other)
    → b + (one other (thread ip (if busy then leaving else checking)) + c)
      ≡ weight (is_taken (send ip slot sem) other)
sent-owned b c sem ip other slot true is e h =
    ground (arith, lookup-assign Text-discrete other ip (record slot { busy = true }) sem)
sent-owned b c sem ip other slot false is e h =
    ground (arith, lookup-assign Text-discrete other ip (record slot { busy = true }) sem)

finished-owned :
    (b c : ℕ) (ip other : Text) (sem : Sem)
    → b + (one other (record { client = ip; phase = checking }) + c) ≡ weight (is_taken sem other)
    → b + (0 + c) ≡ weight (is_taken (release_ip sem ip) other)
finished-owned b c ip other sem h = ground (arith, released-taken sem ip other)

emptied-Distinct :
    (ip : Text) (o : Option Slot) (sem : Sem)
    → Distinct Text-discrete sem
    → Distinct Text-discrete (emptied ip o sem)
emptied-Distinct ip none sem d = d
emptied-Distinct ip (some slot) sem d =
    assign-Distinct Text-discrete ip (record slot { busy = false }) sem d

one-le-holds : (ip : Text) (t : Thread) → one ip t ≤ holds ip t
one-le-holds ip t = held t.phase refl
  where
    held : (p : Phase) → t.phase ≡ p → one ip t ≤ holds ip t
    held has_place e = rw e (omega arith)
    held looked_up e = rw e (omega arith)
    held stamped e = rw e (omega arith)
    held checking e = rw e (omega arith)
    held leaving e = rw e (omega arith)

checks-le-holding : (ip : Text) (threads : List Thread) → checks ip threads ≤ holding ip threads
unfolding checks holding
checks-le-holding ip [] = omega arith
checks-le-holding ip (t ∷ threads) = omega (arith, one-le-holds ip t, checks-le-holding ip threads)

deleted-owned :
    (n : ℕ) (sem : Sem) (ip other : Text)
    → (other ≡ ip → n ≡ 0)
    → n ≡ weight (is_taken sem other)
    → n ≡ weight (is_taken (delete Text-discrete ip sem) other)
deleted-owned n sem ip other idle h = ground (arith, lookup-delete Text-discrete other ip sem)

-- A step of one request from a phase to another.
module _ (s : Server) (before after : List Thread) (ip : Text) (p q : Phase)
    (e : s.threads ≡ before ++ thread ip p ∷ after) (a : Accounted s) where
  moved-Accounted :
      (sem : Sem)
      → Distinct Text-discrete sem
      → ((other : Text)
          → checks other before + (one other (thread ip p) + checks other after)
            ≡ weight (is_taken s.ip_sem other)
          → checks other before + (one other (thread ip q) + checks other after)
            ≡ weight (is_taken sem other))
      → Accounted (record s { ip_sem = sem; threads = before ++ thread ip q ∷ after })
  unfolding checks
  moved-Accounted sem d owned = record {
    counted = a.counted ∙ length-swapped s.threads before after (thread ip p) (thread ip q) e;
    bounded = a.bounded;
    proper = d;
    owned = λ other.
        checks-append other before (thread ip q ∷ after)
        ∙ owned other
            (sym (checks-split other s.threads before after (thread ip p) e) ∙ a.owned other);
  }

step-Accounted : {s t : Server} → Step s t → Accounted s → Accounted t
unfolding release_ip checks
step-Accounted (enters s ip room) a = record {
  counted = ground (arith, a.counted);
  bounded = ground (arith, a.bounded);
  proper = a.proper;
  owned = λ other. ground (arith, a.owned other);
}
step-Accounted (looks_up s before after ip e) a =
    moved-Accounted s before after ip has_place looked_up e a _
      (stored-Distinct s.ip_sem ip (lookup Text-discrete ip s.ip_sem) a.proper)
      (λ other h. h ∙ sym (ap weight (stored-taken s.ip_sem ip other _ refl)))
step-Accounted (stamps s before after ip slot now e found) a =
    moved-Accounted s before after ip looked_up stamped e a _
      (assign-Distinct Text-discrete ip (record slot { last = now }) s.ip_sem a.proper)
      (λ other h. h ∙ sym (ap weight (stamped-taken s.ip_sem ip other slot now found)))
step-Accounted (sends s before after ip slot e found) a =
    moved-Accounted s before after ip stamped (phase_after slot) e a _
      (assign-Distinct Text-discrete ip (record slot { busy = true }) s.ip_sem a.proper)
      (λ other h.
        sent-owned (checks other before) (checks other after) s.ip_sem ip other slot slot.busy refl
          found h)
step-Accounted (finishes s before after ip e) a =
    moved-Accounted s before after ip checking leaving e a _
      (emptied-Distinct ip (lookup Text-discrete ip s.ip_sem) s.ip_sem a.proper)
      (λ other h. finished-owned (checks other before) (checks other after) ip other s.ip_sem h)
step-Accounted (leaves s before after ip e) a = record {
  counted = omega (
    arith,
    a.counted,
    length-split s.threads before after (thread ip leaving) e,
    length-append before after,
  );
  bounded = omega (arith, a.bounded);
  proper = a.proper;
  owned = λ other.
      let left : checks other before + checks other after ≡ checks other s.threads =
        omega (arith, checks-split other s.threads before after (thread ip leaving) e) in
      checks-append other before after ∙ (left ∙ a.owned other);
}
step-Accounted (deletes s ip idle) a = record {
  counted = a.counted;
  bounded = a.bounded;
  proper = delete-Distinct Text-discrete ip s.ip_sem a.proper;
  owned = λ other.
      deleted-owned (checks other s.threads) s.ip_sem ip other
        (λ same.
          omega
            (arith, checks-le-holding other s.threads, ap (λ x. holding x s.threads) same, idle))
        (a.owned other);
}

-- However the accesses of the requests to the semaphore and to the slots interleave, at most 30
-- requests have a place, and the semaphore counts them; a client's slot is taken just if a check of
-- the client is under way, so that no client has two, and no slot stays taken when its check is over.
-- Assumed is that the cleanup deletes no entry of a client from the `LoadOrStore` of one of its
-- requests to the end of that request's `releaseIP`, or to its refusal: where it does, a client can
-- have two checks.
pub Reachable-Accounted : (s : Server) → Reachable s → Accounted s
Reachable-Accounted s started = record {
  counted = refl;
  bounded = omega arith;
  proper = tt;
  owned = λ ip. unfold checks lookup in refl;
}
Reachable-Accounted _ (stepped s t h x) = step-Accounted x (Reachable-Accounted s h)

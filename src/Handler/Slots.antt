-- ===== src/Handler/Slots.antt =====
-- A client runs one check at a time.
use looking_glass.Common.{
  ℕ, ◌+◌, ◌≤◌, ◌≡◌, refl, ◌≢◌, sym, ◌∙◌, List, [], ◌∷◌, true, false, Option, none, some, arith,
  Text, Text-discrete, lookup, lookup-assign_self, lookup-assign_ne,
}
use looking_glass.Handler.{
  Slot, Sem, acquire_ip, emptied, release_ip, slot_idle_limit, cleanup_ip_sem,
}

pub data Event : Type 0 where
  acquires : Text → ℕ → Event
  releases : Text → Event
  cleans : ℕ → Event

unfoldable pub step : Sem → Event → Sem
step sem (acquires ip now) = (acquire_ip sem ip now).0
step sem (releases ip) = release_ip sem ip
step sem (cleans now) = cleanup_ip_sem now sem

unfoldable pub run : Sem → List Event → Sem
run sem [] = sem
run sem (x ∷ xs) = run (step sem x) xs

-- An event that happens from `since` to 30 minutes after it, and is not the client's release.
abbrev pub Spares : Text → ℕ → Event → Type 0
Spares ip since (acquires other now) = since ≤ now
Spares ip since (releases other) = other ≢ ip
Spares ip since (cleans now) = now ≤ since + slot_idle_limit

abbrev pub AllSpare : Text → ℕ → List Event → Type 0
AllSpare ip since [] = Unit {0}
AllSpare ip since (x ∷ xs) = Spares ip since x × AllSpare ip since xs

-- The slot is taken, since `since` or later.
record Taken (since : ℕ) (o : Option Slot) : Type 0 where
  slot : Slot
  found : o ≡ some slot
  busy : slot.busy ≡ true
  late : since ≤ slot.last

pub lookup-cleanup_ip_sem :
    (ip : Text) (now : ℕ) (sem : Sem) (slot : Slot)
    → now ≤ slot.last + slot_idle_limit
    → lookup Text-discrete ip sem ≡ some slot
    → lookup Text-discrete ip (cleanup_ip_sem now sem) ≡ some slot
unfolding lookup cleanup_ip_sem
lookup-cleanup_ip_sem ip now [] slot h e = e
lookup-cleanup_ip_sem ip now (x ∷ sem) slot h e =
    ground (arith, lookup-cleanup_ip_sem ip now sem slot h)

lookup-emptied :
    (ip other : Text) (sem : Sem) (o : Option Slot)
    → other ≢ ip
    → lookup Text-discrete ip (emptied other o sem) ≡ lookup Text-discrete ip sem
lookup-emptied ip other sem none n = refl
lookup-emptied ip other sem (some slot) n =
    lookup-assign_ne Text-discrete ip other (record slot { busy = false }) sem (λ e. n (sym e))

step-Taken :
    (ip : Text) (since : ℕ) (sem : Sem) (x : Event)
    → Spares ip since x
    → Taken since (lookup Text-discrete ip sem)
    → Taken since (lookup Text-discrete ip (step sem x))
unfolding step acquire_ip release_ip
step-Taken ip since sem (acquires other now) h t = elim (Text-discrete other ip) [
  | yes same ↦ record {
    slot = record { busy = true; last = now };
    found = rw same (lookup-assign_self Text-discrete ip (record { busy = true; last = now }) sem);
    busy = refl;
    late = h;
  }
  | no different ↦ record {
    slot = t.slot;
    found =
        lookup-assign_ne Text-discrete ip other (record { busy = true; last = now }) sem
          (λ e. different (sym e))
        ∙ t.found;
    busy = t.busy;
    late = t.late;
  }
]
step-Taken ip since sem (releases other) h t = record {
  slot = t.slot;
  found = lookup-emptied ip other sem (lookup Text-discrete other sem) h ∙ t.found;
  busy = t.busy;
  late = t.late;
}
step-Taken ip since sem (cleans now) h t = record {
  slot = t.slot;
  found = lookup-cleanup_ip_sem ip now sem t.slot (omega (arith, t.late, h)) t.found;
  busy = t.busy;
  late = t.late;
}

run-Taken :
    (ip : Text) (since : ℕ) (sem : Sem) (xs : List Event)
    → AllSpare ip since xs
    → Taken since (lookup Text-discrete ip sem)
    → Taken since (lookup Text-discrete ip (run sem xs))
unfolding run
run-Taken ip since sem [] h t = t
run-Taken ip since sem (x ∷ xs) h t =
    run-Taken ip since (step sem x) xs h.1 (step-Taken ip since sem x h.0 t)

-- Once a client has asked for its slot, it is refused until it releases it, whatever calls and
-- releases of other clients come between, and whatever cleanups within 30 minutes.
pub acquire_ip-run :
    (sem : Sem) (ip : Text) (since now : ℕ) (xs : List Event)
    → AllSpare ip since xs
    → (acquire_ip (run (acquire_ip sem ip since).0 xs) ip now).1 ≡ false
unfolding acquire_ip
acquire_ip-run sem ip since now xs h =
    let t = run-Taken ip since (acquire_ip sem ip since).0 xs h (record {
      slot = record { busy = true; last = since };
      found = lookup-assign_self Text-discrete ip (record { busy = true; last = since }) sem;
      busy = refl;
      late = omega arith;
    }) in
    rw (t.found, t.busy) refl

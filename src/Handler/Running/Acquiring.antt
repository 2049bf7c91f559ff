-- ===== src/Handler/Running/Acquiring.antt =====
-- The three steps of `acquireIP`, with no other step between them, and the call as a whole.
use looking_glass.Common.{
  ℕ, ◌≡◌, true, false, Option, none, some, arith, if◌then◌else◌, Text, Text-discrete, lookup,
  lookup-assign,
}
use looking_glass.Handler.{Slot, Sem, acquire_ip}
use looking_glass.Handler.Running.{checking, leaving, new_slot, stored, stamp, send, phase_after}

-- The entry that `LoadOrStore` gives.
abbrev entry_of : Option Slot → Slot
entry_of none = new_slot
entry_of (some slot) = slot

-- The entries are those that the whole call leaves, and the request goes on just if the call grants
-- the slot.
acquire_ip-steps :
    (sem : Sem) (ip other : Text) (now : ℕ) (o : Option Slot)
    → lookup Text-discrete ip sem ≡ o
    → (lookup Text-discrete other (
          send ip
            (record (entry_of o) { last = now })
            (stamp ip (entry_of o) now (stored ip o sem)))
        ≡ lookup Text-discrete other (acquire_ip sem ip now).0)
      × (phase_after (record (entry_of o) { last = now })
          ≡ (if (acquire_ip sem ip now).1 then checking else leaving))
unfolding acquire_ip
acquire_ip-steps sem ip other now none e = (
  ground (
    arith,
    lookup-assign Text-discrete other ip (record { busy = true; last = now })
        (stamp ip new_slot now (stored ip none sem)),
    lookup-assign Text-discrete other ip (record { busy = false; last = now }) (stored ip none sem),
    lookup-assign Text-discrete other ip new_slot sem,
    lookup-assign Text-discrete other ip (record { busy = true; last = now }) sem,
  ),
  ground arith,
)
acquire_ip-steps sem ip other now (some slot) e = (
  ground (
    arith,
    lookup-assign Text-discrete other ip (record { busy = true; last = now })
        (stamp ip slot now sem),
    lookup-assign Text-discrete other ip (record slot { last = now }) sem,
    lookup-assign Text-discrete other ip (record { busy = true; last = now }) sem,
  ),
  ground arith,
)

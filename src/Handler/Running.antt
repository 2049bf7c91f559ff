-- ===== src/Handler/Running.antt =====
-- Checks that overlap: what the requests of internal/handler do with the semaphore and with the slots
-- of the clients, one step for each access to either, in any order. A request is in the list from the
-- moment it has a place of the semaphore until its `defer` gives the place back. `acquireIP` is three
-- steps: `LoadOrStore`, the store of the time, and the `select` on the channel. A tick of
-- `cleanupIPSem` is a series of deletions, with other steps between them.
--
-- A deletion is a step only at a moment when no request of the client is between its `LoadOrStore`
-- and the end of its `releaseIP`. The code does not see to that: an entry that has gone stale, or that
-- has no time yet, can be deleted while a request of the client holds it, and the request then goes on
-- with a channel that is no longer in the map. The steps leave that case out.
pub mod Accounts
pub mod Acquiring
use looking_glass.Common.{
  ℕ, ◌+◌, ◌-◌, ◌≡◌, List, [], ◌∷◌, ◌++◌, Bool, true, false, Option, none, some, leb, ite,
  if◌then◌else◌, Text, Text-discrete, lookup, assign, delete,
}
use looking_glass.Handler.{Slot, Sem, release_ip}
use looking_glass.Handler.State.{max_probes}

-- How far a request is: with a place of the semaphore, after its `LoadOrStore`, after its store of the
-- time, in its check, and after its check or its refusal.
pub data Phase : Type 0 where
  has_place looked_up stamped checking leaving : Phase

pub record Thread : Type 0 where
  pub client : Text
  pub phase : Phase

pub record Server : Type 0 where
  pub semaphore : ℕ
  pub ip_sem : Sem
  pub threads : List Thread

abbrev pub at_start : Server
at_start = record { semaphore = 0; ip_sem = []; threads = [] }

-- `&ipSemEntry{ch: make(chan struct{}, 1)}`
abbrev pub new_slot : Slot
new_slot = record { busy = false; last = 0 }

-- `LoadOrStore` on what the map has for the client.
abbrev pub stored : Text → Option Slot → Sem → Sem
stored ip none sem = assign Text-discrete ip new_slot sem
stored ip (some slot) sem = sem

-- `e.last.Store(time.Now().UnixNano())`
abbrev pub stamp : Text → Slot → ℕ → Sem → Sem
stamp ip slot now sem = assign Text-discrete ip (record slot { last = now }) sem

-- `e.ch <- struct{}{}`, which leaves a full channel full.
abbrev pub send : Text → Slot → Sem → Sem
send ip slot sem = assign Text-discrete ip (record slot { busy = true }) sem

-- What the `select` makes of a request.
abbrev pub phase_after : Slot → Phase
phase_after slot = if slot.busy then leaving else checking

-- How many checks of a client are under way.
abbrev pub one : Text → Thread → ℕ
one ip t = elim t.phase [
  | has_place ↦ 0
  | looked_up ↦ 0
  | stamped ↦ 0
  | checking ↦ ite (Text-discrete t.client ip) 1 0
  | leaving ↦ 0
]

unfoldable pub checks : Text → List Thread → ℕ
checks ip [] = 0
checks ip (t ∷ threads) = one ip t + checks ip threads

-- How many requests of a client hold its entry of the map.
abbrev pub holds : Text → Thread → ℕ
holds ip t = elim t.phase [
  | has_place ↦ 0
  | looked_up ↦ ite (Text-discrete t.client ip) 1 0
  | stamped ↦ ite (Text-discrete t.client ip) 1 0
  | checking ↦ ite (Text-discrete t.client ip) 1 0
  | leaving ↦ 0
]

unfoldable pub holding : Text → List Thread → ℕ
holding ip [] = 0
holding ip (t ∷ threads) = holds ip t + holding ip threads

abbrev pub thread : Text → Phase → Thread
thread ip phase = record { client = ip; phase = phase }

pub data Step : Server → Server → Type 0 where
  -- The `select` on the semaphore.
  enters :
      (s : Server) (ip : Text)
      → leb max_probes s.semaphore ≡ false
      → Step s (record s { semaphore = s.semaphore + 1; threads = thread ip has_place ∷ s.threads })
  -- The `LoadOrStore` of `acquireIP`.
  looks_up :
      (s : Server) (before after : List Thread) (ip : Text)
      → s.threads ≡ before ++ thread ip has_place ∷ after
      → Step s (record s {
        ip_sem = stored ip (lookup Text-discrete ip s.ip_sem) s.ip_sem;
        threads = before ++ thread ip looked_up ∷ after;
      })
  -- Its store of the time, in the entry of the client.
  stamps :
      (s : Server) (before after : List Thread) (ip : Text) (slot : Slot) (now : ℕ)
      → s.threads ≡ before ++ thread ip looked_up ∷ after
      → lookup Text-discrete ip s.ip_sem ≡ some slot
      → Step s (record s {
        ip_sem = stamp ip slot now s.ip_sem;
        threads = before ++ thread ip stamped ∷ after;
      })
  -- Its `select` on the channel of the entry.
  sends :
      (s : Server) (before after : List Thread) (ip : Text) (slot : Slot)
      → s.threads ≡ before ++ thread ip stamped ∷ after
      → lookup Text-discrete ip s.ip_sem ≡ some slot
      → Step s (record s {
        ip_sem = send ip slot s.ip_sem;
        threads = before ++ thread ip (phase_after slot) ∷ after;
      })
  -- The deferred `releaseIP`, whose `Load` finds an entry that no deletion takes away.
  finishes :
      (s : Server) (before after : List Thread) (ip : Text)
      → s.threads ≡ before ++ thread ip checking ∷ after
      → Step s (record s {
        ip_sem = release_ip s.ip_sem ip;
        threads = before ++ thread ip leaving ∷ after;
      })
  -- The deferred receive from the semaphore.
  leaves :
      (s : Server) (before after : List Thread) (ip : Text)
      → s.threads ≡ before ++ thread ip leaving ∷ after
      → Step s (record s { semaphore = s.semaphore - 1; threads = before ++ after })
  -- A deletion of `cleanupIPSem`, whenever its tick found the entry stale.
  deletes :
      (s : Server) (ip : Text)
      → holding ip s.threads ≡ 0
      → Step s (record s { ip_sem = delete Text-discrete ip s.ip_sem })

pub data Reachable : Server → Type 0 where
  started : Reachable at_start
  stepped : (s t : Server) → Reachable s → Step s t → Reachable t

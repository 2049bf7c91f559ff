-- ===== src/Handler/PortCheck/Slots.antt =====
-- What `PortCheck` leaves of the slots.
use looking_glass.Common.{ℕ, refl, List, Option, none, some, Text, codes, Bool-cases, inl, inr}
use looking_glass.Report.Id.{new_id}
use looking_glass.Handler.{Request}
use looking_glass.Handler.Agents.{Site, Fetched, bad_request, no_response, response, Agents, Moment}
use looking_glass.Handler.Capture.{remember, remember_json, capture_json}
use looking_glass.Handler.Gate.{Env}
use looking_glass.Handler.Gate.Balance.{
  Balanced, Balances, Balanced-refl, >>=-Balances, with_semaphore-Balances, with_ip-Balances,
  require-Balances, require_target-Balances, require_public-Balances, require_rate-Balances,
  respond-Balanced,
}
use looking_glass.Handler.PortCheck.{
  Decoded, no_object, null, object, with_request_id, annotate, port_reply, port_check_steps,
  port_check,
}
use looking_glass.Handler.Proxy.Slots.{require_node-Balances, require_live-Balances}
use looking_glass.Handler.State.{State}
use looking_glass.Report.Ephemeral as Ephemeral

pub capture_json-Balanced :
    (now : ℕ) (random : Option (List ℕ)) (kind target payload : Text) (s : State)
    → Balanced s (capture_json now random kind target payload s).0
unfolding capture_json remember
capture_json-Balanced now random kind target payload s = by_cache s.ephemeral (new_id random)
  where
    by_cache :
        (o : Option Ephemeral.Cache) (i : Option Text)
        → Balanced s
            (elim o as (λ x. State × Option Text) [
              | none ↦ (s, none)
              | some c ↦ remember_json now kind target payload i s
            ]).0
    by_cache none i = Balanced-refl s
    by_cache (some c) none = Balanced-refl s
    by_cache (some c) (some id) = record { probes = refl; clients = λ ip. refl }

with_request_id-Balanced :
    (d : Decoded) (body : Text) (s : State) (p : State × Option Text)
    → Balanced s p.0
    → Balanced s (with_request_id d body p).1
with_request_id-Balanced null body s (t, some id) h = h
with_request_id-Balanced null body s (t, none) h = h
with_request_id-Balanced no_object body s (t, id) h = h
with_request_id-Balanced object body s (t, id) h = h

annotate-Balanced :
    (w : Moment) (target : Text) (d : Decoded) (body : Text) (s : State)
    → Balanced s (annotate w target d body s).1
unfolding annotate
annotate-Balanced w target no_object body s = Balanced-refl s
annotate-Balanced w target null body s =
    with_request_id-Balanced null body s
      (capture_json w.stored w.random (codes "portcheck") target body s)
      (capture_json-Balanced w.stored w.random (codes "portcheck") target body s)
annotate-Balanced w target object body s =
    with_request_id-Balanced object body s
      (capture_json w.stored w.random (codes "portcheck") target body s)
      (capture_json-Balanced w.stored w.random (codes "portcheck") target body s)

port_reply-Balances :
    (w : Moment) (decode : Text → Decoded) (target : Text) (f : Fetched)
    → Balances (port_reply w decode target f)
unfolding port_reply
port_reply-Balances w decode target (bad_request e) = record { at = Balanced-refl }
port_reply-Balances w decode target no_response = record { at = Balanced-refl }
port_reply-Balances w decode target (response status body) = record {
  at = λ s. elim (Bool-cases body.complete) [
    | inl whole ↦ rw whole (annotate-Balanced w target (decode body.whole) body.whole s)
    | inr cut ↦ rw cut (Balanced-refl s)
  ];
}

-- A request for a check of a port that no other overlaps leaves the slots as it found them, whatever
-- the agent answers.
pub port_check-Balanced :
    (env : Env) (site : Site) (agents : Agents) (decode : Text → Decoded) (w : Moment) (r : Request)
    (s : State)
    → Balanced s (port_check env site agents decode w r s).1
unfolding port_check port_check_steps
port_check-Balanced env site agents decode w r s =
    respond-Balanced s (port_check_steps env site agents decode w r s) (steps.at s)
  where
    steps : Balances (port_check_steps env site agents decode w r)
    steps =
        search
          (
            >>=-Balances, require-Balances, require_target-Balances, require_public-Balances,
            require_rate-Balances, require_node-Balances, require_live-Balances,
            with_semaphore-Balances, with_ip-Balances, port_reply-Balances,
          )
          depth 18

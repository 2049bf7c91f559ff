-- ===== src/Handler/Proxy/Slots.antt =====
-- What `Proxy` leaves of the slots.
use looking_glass.Common.{
  ℕ, List, ◌==◌, Bool, true, false, Option, none, some, Text, Bool-cases, inl, inr, not, ◌&&◌,
}
use looking_glass.Nodes.{Node}
use looking_glass.Handler.{Request}
use looking_glass.Handler.Agents.{
  Site, Fetched, bad_request, no_response, response, Agents, Moment, known_node, find_node,
  require_node, go_if, is_live_at, require_live,
}
use looking_glass.Handler.Capture.{begin_capture}
use looking_glass.Handler.Gate.{Env, nothing}
use looking_glass.Handler.Gate.Balance.{
  Balanced, Balances, Balanced-refl, >>=-Balances, with_semaphore-Balances, with_ip-Balances,
  require-Balances, require_target-Balances, require_public-Balances, require_rate-Balances,
  require_flusher-Balances, respond-Balanced,
}
use looking_glass.Handler.Probe.Slots.{finish_capture-Balanced}
use looking_glass.Handler.Proxy.{is_streamed, give_reply, proxy_steps, proxy}
use looking_glass.Handler.Relay.{relay, stream_proxy}
use looking_glass.Handler.State.{State, Response}

module _ (R : Type 0) where
  known_node-Balances : (o : Option Node) → Balances (known_node {R = R} o)
  known_node-Balances none = record { at = Balanced-refl }
  known_node-Balances (some n) = record { at = Balanced-refl }

  pub require_node-Balances : (site : Site) (id : Text) → Balances (require_node {R = R} site id)
  unfolding require_node
  require_node-Balances site id = known_node-Balances (find_node id site.nodes)

  go_if-Balances : (b : Bool) (x : Response R) → Balances (go_if b x)
  go_if-Balances true x = record { at = Balanced-refl }
  go_if-Balances false x = record { at = Balanced-refl }

  pub require_live-Balances :
      (site : Site) (n : Node) (x : Response R) → Balances (require_live site n x)
  unfolding require_live
  require_live-Balances site n x = go_if-Balances (is_live_at site n) x

stream_proxy-Balanced :
    (env : Env) (random : Option (List ℕ)) (now : ℕ) (kind target : Text)
    (lines : List (Bool × Text)) (s : State)
    → Balanced s (stream_proxy env random now kind target lines s).1
unfolding stream_proxy
stream_proxy-Balanced env random now kind target lines s =
    let r = relay false (begin_capture random) lines in
    elim (Bool-cases (not r.gone && r.finished)) [
      | inl ends ↦
          rw ends
            (finish_capture-Balanced (env.marshal_lines target nothing) now r.capture kind target s)
      | inr stays ↦ rw stays (Balanced-refl s)
    ]

give_reply-Balances :
    (env : Env) (w : Moment) (action target : Text) (f : Fetched)
    → Balances (give_reply env w action target f)
unfolding give_reply
give_reply-Balances env w action target (bad_request e) = record { at = Balanced-refl }
give_reply-Balances env w action target no_response = record { at = Balanced-refl }
give_reply-Balances env w action target (response status body) = record {
  at = λ s. elim (Bool-cases (status == 200)) [
    | inr other ↦ rw other (Balanced-refl s)
    | inl fine ↦ elim (Bool-cases (is_streamed action)) [
      | inl line ↦
          rw fine (rw line (stream_proxy-Balanced env w.random w.stored action target body.lines s))
      | inr whole ↦ rw fine (rw whole (Balanced-refl s))
    ]
  ];
}

-- A request that is passed on to an agent, and that no other overlaps, leaves the slots as it found
-- them, whatever the agent answers.
pub proxy-Balanced :
    (env : Env) (site : Site) (agents : Agents) (w : Moment) (r : Request) (s : State)
    → Balanced s (proxy env site agents w r s).1
unfolding proxy proxy_steps
proxy-Balanced env site agents w r s =
    respond-Balanced s (proxy_steps env site agents w r s) (steps.at s)
  where
    steps : Balances (proxy_steps env site agents w r)
    steps =
        search
          (
            >>=-Balances, require-Balances, require_target-Balances, require_public-Balances,
            require_rate-Balances, require_flusher-Balances, require_node-Balances,
            require_live-Balances, with_semaphore-Balances, with_ip-Balances, give_reply-Balances,
          )
          depth 18

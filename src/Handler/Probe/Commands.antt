-- ===== src/Handler/Probe/Commands.antt =====
-- The commands that `Ping` and `Traceroute` can run.
use looking_glass.Common.{
  ℕ, ◌≤◌, ◌≡◌, refl, subst, ap, ◌∙◌, List, [], ◌∷◌, Option, none, some, arith, Text, codes, All,
}
use looking_glass.Ip.{Address}
use looking_glass.Strings.{ℤ, pos, negsuc, atoi}
use looking_glass.Validator.{ok, validate_target, validate_not_private}
use looking_glass.Validator.Public.{
  IsPublic, addresses_of, Verdict, unresolved, public, refused, validate_not_private-Verdict,
}
use looking_glass.Handler.{Request, client_ip, query_get}
use looking_glass.Handler.Gate.{
  Env, go, Action, ◌>>=◌, ◌>>◌, require_target, require_public, require_rate, require_flusher,
  with_semaphore, with_ip, respond,
}
use looking_glass.Handler.Gate.Agree.{
  Agree, >>=-Agree, with_semaphore-Agree, with_ip-Agree, refuse_if-go, unless_fault-go,
}
use looking_glass.Handler.Probe.{
  Tool, Exec, no_pipe, no_start, ran, World, chosen, pinned_or, run_tool, probe_steps, probe,
}
use looking_glass.Handler.State.{State, Response, stream, failed, busy, already_active}

-- What stands for a target on the command line: the text of a public address that the target stands
-- for, or the target itself, where it stands for none.
pub data Pinned (env : Env) (target : Text) (t : Text) : Type 0 where
  pinned :
      (ip : Address) (rest : List Address)
      → addresses_of env.network target ≡ ip ∷ rest
      → All (IsPublic env.network) (ip ∷ rest)
      → t ≡ env.to_string ip
      → Pinned env target t
  unpinned : addresses_of env.network target ≡ [] → t ≡ target → Pinned env target t

-- A command line that a request for a target may lead to.
pub record IsSafe (tool : Tool) (env : Env) (target : Text) (args : List Text) : Type 0 where
  pub number : ℕ
  pub place : Text
  pub checked : validate_target env.network.parsers target ≡ none
  pub from : tool.lowest ≤ number
  pub to : number ≤ tool.highest
  pub names : Pinned env target place
  pub spelled : args ≡ tool.arguments (env.itoa number) place

-- The usual number of a tool is in its range.
abbrev pub HasUsual : Tool → Type 0
HasUsual tool = (tool.lowest ≤ tool.usual) × (tool.usual ≤ tool.highest)

chosen_bounds :
    (tool : Tool) (o : Option ℤ)
    → HasUsual tool
    → (tool.lowest ≤ chosen tool o) × (chosen tool o ≤ tool.highest)
unfolding chosen
chosen_bounds tool none h = h
chosen_bounds tool (some (negsuc n)) h = h
chosen_bounds tool (some (pos n)) h = ground arith

pinned_or-Pinned :
    (env : Env) (target : Text) (o : Option Address)
    → validate_not_private env.network target ≡ ok o
    → Pinned env target (pinned_or env target o)
pinned_or-Pinned env target o h = by_verdict o h (validate_not_private-Verdict env.network target)
  where
    by_verdict :
        (o : Option Address)
        → validate_not_private env.network target ≡ ok o
        → Verdict env.network
            (addresses_of env.network target)
            (validate_not_private env.network target)
        → Pinned env target (pinned_or env target o)
    by_verdict none e (unresolved a is) = unpinned a refl
    by_verdict (some ip) e (unresolved a is) = cc (e, is)
    by_verdict none e (public ip rest a all is) = cc (e, is)
    by_verdict (some other) e (public ip rest a all is) =
        let same : other ≡ ip = cc (e, is) in
        pinned ip rest a (subst (All (IsPublic env.network)) a all) (ap env.to_string same)
    by_verdict o e (refused n is) = cc (e, is)

run_tool-exec :
    (env : Env) (w : World) (other : Text → List Text → Exec) (tool : Tool) (target : Text) (n : ℕ)
    (x y : Exec) (s : State)
    → x ≡ y
    → run_tool env w tool target n x s ≡ run_tool env (record w { exec = other }) tool target n y s
run_tool-exec env w other tool target n x y s e =
    ap (λ z. run_tool env w tool target n z s) e ∙ by_exec y
  where
    by_exec :
        (y : Exec)
        → run_tool env w tool target n y s
          ≡ run_tool env (record w { exec = other }) tool target n y s
    by_exec (no_pipe t) = unfold run_tool in refl
    by_exec (no_start t) = unfold run_tool in refl
    by_exec (ran lines) = unfold run_tool in refl

command_line :
    (tool : Tool) (env : Env) (target : Text) (place : Option Address) (o : Option ℤ) (u : Unit {0})
    (s t : State)
    → HasUsual tool
    → (require_target {R = Unit {0}} env target s).0 ≡ go u
    → (require_public {R = Unit {0}} env target t).0 ≡ go place
    → IsSafe tool env target
        (tool.arguments (env.itoa (chosen tool o)) (pinned_or env target place))
unfolding require_target require_public
command_line tool env target place o u s t usual checked passed =
    let (low, high) = chosen_bounds tool o usual in
    record {
      number = chosen tool o;
      place = pinned_or env target place;
      checked = refuse_if-go (Unit {0}) (validate_target env.network.parsers target) u s checked;
      from = low;
      to = high;
      names =
          pinned_or-Pinned env target place
            (unless_fault-go (Unit {0}) (validate_not_private env.network target) place t passed);
      spelled = refl;
    }

probe_steps-Agree :
    (tool : Tool) (env : Env) (w : World) (other : Text → List Text → Exec) (r : Request)
    → HasUsual tool
    → ((args : List Text)
        → IsSafe tool env (query_get r (codes "target")) args
        → w.exec tool.kind args ≡ other tool.kind args)
    → Agree (probe_steps tool env w r) (probe_steps tool env (record w { exec = other }) r)
unfolding probe_steps
probe_steps-Agree tool env w other r usual same =
    let target = query_get r (codes "target") in
    let o = atoi (query_get r tool.option) in
    let n = chosen tool o in
    let command =
      λ (place : Option Address). tool.arguments (env.itoa n) (pinned_or env target place) in
    let run : World → Option Address → Action (Unit {0}) (Response (Unit {0})) = λ wd place.
      with_semaphore (stream (failed busy ∷ [])) (
        with_ip (client_ip env.client r) w.acquired (stream (failed already_active ∷ []))
          (run_tool env wd tool target n (wd.exec tool.kind (command place)))) in
    let last = λ (wd : World) (place : Option Address). require_flusher w.flusher >> run wd place in
    let rated =
      λ (wd : World) (place : Option Address). require_rate env r w.now >> last wd place in
    let w' = record w { exec = other } in
    >>=-Agree (require_target env target) (λ u. require_public env target >>= rated w)
      (λ u. require_public env target >>= rated w')
      (λ s u checked. >>=-Agree (require_public env target) (rated w) (rated w') (λ t place passed.
        >>=-Agree (require_rate env r w.now) (λ u1. last w place) (λ u1. last w' place)
          (λ s2 u1 allowed.
            >>=-Agree (require_flusher w.flusher) (λ u2. run w place) (λ u2. run w' place)
              (λ s3 u2 flushes. with_semaphore-Agree _ _ _ (
                with_ip-Agree _ _ _ _ _ (record {
                  at = λ v.
                      run_tool-exec env w other tool target n (w.exec tool.kind (command place))
                        (other tool.kind (command place)) v
                        (same (command place)
                          (command_line tool env target place o u s t usual checked passed));
                }))))))

-- What a request for a probe comes to depends on no command but those of a checked target, with a
-- number in the tool's range, on the text of a public address that the target stands for, or on a
-- target that stands for no address: whatever else commands would do, it is not run.
pub probe-exec :
    (tool : Tool) (env : Env) (w : World) (other : Text → List Text → Exec) (r : Request)
    (s : State)
    → HasUsual tool
    → ((args : List Text)
        → IsSafe tool env (query_get r (codes "target")) args
        → w.exec tool.kind args ≡ other tool.kind args)
    → probe tool env w r s ≡ probe tool env (record w { exec = other }) r s
unfolding probe probe_steps
probe-exec tool env w other r s usual same =
    ap respond ((probe_steps-Agree tool env w other r usual same).at s)

-- ===== src/Handler/Probe/Tests.antt =====
-- Runs of `Ping` and `Traceroute`, and their theorems on them.
use looking_glass.Common.{
  ◌≡◌, refl, List, [], ◌∷◌, Bool, true, false, some, arith, Text, codes, Text-discrete, ℕ_discrete,
  lookup, assign, delete,
}
use looking_glass.RateLimit.{allow, allow_entry}
use looking_glass.Report.Ephemeral as Ephemeral
use looking_glass.Report.Ephemeral.{get}
use looking_glass.Report.Id.{new_id, encode_to_string, valid_id}
use looking_glass.Report.Store as Store
use looking_glass.Report.Store.Sample.{sample, sample-RoundTrips, get_text, get_number, take_text}
use looking_glass.Strings.{atoi, is_space, trim_space, digits_value}
use looking_glass.Validator.{
  is_alnum, match_rest, match_hostname, member, contains_any, validate_target, is_private_ip,
  any_private, check_resolved, check_literal, validate_not_private,
}
use looking_glass.Validator.Sample.{parse_four, starts, resolve_name}
use looking_glass.Validator.Public.{addresses_of}
use looking_glass.Handler.{acquire_ip, release_ip, client_ip}
use looking_glass.Handler.Capture.{begin_capture, finish_capture, remember}
use looking_glass.Handler.Gate.{
  go, require_target, require_public, require_rate, require_flusher, with_semaphore, with_ip,
}
use looking_glass.Handler.Gate.Balance.{Balanced}
use looking_glass.Handler.Probe.{
  Exec, no_start, ran, World, ping_tool, chosen, stream_lines, run_tool, probe_steps, probe, ping,
}
use looking_glass.Handler.Probe.Shared.{read_report-run_tool}
use looking_glass.Handler.Reports.{
  found, promote_report, promote_body, promote_counted, promote_entry, answer, read_report,
}
use looking_glass.Handler.Probe.Slots.{probe-Balanced}
use looking_glass.Handler.Probe.Commands.{IsSafe, probe-exec}
use looking_glass.Handler.Probe.Links.{run_tool-kept}
use looking_glass.Handler.Sample.{
  spell, spell_number, join_lines, env, request, random, id, cache, state,
}
use looking_glass.Handler.State.{State, line, done, event, stream}

-- The first line is the first argument but one, and whoever asks is still there.
run_echo : Text → List Text → Exec
run_echo kind (a ∷ b ∷ args) = ran ((false, b) ∷ (false, codes "ok") ∷ [])
run_echo kind args = no_start (codes "no arguments")

-- The same, on seven arguments only.
run_seven : Text → List Text → Exec
run_seven kind (a ∷ b ∷ c ∷ d ∷ e ∷ f ∷ g ∷ []) = run_echo kind (a ∷ b ∷ c ∷ d ∷ e ∷ f ∷ g ∷ [])
run_seven kind args = no_start (codes "not run")

abbrev world : World
world = record {
  now = 5;
  acquired = 6;
  stored = 7;
  flusher = true;
  random = some random;
  exec = run_echo;
}

abbrev asked : List (Text × Text)
asked = (codes "target", codes "example.org") ∷ (codes "count", codes "3") ∷ []

program : Unit {0}
unfolding parse_four starts resolve_name is_alnum match_rest match_hostname member contains_any
    validate_target is_private_ip any_private check_resolved check_literal validate_not_private
    is_space trim_space digits_value atoi Text-discrete ℕ_discrete addresses_of new_id
    encode_to_string lookup assign delete Ephemeral.get Ephemeral.put allow allow_entry acquire_ip
    release_ip client_ip begin_capture finish_capture remember require_target require_public
    require_rate require_flusher with_semaphore with_ip chosen stream_lines run_tool probe_steps
    probe spell spell_number join_lines run_echo run_seven
program = tt

pinged :
    (ping env world (request asked) state).0
    ≡ stream (event (codes "request_id") id ∷ line (codes "3") ∷ line (codes "ok") ∷ done ∷ [])
unfolding program
pinged = refl

probe-Balanced_example : Balanced state (probe ping_tool env world (request asked) state).1
probe-Balanced_example = probe-Balanced ping_tool env world (request asked) state

run_seven-same :
    (args : List Text)
    → IsSafe ping_tool env (codes "example.org") args
    → run_echo (codes "ping") args ≡ run_seven (codes "ping") args
unfolding run_seven
run_seven-same args h = rw h.spelled refl

probe-exec_example :
    probe ping_tool env world (request asked) state
    ≡ probe ping_tool env (record world { exec = run_seven }) (request asked) state
unfolding program
probe-exec_example =
    probe-exec ping_tool env world run_seven (request asked) state (omega arith, omega arith)
      run_seven-same

run_tool-kept_example :
    ((run_tool env world ping_tool (codes "example.org") 3 (ran ((false, codes "ok") ∷ [])) state).0
      ≡ go (stream (event (codes "request_id") id ∷ line (codes "ok") ∷ done ∷ [])))
    × (kept : Ephemeral.Cache) × ((run_tool env world ping_tool
          (codes "example.org")
          3
          (ran ((false, codes "ok") ∷ []))
          state).1.ephemeral
        ≡ some kept)
    × (get kept id
        ≡ some (record {
          kind = codes "ping";
          target = codes "example.org";
          payload = codes "example.orgok";
          created_at = 7;
        }))
unfolding program
run_tool-kept_example =
    run_tool-kept env world ping_tool (codes "example.org") id (codes "example.orgok") 3
      ((false, codes "ok") ∷ []) state cache (refl, tt) refl refl refl

abbrev hop : List (Bool × Text)
hop = (false, codes "ok") ∷ []

abbrev with_reports : State
with_reports = record state { reports = some (record { disk = []; active = 0 }) }

abbrev promotion : Store.World
promotion = record {
  random = some random;
  now = 8;
  written = Store.whole;
  renamed = true;
  removed = true;
}

abbrev after_probe : State
after_probe = (run_tool env world ping_tool (codes "example.org") 3 (ran hop) with_reports).1

abbrev shared : State
shared = (promote_report sample after_probe (codes "a") 8 (some id) promotion).0

shares : Unit {0}
unfolding sample get_text get_number take_text new_id encode_to_string valid_id Text-discrete
    ℕ_discrete lookup assign delete promote_report promote_body promote_counted promote_entry answer
    Store.promote Ephemeral.get Ephemeral.put Store.write_report allow allow_entry begin_capture
    finish_capture remember stream_lines run_tool spell_number join_lines
shares = tt

read_report-run_tool_example :
    (read_report sample shared (codes "b") id 9).1
    ≡ found (record {
      id = id;
      kind = codes "ping";
      target = codes "example.org";
      captured_at = 8;
      payload = sample.compact (codes "example.orgok");
    })
unfolding shares
read_report-run_tool_example =
    read_report-run_tool sample sample-RoundTrips env world ping_tool (codes "example.org") id
      (codes "example.orgok") (codes "a") (codes "b") id 3 hop with_reports shared cache
      (record { disk = []; active = 0 }) 8 9 promotion random (refl, tt) refl refl refl refl
      (omega arith) (omega arith) refl (omega arith) refl refl (omega arith)

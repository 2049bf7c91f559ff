-- ===== src/Handler/Tests.antt =====
-- Requests of clients, and the theorems on them.
use looking_glass.Common.{
  ◌≡◌, refl, List, [], ◌∷◌, ◌++◌, true, false, none, some, arith, Text, Text-discrete, ℕ_discrete,
  codes, lookup, assign, length,
}
use looking_glass.Strings.{split, is_space, trim_space}
use looking_glass.Handler.{Request, Net, Sem, second_last, client_ip, acquire_ip}
use looking_glass.Handler.Address.{client_ip-forwarded}
use looking_glass.Handler.Running.{
  Phase, has_place, looked_up, stamped, checking, Thread, Server, at_start, new_slot, thread,
  enters, looks_up, stamps, sends, Reachable, started, stepped,
}
use looking_glass.Handler.Running.Accounts.{Accounted, Reachable-Accounted}
use looking_glass.Handler.Slots.{acquires, releases, cleans, run, acquire_ip-run}

abbrev net : Net
net = record { canonical = λ s. some s; host_of = λ s. none }

abbrev forged : Request
forged = record {
  forwarded_for =
      codes "10.0.0.1, 10.0.0.2" ++ b',' ∷ (codes " 192.0.2.7" ++ b',' ∷ codes " 198.51.100.1");
  real_ip = codes "10.0.0.3";
  remote_addr = codes "198.51.100.1:443";
  query = [];
}

program : Unit {0}
unfolding split second_last client_ip is_space trim_space
program = tt

client_ip-forwarded_example : client_ip net forged ≡ codes "192.0.2.7"
unfolding program
client_ip-forwarded_example =
    client_ip-forwarded net forged (codes "10.0.0.1, 10.0.0.2") (codes " 192.0.2.7")
      (codes " 198.51.100.1") (codes "192.0.2.7")
      (refl, (refl, (refl, (refl, (refl, (refl, (refl, (refl, (refl, (refl, tt))))))))))
      (
        refl,
        (
          refl,
          (
            refl,
            (refl, (refl, (refl, (refl, (refl, (refl, (refl, (refl, (refl, (refl, tt)))))))))),
          ),
        ),
      )
      refl refl

abbrev a : Text
a = codes "a"

abbrev b : Text
b = codes "b"

acquire_ip-run_example :
    (acquire_ip (run (acquire_ip [] a 5).0 (acquires b 6 ∷ releases b ∷ cleans 9 ∷ [])) a 9).1
    ≡ false
acquire_ip-run_example =
    acquire_ip-run [] a 5 9 (acquires b 6 ∷ releases b ∷ cleans 9 ∷ [])
      (omega arith, ((λ e. ground arith), (omega arith, tt)))

-- A request of a goes through the steps of `acquireIP`, and one of b has come in between.
abbrev running : Sem → List Thread → Server
running sem threads = record { semaphore = length threads; ip_sem = sem; threads = threads }

abbrev one_request : Phase → List Thread
one_request phase = thread a phase ∷ []

abbrev overlapping : Server
overlapping =
    running ((a, record { busy = true; last = 5 }) ∷ []) (thread b has_place ∷ one_request checking)

overlapping-Reachable : Reachable overlapping
unfolding lookup assign Text-discrete ℕ_discrete
overlapping-Reachable =
    stepped
      (running ((a, record { busy = false; last = 5 }) ∷ [])
        (thread b has_place ∷ one_request stamped))
      overlapping
      (stepped (running ((a, record { busy = false; last = 5 }) ∷ []) (one_request stamped)) _
        (stepped (running ((a, new_slot) ∷ []) (one_request looked_up)) _
          (stepped (running [] (one_request has_place)) _
            (stepped at_start _ started (enters at_start a refl)) (looks_up _ [] [] a refl))
          (stamps _ [] [] a new_slot 5 refl refl))
        (enters _ b refl))
      (sends _ (thread b has_place ∷ []) [] a (record { busy = false; last = 5 }) refl refl)

Reachable-Accounted_example : Accounted overlapping
Reachable-Accounted_example = Reachable-Accounted overlapping overlapping-Reachable

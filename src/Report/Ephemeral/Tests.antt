-- ===== src/Report/Ephemeral/Tests.antt =====
use looking_glass.Common.{
  ℕ, ◌*◌, ◌≡◌, refl, List, [], ◌∷◌, some, arith, Text-discrete, ℕ_discrete, codes, lookup, assign,
  delete, Distinct,
}
use looking_glass.Report.Ephemeral.{
  Ephemeral, Cache, minute, put, get, sweep, victim, search_step, find_oldest, make_room,
}
use looking_glass.Report.Ephemeral.Bounds.{IsValid, Event, puts, sweeps, run, run-IsValid}
use looking_glass.Report.Ephemeral.Retention.{get-run-put}

abbrev check : ℕ → Ephemeral
check at = record {
  kind = codes "bgp";
  target = codes "192.0.2.1";
  payload = codes "{}";
  created_at = at;
}

abbrev two : Cache
two = (codes "a", check 5) ∷ (codes "b", check 3) ∷ []

program : Unit {0}
unfolding lookup assign delete Text-discrete ℕ_discrete search_step find_oldest victim make_room put
    get sweep
program = tt

two-victim : victim two ≡ codes "b"
unfolding program
two-victim = refl

two-Distinct : Distinct Text-discrete two
unfolding program
two-Distinct = (refl, (refl, tt))

two-IsValid : IsValid two
unfolding program
two-IsValid = record { bounded = omega arith; distinct = two-Distinct; named = refl }

abbrev later : List Event
later = puts (codes "c") (check 9) ∷ sweeps (20 * minute) ∷ puts (codes "a") (check 12) ∷ []

run-IsValid_example : IsValid (run [] later)
run-IsValid_example = run-IsValid later ((λ e. cc), ((λ e. cc), tt))

get-run-put_example : get (run (put two (codes "k") (check 7)) later) (codes "k") ≡ some (check 7)
get-run-put_example =
    get-run-put two (codes "k") (check 7) later two-IsValid (λ e. cc) (omega arith)
      (
        (λ e. ground arith),
        (λ e. cc),
        omega arith,
        (omega arith, ((λ e. ground arith), (λ e. cc), omega arith, tt)),
      )
      (omega arith)

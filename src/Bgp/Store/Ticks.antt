-- ===== src/Bgp/Store/Ticks.antt =====
-- The reload loop of internal/bgp/store.go: which snapshot is served after its ticks.
use looking_glass.Common.{
  ℕ, ◌≡◌, refl, ◌⊎◌, inl, inr, List, [], ◌∷◌, Option, none, some, false, arith, Bool-cases,
}
use looking_glass.Ip.{Parsers}
use looking_glass.Bgp.Trie.{Route}
use looking_glass.Bgp.Store.{
  Snapshot, Store, Opened, open_error, stat_error, decode_error, decoded, load_routes, new_snapshot,
  load, logged, is_due, tick,
}
use looking_glass.Bgp.Store.Index.{parsed}
use looking_glass.Bgp.Store.Range.{all_in_range, load_routes-cases}

-- What opening the file gave at a tick, which is a decoded file with a prefix out of range.
abbrev pub Fatal : Parsers → Opened → Type 0
Fatal net opened =
    (mtime : ℕ) × (routes : List Route) × (opened ≡ decoded mtime routes)
    × (all_in_range (parsed net routes) ≡ false)

-- A snapshot that was loaded whole from what opening the file gave.
abbrev pub LoadedFrom : Parsers → ℕ → Opened → Snapshot → Type 0
LoadedFrom net now opened snap =
    (mtime : ℕ) × (routes : List Route) × (skipped : ℕ) × (opened ≡ decoded mtime routes)
    × (load_routes net (new_snapshot now mtime, 0) routes ≡ some (snap, skipped))

-- A tick of the history that met a fatal file.
abbrev pub CrashIn : Parsers → List (ℕ × Option ℕ × Opened) → Type 0
CrashIn net [] = ⊥
CrashIn net ((now, stat, opened) ∷ ticks) = Fatal net opened ⊎ CrashIn net ticks

-- A snapshot that a tick of the history read from the file.
abbrev pub ReadIn : Parsers → List (ℕ × Option ℕ × Opened) → Snapshot → Type 0
ReadIn net [] snap = ⊥
ReadIn net ((now, stat, opened) ∷ ticks) snap =
    LoadedFrom net now opened snap ⊎ ReadIn net ticks snap

-- The store after ticks, each with the clock, what `os.Stat` says and what opening the file gives;
-- `none` if one of them panics, which ends the program.
unfoldable pub run_ticks : Parsers → Store → List (ℕ × Option ℕ × Opened) → Option Store
run_ticks net s [] = some s
run_ticks net s ((now, stat, opened) ∷ ticks) = elim (tick net now stat opened s) [
  | none ↦ none
  | some t ↦ run_ticks net t ticks
]

-- What a tick can come to: nothing is done, it panics, or it loads the file.
abbrev Ticked : Parsers → ℕ → Opened → Store → Option Store → Type 0
Ticked net now opened s result =
    (result ≡ some s)
    ⊎ ((result ≡ none) × Fatal net opened)
    ⊎ ((snap : Snapshot) × (result ≡ some (record { current = some snap }))
        × LoadedFrom net now opened snap)

load-Ticked :
    (net : Parsers) (now mtime : ℕ) (routes : List Route) (s : Store)
    → Ticked net now (decoded mtime routes) s (logged (load net now (decoded mtime routes) s))
unfolding load
load-Ticked net now mtime routes s = elim (load_routes-cases net now mtime routes) [
  | inl (out, is) ↦ inr (inl (rw (load, is) refl, (mtime, routes, refl, out)))
  | inr (snap, skipped, is) ↦
      inr (inr (snap, rw (load, is) refl, (mtime, routes, skipped, refl, is)))
]

tick-Ticked :
    (net : Parsers) (now : ℕ) (stat : Option ℕ) (opened : Opened) (s : Store)
    → Ticked net now opened s (tick net now stat opened s)
unfolding tick load
tick-Ticked net now none opened s = inl refl
tick-Ticked net now (some mtime) open_error s = inl (ground arith)
tick-Ticked net now (some mtime) stat_error s = inl (ground arith)
tick-Ticked net now (some mtime) decode_error s = inl (ground arith)
tick-Ticked net now (some mtime) (decoded m routes) s = elim (Bool-cases (is_due s.current mtime)) [
  | inl due ↦ rw (tick, due) (load-Ticked net now m routes s)
  | inr fine ↦ inl (rw (tick, fine) refl)
]

-- What a history of ticks can come to.
abbrev pub Served : Parsers → Store → List (ℕ × Option ℕ × Opened) → Option Store → Type 0
Served net s ticks result =
    ((result ≡ none) × CrashIn net ticks)
    ⊎ ((t : Store) × (result ≡ some t)
        × ((t.current ≡ s.current)
            ⊎ ((snap : Snapshot) × (t.current ≡ some snap) × ReadIn net ticks snap)))

later :
    (net : Parsers) (now : ℕ) (stat : Option ℕ) (opened : Opened) (s : Store)
    (ticks : List (ℕ × Option ℕ × Opened)) (result : Option Store)
    → Served net s ticks result
    → Served net s ((now, stat, opened) ∷ ticks) result
later net now stat opened s ticks result (inl (is, crash)) = inl (is, inr crash)
later net now stat opened s ticks result (inr (t, is, inl same)) = inr (t, is, inl same)
later net now stat opened s ticks result (inr (t, is, inr (snap, e, r))) =
    inr (t, is, inr (snap, e, inr r))

replaced :
    (net : Parsers) (now : ℕ) (stat : Option ℕ) (opened : Opened) (s : Store) (snap : Snapshot)
    (ticks : List (ℕ × Option ℕ × Opened)) (result : Option Store)
    → LoadedFrom net now opened snap
    → Served net (record { current = some snap }) ticks result
    → Served net s ((now, stat, opened) ∷ ticks) result
replaced net now stat opened s snap ticks result from (inl (is, crash)) = inl (is, inr crash)
replaced net now stat opened s snap ticks result from (inr (t, is, inl same)) =
    inr (t, is, inr (snap, same, inl from))
replaced net now stat opened s snap ticks result from (inr (t, is, inr (other, e, r))) =
    inr (t, is, inr (other, e, inr r))

-- Whatever the ticks of the reload loop meet, either a tick read a file with a prefix out of range
-- and the program ended, or the store serves the snapshot that it served before them, or the whole of
-- one that a tick decoded: no error loses a table or leaves a part of one.
pub run_ticks-current :
    (net : Parsers) (s : Store) (ticks : List (ℕ × Option ℕ × Opened))
    → Served net s ticks (run_ticks net s ticks)
unfolding run_ticks
run_ticks-current net s [] = inr (s, refl, inl refl)
run_ticks-current net s ((now, stat, opened) ∷ ticks) = elim (tick-Ticked net now stat opened s) [
  | inl is ↦
      rw (run_ticks, is) (later net now stat opened s ticks _ (run_ticks-current net s ticks))
  | inr (inl (is, fatal)) ↦ rw (run_ticks, is) (inl (refl, inl fatal))
  | inr (inr (snap, is, from)) ↦
      rw (run_ticks, is)
        (replaced net now stat opened s snap ticks _ from
          (run_ticks-current net (record { current = some snap }) ticks))
]

-- ===== src/Tests/Runs.antt =====
-- Runs of merge, snapshot and gate of src/prf/stream.hpp and of lift of src/prf/cell.hpp over several
-- transactions, in which 3 sets a source before 1 has updated the value, and 1 ends.
use prf.Base.{
  ℕ, ◌+◌, ◌≤◌, ◌<◌, ◌≡◌, Bool, true, false, none, List, [], ◌∷◌, arith, ltb, if◌then◌else◌,
}
use prf.Values.Cell.{sample}
use prf.Values.Stream.{stream_sample}
use prf.Values.Updaters.{value, merge_updater, gate_updater}
use prf.Values.Snapshot.{snapshot_updater_1}
use prf.Values.Lift.{lift_updater_1}
use prf.Values.Runs.{
  Event, set_first, set_second, update_at, end_at, cell, stream, run, updated_to, ended_to,
}
use prf.Values.Runs.Intended.{merged, both, gated}
use prf.Values.Runs.Combined.{run-merge_updater, run-snapshot_updater_1, run-gate_updater}
use prf.Values.Runs.Cells.{run-lift_updater_1}

abbrev numbers : List (Event ℕ ℕ)
numbers =
    set_first 1 10
    ∷ set_second 3 7
    ∷ set_second 1 5
    ∷ update_at 1
    ∷ set_first 3 30
    ∷ update_at 3
    ∷ end_at 1
    ∷ []

abbrev switches : List (Event ℕ Bool)
switches =
    set_second 0 true
    ∷ set_first 1 10
    ∷ set_second 2 false
    ∷ set_first 3 30
    ∷ update_at 1
    ∷ update_at 3
    ∷ end_at 1
    ∷ []

run-merge_updater_example :
    (a : List (ℕ × ℕ)) × (b : List (ℕ × ℕ)) × (c : List (ℕ × ℕ)) × (run stream stream stream
        (λ id. merge_updater id ◌+◌)
        numbers
        []
        []
        []
      ≡ value (a, b, c))
    × ((t : ℕ)
        → ended_to 0 numbers ≤ t
        → stream_sample t c ≡ (
            if ltb t (updated_to 0 numbers)
            then merged ◌+◌ (stream_sample t a) (stream_sample t b)
            else none))
run-merge_updater_example = run-merge_updater ◌+◌ numbers [] [] tt tt (ground arith)

run-snapshot_updater_1_example :
    (a : List (ℕ × ℕ)) × (b : List (ℕ × ℕ)) × (c : List (ℕ × ℕ)) × (run stream cell stream
        (λ id. snapshot_updater_1 id ◌+◌)
        numbers
        []
        []
        []
      ≡ value (a, b, c))
    × ((t : ℕ)
        → ended_to 0 numbers ≤ t
        → stream_sample t c ≡ (
            if ltb t (updated_to 0 numbers)
            then both ◌+◌ (stream_sample t a) (sample t b)
            else none))
run-snapshot_updater_1_example = run-snapshot_updater_1 ◌+◌ numbers [] [] tt tt (ground arith)

run-gate_updater_example :
    (a : List (ℕ × ℕ)) × (b : List (ℕ × Bool)) × (c : List (ℕ × ℕ)) × (run stream cell stream
        (λ id x y. gate_updater id y x)
        switches
        []
        []
        []
      ≡ value (a, b, c))
    × ((t : ℕ)
        → ended_to 0 switches ≤ t
        → stream_sample t c ≡ (
            if ltb t (updated_to 0 switches) then gated (stream_sample t a) (sample t b) else none))
run-gate_updater_example = run-gate_updater switches [] [] tt tt (ground arith)

run-lift_updater_1_example :
    (a : List (ℕ × ℕ)) × (b : List (ℕ × ℕ)) × (c : List (ℕ × ℕ)) × (run cell cell cell
        (λ id. lift_updater_1 id ◌+◌)
        numbers
        []
        []
        []
      ≡ value (a, b, c))
    × ((t : ℕ)
        → ended_to 0 numbers ≤ t
        → t < updated_to 0 numbers
        → sample t c ≡ both ◌+◌ (sample t a) (sample t b))
run-lift_updater_1_example = run-lift_updater_1 ◌+◌ numbers [] [] tt tt (ground arith)

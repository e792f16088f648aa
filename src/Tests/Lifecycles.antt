-- ===== src/Tests/Lifecycles.antt =====
-- Runs of src/prf/cluster.cpp on concrete data.
use prf.Base.{ℕ, ◌+◌, ◌≤◌, ◌≡◌, refl, inl, inr, true, some, List, [], ◌∷◌, arith, length}
use prf.Cluster.{
  new_cluster_manager, Program, Event, construct, close, destroy, new_program, is_in_cluster, step,
  run,
}
use prf.Cluster.Lifetimes.{IsSound, AllLegal, Effect, step_lem, run_lem}

-- The names are numbers.
abbrev start : Program ℕ
start = new_program

start-IsSound : IsSound start
unfolding new_program new_cluster_manager
start-IsSound = record { counted = refl; few = omega arith; named = λ j h. refl }

step_lem_example :
    (p' : Program ℕ) × (step start (construct 70) ≡ some p')
    × IsSound p'
    × Effect start (construct 70) p'
unfolding new_program new_cluster_manager
step_lem_example = step_lem start (construct 70) start-IsSound tt (omega arith)

-- Two nested clusters, the inner one of which is closed before its end.
abbrev nested : List (Event ℕ)
nested = construct 70 ∷ construct 80 ∷ close 1 ∷ destroy 1 ∷ destroy 0 ∷ []

nested-AllLegal : AllLegal start nested
unfolding step new_program new_cluster_manager
nested-AllLegal = (tt, (tt, (refl, (inr refl, (inl refl, tt)))))

run_lem_example :
    (p' : Program ℕ) × (run start nested ≡ some p')
    × IsSound p'
    × (is_in_cluster p'.manager ≡ true)
    × (start.manager.global_current_id ≤ p'.manager.global_current_id)
    × (p'.manager.global_current_id ≤ start.manager.global_current_id + length nested)
unfolding new_program new_cluster_manager
run_lem_example = run_lem start nested start-IsSound nested-AllLegal (omega arith)

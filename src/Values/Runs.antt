-- ===== src/Values/Runs.antt =====
-- A value of src/prf/cell.hpp or src/prf/stream.hpp with two sources, over many transactions. The
-- sources may be ahead: a transaction may set them before an earlier one has updated the value.
pub mod Ends
pub mod Intended
pub mod Streams
pub mod Combined
pub mod Cells
use prf.Base.{
  ℕ, suc, ◌≤◌, ◌<◌, ◌≡◌, Bool, true, false, none, some, List, [], ◌∷◌, find, assign, get_or_default,
  KeysAscending,
}
use prf.Values.Cell.{refresh}
use prf.Values.Stream.{stream_refresh}
use prf.Values.Updaters.{
  Update, exits, undefined, nothing, value, ◌>>=◌, or_exit, cell_update, stream_update,
}

pub data Kind : Type 0 where
  cell stream : Kind

module _ {T : Type 0} where
  unfoldable pub update_value : Kind → ℕ → Update T → List (ℕ × T) → Update (List (ℕ × T) × Bool)
  update_value cell id u m = cell_update id u m
  update_value stream id u m = stream_update id u m

  -- The refresh at the end of a transaction, for a value that is among its cleanups where the
  -- transaction has set it.
  unfoldable pub refresh_value : Kind → ℕ → List (ℕ × T) → Update (List (ℕ × T))
  refresh_value cell id m = elim (find id m) [ none ↦ value m | some v ↦ or_exit (refresh id m) ]
  refresh_value stream id m = value (stream_refresh id m)

  -- The map that the refresh leaves.
  unfoldable pub refreshed : Kind → ℕ → List (ℕ × T) → List (ℕ × T)
  refreshed cell id m = get_or_default m (refresh id m)
  refreshed stream id m = stream_refresh id m

-- A transaction sets the first source, or the second, or its turn comes to update the value, or it
-- ends and refreshes all three.
pub data Event (T U : Type 0) : Type 0 where
  set_first : ℕ → T → Event T U
  set_second : ℕ → U → Event T U
  update_at : ℕ → Event T U
  end_at : ℕ → Event T U

module _ {T U V : Type 0} (first second output : Kind)
    (updater : ℕ → List (ℕ × T) → List (ℕ × U) → Update V) where
  -- The sources and the value, after the events. `assign` is what send does to a map.
  unfoldable pub run :
      List (Event T U)
      → List (ℕ × T)
      → List (ℕ × U)
      → List (ℕ × V)
      → Update (List (ℕ × T) × List (ℕ × U) × List (ℕ × V))
  unfolding update_value refresh_value
  run [] a b c = value (a, b, c)
  run (set_first id v ∷ es) a b c = run es (assign id v a) b c
  run (set_second id u ∷ es) a b c = run es a (assign id u b) c
  run (update_at id ∷ es) a b c = do
    (c', registered) ← update_value output id (updater id a b) c
    run es a b c'
  run (end_at id ∷ es) a b c = do
    a' ← refresh_value first id a
    b' ← refresh_value second id b
    c' ← refresh_value output id c
    run es a' b' c'

module _ {T U : Type 0} where
  -- The time up to which the value is updated.
  abbrev pub updated_to : ℕ → List (Event T U) → ℕ
  updated_to done [] = done
  updated_to done (set_first id v ∷ es) = updated_to done es
  updated_to done (set_second id u ∷ es) = updated_to done es
  updated_to done (update_at id ∷ es) = updated_to (suc id) es
  updated_to done (end_at id ∷ es) = updated_to done es

  -- The last transaction that has ended.
  abbrev pub ended_to : ℕ → List (Event T U) → ℕ
  ended_to ended [] = ended
  ended_to ended (set_first id v ∷ es) = ended_to ended es
  ended_to ended (set_second id u ∷ es) = ended_to ended es
  ended_to ended (update_at id ∷ es) = ended_to ended es
  ended_to ended (end_at id ∷ es) = ended_to id es

  -- The value is updated in the order of the transactions, and in those where a source that it
  -- listens to was set; no source is set in a transaction that the update has passed; and
  -- transactions end in order, after their update.
  abbrev pub InTurn :
      Kind
      → Kind
      → (ℕ → List (ℕ × T) → List (ℕ × U) → Bool)
      → ℕ
      → ℕ
      → List (ℕ × T)
      → List (ℕ × U)
      → List (Event T U)
      → Type 0
  InTurn first second fires ended done a b [] = Unit
  InTurn first second fires ended done a b (set_first id v ∷ es) =
      (done ≤ id) × InTurn first second fires ended done (assign id v a) b es
  InTurn first second fires ended done a b (set_second id u ∷ es) =
      (done ≤ id) × InTurn first second fires ended done a (assign id u b) es
  InTurn first second fires ended done a b (update_at id ∷ es) =
      (done ≤ id)
      × (fires id a b ≡ true)
      × ((j : ℕ) → done ≤ j → j < id → fires j a b ≡ false)
      × InTurn first second fires ended (suc id) a b es
  InTurn first second fires ended done a b (end_at id ∷ es) =
      (ended ≤ id)
      × (id < done)
      × InTurn first second fires id done (refreshed first id a) (refreshed second id b) es

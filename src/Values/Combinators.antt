-- ===== src/Values/Combinators.antt =====
-- What hold and filter of src/prf/stream.hpp do in one transaction: the updater that they install
-- together with the update of the value that has it.
use prf.Base.{
  ℕ, ◌<◌, ◌≡◌, ◌⊎◌, inl, inr, Bool, true, false, some, List, arith, Bool-cases, KeysAscending,
}
use prf.Values.Cell.{sample, send, sample-send}
use prf.Values.Stream.{stream_sample, stream_send, stream_sample-send}
use prf.Values.Updaters.{
  value, or_exit, get_stream, hold_updater, filter_updater, cell_update, stream_update,
}

-- Where the stream has the value `v` in the transaction `id` and the cell's map is in order, the
-- update of the cell that Stream::hold makes registers its listeners, gives the cell the value `v`
-- at `id`, and leaves what it gives at an earlier time `t` as it was.
pub hold_updater_lem :
    {T : Type 0} (id t : ℕ) (v : T) (s m : List (ℕ × T))
    → stream_sample id s ≡ some v
    → KeysAscending 0 m
    → t < id
    → (m' : List (ℕ × T)) × (cell_update id (hold_updater id s) m ≡ value (m', true))
      × (sample id m' ≡ some v)
      × (sample t m' ≡ sample t m)
unfolding hold_updater cell_update get_stream or_exit
hold_updater_lem id t v s m h a lt = (
  send id v m,
  rw (h),
  (sample-send id id v m a).1 (omega arith) (λ j p q. absurd (omega arith)),
  (sample-send id t v m a).0 lt,
)

-- In a transaction where the stream has a value, the update of the filtered stream gives it
-- that value and registers its listeners where the predicate holds of it, and leaves it as it was
-- and registers none where it does not.
pub filter_updater_lem :
    {T : Type 0} (id : ℕ) (f : T → Bool) (v : T) (s m : List (ℕ × T))
    → stream_sample id s ≡ some v
    → ((f v ≡ true)
        × (m' : List (ℕ × T)) × (stream_update id (filter_updater id f s) m ≡ value (m', true))
        × (stream_sample id m' ≡ some v))
      ⊎ (f v ≡ false) × (stream_update id (filter_updater id f s) m ≡ value (m, false))
unfolding filter_updater stream_update get_stream or_exit
filter_updater_lem id f v s m h = elim (Bool-cases (f v)) [
  | inl holds ↦
      inl (holds, stream_send id v m, rw (h, holds), ground (arith, stream_sample-send id id v m))
  | inr fails ↦ inr (fails, rw (h, fails))
]

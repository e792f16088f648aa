-- ===== src/Values/Runs/Ends.antt =====
-- What the refresh at the end of a transaction leaves of a value's map.
use prf.Base.{
  ℕ, ◌≤◌, ◌≡◌, refl, inl, inr, none, List, arith, ◌==◌, if◌then◌else◌, find, find-remove,
  KeysAscending, KeysAscending-remove,
}
use prf.Values.Cell.{sample, refresh_lem, KeysAscending-refresh}
use prf.Values.Stream.{stream_refresh}
use prf.Values.Updaters.{value, or_exit}
use prf.Values.Runs.{Kind, cell, stream, refresh_value, refreshed}

module _ {T : Type 0} where
  -- Ending a transaction never exits.
  pub refresh_value-refreshed :
      (kind : Kind) (id : ℕ) (m : List (ℕ × T))
      → KeysAscending 0 m
      → refresh_value kind id m ≡ value (refreshed kind id m)
  unfolding refresh_value refreshed or_exit
  refresh_value-refreshed stream id m a = refl
  refresh_value-refreshed cell id m a = elim (refresh_lem id m a) [
    | inl (missing, e) ↦ rw (missing, e, refresh_value)
    | inr (w, m', found, e, finds, samples) ↦ rw (found, e, refresh_value)
  ]

  pub refreshed-KeysAscending :
      (kind : Kind) (id : ℕ) (m : List (ℕ × T))
      → KeysAscending 0 m
      → KeysAscending 0 (refreshed kind id m)
  unfolding refreshed stream_refresh
  refreshed-KeysAscending stream id m a = KeysAscending-remove 0 id m a
  refreshed-KeysAscending cell id m a = elim (refresh_lem id m a) [
    | inl (missing, e) ↦ rw e a
    | inr (w, m', found, e, finds, samples) ↦ rw e (KeysAscending-refresh id m m' a e)
  ]

  pub find-refreshed_stream :
      (id j : ℕ) (m : List (ℕ × T))
      → find j (refreshed stream id m) ≡ (if j == id then none else find j m)
  unfolding refreshed stream_refresh
  find-refreshed_stream id j m = find-remove j id m

  pub find-refreshed_cell :
      (id j : ℕ) (m : List (ℕ × T))
      → KeysAscending 0 m
      → id ≤ j
      → find j (refreshed cell id m) ≡ find j m
  unfolding refreshed
  find-refreshed_cell id j m a h = elim (refresh_lem id m a) [
    | inl (missing, e) ↦ rw e
    | inr (w, m', found, e, finds, samples) ↦ rw e (ground (arith, finds j))
  ]

  pub sample-refreshed_cell :
      (id t : ℕ) (m : List (ℕ × T))
      → KeysAscending 0 m
      → id ≤ t
      → sample t (refreshed cell id m) ≡ sample t m
  unfolding refreshed
  sample-refreshed_cell id t m a h = elim (refresh_lem id m a) [
    | inl (missing, e) ↦ rw e
    | inr (w, m', found, e, finds, samples) ↦ rw e (samples t h)
  ]

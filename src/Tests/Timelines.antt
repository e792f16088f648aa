-- ===== src/Tests/Timelines.antt =====
-- Runs of the values of src/prf/cell.hpp and src/prf/stream.hpp on concrete data.
use prf.Base.{
  ℕ, ◌+◌, ◌≤◌, ◌≡◌, ◌⊎◌, refl, true, false, none, some, List, [], ◌∷◌, arith, ltb, if◌then◌else◌,
  find,
}
use prf.Values.Cell.{sample, refresh, Latest, sample-Latest, refresh_lem}
use prf.Values.Stream.{stream_sample}
use prf.Values.Updaters.{value, hold_updater, filter_updater, stream_update, cell_update, apply}
use prf.Values.Snapshot.{
  snapshot_updater_1, snapshot_updater_2, snapshot_updater_3, snapshot_updater_4,
  snapshot_updater_5, snapshot_updater_6, snapshot_updater_7, snapshot_updater_8,
  snapshot_updater_9, snapshot_updater_10,
}
use prf.Values.Snapshot.Arity.{snapshot-apply}
use prf.Values.Lift.{
  lift_updater_1, lift_updater_2, lift_updater_3, lift_updater_4, lift_updater_5, lift_updater_6,
  lift_updater_7, lift_updater_8, lift_updater_9, lift_updater_10,
}
use prf.Values.Lift.Arity.{lift-apply}
use prf.Values.Combinators.{hold_updater_lem, filter_updater_lem}

-- 10 at the time 1, 30 at 3, and 50 at 5.
abbrev timeline : List (ℕ × ℕ)
timeline = (1, 10) ∷ (3, 30) ∷ (5, 50) ∷ []

sample-Latest_example : Latest timeline 4 (sample 4 timeline)
sample-Latest_example = sample-Latest 4 timeline (ground arith)

refresh_lem_example :
    (find 3 timeline ≡ none) × (refresh 3 timeline ≡ none)
    ⊎ (w : ℕ) × (m' : List (ℕ × ℕ)) × (find 3 timeline ≡ some w)
      × (refresh 3 timeline ≡ some m')
      × ((j : ℕ) → find j m' ≡ (if ltb j 3 then none else find j timeline))
      × ((t : ℕ) → 3 ≤ t → sample t m' ≡ sample t timeline)
refresh_lem_example = refresh_lem 3 timeline (ground arith)

abbrev held : List (ℕ × ℕ)
held = (0, 7) ∷ []

hold_updater_lem_example :
    (m' : List (ℕ × ℕ)) × (cell_update 3 (hold_updater 3 timeline) held ≡ value (m', true))
    × (sample 3 m' ≡ some 30)
    × (sample 2 m' ≡ sample 2 held)
unfolding stream_sample
hold_updater_lem_example = hold_updater_lem 3 2 30 timeline held refl (ground arith) (ground arith)

filter_updater_lem_example :
    ((ltb 20 30 ≡ true)
      × (m' : List (ℕ × ℕ)) × (stream_update 3 (filter_updater 3 (ltb 20) timeline) []
          ≡ value (m', true))
      × (stream_sample 3 m' ≡ some 30))
    ⊎ (ltb 20 30 ≡ false)
      × (stream_update 3 (filter_updater 3 (ltb 20) timeline) [] ≡ value ([], false))
unfolding stream_sample
filter_updater_lem_example = filter_updater_lem 3 (ltb 20) 30 timeline [] refl

abbrev sum_2 : ℕ → ℕ → ℕ → ℕ
sum_2 x a b = x + a + b

abbrev sum_3 : ℕ → ℕ → ℕ → ℕ → ℕ
sum_3 x a b c = x + a + b + c

abbrev sum_4 : ℕ → ℕ → ℕ → ℕ → ℕ → ℕ
sum_4 x a b c d = x + a + b + c + d

abbrev sum_5 : ℕ → ℕ → ℕ → ℕ → ℕ → ℕ → ℕ
sum_5 x a b c d e = x + a + b + c + d + e

abbrev sum_6 : ℕ → ℕ → ℕ → ℕ → ℕ → ℕ → ℕ → ℕ
sum_6 x a b c d e f = x + a + b + c + d + e + f

abbrev sum_7 : ℕ → ℕ → ℕ → ℕ → ℕ → ℕ → ℕ → ℕ → ℕ
sum_7 x a b c d e f g = x + a + b + c + d + e + f + g

abbrev sum_8 : ℕ → ℕ → ℕ → ℕ → ℕ → ℕ → ℕ → ℕ → ℕ → ℕ
sum_8 x a b c d e f g h = x + a + b + c + d + e + f + g + h

abbrev sum_9 : ℕ → ℕ → ℕ → ℕ → ℕ → ℕ → ℕ → ℕ → ℕ → ℕ → ℕ
sum_9 x a b c d e f g h i = x + a + b + c + d + e + f + g + h + i

abbrev sum_10 : ℕ → ℕ → ℕ → ℕ → ℕ → ℕ → ℕ → ℕ → ℕ → ℕ → ℕ → ℕ
sum_10 x a b c d e f g h i j = x + a + b + c + d + e + f + g + h + i + j

snapshot-apply_example :
    (snapshot_updater_2 3 sum_2 timeline timeline timeline
      ≡ apply 3 (snapshot_updater_1 3 sum_2 timeline timeline) timeline)
    × (snapshot_updater_3 3 sum_3 timeline timeline timeline timeline
        ≡ apply 3 (snapshot_updater_2 3 sum_3 timeline timeline timeline) timeline)
    × (snapshot_updater_4 3 sum_4 timeline timeline timeline timeline timeline
        ≡ apply 3 (snapshot_updater_3 3 sum_4 timeline timeline timeline timeline) timeline)
    × (snapshot_updater_5 3 sum_5 timeline timeline timeline timeline timeline timeline
        ≡ apply 3
            (snapshot_updater_4 3 sum_5 timeline timeline timeline timeline timeline)
            timeline)
    × (snapshot_updater_6 3 sum_6 timeline timeline timeline timeline timeline timeline timeline
        ≡ apply 3
            (snapshot_updater_5 3 sum_6 timeline timeline timeline timeline timeline timeline)
            timeline)
    × (snapshot_updater_7 3 sum_7 timeline timeline timeline timeline timeline timeline timeline
          timeline
        ≡ apply 3
            (snapshot_updater_6 3 sum_7 timeline timeline timeline timeline timeline timeline
              timeline)
            timeline)
    × (snapshot_updater_8 3 sum_8 timeline timeline timeline timeline timeline timeline timeline
          timeline timeline
        ≡ apply 3
            (snapshot_updater_7 3 sum_8 timeline timeline timeline timeline timeline timeline
              timeline timeline)
            timeline)
    × (snapshot_updater_9 3 sum_9 timeline timeline timeline timeline timeline timeline timeline
          timeline timeline timeline
        ≡ apply 3
            (snapshot_updater_8 3 sum_9 timeline timeline timeline timeline timeline timeline
              timeline timeline timeline)
            timeline)
    × (snapshot_updater_10 3 sum_10 timeline timeline timeline timeline timeline timeline timeline
          timeline timeline timeline timeline
        ≡ apply 3
            (snapshot_updater_9 3 sum_10 timeline timeline timeline timeline timeline timeline
              timeline timeline timeline timeline)
            timeline)
snapshot-apply_example =
    snapshot-apply {V = ℕ} 3 timeline timeline timeline timeline timeline timeline timeline timeline
      timeline timeline timeline sum_2 sum_3 sum_4 sum_5 sum_6 sum_7 sum_8 sum_9 sum_10

lift-apply_example :
    (lift_updater_2 3 sum_2 timeline timeline timeline
      ≡ apply 3 (lift_updater_1 3 sum_2 timeline timeline) timeline)
    × (lift_updater_3 3 sum_3 timeline timeline timeline timeline
        ≡ apply 3 (lift_updater_2 3 sum_3 timeline timeline timeline) timeline)
    × (lift_updater_4 3 sum_4 timeline timeline timeline timeline timeline
        ≡ apply 3 (lift_updater_3 3 sum_4 timeline timeline timeline timeline) timeline)
    × (lift_updater_5 3 sum_5 timeline timeline timeline timeline timeline timeline
        ≡ apply 3 (lift_updater_4 3 sum_5 timeline timeline timeline timeline timeline) timeline)
    × (lift_updater_6 3 sum_6 timeline timeline timeline timeline timeline timeline timeline
        ≡ apply 3
            (lift_updater_5 3 sum_6 timeline timeline timeline timeline timeline timeline)
            timeline)
    × (lift_updater_7 3 sum_7 timeline timeline timeline timeline timeline timeline timeline
          timeline
        ≡ apply 3
            (lift_updater_6 3 sum_7 timeline timeline timeline timeline timeline timeline timeline)
            timeline)
    × (lift_updater_8 3 sum_8 timeline timeline timeline timeline timeline timeline timeline
          timeline timeline
        ≡ apply 3
            (lift_updater_7 3 sum_8 timeline timeline timeline timeline timeline timeline timeline
              timeline)
            timeline)
    × (lift_updater_9 3 sum_9 timeline timeline timeline timeline timeline timeline timeline
          timeline timeline timeline
        ≡ apply 3
            (lift_updater_8 3 sum_9 timeline timeline timeline timeline timeline timeline timeline
              timeline timeline)
            timeline)
    × (lift_updater_10 3 sum_10 timeline timeline timeline timeline timeline timeline timeline
          timeline timeline timeline timeline
        ≡ apply 3
            (lift_updater_9 3 sum_10 timeline timeline timeline timeline timeline timeline timeline
              timeline timeline timeline)
            timeline)
lift-apply_example =
    lift-apply {V = ℕ} 3 timeline timeline timeline timeline timeline timeline timeline timeline
      timeline timeline timeline sum_2 sum_3 sum_4 sum_5 sum_6 sum_7 sum_8 sum_9 sum_10

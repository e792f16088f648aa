-- ===== src/Values/Snapshot/Arity.antt =====
-- How the updaters of Stream::snapshot (src/prf/stream.hpp) for the numbers of cells are related.
use prf.Base.{ℕ, ◌≡◌, List}
use prf.Values.Updaters.{bind_assoc, apply}
use prf.Values.Snapshot.{
  snapshot_updater_1, snapshot_updater_2, snapshot_updater_3, snapshot_updater_4,
  snapshot_updater_5, snapshot_updater_6, snapshot_updater_7, snapshot_updater_8,
  snapshot_updater_9, snapshot_updater_10,
}

module _ {T U1 U2 U3 U4 U5 U6 U7 U8 U9 U10 V : Type 0} (id : ℕ) (m : List (ℕ × T))
    (m1 : List (ℕ × U1)) (m2 : List (ℕ × U2)) (m3 : List (ℕ × U3)) (m4 : List (ℕ × U4))
    (m5 : List (ℕ × U5)) (m6 : List (ℕ × U6)) (m7 : List (ℕ × U7)) (m8 : List (ℕ × U8))
    (m9 : List (ℕ × U9)) (m10 : List (ℕ × U10)) where
  snapshot_2-apply :
      (f : T → U1 → U2 → V)
      → snapshot_updater_2 id f m m1 m2 ≡ apply id (snapshot_updater_1 id f m m1) m2
  unfolding snapshot_updater_1 snapshot_updater_2 apply
  snapshot_2-apply f = simp (bind_assoc)

  snapshot_3-apply :
      (f : T → U1 → U2 → U3 → V)
      → snapshot_updater_3 id f m m1 m2 m3 ≡ apply id (snapshot_updater_2 id f m m1 m2) m3
  unfolding snapshot_updater_2 snapshot_updater_3 apply
  snapshot_3-apply f = simp (bind_assoc)

  snapshot_4-apply :
      (f : T → U1 → U2 → U3 → U4 → V)
      → snapshot_updater_4 id f m m1 m2 m3 m4 ≡ apply id (snapshot_updater_3 id f m m1 m2 m3) m4
  unfolding snapshot_updater_3 snapshot_updater_4 apply
  snapshot_4-apply f = simp (bind_assoc)

  snapshot_5-apply :
      (f : T → U1 → U2 → U3 → U4 → U5 → V)
      → snapshot_updater_5 id f m m1 m2 m3 m4 m5
        ≡ apply id (snapshot_updater_4 id f m m1 m2 m3 m4) m5
  unfolding snapshot_updater_4 snapshot_updater_5 apply
  snapshot_5-apply f = simp (bind_assoc)

  snapshot_6-apply :
      (f : T → U1 → U2 → U3 → U4 → U5 → U6 → V)
      → snapshot_updater_6 id f m m1 m2 m3 m4 m5 m6
        ≡ apply id (snapshot_updater_5 id f m m1 m2 m3 m4 m5) m6
  unfolding snapshot_updater_5 snapshot_updater_6 apply
  snapshot_6-apply f = simp (bind_assoc)

  snapshot_7-apply :
      (f : T → U1 → U2 → U3 → U4 → U5 → U6 → U7 → V)
      → snapshot_updater_7 id f m m1 m2 m3 m4 m5 m6 m7
        ≡ apply id (snapshot_updater_6 id f m m1 m2 m3 m4 m5 m6) m7
  unfolding snapshot_updater_6 snapshot_updater_7 apply
  snapshot_7-apply f = simp (bind_assoc)

  snapshot_8-apply :
      (f : T → U1 → U2 → U3 → U4 → U5 → U6 → U7 → U8 → V)
      → snapshot_updater_8 id f m m1 m2 m3 m4 m5 m6 m7 m8
        ≡ apply id (snapshot_updater_7 id f m m1 m2 m3 m4 m5 m6 m7) m8
  unfolding snapshot_updater_7 snapshot_updater_8 apply
  snapshot_8-apply f = simp (bind_assoc)

  snapshot_9-apply :
      (f : T → U1 → U2 → U3 → U4 → U5 → U6 → U7 → U8 → U9 → V)
      → snapshot_updater_9 id f m m1 m2 m3 m4 m5 m6 m7 m8 m9
        ≡ apply id (snapshot_updater_8 id f m m1 m2 m3 m4 m5 m6 m7 m8) m9
  unfolding snapshot_updater_8 snapshot_updater_9 apply
  snapshot_9-apply f = simp (bind_assoc)

  snapshot_10-apply :
      (f : T → U1 → U2 → U3 → U4 → U5 → U6 → U7 → U8 → U9 → U10 → V)
      → snapshot_updater_10 id f m m1 m2 m3 m4 m5 m6 m7 m8 m9 m10
        ≡ apply id (snapshot_updater_9 id f m m1 m2 m3 m4 m5 m6 m7 m8 m9) m10
  unfolding snapshot_updater_9 snapshot_updater_10 apply
  snapshot_10-apply f = simp (bind_assoc)

  -- A snapshot of k + 1 cells, for each k from 1 to 9, is the snapshot of the first k that gives a function,
  -- applied to the value of the last cell; where the first part gives no value that is the result,
  -- and a missing value in the last cell gives none.
  pub snapshot-apply :
      (f2 : T → U1 → U2 → V)
      → (f3 : T → U1 → U2 → U3 → V) → (f4 : T → U1 → U2 → U3 → U4 → V)
      → (f5 : T → U1 → U2 → U3 → U4 → U5 → V) → (f6 : T → U1 → U2 → U3 → U4 → U5 → U6 → V)
      → (f7 : T → U1 → U2 → U3 → U4 → U5 → U6 → U7 → V)
      → (f8 : T → U1 → U2 → U3 → U4 → U5 → U6 → U7 → U8 → V)
      → (f9 : T → U1 → U2 → U3 → U4 → U5 → U6 → U7 → U8 → U9 → V)
      → (f10 : T → U1 → U2 → U3 → U4 → U5 → U6 → U7 → U8 → U9 → U10 → V)
      → (snapshot_updater_2 id f2 m m1 m2 ≡ apply id (snapshot_updater_1 id f2 m m1) m2)
        × (snapshot_updater_3 id f3 m m1 m2 m3 ≡ apply id (snapshot_updater_2 id f3 m m1 m2) m3)
        × (snapshot_updater_4 id f4 m m1 m2 m3 m4
            ≡ apply id (snapshot_updater_3 id f4 m m1 m2 m3) m4)
        × (snapshot_updater_5 id f5 m m1 m2 m3 m4 m5
            ≡ apply id (snapshot_updater_4 id f5 m m1 m2 m3 m4) m5)
        × (snapshot_updater_6 id f6 m m1 m2 m3 m4 m5 m6
            ≡ apply id (snapshot_updater_5 id f6 m m1 m2 m3 m4 m5) m6)
        × (snapshot_updater_7 id f7 m m1 m2 m3 m4 m5 m6 m7
            ≡ apply id (snapshot_updater_6 id f7 m m1 m2 m3 m4 m5 m6) m7)
        × (snapshot_updater_8 id f8 m m1 m2 m3 m4 m5 m6 m7 m8
            ≡ apply id (snapshot_updater_7 id f8 m m1 m2 m3 m4 m5 m6 m7) m8)
        × (snapshot_updater_9 id f9 m m1 m2 m3 m4 m5 m6 m7 m8 m9
            ≡ apply id (snapshot_updater_8 id f9 m m1 m2 m3 m4 m5 m6 m7 m8) m9)
        × (snapshot_updater_10 id f10 m m1 m2 m3 m4 m5 m6 m7 m8 m9 m10
            ≡ apply id (snapshot_updater_9 id f10 m m1 m2 m3 m4 m5 m6 m7 m8 m9) m10)
  snapshot-apply f2 f3 f4 f5 f6 f7 f8 f9 f10 = (
    snapshot_2-apply f2,
    snapshot_3-apply f3,
    snapshot_4-apply f4,
    snapshot_5-apply f5,
    snapshot_6-apply f6,
    snapshot_7-apply f7,
    snapshot_8-apply f8,
    snapshot_9-apply f9,
    snapshot_10-apply f10,
  )

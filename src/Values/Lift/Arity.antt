-- ===== src/Values/Lift/Arity.antt =====
-- How the updaters of Cell::lift (src/prf/cell.hpp) for the numbers of cells are related.
use prf.Base.{ℕ, ◌≡◌, List}
use prf.Values.Updaters.{bind_assoc, apply}
use prf.Values.Lift.{
  lift_updater_1, lift_updater_2, lift_updater_3, lift_updater_4, lift_updater_5, lift_updater_6,
  lift_updater_7, lift_updater_8, lift_updater_9, lift_updater_10,
}

module _ {T U1 U2 U3 U4 U5 U6 U7 U8 U9 U10 V : Type 0} (id : ℕ) (m : List (ℕ × T))
    (m1 : List (ℕ × U1)) (m2 : List (ℕ × U2)) (m3 : List (ℕ × U3)) (m4 : List (ℕ × U4))
    (m5 : List (ℕ × U5)) (m6 : List (ℕ × U6)) (m7 : List (ℕ × U7)) (m8 : List (ℕ × U8))
    (m9 : List (ℕ × U9)) (m10 : List (ℕ × U10)) where
  lift_2-apply :
      (f : T → U1 → U2 → V) → lift_updater_2 id f m m1 m2 ≡ apply id (lift_updater_1 id f m m1) m2
  unfolding lift_updater_1 lift_updater_2 apply
  lift_2-apply f = simp (bind_assoc)

  lift_3-apply :
      (f : T → U1 → U2 → U3 → V)
      → lift_updater_3 id f m m1 m2 m3 ≡ apply id (lift_updater_2 id f m m1 m2) m3
  unfolding lift_updater_2 lift_updater_3 apply
  lift_3-apply f = simp (bind_assoc)

  lift_4-apply :
      (f : T → U1 → U2 → U3 → U4 → V)
      → lift_updater_4 id f m m1 m2 m3 m4 ≡ apply id (lift_updater_3 id f m m1 m2 m3) m4
  unfolding lift_updater_3 lift_updater_4 apply
  lift_4-apply f = simp (bind_assoc)

  lift_5-apply :
      (f : T → U1 → U2 → U3 → U4 → U5 → V)
      → lift_updater_5 id f m m1 m2 m3 m4 m5 ≡ apply id (lift_updater_4 id f m m1 m2 m3 m4) m5
  unfolding lift_updater_4 lift_updater_5 apply
  lift_5-apply f = simp (bind_assoc)

  lift_6-apply :
      (f : T → U1 → U2 → U3 → U4 → U5 → U6 → V)
      → lift_updater_6 id f m m1 m2 m3 m4 m5 m6 ≡ apply id (lift_updater_5 id f m m1 m2 m3 m4 m5) m6
  unfolding lift_updater_5 lift_updater_6 apply
  lift_6-apply f = simp (bind_assoc)

  lift_7-apply :
      (f : T → U1 → U2 → U3 → U4 → U5 → U6 → U7 → V)
      → lift_updater_7 id f m m1 m2 m3 m4 m5 m6 m7
        ≡ apply id (lift_updater_6 id f m m1 m2 m3 m4 m5 m6) m7
  unfolding lift_updater_6 lift_updater_7 apply
  lift_7-apply f = simp (bind_assoc)

  lift_8-apply :
      (f : T → U1 → U2 → U3 → U4 → U5 → U6 → U7 → U8 → V)
      → lift_updater_8 id f m m1 m2 m3 m4 m5 m6 m7 m8
        ≡ apply id (lift_updater_7 id f m m1 m2 m3 m4 m5 m6 m7) m8
  unfolding lift_updater_7 lift_updater_8 apply
  lift_8-apply f = simp (bind_assoc)

  lift_9-apply :
      (f : T → U1 → U2 → U3 → U4 → U5 → U6 → U7 → U8 → U9 → V)
      → lift_updater_9 id f m m1 m2 m3 m4 m5 m6 m7 m8 m9
        ≡ apply id (lift_updater_8 id f m m1 m2 m3 m4 m5 m6 m7 m8) m9
  unfolding lift_updater_8 lift_updater_9 apply
  lift_9-apply f = simp (bind_assoc)

  lift_10-apply :
      (f : T → U1 → U2 → U3 → U4 → U5 → U6 → U7 → U8 → U9 → U10 → V)
      → lift_updater_10 id f m m1 m2 m3 m4 m5 m6 m7 m8 m9 m10
        ≡ apply id (lift_updater_9 id f m m1 m2 m3 m4 m5 m6 m7 m8 m9) m10
  unfolding lift_updater_9 lift_updater_10 apply
  lift_10-apply f = simp (bind_assoc)

  -- A lift of k + 1 cells, for each k from 1 to 9, is the lift of the first k that gives a function,
  -- applied to the value of the last cell; where the first part gives no value that is the result,
  -- and a missing value in the last cell gives none.
  pub lift-apply :
      (f2 : T → U1 → U2 → V)
      → (f3 : T → U1 → U2 → U3 → V) → (f4 : T → U1 → U2 → U3 → U4 → V)
      → (f5 : T → U1 → U2 → U3 → U4 → U5 → V) → (f6 : T → U1 → U2 → U3 → U4 → U5 → U6 → V)
      → (f7 : T → U1 → U2 → U3 → U4 → U5 → U6 → U7 → V)
      → (f8 : T → U1 → U2 → U3 → U4 → U5 → U6 → U7 → U8 → V)
      → (f9 : T → U1 → U2 → U3 → U4 → U5 → U6 → U7 → U8 → U9 → V)
      → (f10 : T → U1 → U2 → U3 → U4 → U5 → U6 → U7 → U8 → U9 → U10 → V)
      → (lift_updater_2 id f2 m m1 m2 ≡ apply id (lift_updater_1 id f2 m m1) m2)
        × (lift_updater_3 id f3 m m1 m2 m3 ≡ apply id (lift_updater_2 id f3 m m1 m2) m3)
        × (lift_updater_4 id f4 m m1 m2 m3 m4 ≡ apply id (lift_updater_3 id f4 m m1 m2 m3) m4)
        × (lift_updater_5 id f5 m m1 m2 m3 m4 m5 ≡ apply id (lift_updater_4 id f5 m m1 m2 m3 m4) m5)
        × (lift_updater_6 id f6 m m1 m2 m3 m4 m5 m6
            ≡ apply id (lift_updater_5 id f6 m m1 m2 m3 m4 m5) m6)
        × (lift_updater_7 id f7 m m1 m2 m3 m4 m5 m6 m7
            ≡ apply id (lift_updater_6 id f7 m m1 m2 m3 m4 m5 m6) m7)
        × (lift_updater_8 id f8 m m1 m2 m3 m4 m5 m6 m7 m8
            ≡ apply id (lift_updater_7 id f8 m m1 m2 m3 m4 m5 m6 m7) m8)
        × (lift_updater_9 id f9 m m1 m2 m3 m4 m5 m6 m7 m8 m9
            ≡ apply id (lift_updater_8 id f9 m m1 m2 m3 m4 m5 m6 m7 m8) m9)
        × (lift_updater_10 id f10 m m1 m2 m3 m4 m5 m6 m7 m8 m9 m10
            ≡ apply id (lift_updater_9 id f10 m m1 m2 m3 m4 m5 m6 m7 m8 m9) m10)
  lift-apply f2 f3 f4 f5 f6 f7 f8 f9 f10 = (
    lift_2-apply f2,
    lift_3-apply f3,
    lift_4-apply f4,
    lift_5-apply f5,
    lift_6-apply f6,
    lift_7-apply f7,
    lift_8-apply f8,
    lift_9-apply f9,
    lift_10-apply f10,
  )

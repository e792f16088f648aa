-- ===== src/Values/Lift.antt =====
-- src/prf/cell.hpp: the updaters of Cell::lift, one for each number of further cells. The
-- source writes out one overload for each number, and so does this file.
pub mod Arity
use prf.Base.{ℕ, List}
use prf.Values.Updaters.{Update, value, ◌>>=◌, get_cell}

-- Cell::lift with 1 cell beside this one.
unfoldable pub lift_updater_1 :
    {T U1 V : Type 0} → ℕ → (T → U1 → V) → List (ℕ × T) → List (ℕ × U1) → Update V
lift_updater_1 id f m m1 = do v ← get_cell id m; v1 ← get_cell id m1; value (f v v1)

-- Cell::lift with 2 cells beside this one.
unfoldable pub lift_updater_2 :
    {T U1 U2 V : Type 0}
    → ℕ
    → (T → U1 → U2 → V)
    → List (ℕ × T)
    → List (ℕ × U1)
    → List (ℕ × U2)
    → Update V
lift_updater_2 id f m m1 m2 = do
  v ← get_cell id m
  v1 ← get_cell id m1
  v2 ← get_cell id m2
  value (f v v1 v2)

-- Cell::lift with 3 cells beside this one.
unfoldable pub lift_updater_3 :
    {T U1 U2 U3 V : Type 0}
    → ℕ
    → (T → U1 → U2 → U3 → V)
    → List (ℕ × T)
    → List (ℕ × U1)
    → List (ℕ × U2)
    → List (ℕ × U3)
    → Update V
lift_updater_3 id f m m1 m2 m3 = do
  v ← get_cell id m
  v1 ← get_cell id m1
  v2 ← get_cell id m2
  v3 ← get_cell id m3
  value (f v v1 v2 v3)

-- Cell::lift with 4 cells beside this one.
unfoldable pub lift_updater_4 :
    {T U1 U2 U3 U4 V : Type 0}
    → ℕ
    → (T → U1 → U2 → U3 → U4 → V)
    → List (ℕ × T)
    → List (ℕ × U1)
    → List (ℕ × U2)
    → List (ℕ × U3)
    → List (ℕ × U4)
    → Update V
lift_updater_4 id f m m1 m2 m3 m4 = do
  v ← get_cell id m
  v1 ← get_cell id m1
  v2 ← get_cell id m2
  v3 ← get_cell id m3
  v4 ← get_cell id m4
  value (f v v1 v2 v3 v4)

-- Cell::lift with 5 cells beside this one.
unfoldable pub lift_updater_5 :
    {T U1 U2 U3 U4 U5 V : Type 0}
    → ℕ
    → (T → U1 → U2 → U3 → U4 → U5 → V)
    → List (ℕ × T)
    → List (ℕ × U1)
    → List (ℕ × U2)
    → List (ℕ × U3)
    → List (ℕ × U4)
    → List (ℕ × U5)
    → Update V
lift_updater_5 id f m m1 m2 m3 m4 m5 = do
  v ← get_cell id m
  v1 ← get_cell id m1
  v2 ← get_cell id m2
  v3 ← get_cell id m3
  v4 ← get_cell id m4
  v5 ← get_cell id m5
  value (f v v1 v2 v3 v4 v5)

-- Cell::lift with 6 cells beside this one.
unfoldable pub lift_updater_6 :
    {T U1 U2 U3 U4 U5 U6 V : Type 0}
    → ℕ
    → (T → U1 → U2 → U3 → U4 → U5 → U6 → V)
    → List (ℕ × T)
    → List (ℕ × U1)
    → List (ℕ × U2)
    → List (ℕ × U3)
    → List (ℕ × U4)
    → List (ℕ × U5)
    → List (ℕ × U6)
    → Update V
lift_updater_6 id f m m1 m2 m3 m4 m5 m6 = do
  v ← get_cell id m
  v1 ← get_cell id m1
  v2 ← get_cell id m2
  v3 ← get_cell id m3
  v4 ← get_cell id m4
  v5 ← get_cell id m5
  v6 ← get_cell id m6
  value (f v v1 v2 v3 v4 v5 v6)

-- Cell::lift with 7 cells beside this one.
unfoldable pub lift_updater_7 :
    {T U1 U2 U3 U4 U5 U6 U7 V : Type 0}
    → ℕ
    → (T → U1 → U2 → U3 → U4 → U5 → U6 → U7 → V)
    → List (ℕ × T)
    → List (ℕ × U1)
    → List (ℕ × U2)
    → List (ℕ × U3)
    → List (ℕ × U4)
    → List (ℕ × U5)
    → List (ℕ × U6)
    → List (ℕ × U7)
    → Update V
lift_updater_7 id f m m1 m2 m3 m4 m5 m6 m7 = do
  v ← get_cell id m
  v1 ← get_cell id m1
  v2 ← get_cell id m2
  v3 ← get_cell id m3
  v4 ← get_cell id m4
  v5 ← get_cell id m5
  v6 ← get_cell id m6
  v7 ← get_cell id m7
  value (f v v1 v2 v3 v4 v5 v6 v7)

-- Cell::lift with 8 cells beside this one.
unfoldable pub lift_updater_8 :
    {T U1 U2 U3 U4 U5 U6 U7 U8 V : Type 0}
    → ℕ
    → (T → U1 → U2 → U3 → U4 → U5 → U6 → U7 → U8 → V)
    → List (ℕ × T)
    → List (ℕ × U1)
    → List (ℕ × U2)
    → List (ℕ × U3)
    → List (ℕ × U4)
    → List (ℕ × U5)
    → List (ℕ × U6)
    → List (ℕ × U7)
    → List (ℕ × U8)
    → Update V
lift_updater_8 id f m m1 m2 m3 m4 m5 m6 m7 m8 = do
  v ← get_cell id m
  v1 ← get_cell id m1
  v2 ← get_cell id m2
  v3 ← get_cell id m3
  v4 ← get_cell id m4
  v5 ← get_cell id m5
  v6 ← get_cell id m6
  v7 ← get_cell id m7
  v8 ← get_cell id m8
  value (f v v1 v2 v3 v4 v5 v6 v7 v8)

-- Cell::lift with 9 cells beside this one.
unfoldable pub lift_updater_9 :
    {T U1 U2 U3 U4 U5 U6 U7 U8 U9 V : Type 0}
    → ℕ
    → (T → U1 → U2 → U3 → U4 → U5 → U6 → U7 → U8 → U9 → V)
    → List (ℕ × T)
    → List (ℕ × U1)
    → List (ℕ × U2)
    → List (ℕ × U3)
    → List (ℕ × U4)
    → List (ℕ × U5)
    → List (ℕ × U6)
    → List (ℕ × U7)
    → List (ℕ × U8)
    → List (ℕ × U9)
    → Update V
lift_updater_9 id f m m1 m2 m3 m4 m5 m6 m7 m8 m9 = do
  v ← get_cell id m
  v1 ← get_cell id m1
  v2 ← get_cell id m2
  v3 ← get_cell id m3
  v4 ← get_cell id m4
  v5 ← get_cell id m5
  v6 ← get_cell id m6
  v7 ← get_cell id m7
  v8 ← get_cell id m8
  v9 ← get_cell id m9
  value (f v v1 v2 v3 v4 v5 v6 v7 v8 v9)

-- Cell::lift with 10 cells beside this one.
unfoldable pub lift_updater_10 :
    {T U1 U2 U3 U4 U5 U6 U7 U8 U9 U10 V : Type 0}
    → ℕ
    → (T → U1 → U2 → U3 → U4 → U5 → U6 → U7 → U8 → U9 → U10 → V)
    → List (ℕ × T)
    → List (ℕ × U1)
    → List (ℕ × U2)
    → List (ℕ × U3)
    → List (ℕ × U4)
    → List (ℕ × U5)
    → List (ℕ × U6)
    → List (ℕ × U7)
    → List (ℕ × U8)
    → List (ℕ × U9)
    → List (ℕ × U10)
    → Update V
lift_updater_10 id f m m1 m2 m3 m4 m5 m6 m7 m8 m9 m10 = do
  v ← get_cell id m
  v1 ← get_cell id m1
  v2 ← get_cell id m2
  v3 ← get_cell id m3
  v4 ← get_cell id m4
  v5 ← get_cell id m5
  v6 ← get_cell id m6
  v7 ← get_cell id m7
  v8 ← get_cell id m8
  v9 ← get_cell id m9
  v10 ← get_cell id m10
  value (f v v1 v2 v3 v4 v5 v6 v7 v8 v9 v10)

-- ===== src/Base/Maps.antt =====
-- std::map with keys of type u64: association lists with ascending keys.
use Prim.Native.Nat.{ℕ, suc, ◌≤◌, ◌<◌}
use mathlib.Core.Path.{◌≡◌, refl}
use mathlib.Core.Option.{Option, none, some}
use mathlib.Core.List.{List, [], ◌∷◌}
use native.Mathlib.Omega.{arith}
use prf.Base.Tests.{◌==◌, ltb, if◌then◌else◌}

module _ {ℓ} {V : Type ℓ} where
  -- map.find(k)
  abbrev pub find : ℕ → List (ℕ × V) → Option V
  find k [] = none
  find k ((j, v) ∷ m) = if k == j then some v else find k m

  -- map[k] = v
  abbrev pub assign : ℕ → V → List (ℕ × V) → List (ℕ × V)
  assign k v [] = (k, v) ∷ []
  assign k v ((j, w) ∷ m) =
      if k == j then (k, v) ∷ m else if ltb k j then (k, v) ∷ (j, w) ∷ m else (j, w) ∷ assign k v m

  -- map.erase(k)
  abbrev pub remove : ℕ → List (ℕ × V) → List (ℕ × V)
  remove k [] = []
  remove k ((j, w) ∷ m) = if k == j then remove k m else (j, w) ∷ remove k m

  abbrev pub get_or_default : V → Option V → V
  get_or_default d none = d
  get_or_default d (some v) = v

  -- Keys strictly ascending, from `lo` on.
  abbrev pub KeysAscending : ℕ → List (ℕ × V) → Type 0
  KeysAscending lo [] = Unit
  KeysAscending lo ((k, v) ∷ m) = (lo ≤ k) × KeysAscending (suc k) m

  pub find-assign :
      (j k : ℕ) (v : V) (m : List (ℕ × V))
      → find j (assign k v m) ≡ (if j == k then some v else find j m)
  find-assign j k v [] = refl
  find-assign j k v ((i, w) ∷ m) = ground (arith, find-assign j k v m)

  pub find-remove :
      (j k : ℕ) (m : List (ℕ × V)) → find j (remove k m) ≡ (if j == k then none else find j m)
  find-remove j k [] = ground arith
  find-remove j k ((i, w) ∷ m) = ground (arith, find-remove j k m)

  pub KeysAscending-mono :
      (lo hi : ℕ) (m : List (ℕ × V)) → lo ≤ hi → KeysAscending hi m → KeysAscending lo m
  KeysAscending-mono lo hi [] h a = tt
  KeysAscending-mono lo hi ((k, v) ∷ m) h a = (omega arith, a.1)

  pub KeysAscending-assign :
      (lo k : ℕ) (v : V) (m : List (ℕ × V))
      → KeysAscending lo m
      → lo ≤ k
      → KeysAscending lo (assign k v m)
  KeysAscending-assign lo k v [] a h = (h, tt)
  KeysAscending-assign lo k v ((j, w) ∷ m) a h =
      ground (arith, KeysAscending-assign (suc j) k v m a.1)

  pub KeysAscending-remove :
      (lo k : ℕ) (m : List (ℕ × V)) → KeysAscending lo m → KeysAscending lo (remove k m)
  KeysAscending-remove lo k [] a = tt
  KeysAscending-remove lo k ((j, w) ∷ m) a =
      ground
        (arith, KeysAscending-remove (suc j) k m a.1, KeysAscending-mono lo (suc j) (remove k m))

  pub find_below : (lo k : ℕ) (m : List (ℕ × V)) → KeysAscending lo m → k < lo → find k m ≡ none
  find_below lo k [] a h = refl
  find_below lo k ((j, w) ∷ m) a h = ground (arith, find_below (suc j) k m a.1)

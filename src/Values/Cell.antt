-- ===== src/Values/Cell.antt =====
-- CellInternal of src/prf/cell.hpp. A cell has a value at every time from its first one on.
use prf.Base.{
  ℕ, suc, ◌≤◌, ◌<◌, ◌≡◌, ◌⊎◌, refl, inl, inr, Option, none, some, List, [], ◌∷◌, arith, ltb,
  if◌then◌else◌, Bool-cases, Option-cases, find, assign, find-assign, find_below, KeysAscending,
  KeysAscending-assign, KeysAscending-mono,
}

module _ {T : Type 0} where
  -- The step back from upper_bound(id): the value before the first later entry, if there is one.
  unfoldable pub before_bound : ℕ → Option T → List (ℕ × T) → Option T
  before_bound id last [] = last
  before_bound id last ((k, v) ∷ m) = if ltb id k then last else before_bound id (some v) m

  -- CellInternal::sample
  unfoldable pub sample : ℕ → List (ℕ × T) → Option T
  unfolding before_bound
  sample id m = before_bound id none m

  -- The write of CellInternal::send.
  unfoldable pub send : ℕ → T → List (ℕ × T) → List (ℕ × T)
  send id v m = assign id v m

  -- The loop of refresh: entries before `id` go.
  unfoldable pub drop_before : ℕ → List (ℕ × T) → List (ℕ × T)
  drop_before id [] = []
  drop_before id ((k, v) ∷ m) = if ltb k id then drop_before id m else (k, v) ∷ m

  -- CellInternal::refresh; `none` is the exit where the transaction has set no value.
  unfoldable pub refresh : ℕ → List (ℕ × T) → Option (List (ℕ × T))
  unfolding drop_before
  refresh id m = elim (find id m) [ none ↦ none | some v ↦ some (drop_before id m) ]

  -- The value at the time `id`, read off the map: the value of the last entry at or before `id`.
  pub data Latest (m : List (ℕ × T)) (id : ℕ) (r : Option T) : Type 0 where
    never : r ≡ none → ((j : ℕ) → j ≤ id → find j m ≡ none) → Latest m id r
    set_at :
        (k : ℕ) (v : T)
        → r ≡ some v
        → k ≤ id
        → find k m ≡ some v
        → ((j : ℕ) → k < j → j ≤ id → find j m ≡ none)
        → Latest m id r

  before_bound-below :
      (lo id : ℕ) (last : Option T) (m : List (ℕ × T))
      → KeysAscending lo m
      → id < lo
      → before_bound id last m ≡ last
  unfolding before_bound
  before_bound-below lo id last [] a h = refl
  before_bound-below lo id last ((k, v) ∷ m) a h = ground arith

  before_bound-Latest :
      (lo id k : ℕ) (v : T) (m : List (ℕ × T))
      → KeysAscending lo m
      → k < lo
      → k ≤ id
      → Latest ((k, v) ∷ m) id (before_bound id (some v) m)
  unfolding before_bound
  before_bound-Latest lo id k v [] a h low =
      set_at k v refl low (ground arith) (λ j p q. ground arith)
  before_bound-Latest lo id k v ((i, w) ∷ m) a h low = elim (Bool-cases (ltb id i)) [
    | inl later ↦
        rw later
          (set_at k v refl low (ground arith) (λ j p q. ground (arith, find_below (suc i) j m a.1)))
    | inr sooner ↦
        rw sooner (elim (before_bound-Latest (suc i) id i w m a.1 (omega arith) (ground arith)) [
          | never e h' ↦ absurd (ground (arith, h' i))
          | set_at k' v' e le f after ↦
              set_at k' v' e le (ground (arith, find_below lo k' ((i, w) ∷ m) a))
                (λ j p q. ground (arith, find_below lo k' ((i, w) ∷ m) a, after j p q))
        ])
  ]

  -- On a map in order, CellInternal::sample gives the value of the last entry at or before the time
  -- asked for, and nothing exactly where there is no such entry.
  pub sample-Latest : (id : ℕ) (m : List (ℕ × T)) → KeysAscending 0 m → Latest m id (sample id m)
  unfolding sample before_bound
  sample-Latest id [] a = never refl (λ j h. refl)
  sample-Latest id ((k, v) ∷ m) a = elim (Bool-cases (ltb id k)) [
    | inl later ↦ rw later (never refl (λ j h. ground (arith, find_below (suc k) j m a.1)))
    | inr sooner ↦ rw sooner (before_bound-Latest (suc k) id k v m a.1 (omega arith) (ground arith))
  ]

  Latest-unique :
      (m m' : List (ℕ × T)) (id : ℕ) (r r' : Option T)
      → ((j : ℕ) → j ≤ id → find j m ≡ find j m')
      → Latest m id r
      → Latest m' id r'
      → r ≡ r'
  Latest-unique m m' id r r' same (never e h) (never e' h') = ground arith
  Latest-unique m m' id r r' same (never e h) (set_at k v e' le f after) =
      absurd (ground (arith, h k le, same k le))
  Latest-unique m m' id r r' same (set_at k v e le f after) (never e' h') =
      absurd (ground (arith, h' k le, same k le))
  Latest-unique m m' id r r' same (set_at k v e le f after) (set_at k' v' e' le' f' after') =
      ground (arith, same k le, same k' le', after k', after' k)

  -- A value that is sent at `k` is what every sample from `k` on gives until the next entry, and
  -- samples before `k` do not change.
  pub sample-send :
      (k id : ℕ) (v : T) (m : List (ℕ × T))
      → KeysAscending 0 m
      → (id < k → sample id (send k v m) ≡ sample id m)
        × (k ≤ id → ((j : ℕ) → k < j → j ≤ id → find j m ≡ none) → sample id (send k v m) ≡ some v)
  unfolding send
  sample-send k id v m a =
      let m' = assign k v m in
      let new = sample-Latest id m' (KeysAscending-assign 0 k v m a (omega arith)) in
      (
        λ lt.
            Latest-unique m' m id (sample id m') (sample id m)
              (λ j le. ground (arith, find-assign j k v m)) new (sample-Latest id m a),
        λ le clear.
            Latest-unique m' m' id (sample id m') (some v) (λ j h. refl) new
              (set_at k v refl le (ground (arith, find-assign k k v m))
                (λ j p q. ground (arith, find-assign j k v m, clear j p q))),
      )

  before_bound-drop :
      (lo id t : ℕ) (l l' : Option T) (m : List (ℕ × T)) (w : T)
      → KeysAscending lo m
      → find id m ≡ some w
      → id ≤ t
      → before_bound t l (drop_before id m) ≡ before_bound t l' m
  unfolding before_bound drop_before
  before_bound-drop lo id t l l' [] w a f h = cc
  before_bound-drop lo id t l l' ((k, v) ∷ m) w a f h =
      ground (arith, find_below (suc k) id m a.1, before_bound-drop (suc k) id t l (some v) m w a.1)

  find-drop_before :
      (lo id j : ℕ) (m : List (ℕ × T))
      → KeysAscending lo m
      → find j (drop_before id m) ≡ (if ltb j id then none else find j m)
  unfolding drop_before
  find-drop_before lo id j [] a = ground arith
  find-drop_before lo id j ((k, v) ∷ m) a =
      ground (arith, find-drop_before (suc k) id j m a.1, find_below (suc k) j m a.1)

  KeysAscending-drop_before :
      (lo id : ℕ) (m : List (ℕ × T)) → KeysAscending lo m → KeysAscending lo (drop_before id m)
  unfolding drop_before
  KeysAscending-drop_before lo id [] a = tt
  KeysAscending-drop_before lo id ((k, v) ∷ m) a = ground (
    arith,
    KeysAscending-drop_before (suc k) id m a.1,
    KeysAscending-mono lo (suc k) (drop_before id m),
  )

  pub KeysAscending-refresh :
      (id : ℕ) (m m' : List (ℕ × T))
      → KeysAscending 0 m
      → refresh id m ≡ some m'
      → KeysAscending 0 m'
  unfolding refresh
  KeysAscending-refresh id m m' a e = elim (Option-cases (find id m)) [
    | inl missing ↦ absurd (ground (arith, missing, e))
    | inr (w, found) ↦
        let same : drop_before id m ≡ m' = ground (arith, found, e) in
        rw same at (KeysAscending-drop_before 0 id m a)
  ]

  -- On a map in order, CellInternal::refresh at a transaction that has set a value drops the
  -- entries before it, keeps the others, and leaves every sample from that time on as it was; at a
  -- transaction that has set no value it exits.
  pub refresh_lem :
      (id : ℕ) (m : List (ℕ × T))
      → KeysAscending 0 m
      → (find id m ≡ none) × (refresh id m ≡ none)
        ⊎ (w : T) × (m' : List (ℕ × T)) × (find id m ≡ some w)
          × (refresh id m ≡ some m')
          × ((j : ℕ) → find j m' ≡ (if ltb j id then none else find j m))
          × ((t : ℕ) → id ≤ t → sample t m' ≡ sample t m)
  unfolding refresh sample
  refresh_lem id m a = elim (Option-cases (find id m)) [
    | inl missing ↦ inl (missing, rw (missing, refresh))
    | inr (w, found) ↦ inr (
      w,
      drop_before id m,
      found,
      rw (found, refresh),
      λ j. find-drop_before 0 id j m a,
      λ t h. before_bound-drop 0 id t none none m w a found h,
    )
  ]

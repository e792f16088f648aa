-- ===== src/Planner/Effect.antt =====
-- What each handler does to the states that a search finds, where the starts come in the order of IDs.
use prf.Base.{
  ℕ, zero, suc, ◌+◌, ◌-◌, ◌≤◌, ◌<◌, ◌≡◌, ◌≢◌, ◌⊎◌, ◌↔◌, ◌∙◌, refl, sym, ap, false, inl, inr, none,
  some, List, [], ◌∷◌, ◌++◌, arith, ◌==◌, if◌then◌else◌, Bool-cases, Option-cases, u64_mod, length,
}
use prf.Planner.{TransactionState, new_state, handle_start, handle_finish}
use prf.Planner.Sequence.{Consecutive, find_state, fresh, handle_start-fresh}

-- The IDs of the states lie below `k`, and the last is `k - 1`.
pub record EndsAt (k : ℕ) (ss : List TransactionState) : Type 0 where
  pub below : (j : ℕ) → find_state j ss ≢ none → j < k
  pub last : (ss ≡ []) ⊎ (1 ≤ k) × (find_state (k - 1) ss ≢ none)

find_state-inside :
    (n j : ℕ) (ss : List TransactionState)
    → Consecutive n ss
    → n ≤ j
    → j < n + length ss
    → find_state j ss ≢ none
find_state-inside n j [] c low high = absurd (omega arith)
find_state-inside n j (s ∷ ss) c low high = elim (Bool-cases (s.transaction_id == j)) [
  | inl here ↦ ground arith
  | inr there ↦ rw there (find_state-inside (suc n) j ss c.1 (ground (arith, c.0)) (omega arith))
]

find_state-bounds :
    (n j : ℕ) (ss : List TransactionState)
    → Consecutive n ss
    → find_state j ss ≢ none
    → (n ≤ j) × (j < n + length ss)
find_state-bounds n j [] c h = absurd (h refl)
find_state-bounds n j (s ∷ ss) c h = elim (Bool-cases (s.transaction_id == j)) [
  | inl here ↦ ground (arith, c.0)
  | inr there ↦
      let (low, high) = find_state-bounds (suc n) j ss c.1 (rw there at h) in
      (omega arith, omega arith)
]

find_state-snoc :
    (n k j : ℕ) (ss : List TransactionState)
    → Consecutive n ss
    → ((i : ℕ) → find_state i ss ≢ none → i < k)
    → find_state j (ss ++ new_state k ∷ [])
      ≡ (if j == k then some (new_state k) else find_state j ss)
unfolding new_state
find_state-snoc n k j [] c h = ground arith
find_state-snoc n k j (s ∷ ss) c h =
    let first : n < k = h n (find_state-inside n n (s ∷ ss) c (omega arith) (omega arith)) in
    let later = λ (i : ℕ) (m : find_state i ss ≢ none).
      let (low, high) = find_state-bounds (suc n) i ss c.1 m in
      let p : i < k = h i (find_state-inside n i (s ∷ ss) c (omega arith) (omega arith)) in p in
    ground (arith, c.0, find_state-snoc (suc n) k j ss c.1 later)

EndsAt-start :
    (k : ℕ) (ss ss' : List TransactionState)
    → EndsAt k ss
    → ((j : ℕ) → find_state j ss' ≡ (if j == k then some (new_state k) else find_state j ss))
    → EndsAt (k + 1) ss'
EndsAt-start k ss ss' v e =
    let e' : k + 1 - 1 ≡ k = omega arith in
    record {
      below = λ j h. ground (arith, e j, v.below j);
      last = inr (omega arith, λ m. ground (arith, e (k + 1 - 1), m, e'));
    }

-- Where the start of `k` comes after those of all lower IDs, it adds its state and no other.
pub handle_start-next :
    (n k : ℕ) (ss : List TransactionState)
    → Consecutive n ss
    → EndsAt k ss
    → k < u64_mod
    → ((j : ℕ)
        → find_state j (handle_start ss k)
          ≡ (if j == k then some (new_state k) else find_state j ss))
      × EndsAt (k + 1) (handle_start ss k)
unfolding handle_start
handle_start-next n k [] c v lt =
    let e = λ (j : ℕ).
      let p : find_state j (new_state k ∷ []) ≡ (if j == k then some (new_state k) else none) =
        find_state-snoc n k j [] tt v.below in
      p in
    (e, EndsAt-start k [] (new_state k ∷ []) v e)
handle_start-next n k (s ∷ ts) c v lt =
    let end : n + length ts + 1 ≡ k = elim v.last [
      | inl missing ↦ cc
      | inr (pos, found) ↦
          let (low, high) = find_state-bounds n (k - 1) (s ∷ ts) c found in
          let last =
            v.below (n + length ts)
              (find_state-inside n (n + length ts) (s ∷ ts) c (omega arith) (omega arith)) in
          omega arith
    ] in
    let (grown, _) = handle_start-fresh n k s ts c lt in
    let one : k - (n + length ts) ≡ suc zero = omega arith in
    let at_k : n + length (s ∷ ts) ≡ k = omega arith in
    let grown' : handle_start (s ∷ ts) k ≡ ((s ∷ ts) ++ new_state k ∷ []) =
      rw (one, at_k) at grown in
    let e = λ (j : ℕ).
      let p : find_state j (handle_start (s ∷ ts) k)
          ≡ (if j == k then some (new_state k) else find_state j (s ∷ ts)) =
        rw grown' (find_state-snoc n k j (s ∷ ts) c v.below) in
      p in
    (e, EndsAt-start k (s ∷ ts) (handle_start (s ∷ ts) k) v e)

find_state-tail :
    (n j : ℕ) (s : TransactionState) (ts : List TransactionState)
    → Consecutive n (s ∷ ts)
    → (find_state j ts ≡ find_state j (s ∷ ts)) ⊎ (find_state j ts ≡ none)
find_state-tail n j s ts c = elim (Option-cases (find_state j ts)) [
  | inl missing ↦ inr missing
  | inr (t, found) ↦
      let (low, high) = find_state-bounds (suc n) j ts c.1 (λ m. ground (arith, found, m)) in
      inl (ground (arith, c.0))
]

EndsAt-tail :
    (n k : ℕ) (s : TransactionState) (ts : List TransactionState)
    → Consecutive n (s ∷ ts)
    → EndsAt k (s ∷ ts)
    → EndsAt k ts
EndsAt-tail n k s [] c v = record { below = λ j h. absurd (h refl); last = inl refl }
EndsAt-tail n k s (t ∷ ts) c v =
    let inside = λ (j : ℕ) (h : find_state j (t ∷ ts) ≢ none).
      let (low, high) = find_state-bounds (suc n) j (t ∷ ts) c.1 h in
      let p : j < k =
        v.below j (find_state-inside n j (s ∷ t ∷ ts) c (omega arith) (omega arith)) in
      p in
    let end =
      v.below (n + length (t ∷ ts))
        (find_state-inside n (n + length (t ∷ ts)) (s ∷ t ∷ ts) c (omega arith) (omega arith)) in
    record {
      below = inside;
      last = elim v.last [
        | inl missing ↦ cc
        | inr (pos, found) ↦
            let (low, high) = find_state-bounds n (k - 1) (s ∷ t ∷ ts) c found in
            inr (pos, find_state-inside (suc n) (k - 1) (t ∷ ts) c.1 (omega arith) (omega arith))
      ];
    }

-- The end of a transaction takes away no other state.
pub handle_finish-find :
    (n id : ℕ) (ss : List TransactionState)
    → Consecutive n ss
    → ((j : ℕ) → j ≢ id → find_state j (handle_finish ss id) ≡ find_state j ss)
      × ((j : ℕ)
          → (find_state j (handle_finish ss id) ≡ find_state j ss)
            ⊎ (find_state j (handle_finish ss id) ≡ none))
unfolding handle_finish
handle_finish-find n id [] c = (λ j h. refl, λ j. inl refl)
handle_finish-find n id (s ∷ ts) c = elim (Bool-cases (s.transaction_id == id)) [
  | inr other ↦ rw other (λ j h. refl, λ j. inl refl)
  | inl same ↦ rw same (λ j h. ground arith, λ j. find_state-tail n j s ts c)
]

pub handle_finish-EndsAt :
    (n k id : ℕ) (ss : List TransactionState)
    → Consecutive n ss
    → EndsAt k ss
    → EndsAt k (handle_finish ss id)
unfolding handle_finish
handle_finish-EndsAt n k id [] c v = v
handle_finish-EndsAt n k id (s ∷ ts) c v = elim (Bool-cases (s.transaction_id == id)) [
  | inr other ↦ rw other v
  | inl same ↦ rw same (EndsAt-tail n k s ts c v)
]

-- A start changes no state that is there, and the states that it adds are new.
find_state-append :
    (j : ℕ) (ss ts : List TransactionState)
    → (find_state j (ss ++ ts) ≡ find_state j ss)
      ⊎ (find_state j ss ≡ none) × (find_state j (ss ++ ts) ≡ find_state j ts)
find_state-append j [] ts = inr (refl, refl)
find_state-append j (s ∷ ss) ts = elim (Bool-cases (s.transaction_id == j)) [
  | inl here ↦ inl (ground arith)
  | inr there ↦ rw there (find_state-append j ss ts)
]

fresh_uninitialized :
    (n id j : ℕ) (s : TransactionState) → find_state j (fresh id n) ≡ some s → s.initialized ≡ false
unfolding new_state
fresh_uninitialized zero id j s h = absurd (ground arith)
fresh_uninitialized (suc n) id j s h = ground (arith, fresh_uninitialized n (suc id) j s)

pub handle_start_keeps :
    (n id j : ℕ) (ss : List TransactionState)
    → Consecutive n ss
    → id < u64_mod
    → (find_state j (handle_start ss id) ≡ find_state j ss)
      ⊎ (find_state j ss ≡ none)
        × ((s : TransactionState)
            → find_state j (handle_start ss id) ≡ some s
            → s.initialized ≡ false)
unfolding handle_start
handle_start_keeps n id j [] c lt = inr (refl, λ s h. fresh_uninitialized 1 id j s h)
handle_start_keeps n id j (s ∷ ts) c lt =
    let (grown, _) = handle_start-fresh n id s ts c lt in
    let more = fresh (n + length (s ∷ ts)) (id - (n + length ts)) in
    elim (find_state-append j (s ∷ ts) more) [
      | inl same ↦ inl (ap (find_state j) grown ∙ same)
      | inr (missing, e) ↦ inr (
        missing,
        λ s' h.
            fresh_uninitialized (id - (n + length ts)) (n + length (s ∷ ts)) j s'
              (sym e ∙ sym (ap (find_state j) grown) ∙ h),
      )
    ]

-- An update keeps the IDs that a search finds.
pub handle_update-EndsAt :
    (k : ℕ) (ss ss' : List TransactionState)
    → EndsAt k ss
    → ((j : ℕ) → (find_state j ss ≡ none) ↔ (find_state j ss' ≡ none))
    → (ss ≡ [] → ss' ≡ [])
    → EndsAt k ss'
handle_update-EndsAt k ss ss' v same empty = record {
  below = λ j h. v.below j (λ m. h ((same j).0 m));
  last = elim v.last [
    | inl none_left ↦ inl (empty none_left)
    | inr (pos, found) ↦ inr (pos, λ m. found ((same (k - 1)).1 m))
  ];
}

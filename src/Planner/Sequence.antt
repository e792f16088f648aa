-- ===== src/Planner/Sequence.antt =====
-- The deque of states: its IDs are consecutive, so the handler's random access finds the state with
-- the ID of the message.
use prf.Base.{
  ℕ, zero, suc, ◌+◌, ◌-◌, ◌≤◌, ◌<◌, ◌≡◌, ◌∙◌, refl, inl, inr, Option, none, some, List, [], ◌∷◌,
  ◌++◌, arith, ◌==◌, ltb, if◌then◌else◌, wrap, u64_mod, Bool-cases, length, get_elem?,
}
use mathlib.Core.List.{append-nil, append_assoc}
use prf.Planner.{TransactionState, new_state, last_id, fill_up_to, handle_start}

-- The IDs are `m`, `m + 1`, ….
abbrev pub Consecutive : ℕ → List TransactionState → Type 0
Consecutive m [] = Unit
Consecutive m (s ∷ ss) = (s.transaction_id ≡ m) × Consecutive (suc m) ss

-- The state of a transaction, by search.
abbrev pub find_state : ℕ → List TransactionState → Option TransactionState
find_state id [] = none
find_state id (s ∷ ss) = if s.transaction_id == id then some s else find_state id ss

-- New states for `n` IDs from `id` on.
abbrev pub fresh : ℕ → ℕ → List TransactionState
fresh id zero = []
fresh id (suc n) = new_state id ∷ fresh (suc id) n

pub find_state-get_elem? :
    (m : ℕ) (ss : List TransactionState) (j : ℕ)
    → Consecutive m ss
    → find_state j ss ≡ (if ltb j m then none else get_elem? ss (j - m))
find_state-get_elem? m [] j c = ground arith
find_state-get_elem? m (s ∷ ss) j c = elim (Bool-cases (ltb m j)) [
  | inl later ↦
      let e : j - m ≡ suc (j - suc m) = ground arith in
      rw e (ground (arith, find_state-get_elem? (suc m) ss j c.1))
  | inr soon ↦ elim (Bool-cases (m == j)) [
    | inl here ↦ let e : j - m ≡ zero = ground arith in rw e (ground arith)
    | inr before ↦ ground (arith, find_state-get_elem? (suc m) ss j c.1)
  ]
]

pub last_id-Consecutive :
    (m : ℕ) (s : TransactionState) (ts : List TransactionState)
    → Consecutive m (s ∷ ts)
    → last_id s ts ≡ m + length ts
last_id-Consecutive m s [] c = omega (arith, c.0)
last_id-Consecutive m s (t ∷ ts) c = omega (arith, last_id-Consecutive (suc m) t ts c.1)

last_id-append :
    (s t : TransactionState) (ts : List TransactionState)
    → last_id s (ts ++ t ∷ []) ≡ t.transaction_id
last_id-append s t [] = refl
last_id-append s t (u ∷ ts) = last_id-append u t ts

last_id-fresh :
    (s : TransactionState) (ts : List TransactionState) (id : ℕ)
    → last_id s (ts ++ new_state id ∷ []) ≡ id
unfolding new_state
last_id-fresh s ts id = last_id-append s (new_state id) ts

fill_up_to-fresh :
    (k id : ℕ) (s : TransactionState) (ts : List TransactionState)
    → id - last_id s ts ≤ k
    → id < u64_mod
    → fill_up_to k id s ts ≡ (s ∷ (ts ++ fresh (suc (last_id s ts)) (id - last_id s ts)))
unfolding fill_up_to
fill_up_to-fresh zero id s ts h lt =
    let e : id - last_id s ts ≡ zero = omega arith in rw e (rw append-nil)
fill_up_to-fresh (suc k) id s ts h lt = elim (Bool-cases (ltb (last_id s ts) id)) [
  | inl more ↦
      let below : last_id s ts < id = ground arith in
      let step : id - last_id s ts ≡ suc (id - suc (last_id s ts)) = omega arith in
      let next : wrap (last_id s ts + 1) ≡ suc (last_id s ts) = omega arith in
      let last = last_id-fresh s ts (suc (last_id s ts)) in
      rw (more, step, next)
        (fill_up_to-fresh k id s (ts ++ new_state (suc (last_id s ts)) ∷ []) (omega (arith, last))
            lt
          ∙ rw (last, append_assoc))
  | inr done ↦ let e : id - last_id s ts ≡ zero = ground arith in rw (done, e) (rw append-nil)
]

Consecutive-append :
    (m : ℕ) (ss ts : List TransactionState)
    → Consecutive m ss
    → Consecutive (m + length ss) ts
    → Consecutive m (ss ++ ts)
Consecutive-append m [] ts c d = let e : m + 0 ≡ m = omega arith in rw e at d
Consecutive-append m (s ∷ ss) ts c d =
    let e : m + suc (length ss) ≡ suc m + length ss = omega arith in
    (c.0, Consecutive-append (suc m) ss ts c.1 (rw e at d))

pub Consecutive-fresh : (n id : ℕ) → Consecutive id (fresh id n)
unfolding new_state
Consecutive-fresh zero id = tt
Consecutive-fresh (suc n) id = (refl, Consecutive-fresh n (suc id))

-- handleStartMessage, with an ID that is a u64, on a deque with consecutive IDs appends one
-- uninitialized state for each ID after the last up to the one of the message, changes no other
-- state, and keeps the IDs consecutive; its loop ends.
pub handle_start-fresh :
    (m id : ℕ) (s : TransactionState) (ts : List TransactionState)
    → Consecutive m (s ∷ ts)
    → id < u64_mod
    → (handle_start (s ∷ ts) id ≡ ((s ∷ ts) ++ fresh (m + length (s ∷ ts)) (id - (m + length ts))))
      × Consecutive m (handle_start (s ∷ ts) id)
unfolding handle_start
handle_start-fresh m id s ts c lt =
    let last = last_id-Consecutive m s ts c in
    let n : ℕ = id - (m + length ts) in
    let e : fill_up_to id id s ts ≡ (s ∷ (ts ++ fresh (m + suc (length ts)) n)) =
      fill_up_to-fresh id id s ts (omega arith) lt
      ∙ (let e' : suc (m + length ts) ≡ m + suc (length ts) = omega arith in rw (last, e')) in
    (e, rw e (Consecutive-append m (s ∷ ts) _ c (Consecutive-fresh n _)))

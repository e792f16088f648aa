-- ===== src/Planner/Dispatch.antt =====
-- handleMessage keeps the planner's invariant, and an update reaches the state with its ID alone.
use prf.Base.{
  ℕ, zero, suc, ◌+◌, ◌-◌, ◌≤◌, ◌<◌, ◌≡◌, ◌⊎◌, refl, inl, inr, true, false, none, some, List, [],
  ◌∷◌, ◌++◌, arith, ◌==◌, if◌then◌else◌, u64_mod, Bool-cases, Option-cases, Distinct, length,
  get_elem?, set, contains,
}
use prf.Rank.{Rank}
use prf.Messages.{
  UpdateTransactionMessage, PlannerMessage, start_transaction, update_transaction,
  finish_transaction,
}
use prf.Planner.{
  TransactionState, PlannerManager, new_state, update_state, handle_start, handle_update,
  handle_finish, handle_message,
}
use prf.Planner.Counts.{IsCounted}
use prf.Planner.Handlers.{update_state-IsCounted}
use prf.Planner.Sequence.{
  Consecutive, find_state, fresh, find_state-get_elem?, last_id-Consecutive, handle_start-fresh,
}

module _ (st' : TransactionState) where
  Consecutive-set :
      (m k : ℕ) (ss : List TransactionState)
      → Consecutive m ss
      → st'.transaction_id ≡ m + k
      → Consecutive m (set ss k st')
  Consecutive-set m k [] c e = tt
  Consecutive-set m zero (s ∷ ss) c e = (omega arith, c.1)
  Consecutive-set m (suc k) (s ∷ ss) c e = (c.0, Consecutive-set (suc m) k ss c.1 (omega arith))

  find_state-set :
      (m k j : ℕ) (ss : List TransactionState)
      → Consecutive m ss
      → st'.transaction_id ≡ m + k
      → k < length ss
      → find_state j (set ss k st') ≡ (if m + k == j then some st' else find_state j ss)
  find_state-set m k j [] c e h = absurd (omega arith)
  find_state-set m zero j (s ∷ ss) c e h = ground arith
  find_state-set m (suc k) j (s ∷ ss) c e h = ground (arith, find_state-set (suc m) k j ss c.1)

get_elem?-some :
    (ss : List TransactionState) (k : ℕ) (s : TransactionState)
    → get_elem? ss k ≡ some s
    → k < length ss
get_elem?-some [] k s e = cc
get_elem?-some (x ∷ ss) zero s e = omega arith
get_elem?-some (x ∷ ss) (suc k) s e = omega (arith, get_elem?-some ss k s e)

get_elem?-lt :
    (ss : List TransactionState) (k : ℕ)
    → k < length ss
    → (s : TransactionState) × (get_elem? ss k ≡ some s)
get_elem?-lt [] k h = absurd (omega arith)
get_elem?-lt (x ∷ ss) zero h = (x, refl)
get_elem?-lt (x ∷ ss) (suc k) h = get_elem?-lt ss k (omega arith)

-- On consecutive IDs, handleUpdateMessage for a transaction that search does not find changes
-- nothing.
handle_update_missing :
    (ranks : List Rank) (n : ℕ) (ss : List TransactionState) (m : UpdateTransactionMessage)
    → Consecutive n ss
    → find_state m.transaction_id ss ≡ none
    → handle_update ranks ss m ≡ some ss
unfolding handle_update
handle_update_missing ranks n [] m c e = refl
handle_update_missing ranks n (s ∷ ts) m c e =
    let last = last_id-Consecutive n s ts c in
    let search = find_state-get_elem? n (s ∷ ts) m.transaction_id c in
    let inside = λ (h : m.transaction_id - n < suc (length ts)).
      get_elem?-lt (s ∷ ts) (m.transaction_id - n) h in
    rw c.0 (ground (arith, last, search, inside))

-- On consecutive IDs, handleUpdateMessage for a transaction that search finds puts the updated
-- state in its place.
handle_update_found :
    (ranks : List Rank) (n : ℕ) (ss : List TransactionState) (m : UpdateTransactionMessage)
    (s' s'' : TransactionState)
    → Consecutive n ss
    → find_state m.transaction_id ss ≡ some s'
    → update_state ranks s' m ≡ some s''
    → (n ≤ m.transaction_id)
      × (m.transaction_id - n < length ss)
      × (handle_update ranks ss m ≡ some (set ss (m.transaction_id - n) s''))
unfolding handle_update
handle_update_found ranks n [] m s' s'' c e u = cc
handle_update_found ranks n (s ∷ ts) m s' s'' c e u =
    let last = last_id-Consecutive n s ts c in
    let search = find_state-get_elem? n (s ∷ ts) m.transaction_id c in
    let low : n ≤ m.transaction_id = ground (arith, search) in
    let got : get_elem? (s ∷ ts) (m.transaction_id - n) ≡ some s' = ground (arith, search) in
    let inside = get_elem?-some (s ∷ ts) (m.transaction_id - n) s' got in
    (low, inside, rw c.0 (ground (arith, last)))

abbrev pub AllCounted : List Rank → List TransactionState → Type 0
AllCounted ranks [] = Unit
AllCounted ranks (s ∷ ss) = IsCounted ranks s × AllCounted ranks ss

-- What the planner relies on in a message about the state `s`: it announces clusters that have a
-- rank and do not run, and starts announced clusters, none twice.
pub record Announces (ranks : List Rank) (s : TransactionState) (m : UpdateTransactionMessage)
    : Type 0 where
  pub futures :
      (j : ℕ) → contains j m.future ≡ true → (j < length ranks) × (contains j s.now ≡ false)
  pub distinct : Distinct m.now
  pub nows :
      (j : ℕ)
      → contains j m.now ≡ true
      → (contains j s.future ≡ true) ⊎ (contains j m.future ≡ true)

abbrev pub Legal : PlannerManager → PlannerMessage → Type 0
Legal p (start_transaction id) = id < u64_mod
Legal p (update_transaction m) =
    (s : TransactionState)
    → find_state m.transaction_id p.transaction_states ≡ some s
    → Announces p.cluster_ranks s m
Legal p (finish_transaction id) = Unit

pub record IsSound (p : PlannerManager) : Type 0 where
  pub first : ℕ
  pub consecutive : Consecutive first p.transaction_states
  pub counted : AllCounted p.cluster_ranks p.transaction_states
  pub small : length p.cluster_ranks + length p.cluster_ranks + 1 < u64_mod

module _ (ranks : List Rank) where
  new_state-IsCounted : (id : ℕ) → IsCounted ranks (new_state id)
  unfolding new_state
  new_state-IsCounted id = record {
    future_set = tt;
    now_set = tt;
    future_ranked = λ j e. cc;
    now_ranked = λ j e. cc;
    apart = λ j e. refl;
    counted = λ r. refl;
    positive = λ r e. cc;
    keys = tt;
  }

  AllCounted-append :
      (ss ts : List TransactionState)
      → AllCounted ranks ss
      → AllCounted ranks ts
      → AllCounted ranks (ss ++ ts)
  AllCounted-append [] ts a b = b
  AllCounted-append (s ∷ ss) ts a b = (a.0, AllCounted-append ss ts a.1 b)

  AllCounted-fresh : (n id : ℕ) → AllCounted ranks (fresh id n)
  AllCounted-fresh zero id = tt
  AllCounted-fresh (suc n) id = (new_state-IsCounted id, AllCounted-fresh n (suc id))

  AllCounted-set :
      (k : ℕ) (s : TransactionState) (ss : List TransactionState)
      → IsCounted ranks s
      → AllCounted ranks ss
      → AllCounted ranks (set ss k s)
  AllCounted-set k s [] v a = tt
  AllCounted-set zero s (t ∷ ss) v a = (v, a.1)
  AllCounted-set (suc k) s (t ∷ ss) v a = (a.0, AllCounted-set k s ss v a.1)

  pub AllCounted-find :
      (id : ℕ) (s : TransactionState) (ss : List TransactionState)
      → AllCounted ranks ss
      → find_state id ss ≡ some s
      → IsCounted ranks s × (s.transaction_id ≡ id)
  AllCounted-find id s [] a e = cc
  AllCounted-find id s (t ∷ ss) a e = elim (Bool-cases (t.transaction_id == id)) [
    | inl here ↦ let same : t ≡ s = ground arith in (rw same at a.0, ground arith)
    | inr there ↦ AllCounted-find id s ss a.1 (rw there at e)
  ]

-- The part of the invariant that speaks of the deque.
abbrev Deque : List Rank → List TransactionState → Type 0
Deque ranks ss = (n : ℕ) × Consecutive n ss × AllCounted ranks ss

handle_start-Deque :
    (ranks : List Rank) (id n : ℕ) (ss : List TransactionState)
    → id < u64_mod
    → Consecutive n ss
    → AllCounted ranks ss
    → Deque ranks (handle_start ss id)
unfolding handle_start new_state
handle_start-Deque ranks id n [] lt c a = (id, (refl, tt), (new_state-IsCounted ranks id, tt))
handle_start-Deque ranks id n (s ∷ ts) lt c a =
    let (e, kept) = handle_start-fresh n id s ts c lt in
    (n, kept, rw e (AllCounted-append ranks (s ∷ ts) _ a (AllCounted-fresh ranks _ _)))

handle_finish-Deque :
    (ranks : List Rank) (id n : ℕ) (ss : List TransactionState)
    → Consecutive n ss
    → AllCounted ranks ss
    → Deque ranks (handle_finish ss id)
unfolding handle_finish
handle_finish-Deque ranks id n [] c a = (n, tt, tt)
handle_finish-Deque ranks id n (s ∷ ts) c a = elim (Bool-cases (s.transaction_id == id)) [
  | inl front ↦ rw front (suc n, c.1, a.1)
  | inr later ↦ rw later (n, c, a)
]

-- On a sound planner, an update that is legal there and that search finds no state for changes
-- nothing; one that finds a state is applied with no fault to that state alone, and the planner
-- stays sound.
pub handle_update_lem :
    (p : PlannerManager) (m : UpdateTransactionMessage)
    → IsSound p
    → Legal p (update_transaction m)
    → (ss : List TransactionState) × (handle_update p.cluster_ranks p.transaction_states m
        ≡ some ss)
      × IsSound (record p { transaction_states = ss })
      × ((find_state m.transaction_id p.transaction_states ≡ none) × (ss ≡ p.transaction_states)
          ⊎ (s s' : TransactionState) × (find_state m.transaction_id p.transaction_states ≡ some s)
            × (update_state p.cluster_ranks s m ≡ some s')
            × ((j : ℕ)
                → find_state j ss
                  ≡ (if m.transaction_id == j then some s' else find_state j p.transaction_states)))
handle_update_lem p m v legal =
    elim (Option-cases (find_state m.transaction_id p.transaction_states)) [
      | inl missing ↦ (
        p.transaction_states,
        handle_update_missing p.cluster_ranks v.first p.transaction_states m v.consecutive missing,
        v,
        inl (missing, refl),
      )
      | inr (s, found) ↦
          let (counted, same) =
            AllCounted-find p.cluster_ranks m.transaction_id s p.transaction_states v.counted
              found in
          let a = legal s found in
          let (s', updated, counted', ready, id', _, _) =
            update_state-IsCounted p.cluster_ranks v.small {s = s} m counted a.futures a.distinct
              a.nows in
          let (low, inside, e) =
            handle_update_found p.cluster_ranks v.first p.transaction_states m s s' v.consecutive
              found updated in
          let k : ℕ = m.transaction_id - v.first in
          let at_k : s'.transaction_id ≡ v.first + k = omega arith in
          let place : v.first + k ≡ m.transaction_id = omega arith in
          (
            set p.transaction_states k s',
            e,
            record {
              first = v.first;
              consecutive = Consecutive-set s' v.first k p.transaction_states v.consecutive at_k;
              counted = AllCounted-set p.cluster_ranks k s' p.transaction_states counted' v.counted;
              small = v.small;
            },
            inr (
              s,
              s',
              found,
              updated,
              λ j.
                  rw place at
                    (find_state-set s' v.first k j p.transaction_states v.consecutive at_k inside),
            ),
          )
    ]

-- Every message that is legal at a sound planner is handled with no fault and leaves the planner
-- sound, with the same cluster ranks: the IDs of the states are consecutive, and each state counts
-- its clusters by rank exactly.
pub handle_message-IsSound :
    (p : PlannerManager) (msg : PlannerMessage)
    → IsSound p
    → Legal p msg
    → (p' : PlannerManager) × (handle_message p msg ≡ some p')
      × IsSound p'
      × (p'.cluster_ranks ≡ p.cluster_ranks)
unfolding handle_message
handle_message-IsSound p (start_transaction id) v legal =
    let (n, c, a) =
      handle_start-Deque p.cluster_ranks id v.first p.transaction_states legal v.consecutive
        v.counted in
    (_, refl, record { first = n; consecutive = c; counted = a; small = v.small }, refl)
handle_message-IsSound p (update_transaction m) v legal =
    let (ss, e, sound, _) = handle_update_lem p m v legal in
    (record p { transaction_states = ss }, rw e, sound, refl)
handle_message-IsSound p (finish_transaction id) v legal =
    let (n, c, a) =
      handle_finish-Deque p.cluster_ranks id v.first p.transaction_states v.consecutive v.counted in
    (_, refl, record { first = n; consecutive = c; counted = a; small = v.small }, refl)

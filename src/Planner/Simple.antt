-- ===== src/Planner/Simple.antt =====
-- simple_planner of src/prf/planner.cpp: one cluster at a time, for the oldest transaction. The
-- result is what the planner pushes to the executor's queue. `none` is undefined behaviour: the
-- first entry of an empty `target_ranks`, or a cluster without a rank.
use prf.Base.{
  ℕ, suc, ◌≤◌, ◌<◌, ◌≡◌, ◌≢◌, ◌⊎◌, refl, inl, inr, true, false, not, ◌&&◌, Option, none, some, List,
  [], ◌∷◌, arith, ◌==◌, if◌then◌else◌, ◌>>=◌, Bool-cases, length, contains, is_empty, find,
  KeysAscending, find_below,
}
use prf.Rank.{Rank}
use prf.Messages.{ExecutorMessage, start_update_cluster, finalize_transaction}
use prf.Planner.{TransactionState, rank_of}
use prf.Planner.Counts.{rank_at, rank_of-rank_at, count_rank, IsCounted}

-- target_ranks.begin()->first
unfoldable pub first_rank : List (ℕ × ℕ) → Option ℕ
first_rank [] = none
first_rank ((k, v) ∷ m) = some k

-- The loop over `future`, which ends at the first cluster of the rank.
unfoldable pub start_first : List Rank → ℕ → ℕ → List ℕ → Option (List ExecutorMessage)
start_first ranks id target [] = some []
start_first ranks id target (c ∷ cs) = do
  rank ← rank_of ranks c
  let rest = start_first ranks id target cs
  if rank == target then some (start_update_cluster id c ∷ []) else rest

unfoldable pub simple_planner : List Rank → List TransactionState → Option (List ExecutorMessage)
unfolding first_rank start_first
simple_planner ranks [] = some []
simple_planner ranks (s ∷ ss) =
    let start = (do
      target ← first_rank s.target_ranks
      start_first ranks s.transaction_id target s.future) in
    if not s.initialized
    then some []
    else if is_empty s.now && is_empty s.future
    then some (finalize_transaction s.transaction_id ∷ [])
    else if is_empty s.now
    then start
    else some []

count_rank_pos :
    (ranks : List Rank) (c : ℕ) (cs : List ℕ)
    → contains c cs ≡ true
    → 1 ≤ count_rank ranks (rank_at ranks c) cs
count_rank_pos ranks c [] h = cc
count_rank_pos ranks c (x ∷ cs) h = elim (Bool-cases (c == x)) [
  | inl same ↦ let e : c ≡ x = ground arith in rw e (ground arith)
  | inr other ↦ ground (arith, count_rank_pos ranks c cs)
]

first_rank-least :
    (m : List (ℕ × ℕ)) (k : ℕ)
    → KeysAscending 0 m
    → find k m ≢ none
    → (r v : ℕ) × (first_rank m ≡ some r)
      × (find r m ≡ some v)
      × ((j : ℕ) → find j m ≢ none → r ≤ j)
unfolding first_rank
first_rank-least [] k a h = absurd (h refl)
first_rank-least ((r, v) ∷ m) k a h =
    (r, v, refl, ground arith, λ j found. ground (arith, find_below (suc r) j m a.1))

start_first_lem :
    (ranks : List Rank) (id target : ℕ) (cs : List ℕ)
    → ((c : ℕ) → contains c cs ≡ true → c < length ranks)
    → 1 ≤ count_rank ranks target cs
    → (c : ℕ) × (start_first ranks id target cs ≡ some (start_update_cluster id c ∷ []))
      × (contains c cs ≡ true)
      × (rank_at ranks c ≡ target)
unfolding start_first
start_first_lem ranks id target [] h n = absurd (omega arith)
start_first_lem ranks id target (x ∷ cs) h n =
    let here = rank_of-rank_at ranks x (h x (ground arith)) in
    elim (Bool-cases (rank_at ranks x == target)) [
      | inl same ↦ (x, rw here (rw same), ground arith, ground arith)
      | inr other ↦
          let (c, e, m, r) =
            start_first_lem ranks id target cs (λ c k. h c (ground arith)) (ground arith) in
          (c, rw here (rw other e), ground arith, r)
    ]

-- The proposal for the oldest transaction: a cluster that is announced, of the lowest rank.
pub record Lowest (ranks : List Rank) (s : TransactionState) (c : ℕ) : Type 0 where
  pub announced : contains c s.future ≡ true
  pub least : (j : ℕ) → contains j s.future ≡ true → rank_at ranks c ≤ rank_at ranks j

is_empty_none : (cs : List ℕ) → is_empty cs ≡ false → (c : ℕ) × (contains c cs ≡ true)
is_empty_none [] h = cc
is_empty_none (c ∷ cs) h = (c, ground arith)

-- With exact counters simple_planner has no fault, and looks at the front of the deque only, the
-- oldest transaction (the comment in the source says the newest). It proposes to end that one if it
-- is initialized and has no cluster left, proposes exactly one of its clusters of the lowest rank
-- among those announced if clusters are announced and none runs, and else proposes nothing.
pub simple_planner_lem :
    (ranks : List Rank) (s : TransactionState) (ss : List TransactionState)
    → IsCounted ranks s
    → (s.initialized ≡ true)
        × (s.now ≡ [])
        × (s.future ≡ [])
        × (simple_planner ranks (s ∷ ss) ≡ some (finalize_transaction s.transaction_id ∷ []))
      ⊎ (s.initialized ≡ true)
        × (s.now ≡ [])
        × ((c : ℕ) × Lowest ranks s c
            × (simple_planner ranks (s ∷ ss) ≡ some (start_update_cluster s.transaction_id c ∷ [])))
      ⊎ ((s.initialized ≡ false) ⊎ (s.now ≢ [])) × (simple_planner ranks (s ∷ ss) ≡ some [])
unfolding simple_planner
simple_planner_lem ranks s ss v = elim (Bool-cases s.initialized) [
  | inr fresh ↦ inr (inr (inl fresh, rw fresh))
  | inl ready ↦ elim (Bool-cases (is_empty s.now)) [
    | inr running ↦ inr (inr (inr (ground arith), ground arith))
    | inl idle ↦ elim (Bool-cases (is_empty s.future)) [
      | inl over ↦ inl (ready, ground arith, ground arith, ground arith)
      | inr more ↦
          let (c, m) = is_empty_none s.future more in
          let counted = λ (j : ℕ) (k : contains j s.future ≡ true).
            let present : find (rank_at ranks j) s.target_ranks ≢ none =
              (ground (arith, v.counted (rank_at ranks j), count_rank_pos ranks j s.future k)) in
            present in
          let (r, n, first, at_r, least) =
            first_rank-least s.target_ranks (rank_at ranks c) v.keys (counted c m) in
          let no_now : s.now ≡ [] = ground arith in
          let some_r : 1 ≤ count_rank ranks r s.future =
            ground (arith, v.counted r, v.positive r) in
          let (d, e, in_future, rank) =
            start_first_lem ranks s.transaction_id r s.future v.future_ranked some_r in
          inr (
            inl (
              ready,
              no_now,
              (
                d,
                record {
                  announced = in_future;
                  least = λ j k. rw rank (least (rank_at ranks j) (counted j k));
                },
                rw (ready, idle, more, first) e,
              ),
            ))
    ]
  ]
]

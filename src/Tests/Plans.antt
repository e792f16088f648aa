-- ===== src/Tests/Plans.antt =====
-- Runs of src/prf/planner.cpp on concrete data.
use prf.Base.{
  ℕ, ◌+◌, ◌-◌, ◌≡◌, ◌≢◌, ◌⊎◌, refl, true, false, not, ◌&&◌, ◌||◌, none, some, List, [], ◌∷◌, ◌++◌,
  arith, ◌==◌, if◌then◌else◌, length, contains,
}
use prf.Rank.{Rank}
use prf.Messages.{
  ExecutorMessage, UpdateTransactionMessage, start_update_cluster, finalize_transaction,
  update_transaction,
}
use prf.Planner.{
  TransactionState, PlannerManager, update_state, handle_start, handle_update, handle_message,
}
use prf.Planner.Counts.{IsCounted}
use prf.Planner.Handlers.{update_state-IsCounted}
use prf.Planner.Sequence.{Consecutive, find_state, fresh, handle_start-fresh}
use prf.Planner.Dispatch.{Announces, Legal, IsSound, handle_update_lem, handle_message-IsSound}
use prf.Planner.Simple.{simple_planner, Lowest, simple_planner_lem}
use prf.Planner.RankBased.{rank_based_planner}
use prf.Planner.Exclusion.{AllJustified, AllRanked, rank_based_planner-Justified}
use prf.Planner.Order.{IsIdle, rank_based_planner_progress, rank_based_planner_out_of_order}

-- Cluster 0 has rank 2, cluster 1 rank 1, and cluster 2 rank 0.
abbrev ranks : List Rank
ranks = record { value = 2 } ∷ record { value = 1 } ∷ record { value = 0 } ∷ []

abbrev waiting : TransactionState
waiting = record {
  transaction_id = 5;
  initialized = true;
  future = 0 ∷ 1 ∷ [];
  now = [];
  target_ranks = (1, 1) ∷ (2, 1) ∷ [];
}

abbrev running : TransactionState
running = record {
  transaction_id = 6;
  initialized = true;
  future = 2 ∷ [];
  now = 0 ∷ [];
  target_ranks = (0, 1) ∷ (2, 1) ∷ [];
}

abbrev states : List TransactionState
states = waiting ∷ running ∷ []

states-AllRanked : AllRanked ranks states
states-AllRanked =
    (λ j h. ground arith, λ j h. ground arith, (λ j h. ground arith, λ j h. ground arith, tt))

rank_based_planner-Justified_example :
    (out : List ExecutorMessage) × (rank_based_planner ranks (λ i. false) states ≡ some out)
    × AllJustified ranks states out
rank_based_planner-Justified_example =
    rank_based_planner-Justified ranks (λ i. false) states states-AllRanked

waiting-IsIdle : IsIdle ranks waiting 0 (1 ∷ [])
waiting-IsIdle = record {
  ready = refl;
  idle = refl;
  announced = refl;
  first_u64 = ground arith;
  first_ranked = ground arith;
}

rank_based_planner_progress_example :
    (more : List ExecutorMessage) × (rank_based_planner ranks (λ i. false) states
      ≡ some (start_update_cluster 5 0 ∷ more))
rank_based_planner_progress_example =
    rank_based_planner_progress ranks (λ i. false) waiting (running ∷ []) 0 (1 ∷ [])
      states-AllRanked refl waiting-IsIdle

rank_based_planner_out_of_order_example :
    (more : List ExecutorMessage) × (rank_based_planner ranks (λ i. false) states
      ≡ some (start_update_cluster 5 0 ∷ start_update_cluster 5 1 ∷ more))
rank_based_planner_out_of_order_example =
    rank_based_planner_out_of_order ranks (λ i. false) waiting (running ∷ []) 0 1 []
      states-AllRanked refl waiting-IsIdle (ground arith) (ground arith)

waiting-IsCounted : IsCounted ranks waiting
waiting-IsCounted = record {
  future_set = ground arith;
  now_set = tt;
  future_ranked = λ j h. ground arith;
  now_ranked = λ j h. cc;
  apart = λ j h. ground arith;
  counted = λ r. ground arith;
  positive = λ r h. ground arith;
  keys = ground arith;
}

running-IsCounted : IsCounted ranks running
running-IsCounted = record {
  future_set = ground arith;
  now_set = ground arith;
  future_ranked = λ j h. ground arith;
  now_ranked = λ j h. ground arith;
  apart = λ j h. ground arith;
  counted = λ r. ground arith;
  positive = λ r h. ground arith;
  keys = ground arith;
}

simple_planner_lem_example :
    (waiting.initialized ≡ true)
      × (waiting.now ≡ [])
      × (waiting.future ≡ [])
      × (simple_planner ranks states ≡ some (finalize_transaction 5 ∷ []))
    ⊎ (waiting.initialized ≡ true)
      × (waiting.now ≡ [])
      × ((c : ℕ) × Lowest ranks waiting c
          × (simple_planner ranks states ≡ some (start_update_cluster 5 c ∷ [])))
    ⊎ ((waiting.initialized ≡ false) ⊎ (waiting.now ≢ [])) × (simple_planner ranks states ≡ some [])
simple_planner_lem_example = simple_planner_lem ranks waiting (running ∷ []) waiting-IsCounted

-- Transaction 6 announces cluster 1 and starts it, and ends cluster 0.
abbrev message : UpdateTransactionMessage
message = record { transaction_id = 6; future = 1 ∷ []; now = 1 ∷ []; finish = 0 ∷ [] }

message-Announces : Announces ranks running message
message-Announces = record {
  futures = λ j h. ground arith;
  distinct = ground arith;
  nows = λ j h. ground arith;
}

update_state-IsCounted_example :
    (s' : TransactionState) × (update_state ranks running message ≡ some s')
    × IsCounted ranks s'
    × (s'.initialized ≡ true)
    × (s'.transaction_id ≡ 6)
    × ((j : ℕ)
        → contains j s'.future ≡ (
            (contains j running.future || contains j message.future)
            && not (contains j message.now)))
    × ((j : ℕ)
        → contains j s'.now
          ≡ ((contains j running.now || contains j message.now) && not (contains j message.finish)))
update_state-IsCounted_example =
    update_state-IsCounted ranks (ground arith) message running-IsCounted message-Announces.futures
      message-Announces.distinct message-Announces.nows

abbrev planner : PlannerManager
planner = record { cluster_ranks = ranks; transaction_states = states }

planner-IsSound : IsSound planner
planner-IsSound = record {
  first = 5;
  consecutive = (refl, (refl, tt));
  counted = (waiting-IsCounted, (running-IsCounted, tt));
  small = ground arith;
}

message-Legal : Legal planner (update_transaction message)
message-Legal s h = record {
  futures = λ j k. ground arith;
  distinct = ground arith;
  nows = λ j k. ground arith;
}

handle_message-IsSound_example :
    (p' : PlannerManager) × (handle_message planner (update_transaction message) ≡ some p')
    × IsSound p'
    × (p'.cluster_ranks ≡ ranks)
handle_message-IsSound_example =
    handle_message-IsSound planner (update_transaction message) planner-IsSound message-Legal

handle_update_lem_example :
    (ss : List TransactionState) × (handle_update ranks states message ≡ some ss)
    × IsSound (record planner { transaction_states = ss })
    × ((find_state 6 states ≡ none) × (ss ≡ states)
        ⊎ (s s' : TransactionState) × (find_state 6 states ≡ some s)
          × (update_state ranks s message ≡ some s')
          × ((j : ℕ) → find_state j ss ≡ (if 6 == j then some s' else find_state j states)))
handle_update_lem_example = handle_update_lem planner message planner-IsSound message-Legal

handle_start-fresh_example :
    (handle_start states 9
      ≡ (states ++ fresh (5 + length states) (9 - (5 + length (running ∷ [])))))
    × Consecutive 5 (handle_start states 9)
handle_start-fresh_example =
    handle_start-fresh 5 9 waiting (running ∷ []) (refl, (refl, tt)) (ground arith)

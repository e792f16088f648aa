-- ===== src/Tests/Threads.antt =====
-- Runs of src/prf/executor.cpp with the clients and the planner, on concrete data.
use prf.Base.{
  ℕ, ◌+◌, ◌≤◌, ◌<◌, length, false, ◌≡◌, ◌==◌, if◌then◌else◌, refl, Option, some, List, [], ◌∷◌,
  arith, ltb, contains,
}
use prf.Rank.{Rank}
use prf.Messages.{
  ExecutorMessage, finalize_transaction, start_update_cluster, register_transaction, execute,
  start_transaction, update_transaction,
}
use prf.Planner.{TransactionState, PlannerManager, handle_message, new_manager}
use prf.Planner.Sequence.{find_state}
use prf.Planner.RankBased.{rank_based_planner}
use prf.Runtime.View.{Agrees}
use prf.Runtime.Safety.{
  handle_no_fault, handle_message_no_fault, advance_no_fault, ends_complete, Reach-Agrees,
}
use prf.Planner.Simple.{simple_planner}
use prf.Transaction.{
  Network, has_key, target_clusters, register_cleanup, register_updates, new_sub_transaction,
  generate_sub_transaction, execute_loop, register_execution_result,
}
use prf.Executor.{
  System, Task, Stage, generated, Outcome, advance, handle, handle_start_update, handle_finalize,
  new_executor,
}
use prf.Executor.Handlers.{handle_start_update_twice, handle_finalize_twice}
use prf.Runtime.{
  asks, makes, ran, buffers, reports, works, Runtime, new_runtime, begin_transaction, send_value,
  start_updating, by_simple, begins, sends, commits, handles, receives, plans, Reach, start, next,
}
use prf.Runtime.Counts.{bit, times, executes, tasks_of, requests, lives}
use prf.Runtime.Once.{requests_at_most_once, lives_at_most_once}

-- The value 5 in cluster 1 is listened to by 6 in cluster 2.
abbrev network : Network
network = record {
  cluster_of = λ p. if p == 5 then 1 else 2;
  rank = λ p. 0;
  listeners = λ p. if p == 5 then 6 ∷ [] else [];
}

abbrev ranks : List Rank
ranks = record { value = 0 } ∷ record { value = 1 } ∷ record { value = 2 } ∷ []

abbrev updater : ℕ → ℕ → Option ℕ
updater p s = some s

-- A transaction that sends to the value 5, up to the message that starts cluster 2.
abbrev reached : (r : Runtime ℕ) × Reach network updater ranks r
unfolding new_runtime begin_transaction send_value start_updating handle handle_message
    simple_planner target_clusters register_cleanup register_updates new_sub_transaction new_manager
reached =
    let r0 : Reach network updater ranks (new_runtime {H = ℕ} ranks) = start in
    let r1 = next r0 (begins (omega arith)) in
    let r2 = next r1 (sends 0 5 refl) in
    let r3 = next r2 (commits 0 refl) in
    let r4 = next r3 (handles (register_transaction 0) _ _ refl refl) in
    let r5 = next r4 (handles (execute 0) _ _ refl refl) in
    let r6 = next r5 (receives (start_transaction 0) _ _ refl refl) in
    let r7 = next r6 (receives (update_transaction _) _ _ refl refl) in
    let r8 = next r7 (plans (start_update_cluster 0 2) (by_simple refl)) in
    let r9 = next r8 (plans (start_update_cluster 0 2) (by_simple refl)) in
    let r10 = next r9 (handles (start_update_cluster 0 2) _ _ refl refl) in
    let r11 = next r10 (handles (start_update_cluster 0 2) _ _ refl refl) in (_, r11)

requests_at_most_once_example : tasks_of 0 2 reached.0.system.tasks ≤ 1
requests_at_most_once_example = requests_at_most_once network updater ranks reached.0 0 2 reached.1

requested_once : tasks_of 0 2 reached.0.system.tasks ≡ 1
unfolding new_runtime begin_transaction send_value start_updating handle handle_message
    simple_planner target_clusters register_cleanup register_updates new_sub_transaction new_manager
    new_executor
requested_once = refl

lives_at_most_once_example :
    bit (contains 0 reached.0.opened)
      + executes 0 reached.0.executor_messages
      + bit (contains 0 reached.0.system.executor.transactions)
      + times 0 reached.0.system.done
    ≡ bit (ltb 0 reached.0.next_transaction_id)
lives_at_most_once_example = lives_at_most_once network updater ranks reached.0 0 reached.1

handle_start_update_twice_example :
    handle_start_update (handle_start_update reached.0.system 0 1) 0 1
    ≡ handle_start_update reached.0.system 0 1
handle_start_update_twice_example = handle_start_update_twice reached.0.system 0 1

handle_finalize_twice_example :
    (handle_finalize (handle_finalize reached.0.system 0) 0 ≡ handle_finalize reached.0.system 0)
    × (handle_start_update (handle_finalize reached.0.system 0) 0 2
        ≡ handle_finalize reached.0.system 0)
handle_finalize_twice_example = handle_finalize_twice reached.0.system 0 2

-- What the execution of a sub-transaction for cluster 2 gives.
abbrev outcome : Outcome ℕ
outcome = record { result = record { targets = []; cleanups = 6 ∷ [] }; hooks = [] }

-- The task of cluster 2 has begun, and the planner does not know yet.
abbrev begun : (r : Runtime ℕ) × Reach network updater ranks r
unfolding new_runtime begin_transaction send_value start_updating handle handle_message
    simple_planner target_clusters register_cleanup register_updates new_sub_transaction new_manager
    new_executor advance
begun = (_, next reached.1 (works [] [] _ outcome _ _ refl asks refl))

-- The sub-transaction of cluster 2 is made.
abbrev made : (r : Runtime ℕ) × Reach network updater ranks r
unfolding new_runtime begin_transaction send_value start_updating handle handle_message
    simple_planner target_clusters register_cleanup register_updates new_sub_transaction new_manager
    new_executor advance generate_sub_transaction
made =
    let r1 = next begun.1 (receives (update_transaction _) _ _ refl refl) in
    let r2 = next r1 (works [] [] _ outcome _ _ refl makes refl) in (_, r2)

-- The task of cluster 2 has ended and the planner proposes to finalize the transaction.
abbrev finished : (r : Runtime ℕ) × Reach network updater ranks r
unfolding new_runtime begin_transaction send_value start_updating handle handle_message
    simple_planner target_clusters register_cleanup register_updates new_sub_transaction new_manager
    new_executor advance generate_sub_transaction execute_loop register_execution_result
finished =
    let r3 = next made.1 (works [] [] _ outcome _ _ refl (ran 2 0 0 _ refl refl) refl) in
    let r4 = next r3 (works [] [] _ outcome _ _ refl buffers refl) in
    let r5 = next r4 (works [] [] _ outcome _ _ refl reports refl) in
    let r6 = next r5 (receives (update_transaction _) _ _ refl refl) in
    let r7 = next r6 (plans (finalize_transaction 0) (by_simple refl)) in (_, r7)

abbrev making : Task ℕ
making = record {
  transaction_id = 0;
  cluster_id = 2;
  stage = generated (generate_sub_transaction network (begun.0.system.inners 0) 2).1;
}

in_ranks : (x : ℕ) → network.cluster_of x < length ranks
in_ranks x = ground arith

handle_no_fault_example :
    ((s' : System ℕ) × (handle finished.0.system (execute 0) ≡ some s'))
    × ((out : List ExecutorMessage) × (rank_based_planner finished.0.planner.cluster_ranks
            (λ i. false)
            finished.0.planner.transaction_states
          ≡ some out))
    × ((out : List ExecutorMessage) × (simple_planner finished.0.planner.cluster_ranks
            finished.0.planner.transaction_states
          ≡ some out))
handle_no_fault_example =
    handle_no_fault network updater ranks (omega arith) in_ranks finished.0 (execute 0) (λ i. false)
      finished.1

handle_message_no_fault_example :
    (p' : PlannerManager) × (handle_message begun.0.planner
        (update_transaction (record { transaction_id = 0; now = 2 ∷ []; future = []; finish = [] }))
      ≡ some p')
unfolding new_runtime begin_transaction send_value start_updating handle handle_message
    simple_planner target_clusters register_cleanup register_updates new_sub_transaction new_manager
    new_executor advance
handle_message_no_fault_example =
    handle_message_no_fault network updater ranks (omega arith) in_ranks begun.0
      (update_transaction (record { transaction_id = 0; now = 2 ∷ []; future = []; finish = [] }))
      [] begun.1 refl

advance_no_fault_example :
    (s' : System ℕ) × (stage' : Stage ℕ) × (advance network made.0.system 0 2 making.stage outcome
      ≡ some (s', stage'))
unfolding new_runtime begin_transaction send_value start_updating handle handle_message
    simple_planner target_clusters register_cleanup register_updates new_sub_transaction new_manager
    new_executor advance generate_sub_transaction execute_loop
advance_no_fault_example =
    advance_no_fault network updater ranks (omega arith) in_ranks made.0 [] [] making outcome made.1
      refl (ran 2 0 0 _ refl refl)

ends_complete_example :
    (tasks_of 0 2 finished.0.system.tasks
      ≡ bit (has_key 2 (finished.0.system.inners 0).targets_outside))
    × (requests 0 2 finished.0.system.tasks ≡ 0)
    × (lives 0 2 finished.0.system.tasks ≡ 0)
unfolding new_runtime begin_transaction send_value start_updating handle handle_message
    simple_planner target_clusters register_cleanup register_updates new_sub_transaction new_manager
    new_executor advance generate_sub_transaction execute_loop register_execution_result
ends_complete_example =
    ends_complete network updater ranks (omega arith) in_ranks finished.0 0 2 [] finished.1 refl
      refl

Reach-Agrees_example :
    (state : TransactionState) × (find_state 0 reached.0.planner.transaction_states ≡ some state)
    × Agrees reached.0.system 0 state
unfolding new_runtime begin_transaction send_value start_updating handle handle_message
    simple_planner target_clusters register_cleanup register_updates new_sub_transaction new_manager
    new_executor
Reach-Agrees_example =
    Reach-Agrees network updater ranks (omega arith) in_ranks reached.0 0 reached.1 refl refl

-- ===== src/Executor.antt =====
-- src/prf/executor.hpp and src/prf/executor.cpp: the executor's message handlers, and the task that
-- it requests from the thread pool for each cluster. A handler takes one message; the loop around
-- them is the order in which messages arrive. `H` is the type of hooks. A TransactionExecuteMessage*
-- is the ID of its transaction, and the transaction is looked up by that ID in `inners`. Names of
-- clusters serve logging only and are left out.
pub mod Handlers
use prf.Base.{
  ℕ, Bool, not, Option, none, some, List, [], ◌∷◌, ◌++◌, map, ◌==◌, if◌then◌else◌, ◌>>=◌, contains,
  insert, erase, find, assign, remove, get_or_default,
}
use prf.Messages.{
  ExecutorMessage, execute, start_update_cluster, finalize_transaction, register_transaction,
  UpdateTransactionMessage, PlannerMessage, start_transaction, update_transaction,
  finish_transaction,
}
use prf.Transaction.{
  InnerTransaction, ExecuteResult, set_at, target_clusters, generate_sub_transaction,
  register_execution_result, Network,
}

pub record Executor (H : Type 0) : Type 0 where
  pub transactions : List ℕ
  pub transaction_updatings : List (ℕ × List ℕ)
  pub before_update_hooks_buffers : List (ℕ × List H)
  pub before_update_hooks : List H

unfoldable pub new_executor : {H : Type 0} → Executor H
new_executor = record {
  transactions = [];
  transaction_updatings = [];
  before_update_hooks_buffers = [];
  before_update_hooks = [];
}

-- What is called outside of the executor: a hook, or a method of a time-invariant value.
pub data Call (H : Type 0) : Type 0 where
  run_hook : H → (id : ℕ) → Call H
  finalize refresh : (tiv id : ℕ) → Call H

-- How far the task of a cluster has come.
pub data Stage (H : Type 0) : Type 0 where
  requested announced : Stage H
  generated : InnerTransaction → Stage H
  registered : (futures : List ℕ) → (hooks : List H) → Stage H
  buffered : (futures : List ℕ) → Stage H
  ended : Stage H

pub record Task (H : Type 0) : Type 0 where
  pub transaction_id : ℕ
  pub cluster_id : ℕ
  pub stage : Stage H

-- The executor with what its handlers and its tasks work on: the transactions, the tasks that the
-- pool was ever given, in order, the planner's queue (front first), the IDs of the messages that are
-- done, and the calls so far.
pub record System (H : Type 0) : Type 0 where
  pub executor : Executor H
  pub inners : ℕ → InnerTransaction
  pub tasks : List (Task H)
  pub planner_messages : List PlannerMessage
  pub done : List ℕ
  pub calls : List (Call H)

-- What the execution of a sub-transaction gives.
pub record Outcome (H : Type 0) : Type 0 where
  pub result : ExecuteResult
  pub hooks : List H

abbrev pub no_update : ℕ → UpdateTransactionMessage
no_update id = record { transaction_id = id; now = []; future = []; finish = [] }

module _ {H : Type 0} where
  -- PlannerManager::messages.push
  abbrev pub push_planner : System H → PlannerMessage → System H
  push_planner s m = record s { planner_messages = s.planner_messages ++ m ∷ [] }

  -- The branch of start_loop for a TransactionExecuteMessage; `none` is the exit in target_clusters.
  unfoldable pub handle_execute : System H → ℕ → Option (System H)
  handle_execute s id = do
    clusters ← target_clusters (s.inners id)
    let e = record s.executor { transactions = insert id s.executor.transactions }
    some (
        push_planner (record s { executor = e })
          (update_transaction (record (no_update id) { future = clusters })))

  -- The branch for a StartUpdateClusterMessage.
  unfoldable pub handle_start_update : System H → ℕ → ℕ → System H
  handle_start_update s id cluster =
      let clusters = set_at id s.executor.transaction_updatings in
      let seen = record s {
        executor = record s.executor {
          transaction_updatings = assign id clusters s.executor.transaction_updatings;
        };
      } in
      let started = record s {
        executor = record s.executor {
          transaction_updatings =
              assign id (insert cluster clusters) s.executor.transaction_updatings;
        };
        tasks =
            s.tasks ++ record { transaction_id = id; cluster_id = cluster; stage = requested } ∷ [];
      } in
      if not (contains id s.executor.transactions)
      then s
      else if contains cluster clusters
      then seen
      else started

  -- InnerTransaction::finalize
  unfoldable pub finalize_calls : ℕ → List ℕ → List (Call H)
  finalize_calls id cleanups = map (λ x. finalize x id) cleanups ++ map (λ x. refresh x id) cleanups

  -- The branch for a FinalizeTransactionMessage.
  unfoldable pub handle_finalize : System H → ℕ → System H
  unfolding finalize_calls
  handle_finalize s id =
      let e = s.executor in
      let e' : Executor H = record {
        transactions = erase id e.transactions;
        transaction_updatings = remove id e.transaction_updatings;
        before_update_hooks =
            e.before_update_hooks ++ get_or_default [] (find id e.before_update_hooks_buffers);
        before_update_hooks_buffers = remove id e.before_update_hooks_buffers;
      } in
      let ended = record s {
        executor = e';
        done = s.done ++ id ∷ [];
        calls = s.calls ++ finalize_calls id (s.inners id).cleanups;
        planner_messages = s.planner_messages ++ finish_transaction id ∷ [];
      } in
      if not (contains id e.transactions) then s else ended

  -- Executor::invoke_before_update_hooks
  unfoldable pub invoke_before_update_hooks : System H → ℕ → System H
  invoke_before_update_hooks s id = record s {
    executor = record s.executor { before_update_hooks = [] };
    calls = s.calls ++ map (λ h. run_hook h id) s.executor.before_update_hooks;
  }

  -- The branch for a RegisterTransactionMessage.
  unfoldable pub handle_register : System H → ℕ → System H
  unfolding invoke_before_update_hooks
  handle_register s id = push_planner (invoke_before_update_hooks s id) (start_transaction id)

  -- One round of start_loop.
  unfoldable pub handle : System H → ExecutorMessage → Option (System H)
  unfolding handle_execute handle_start_update handle_finalize handle_register
  handle s (execute id) = handle_execute s id
  handle s (start_update_cluster id cluster) = some (handle_start_update s id cluster)
  handle s (finalize_transaction id) = some (handle_finalize s id)
  handle s (register_transaction id) = some (handle_register s id)

  unfoldable pub handle_all : System H → List ExecutorMessage → Option (System H)
  unfolding handle
  handle_all s [] = some s
  handle_all s (m ∷ ms) = do s' ← handle s m; handle_all s' ms

  -- Before_update_hooks_buffers[id] gets the hooks of a result, in order.
  unfoldable pub buffer_hooks : ℕ → List H → List (ℕ × List H) → List (ℕ × List H)
  buffer_hooks id [] m = m
  buffer_hooks id (h ∷ hs) m =
      buffer_hooks id hs (assign id (get_or_default [] (find id m) ++ h ∷ []) m)

  module _ (net : Network) where
    -- The next part of the task for `cluster` in `id`, with the stage that follows. `none` is the exit
    -- in register_execution_result.
    unfoldable pub advance : System H → ℕ → ℕ → Stage H → Outcome H → Option (System H × Stage H)
    unfolding buffer_hooks
    advance s id cluster requested o = some (
      push_planner s (update_transaction (record (no_update id) { now = cluster ∷ [] })),
      announced,
    )
    advance s id cluster announced o =
        let (parent, sub) = generate_sub_transaction net (s.inners id) cluster in
        some (record s { inners = λ j. if j == id then parent else s.inners j }, generated sub)
    advance s id cluster (generated sub) o = do
      (parent, futures) ← register_execution_result (s.inners id) o.result
      some (
        record s { inners = λ j. if j == id then parent else s.inners j },
        registered futures o.hooks,
      )
    advance s id cluster (registered futures hooks) o = some (
      record s {
        executor = record s.executor {
          before_update_hooks_buffers =
              buffer_hooks id hooks s.executor.before_update_hooks_buffers;
        };
      },
      buffered futures,
    )
    advance s id cluster (buffered futures) o = some (
      push_planner s
          (update_transaction (record (no_update id) { future = futures; finish = cluster ∷ [] })),
      ended,
    )
    advance s id cluster ended o = some (s, ended)

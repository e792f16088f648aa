-- ===== src/Runtime/Phases.antt =====
-- The life of a transaction: it is opened by a client, waits for its execution in the executor's queue,
-- is registered with the executor, and is done; and the executor requests each cluster once.
pub mod Handling
pub mod Stepping
use prf.Base.{
  ℕ, ◌+◌, ◌≤◌, ◌<◌, ◌≡◌, refl, true, false, inl, inr, Option, none, some, List, [], ◌∷◌, ◌++◌,
  arith, ltb, Option-cases, u64_mod, contains, insert, contains-insert, contains-erase, find,
  find-assign, find-remove,
}
use prf.Messages.{
  ExecutorMessage, execute, start_update_cluster, finalize_transaction, register_transaction,
}
use prf.Rank.{Rank}
use prf.Transaction.{Network, set_at, target_clusters, register_execution_result}
use prf.Executor.{
  System, Task, Stage, requested, announced, generated, registered, buffered, ended, Outcome,
  handle, handle_execute, handle_start_update, handle_finalize, handle_register, advance,
  new_executor,
}
use prf.Runtime.{
  Runtime, new_runtime, begin_transaction, send_value, start_updating, Step, begins, sends, commits,
  handles, works, receives, plans, Proposes, by_rank, by_simple, push_executor,
}
use prf.Planner.{PlannerManager}
use prf.Planner.Sent.{is_plan, is_plan-middle, rank_based_planner_sent, simple_planner_sent}
use prf.Runtime.Counts.{
  bit, times, times-append, executes, executes-append, count-append, count_middle, is_task,
  tasks_of,
}

pub Proposes-is_plan : (p : PlannerManager) (m : ExecutorMessage) → Proposes p m → is_plan m ≡ true
Proposes-is_plan p m (by_rank stop before after e) =
    is_plan-middle before after m
      (rank_based_planner_sent p.cluster_ranks stop p.transaction_states (before ++ m ∷ after) e)
Proposes-is_plan p m (by_simple e) =
    is_plan-middle [] [] m (simple_planner_sent p.cluster_ranks p.transaction_states (m ∷ []) e)

module _ {H : Type 0} where
  pub record Phases (r : Runtime H) : Type 0 where
    pub phase :
        (t : ℕ)
        → bit (contains t r.opened)
            + executes t r.executor_messages
            + bit (contains t r.system.executor.transactions)
            + times t r.system.done
          ≡ bit (ltb t r.next_transaction_id)
    pub blank :
        (t : ℕ)
        → contains t r.system.executor.transactions ≡ false
        → find t r.system.executor.transaction_updatings ≡ none
    pub once :
        (t c : ℕ)
        → times t r.system.done ≡ 0
        → tasks_of t c r.system.tasks
          ≡ bit (contains c (set_at t r.system.executor.transaction_updatings))
    pub at_most : (t c : ℕ) → tasks_of t c r.system.tasks ≤ 1
    pub small : r.next_transaction_id < u64_mod

  pub new_runtime-Phases : (ranks : List Rank) → Phases (new_runtime {H = H} ranks)
  unfolding new_runtime new_executor
  new_runtime-Phases ranks = record {
    phase = λ t. ground arith;
    blank = λ t h. refl;
    once = λ t c h. refl;
    at_most = λ t c. omega arith;
    small = omega arith;
  }

  pub begin-Phases :
      (r : Runtime H)
      → Phases r
      → r.next_transaction_id + 1 < u64_mod
      → Phases (begin_transaction r)
  unfolding begin_transaction
  begin-Phases r v lt = record {
    phase = λ t. ground (
      arith,
      v.phase t,
      contains-insert t r.next_transaction_id r.opened,
      executes-append t r.executor_messages (register_transaction r.next_transaction_id ∷ []),
    );
    blank = v.blank;
    once = v.once;
    at_most = v.at_most;
    small = omega arith;
  }

  pub start-Phases :
      (r : Runtime H) (id : ℕ)
      → Phases r
      → contains id r.opened ≡ true
      → Phases (start_updating r id)
  unfolding start_updating
  start-Phases r id v open_now = record {
    phase = λ t. ground (
      arith,
      v.phase t,
      contains-erase t id r.opened,
      executes-append t r.executor_messages (execute id ∷ []),
    );
    blank = v.blank;
    once = v.once;
    at_most = v.at_most;
    small = v.small;
  }

  pub send-Phases :
      (net : Network) (r : Runtime H) (id tiv : ℕ) → Phases r → Phases (send_value net r id tiv)
  unfolding send_value
  send-Phases net r id tiv v = record {
    phase = v.phase;
    blank = v.blank;
    once = v.once;
    at_most = v.at_most;
    small = v.small;
  }

  pub plan-Phases :
      (r : Runtime H) (m : ExecutorMessage)
      → Phases r
      → is_plan m ≡ true
      → Phases (push_executor r m)
  plan-Phases r m v h = record {
    phase = λ t. ground (arith, v.phase t, executes-append t r.executor_messages (m ∷ []));
    blank = v.blank;
    once = v.once;
    at_most = v.at_most;
    small = v.small;
  }

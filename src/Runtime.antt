-- ===== src/Runtime.antt =====
-- The threads of the program together: clients that make transactions (src/prf/transaction.cpp), the
-- executor (src/prf/executor.cpp), the tasks of its thread pool and the planner (src/prf/planner.cpp),
-- joined by two queues of messages. A step is one action of one thread; which thread acts, and how
-- far a task's execution goes, is left open. The planner may send any message that simple_planner or
-- rank_based_planner sends for the states at hand, at any time and any number of times. A counter of
-- transactions that does not overflow is assumed where a transaction begins.
pub mod Counts
pub mod Phases
pub mod Once
pub mod Queues
pub mod View
pub mod Safety
use prf.Base.{
  ℕ, ◌+◌, ◌<◌, ◌≡◌, u64_mod, Bool, true, Option, none, some, List, [], ◌∷◌, ◌++◌, ◌==◌,
  if◌then◌else◌, wrap, contains, insert, erase,
}
use prf.Rank.{Rank}
use prf.Messages.{ExecutorMessage, execute, register_transaction, PlannerMessage}
use prf.Planner.{PlannerManager, new_manager, handle_message}
use prf.Planner.Simple.{simple_planner}
use prf.Planner.RankBased.{rank_based_planner}
use prf.Transaction.{
  Network, InnerTransaction, new_sub_transaction, unmanaged_cluster_id, register_updates,
  register_cleanup, execute_loop, result_of,
}
use prf.Executor.{
  System, new_executor, Task, Stage, requested, announced, generated, registered, buffered, ended,
  Outcome, handle, advance,
}

pub record Runtime (H : Type 0) : Type 0 where
  pub system : System H
  pub executor_messages : List ExecutorMessage
  pub planner : PlannerManager
  pub next_transaction_id : ℕ
  -- The transactions that are constructed and not yet sent for execution.
  pub opened : List ℕ

-- A message that a planner sends for the states at hand.
pub data Proposes (p : PlannerManager) (m : ExecutorMessage) : Type 0 where
  by_rank :
      (stop : ℕ → Bool) (before after : List ExecutorMessage)
      → rank_based_planner p.cluster_ranks stop p.transaction_states ≡ some (before ++ m ∷ after)
      → Proposes p m
  by_simple : simple_planner p.cluster_ranks p.transaction_states ≡ some (m ∷ []) → Proposes p m

module _ {H : Type 0} where
  -- build(): nothing has happened yet.
  unfoldable pub new_runtime : List Rank → Runtime H
  new_runtime ranks = record {
    system = record {
      executor = new_executor;
      inners = λ id. new_sub_transaction id unmanaged_cluster_id;
      tasks = [];
      planner_messages = [];
      done = [];
      calls = [];
    };
    executor_messages = [];
    planner = new_manager ranks;
    next_transaction_id = 0;
    opened = [];
  }

  -- Executor::messages.push
  abbrev pub push_executor : Runtime H → ExecutorMessage → Runtime H
  push_executor r m = record r { executor_messages = r.executor_messages ++ m ∷ [] }

  abbrev pub set_inner : Runtime H → ℕ → InnerTransaction → Runtime H
  set_inner r id t = record r {
    system = record r.system { inners = λ j. if j == id then t else r.system.inners j };
  }

  -- InnerTransaction::InnerTransaction() in a thread that has no transaction.
  unfoldable pub begin_transaction : Runtime H → Runtime H
  begin_transaction r =
      let id = r.next_transaction_id in
      push_executor
        (record (set_inner r id (new_sub_transaction id unmanaged_cluster_id)) {
          next_transaction_id = wrap (id + 1);
          opened = insert id r.opened;
        })
        (register_transaction id)

  -- The part of send of a stream or a cell that works on the thread's transaction.
  unfoldable pub send_value : Network → Runtime H → ℕ → ℕ → Runtime H
  send_value net r id tiv =
      set_inner r id
        (register_cleanup net (register_updates net (r.system.inners id) (net.listeners tiv)) tiv)

  -- InnerTransaction::start_updating, and Transaction::get_join_handler.
  unfoldable pub start_updating : Runtime H → ℕ → Runtime H
  start_updating r id = push_executor (record r { opened = erase id r.opened }) (execute id)

  module _ (net : Network) {S : Type 0} (updater : ℕ → S → Option S) where
    -- What a task's outcome has to do with its stage: an execution gives the result.
    pub data Executed (o : Outcome H) : Stage H → Type 0 where
      ran :
          {sub sub' : InnerTransaction} (fuel : ℕ) (s s' : S) (trace : List ℕ)
          → execute_loop net updater fuel sub s ≡ some (sub', s', trace)
          → o.result ≡ result_of sub'
          → Executed o (generated sub)
      asks : Executed o requested
      makes : Executed o announced
      buffers : {futures : List ℕ} {hooks : List H} → Executed o (registered futures hooks)
      reports : {futures : List ℕ} → Executed o (buffered futures)

    pub data Step (r : Runtime H) : Runtime H → Type 0 where
      begins : r.next_transaction_id + 1 < u64_mod → Step r (begin_transaction r)
      sends : (id tiv : ℕ) → contains id r.opened ≡ true → Step r (send_value net r id tiv)
      commits : (id : ℕ) → contains id r.opened ≡ true → Step r (start_updating r id)
      handles :
          (m : ExecutorMessage) (rest : List ExecutorMessage) (s' : System H)
          → r.executor_messages ≡ m ∷ rest
          → handle r.system m ≡ some s'
          → Step r (record r { system = s'; executor_messages = rest })
      works :
          (before after : List (Task H)) (task : Task H) (o : Outcome H) (s' : System H)
          (stage' : Stage H)
          → r.system.tasks ≡ before ++ task ∷ after
          → Executed o task.stage
          → advance net r.system task.transaction_id task.cluster_id task.stage o
            ≡ some (s', stage')
          → Step r (record r {
            system = record s' { tasks = before ++ record task { stage = stage' } ∷ after };
          })
      receives :
          (m : PlannerMessage) (rest : List PlannerMessage) (p' : PlannerManager)
          → r.system.planner_messages ≡ m ∷ rest
          → handle_message r.planner m ≡ some p'
          → Step r (record r { planner = p'; system = record r.system { planner_messages = rest } })
      plans : (m : ExecutorMessage) → Proposes r.planner m → Step r (push_executor r m)

    pub data Reach (ranks : List Rank) : Runtime H → Type 0 where
      start : Reach ranks (new_runtime ranks)
      next : {r r' : Runtime H} → Reach ranks r → Step r r' → Reach ranks r'

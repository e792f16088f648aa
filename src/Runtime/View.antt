-- ===== src/Runtime/View.antt =====
-- How the planner's view agrees with the executor's: `final` is the planner once it has handled all
-- messages in its queue.
pub mod Clients
pub mod Keeping
pub mod Handling
pub mod Starting
pub mod Ending
pub mod Tasks
pub mod Telling
pub mod Working
pub mod Parts
pub mod Planning
pub mod Proposals
pub mod Reached
use prf.Base.{
  ℕ, zero, suc, ◌+◌, ◌≤◌, ◌<◌, ◌≡◌, ◌⊎◌, Bool, true, false, Option, none, some, List, [], ◌∷◌,
  length, contains, KeysAscending,
}
use prf.Rank.{Rank}
use prf.Messages.{
  ExecutorMessage, execute, start_update_cluster, finalize_transaction, register_transaction,
  PlannerMessage, start_transaction, update_transaction, finish_transaction,
}
use prf.Planner.{TransactionState, new_state, PlannerManager}
use prf.Planner.Sequence.{find_state}
use prf.Planner.Effect.{EndsAt}
use prf.Transaction.{InnerTransaction, unmanaged_cluster_id, has_key}
use prf.Transaction.Targets.{IsTargets}
use prf.Executor.{Task, Stage, requested, announced, generated, registered, buffered, ended, System}
use prf.Runtime.{Runtime}
use prf.Runtime.Counts.{bit, times, tasks_of, requests, lives, holders}
use prf.Runtime.Queues.{All, Registers, Planned}

-- The clusters with targets in a transaction have ranks.
pub record IsParent (n : ℕ) (t : InnerTransaction) : Type 0 where
  pub unmanaged : t.updating_cluster ≡ unmanaged_cluster_id
  pub targets : IsTargets n t.targets_outside

module _ {H : Type 0} where
  -- 1 for a transaction that the executor has or had.
  abbrev pub committed : System H → ℕ → ℕ
  committed s t = bit (contains t s.executor.transactions) + times t s.done

  -- The state of a transaction that the executor has. A cluster with targets is announced, or held by
  -- a task to be announced, or its task has begun; the running clusters are those of the tasks under
  -- way, and the clusters that are asked for are announced.
  pub record Agrees (s : System H) (t : ℕ) (state : TransactionState) : Type 0 where
    pub ready : state.initialized ≡ true
    pub futures :
        (c : ℕ)
        → bit (contains c state.future) + holders t c s.tasks + tasks_of t c s.tasks
          ≡ bit (has_key c (s.inners t).targets_outside) + requests t c s.tasks
    pub nows : (c : ℕ) → bit (contains c state.now) ≡ lives t c s.tasks
    pub asked : (c : ℕ) → requests t c s.tasks ≤ bit (contains c state.future)

  -- A message of the planner still makes sense: its transaction is done, or the cluster was started
  -- before or is announced, or the transaction has nothing left to do.
  abbrev pub IsStartable : System H → PlannerManager → ℕ → ℕ → Type 0
  IsStartable s final t c =
      (1 ≤ times t s.done)
      ⊎ (contains t s.executor.transactions ≡ true)
        × ((1 ≤ tasks_of t c s.tasks)
            ⊎ (state : TransactionState) × (find_state t final.transaction_states ≡ some state)
              × (contains c state.future ≡ true))

  abbrev pub IsEndable : System H → PlannerManager → ℕ → Type 0
  IsEndable s final t =
      (1 ≤ times t s.done)
      ⊎ (contains t s.executor.transactions ≡ true)
        × ((c : ℕ) → lives t c s.tasks + requests t c s.tasks ≡ 0)
        × ((state : TransactionState) × (find_state t final.transaction_states ≡ some state)
            × ((c : ℕ) → contains c state.future ≡ false))

  abbrev pub IsSensible : System H → PlannerManager → ExecutorMessage → Type 0
  IsSensible s final (execute id) = Unit
  IsSensible s final (start_update_cluster id c) = IsStartable s final id c
  IsSensible s final (finalize_transaction id) = IsEndable s final id
  IsSensible s final (register_transaction id) = Unit

  -- A message to the planner is about a transaction that the executor has or had, and starts clusters
  -- whose tasks have begun.
  abbrev pub IsSent : System H → PlannerMessage → Type 0
  IsSent s (start_transaction id) = Unit
  IsSent s (update_transaction m) =
      (1 ≤ committed s m.transaction_id)
      × ((c : ℕ)
          → contains c m.now ≡ true
          → requests m.transaction_id c s.tasks < tasks_of m.transaction_id c s.tasks)
  IsSent s (finish_transaction id) = 1 ≤ times id s.done

  -- The sub-transaction of a task has targets for clusters with ranks.
  abbrev pub IsSub : ℕ → Stage H → Type 0
  IsSub n requested = Unit
  IsSub n announced = Unit
  IsSub n (generated sub) = IsTargets n sub.targets_outside
  IsSub n (registered futures hooks) = Unit
  IsSub n (buffered futures) = Unit
  IsSub n ended = Unit

  pub record View (ranks : List Rank) (r : Runtime H) (final : PlannerManager) : Type 0 where
    pub planned : Planned ranks r.planner r.system.planner_messages final
    pub registered : ℕ
    pub registers : Registers r.next_transaction_id registered r.executor_messages
    pub ends : EndsAt registered final.transaction_states
    pub fresh :
        (t : ℕ)
        → t < registered
        → committed r.system t ≡ 0
        → find_state t final.transaction_states ≡ some (new_state t)
    pub known :
        (t : ℕ)
        → contains t r.system.executor.transactions ≡ true
        → (state : TransactionState) × (find_state t final.transaction_states ≡ some state)
          × Agrees r.system t state
    pub parents : (t : ℕ) → IsParent (length ranks) (r.system.inners t)
    pub subs : All (λ x. IsSub (length ranks) x.stage) r.system.tasks
    pub quiet :
        (t c : ℕ)
        → 1 ≤ times t r.system.done
        → lives t c r.system.tasks + requests t c r.system.tasks ≡ 0
    pub sensible : All (IsSensible r.system final) r.executor_messages
    pub sent : All (IsSent r.system) r.system.planner_messages
    pub initialized :
        (t : ℕ) (state : TransactionState)
        → find_state t r.planner.transaction_states ≡ some state
        → state.initialized ≡ true
        → 1 ≤ committed r.system t

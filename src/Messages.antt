-- ===== src/Messages.antt =====
-- The messages that the executor and the planner send to one another:
-- src/prf/executor.hpp (ExecutorMessage) and src/prf/planner.hpp (PlannerMessage). A pointer to a
-- TransactionExecuteMessage is the ID of the transaction that the message holds.
use prf.Base.{ℕ, List, Bool, true, false}

pub data ExecutorMessage : Type 0 where
  execute : ℕ → ExecutorMessage
  start_update_cluster : (transaction_id cluster_id : ℕ) → ExecutorMessage
  finalize_transaction : (transaction_id : ℕ) → ExecutorMessage
  register_transaction : (id : ℕ) → ExecutorMessage

pub record UpdateTransactionMessage : Type 0 where
  pub transaction_id : ℕ
  pub now : List ℕ
  pub future : List ℕ
  pub finish : List ℕ

pub data PlannerMessage : Type 0 where
  start_transaction : (transaction_id : ℕ) → PlannerMessage
  update_transaction : UpdateTransactionMessage → PlannerMessage
  finish_transaction : (transaction_id : ℕ) → PlannerMessage

-- need_refresh_message
unfoldable pub need_refresh_message : PlannerMessage → Bool
need_refresh_message (start_transaction id) = false
need_refresh_message (update_transaction m) = true
need_refresh_message (finish_transaction id) = true

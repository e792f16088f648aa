-- ===== src/Runtime/Once.antt =====
-- What the executor does at most once, however the threads are scheduled.
use prf.Base.{ℕ, ◌+◌, ◌≤◌, ◌≡◌, Option, List, ltb, contains}
use prf.Rank.{Rank}
use prf.Transaction.{Network}
use prf.Runtime.{Runtime, Reach, start, next}
use prf.Runtime.Counts.{bit, times, executes, tasks_of}
use prf.Runtime.Phases.{Phases, new_runtime-Phases}
use prf.Runtime.Phases.Stepping.{Step-Phases}

module _ {H : Type 0} (net : Network) {S : Type 0} (updater : ℕ → S → Option S) where
  pub Reach-Phases : {ranks : List Rank} {r : Runtime H} → Reach net updater ranks r → Phases r
  Reach-Phases {ranks} start = new_runtime-Phases ranks
  Reach-Phases (next before step) = Step-Phases net updater step (Reach-Phases before)

  -- In every reachable runtime, with any number of transactions and any messages of the planner, the
  -- executor has requested at most one task for each cluster of each transaction, although the planner
  -- may ask for it many times.
  pub requests_at_most_once :
      (ranks : List Rank) (r : Runtime H) (id cluster : ℕ)
      → Reach net updater ranks r
      → tasks_of id cluster r.system.tasks ≤ 1
  requests_at_most_once ranks r id cluster reach = (Reach-Phases reach).at_most id cluster

  -- In every reachable runtime each transaction is in at most one place: opened by a client, waiting in
  -- the executor's queue for its execution, registered with the executor, or done, and it was done at
  -- most once; and it is in none of them if its ID has not been given out.
  pub lives_at_most_once :
      (ranks : List Rank) (r : Runtime H) (id : ℕ)
      → Reach net updater ranks r
      → bit (contains id r.opened)
          + executes id r.executor_messages
          + bit (contains id r.system.executor.transactions)
          + times id r.system.done
        ≡ bit (ltb id r.next_transaction_id)
  lives_at_most_once ranks r id reach = (Reach-Phases reach).phase id

-- ===== src/Runtime/Phases/Handling.antt =====
-- The life of a transaction, and the executor's handlers.
use prf.Base.{
  ℕ, ◌≡◌, inl, inr, some, List, [], ◌∷◌, arith, Option-cases, insert, contains-insert,
  contains-erase, find-assign, find-remove,
}
use prf.Messages.{
  ExecutorMessage, execute, start_update_cluster, finalize_transaction, register_transaction,
}
use prf.Transaction.{set_at, target_clusters}
use prf.Executor.{
  System, Task, requested, handle, handle_execute, handle_start_update, handle_finalize,
  handle_register,
}
use prf.Runtime.{Runtime}
use prf.Runtime.Counts.{times-append, count-append, is_task}
use prf.Runtime.Phases.{Phases}

module _ {H : Type 0} where
  handle_execute-Phases :
      (r : Runtime H) (id : ℕ) (rest : List ExecutorMessage) (s' : System H)
      → Phases r
      → r.executor_messages ≡ execute id ∷ rest
      → handle_execute r.system id ≡ some s'
      → Phases (record r { system = s'; executor_messages = rest })
  unfolding handle_execute
  handle_execute-Phases r id rest s' v e h =
      elim (Option-cases (target_clusters (r.system.inners id))) [
        | inl failed ↦ cc
        | inr (cs, got) ↦
            let trans : s'.executor.transactions ≡ insert id r.system.executor.transactions =
              ground arith in
            let ups : s'.executor.transaction_updatings ≡ r.system.executor.transaction_updatings =
              ground arith in
            let tasks : s'.tasks ≡ r.system.tasks = ground arith in
            let done : s'.done ≡ r.system.done = ground arith in
            record {
              phase = λ t.
                  rw (trans, done)
                    (ground
                      (arith, v.phase t, contains-insert t id r.system.executor.transactions));
              blank = λ t.
                  rw (trans, ups)
                    (ground
                      (arith, v.blank t, contains-insert t id r.system.executor.transactions));
              once = λ t c. rw (tasks, ups, done) (v.once t c);
              at_most = λ t c. rw tasks (v.at_most t c);
              small = v.small;
            }
      ]

  handle_start_update-Phases :
      (r : Runtime H) (id cluster : ℕ) (rest : List ExecutorMessage)
      → Phases r
      → r.executor_messages ≡ start_update_cluster id cluster ∷ rest
      → Phases
          (record r { system = handle_start_update r.system id cluster; executor_messages = rest })
  unfolding handle_start_update
  handle_start_update-Phases r id cluster rest v e =
      let ups = r.system.executor.transaction_updatings in
      let cs = set_at id ups in
      let x : Task H = record { transaction_id = id; cluster_id = cluster; stage = requested } in
      record {
        phase = λ t. ground (arith, v.phase t);
        blank = λ t.
            ground
              (arith, v.blank t, find-assign t id cs ups, find-assign t id (insert cluster cs) ups);
        once = λ t c. ground (
          arith,
          v.once t c,
          v.phase id,
          find-assign t id cs ups,
          find-assign t id (insert cluster cs) ups,
          contains-insert c cluster cs,
          count-append (is_task t c) r.system.tasks (x ∷ []),
        );
        at_most = λ t c. ground (
          arith,
          v.once t c,
          v.at_most t c,
          v.phase id,
          v.phase t,
          count-append (is_task t c) r.system.tasks (x ∷ []),
        );
        small = v.small;
      }

  handle_finalize-Phases :
      (r : Runtime H) (id : ℕ) (rest : List ExecutorMessage)
      → Phases r
      → r.executor_messages ≡ finalize_transaction id ∷ rest
      → Phases (record r { system = handle_finalize r.system id; executor_messages = rest })
  unfolding handle_finalize
  handle_finalize-Phases r id rest v e = record {
    phase = λ t. ground (
      arith,
      v.phase t,
      contains-erase t id r.system.executor.transactions,
      times-append t r.system.done (id ∷ []),
    );
    blank = λ t. ground (
      arith,
      v.blank t,
      contains-erase t id r.system.executor.transactions,
      find-remove t id r.system.executor.transaction_updatings,
    );
    once = λ t c. ground (
      arith,
      v.once t c,
      find-remove t id r.system.executor.transaction_updatings,
      times-append t r.system.done (id ∷ []),
    );
    at_most = λ t c. ground (arith, v.at_most t c);
    small = v.small;
  }

  handle_register-Phases :
      (r : Runtime H) (id : ℕ) (rest : List ExecutorMessage)
      → Phases r
      → r.executor_messages ≡ register_transaction id ∷ rest
      → Phases (record r { system = handle_register r.system id; executor_messages = rest })
  unfolding handle_register
  handle_register-Phases r id rest v e = record {
    phase = λ t. ground (arith, v.phase t);
    blank = v.blank;
    once = v.once;
    at_most = v.at_most;
    small = v.small;
  }

  pub handle-Phases :
      (r : Runtime H) (m : ExecutorMessage) (rest : List ExecutorMessage) (s' : System H)
      → Phases r
      → r.executor_messages ≡ m ∷ rest
      → handle r.system m ≡ some s'
      → Phases (record r { system = s'; executor_messages = rest })
  unfolding handle
  handle-Phases r (execute id) rest s' v e h = handle_execute-Phases r id rest s' v e h
  handle-Phases r (start_update_cluster id c) rest s' v e h =
      let same : handle_start_update r.system id c ≡ s' = cc in
      rw (← same) (handle_start_update-Phases r id c rest v e)
  handle-Phases r (finalize_transaction id) rest s' v e h =
      let same : handle_finalize r.system id ≡ s' = cc in
      rw (← same) (handle_finalize-Phases r id rest v e)
  handle-Phases r (register_transaction id) rest s' v e h =
      let same : handle_register r.system id ≡ s' = cc in
      rw (← same) (handle_register-Phases r id rest v e)

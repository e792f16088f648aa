-- ===== src/Runtime/View/Keeping.antt =====
-- What a change of the system has to keep for the messages in the executor's queue to make sense.
use prf.Base.{
  ℕ, ◌+◌, ◌≤◌, ◌<◌, ◌≡◌, ◌⊎◌, refl, true, false, inl, inr, ◌&&◌, some, List, [], ◌∷◌, arith, ◌==◌,
  if◌then◌else◌, contains, contains-insert,
}
use prf.Messages.{
  ExecutorMessage, execute, start_update_cluster, finalize_transaction, register_transaction,
  PlannerMessage, start_transaction, update_transaction, finish_transaction,
}
use prf.Planner.{TransactionState, PlannerManager}
use prf.Planner.Sequence.{find_state}
use prf.Planner.Effect.{EndsAt, handle_update-EndsAt}
use prf.Transaction.{has_key, keys_of}
use prf.Executor.{System, Task}
use prf.Runtime.{Runtime}
use prf.Runtime.Counts.{
  bit, times, is_task, is_requested, is_live, tasks_of, requests, lives, holders,
}
use prf.Runtime.Phases.{Phases}
use prf.Runtime.View.{IsSent, committed, IsSensible}

module _ {H : Type 0} where
  -- A transaction that the executor has is done, or it is still there: its state keeps the announced
  -- clusters except those whose tasks exist, and if it has nothing left to do that stays so.
  pub record Keeps (s s' : System H) (f f' : PlannerManager) : Type 0 where
    pub done : (t : ℕ) → times t s.done ≤ times t s'.done
    pub tasks : (t c : ℕ) → tasks_of t c s.tasks ≤ tasks_of t c s'.tasks
    pub stays :
        (t : ℕ)
        → contains t s.executor.transactions ≡ true
        → (1 ≤ times t s'.done) ⊎ (contains t s'.executor.transactions ≡ true)
    pub future :
        (t c : ℕ) (state : TransactionState)
        → contains t s.executor.transactions ≡ true
        → find_state t f.transaction_states ≡ some state
        → contains c state.future ≡ true
        → (1 ≤ times t s'.done)
          ⊎ (1 ≤ tasks_of t c s'.tasks)
          ⊎ (state' : TransactionState) × (find_state t f'.transaction_states ≡ some state')
            × (contains c state'.future ≡ true)
    pub idle :
        (t : ℕ) (state : TransactionState)
        → contains t s.executor.transactions ≡ true
        → ((c : ℕ) → lives t c s.tasks + requests t c s.tasks ≡ 0)
        → find_state t f.transaction_states ≡ some state
        → ((c : ℕ) → contains c state.future ≡ false)
        → (1 ≤ times t s'.done)
          ⊎ ((c : ℕ) → lives t c s'.tasks + requests t c s'.tasks ≡ 0)
            × ((state' : TransactionState) × (find_state t f'.transaction_states ≡ some state')
                × ((c : ℕ) → contains c state'.future ≡ false))

  pub IsSensible-Keeps :
      (s s' : System H) (f f' : PlannerManager) (m : ExecutorMessage)
      → Keeps s s' f f'
      → IsSensible s f m
      → IsSensible s' f' m
  IsSensible-Keeps s s' f f' (execute id) k h = tt
  IsSensible-Keeps s s' f f' (register_transaction id) k h = tt
  IsSensible-Keeps s s' f f' (start_update_cluster t c) k (inl over) = inl (omega (arith, k.done t))
  IsSensible-Keeps s s' f f' (start_update_cluster t c) k (inr (here, inl begun)) =
      elim (k.stays t here) [
        | inl over ↦ inl over
        | inr there ↦ inr (there, inl (omega (arith, k.tasks t c)))
      ]
  IsSensible-Keeps s s' f f' (start_update_cluster t c) k (inr (here, inr (state, found, future))) =
      elim (k.stays t here) [
        | inl over ↦ inl over
        | inr there ↦ elim (k.future t c state here found future) [
          | inl over ↦ inl over
          | inr (inl begun) ↦ inr (there, inl begun)
          | inr (inr found') ↦ inr (there, inr found')
        ]
      ]
  IsSensible-Keeps s s' f f' (finalize_transaction t) k (inl over) = inl (omega (arith, k.done t))
  IsSensible-Keeps s s' f f' (finalize_transaction t) k
        (inr (here, quiet, (state, found, none_left))) =
      elim (k.stays t here) [
        | inl over ↦ inl over
        | inr there ↦ elim (k.idle t state here quiet found none_left) [
          | inl over ↦ inl over
          | inr (quiet', idle') ↦ inr (there, quiet', idle')
        ]
      ]

  -- What a change has to keep for the messages in the planner's queue to stay what they are.
  pub record Steady (s s' : System H) : Type 0 where
    pub committed_stays : (t : ℕ) → 1 ≤ committed s t → 1 ≤ committed s' t
    pub done_stays : (t : ℕ) → times t s.done ≤ times t s'.done
    pub begun :
        (t c : ℕ)
        → requests t c s.tasks < tasks_of t c s.tasks
        → requests t c s'.tasks < tasks_of t c s'.tasks

  pub IsSent-Steady :
      (s s' : System H) (m : PlannerMessage) → Steady s s' → IsSent s m → IsSent s' m
  IsSent-Steady s s' (start_transaction id) k h = tt
  IsSent-Steady s s' (update_transaction m) k h =
      (k.committed_stays m.transaction_id h.0, λ c e. k.begun m.transaction_id c (h.1 c e))
  IsSent-Steady s s' (finish_transaction id) k h = omega (arith, k.done_stays id)

  stage_bound :
      (t c : ℕ) (x : Task H)
      → bit (is_task t c x && is_live x.stage) + bit (is_task t c x && is_requested x.stage)
        ≤ bit (is_task t c x)
  stage_bound t c x = ground arith

  -- The tasks under way and the requested ones are among all tasks of the cluster.
  pub lives-le : (t c : ℕ) (xs : List (Task H)) → lives t c xs + requests t c xs ≤ tasks_of t c xs
  lives-le t c [] = omega arith
  lives-le t c (x ∷ xs) = omega (arith, lives-le t c xs, stage_bound t c x)

  -- A task that holds a cluster is a task of its transaction under way.
  pub holders_zero :
      (t c : ℕ) (xs : List (Task H)) → ((d : ℕ) → tasks_of t d xs ≡ 0) → holders t c xs ≡ 0
  holders_zero t c [] h = refl
  holders_zero t c (x ∷ xs) h =
      ground (arith, h x.cluster_id, holders_zero t c xs (λ d. omega (arith, h d)))

  -- The executor has the transaction of a task, as long as that is not done.
  pub task_known :
      (r : Runtime H) (t c : ℕ)
      → Phases r
      → times t r.system.done ≡ 0
      → 1 ≤ tasks_of t c r.system.tasks
      → contains t r.system.executor.transactions ≡ true
  task_known r t c w none_done some_task = ground (arith, w.once t c, w.blank t)

  pub no_tasks :
      (r : Runtime H) (t : ℕ)
      → Phases r
      → committed r.system t ≡ 0
      → (c : ℕ) → tasks_of t c r.system.tasks ≡ 0
  no_tasks r t w none_yet c = ground (arith, w.once t c, w.blank t)

pub keys_of-contains : (c : ℕ) (m : List (ℕ × List ℕ)) → contains c (keys_of m) ≡ has_key c m
keys_of-contains c [] = refl
keys_of-contains c ((k, v) ∷ m) =
    ground (arith, contains-insert c k (keys_of m), keys_of-contains c m)

-- An update of a state that is there keeps the IDs.
pub update-EndsAt :
    (k t : ℕ) (ss ss' : List TransactionState) (state state' : TransactionState)
    → EndsAt k ss
    → find_state t ss ≡ some state
    → ((j : ℕ) → find_state j ss' ≡ (if t == j then some state' else find_state j ss))
    → EndsAt k ss'
update-EndsAt k t ss ss' state state' v found finds =
    handle_update-EndsAt k ss ss' v
      (λ j. (λ m. ground (arith, finds j, found), λ m. ground (arith, finds j, found)))
      (λ e. let found' : find_state t [] ≡ some state = rw e at found in absurd (ground arith))

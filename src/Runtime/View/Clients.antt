-- ===== src/Runtime/View/Clients.antt =====
-- The view is kept by what clients do, and by what changes no more than the parents and the queue.
use prf.Base.{
  ℕ, suc, ◌+◌, ◌<◌, ◌≡◌, ◌∙◌, refl, Bool, true, false, List, arith, ◌==◌, if◌then◌else◌, u64_mod,
  wrap, length, contains,
}
use prf.Rank.{Rank}
use prf.Messages.{
  ExecutorMessage, execute, start_update_cluster, finalize_transaction, register_transaction,
  PlannerMessage, start_transaction, update_transaction, finish_transaction,
}
use prf.Planner.{TransactionState, PlannerManager}
use prf.Transaction.{
  Network, InnerTransaction, new_sub_transaction, unmanaged_cluster_id, register_updates,
  register_cleanup,
}
use prf.Transaction.Targets.{register_updates-IsTargets}
use prf.Executor.{System}
use prf.Runtime.{Runtime, begin_transaction, send_value, start_updating}
use prf.Runtime.Phases.{Phases}
use prf.Runtime.Queues.{All-map, All-snoc, Registers-register, Registers-execute}
use prf.Runtime.View.{Agrees, IsSensible, IsSent, IsParent, View}

pub IsParent-if :
    (n : ℕ) (b : Bool) (t t' : InnerTransaction)
    → IsParent n t
    → IsParent n t'
    → IsParent n (if b then t else t')
IsParent-if n true t t' v v' = v
IsParent-if n false t t' v v' = v'

pub new-IsParent : (n id : ℕ) → IsParent n (new_sub_transaction id unmanaged_cluster_id)
unfolding new_sub_transaction
new-IsParent n id = record {
  unmanaged = refl;
  targets = record { ordered = tt; ranked = λ c e. cc; filled = λ c e. cc };
}

module _ {H : Type 0} where
  -- The same tasks and the same parent.
  pub Agrees-same :
      (s s' : System H) (t : ℕ) (state : TransactionState)
      → s'.tasks ≡ s.tasks
      → s'.inners t ≡ s.inners t
      → Agrees s t state
      → Agrees s' t state
  Agrees-same s s' t state tasks inner a = record {
    ready = a.ready;
    futures = λ c. rw (tasks, inner) (a.futures c);
    nows = λ c. rw tasks (a.nows c);
    asked = λ c. rw tasks (a.asked c);
  }

  pub IsSensible-same :
      (s s' : System H) (final : PlannerManager) (m : ExecutorMessage)
      → s'.tasks ≡ s.tasks
      → s'.executor.transactions ≡ s.executor.transactions
      → s'.done ≡ s.done
      → IsSensible s final m
      → IsSensible s' final m
  IsSensible-same s s' final (execute id) tasks trans done h = tt
  IsSensible-same s s' final (start_update_cluster id c) tasks trans done h =
      rw (tasks, trans, done) h
  IsSensible-same s s' final (finalize_transaction id) tasks trans done h =
      rw (tasks, trans, done) h
  IsSensible-same s s' final (register_transaction id) tasks trans done h = tt

  pub IsSent-same :
      (s s' : System H) (m : PlannerMessage)
      → s'.tasks ≡ s.tasks
      → s'.executor.transactions ≡ s.executor.transactions
      → s'.done ≡ s.done
      → IsSent s m
      → IsSent s' m
  IsSent-same s s' (start_transaction id) tasks trans done h = tt
  IsSent-same s s' (update_transaction m) tasks trans done h = rw (tasks, trans, done) h
  IsSent-same s s' (finish_transaction id) tasks trans done h = rw done h

  pub begin-View :
      (ranks : List Rank) (r : Runtime H) (final : PlannerManager)
      → Phases r
      → View ranks r final
      → r.next_transaction_id + 1 < u64_mod
      → View ranks (begin_transaction r) final
  unfolding begin_transaction new_sub_transaction
  begin-View ranks r final w v lt =
      let id = r.next_transaction_id in
      let e : wrap (id + 1) ≡ suc id = omega arith in
      let s' = (begin_transaction r).system in
      record {
        planned = v.planned;
        registered = v.registered;
        registers = rw e (Registers-register id v.registered r.executor_messages v.registers);
        ends = v.ends;
        fresh = v.fresh;
        known = λ t h.
            let (state, found, a) = v.known t h in
            (state, found, Agrees-same r.system s' t state refl (ground (arith, w.phase t)) a);
        parents = λ t.
            IsParent-if (length ranks) (t == id) (new_sub_transaction id unmanaged_cluster_id)
              (r.system.inners t) (new-IsParent (length ranks) id) (v.parents t);
        subs = v.subs;
        quiet = v.quiet;
        sensible =
            All-snoc (IsSensible s' final) r.executor_messages (register_transaction id)
              (All-map (IsSensible r.system final) (IsSensible s' final) r.executor_messages
                (λ m h. IsSensible-same r.system s' final m refl refl refl h) v.sensible)
              tt;
        sent =
            All-map (IsSent r.system) (IsSent s') r.system.planner_messages
              (λ m h. IsSent-same r.system s' m refl refl refl h) v.sent;
        initialized = v.initialized;
      }

  pub commit-View :
      (ranks : List Rank) (r : Runtime H) (final : PlannerManager) (id : ℕ)
      → Phases r
      → View ranks r final
      → contains id r.opened ≡ true
      → View ranks (start_updating r id) final
  unfolding start_updating
  commit-View ranks r final id w v open_now = record {
    planned = v.planned;
    registered = v.registered;
    registers =
        Registers-execute r.next_transaction_id v.registered id r.executor_messages v.registers
          (ground (arith, w.phase id));
    ends = v.ends;
    fresh = v.fresh;
    known = v.known;
    parents = v.parents;
    subs = v.subs;
    quiet = v.quiet;
    sensible = All-snoc (IsSensible r.system final) r.executor_messages (execute id) v.sensible tt;
    sent = v.sent;
    initialized = v.initialized;
  }

  pub send-View :
      (ranks : List Rank) (net : Network) (r : Runtime H) (final : PlannerManager) (id tiv : ℕ)
      → ((x : ℕ) → net.cluster_of x < length ranks)
      → Phases r
      → View ranks r final
      → contains id r.opened ≡ true
      → View ranks (send_value net r id tiv) final
  unfolding send_value register_cleanup
  send-View ranks net r final id tiv low w v open_now =
      let s' = (send_value net r id tiv).system in
      let inner' =
        (register_cleanup net (register_updates net (r.system.inners id) (net.listeners tiv))
          tiv) in
      let (targets, same) =
        register_updates-IsTargets net (length ranks) low (r.system.inners id) (net.listeners tiv)
          (v.parents id).targets in
      record {
        planned = v.planned;
        registered = v.registered;
        registers = v.registers;
        ends = v.ends;
        fresh = v.fresh;
        known = λ t h.
            let (state, found, a) = v.known t h in
            (state, found, Agrees-same r.system s' t state refl (ground (arith, w.phase t)) a);
        parents = λ t.
            IsParent-if (length ranks) (t == id) inner' (r.system.inners t)
              (record { unmanaged = same ∙ (v.parents id).unmanaged; targets = targets })
              (v.parents t);
        subs = v.subs;
        quiet = v.quiet;
        sensible =
            All-map (IsSensible r.system final) (IsSensible s' final) r.executor_messages
              (λ m h. IsSensible-same r.system s' final m refl refl refl h) v.sensible;
        sent =
            All-map (IsSent r.system) (IsSent s') r.system.planner_messages
              (λ m h. IsSent-same r.system s' m refl refl refl h) v.sent;
        initialized = v.initialized;
      }

-- ===== src/Runtime/View/Starting.antt =====
-- The view is kept where the executor starts a cluster.
use prf.Base.{
  ℕ, ◌+◌, ◌≡◌, refl, ap, true, false, inl, inr, ◌&&◌, some, List, [], ◌∷◌, ◌++◌, arith, ◌==◌,
  Bool-cases, length, contains,
}
use prf.Rank.{Rank}
use prf.Messages.{ExecutorMessage, start_update_cluster}
use prf.Planner.{TransactionState, PlannerManager}
use prf.Planner.Sequence.{find_state}
use prf.Transaction.{set_at}
use prf.Executor.{System, Task, requested, handle_start_update}
use prf.Runtime.{Runtime}
use prf.Runtime.Counts.{
  bit, times, count-append, is_task, is_requested, is_live, holds, tasks_of, requests, lives,
  holders,
}
use prf.Runtime.Phases.{Phases}
use prf.Runtime.Queues.{All, All-map, All-snoc, Registers}
use prf.Runtime.View.{IsStartable, IsSensible, IsSent, IsSub, View}
use prf.Runtime.View.Clients.{Agrees-same, IsSensible-same, IsSent-same}
use prf.Runtime.View.Keeping.{Keeps, IsSensible-Keeps, Steady, IsSent-Steady, lives-le}

module _ {H : Type 0} (ranks : List Rank) (r : Runtime H) (final : PlannerManager) (w : Phases r)
    (v : View ranks r final) (rest : List ExecutorMessage) where
  -- Nothing but the executor's record of what was started is changed.
  pub same-View :
      (s' : System H)
      → s'.tasks ≡ r.system.tasks
      → s'.executor.transactions ≡ r.system.executor.transactions
      → s'.done ≡ r.system.done
      → s'.inners ≡ r.system.inners
      → s'.planner_messages ≡ r.system.planner_messages
      → Registers r.next_transaction_id v.registered rest
      → All (IsSensible r.system final) rest
      → View ranks (record r { system = s'; executor_messages = rest }) final
  same-View s' tasks trans done inner messages regs sensible =
      let s = r.system in
      record {
        planned = rw messages v.planned;
        registered = v.registered;
        registers = regs;
        ends = v.ends;
        fresh = λ t lt. rw (trans, done) (v.fresh t lt);
        known = λ t here.
            let (state, found, a) = v.known t (rw trans at here) in
            (state, found, Agrees-same s s' t state tasks (ap (λ f. f t) inner) a);
        parents = rw inner v.parents;
        subs = rw tasks v.subs;
        quiet = rw (tasks, done) v.quiet;
        sensible =
            All-map (IsSensible s final) (IsSensible s' final) rest
              (λ m h. IsSensible-same s s' final m tasks trans done h) sensible;
        sent = rw messages (
            All-map (IsSent s) (IsSent s') s.planner_messages
              (λ m h. IsSent-same s s' m tasks trans done h) v.sent);
        initialized = rw (trans, done) v.initialized;
      }

  requested-View :
      (id c : ℕ)
      → r.executor_messages ≡ start_update_cluster id c ∷ rest
      → contains id r.system.executor.transactions ≡ true
      → contains c (set_at id r.system.executor.transaction_updatings) ≡ false
      → View ranks
          (record r { system = handle_start_update r.system id c; executor_messages = rest })
          final
  unfolding handle_start_update
  requested-View id c e here unseen =
      let s = r.system in
      let x : Task H = record { transaction_id = id; cluster_id = c; stage = requested } in
      let s1 = handle_start_update s id c in
      let not_done : times id s.done ≡ 0 = ground (arith, w.phase id) in
      let none_yet : tasks_of id c s.tasks ≡ 0 = ground (arith, w.once id c) in
      let sensible : IsStartable s final id c × All (IsSensible s final) rest =
        rw e at v.sensible in
      let regs : Registers r.next_transaction_id v.registered rest = rw e at v.registers in
      let announced_now : (state : TransactionState) × (find_state id final.transaction_states
            ≡ some state)
          × (contains c state.future ≡ true) =
        elim sensible.0 [
          | inl over ↦ absurd (omega (arith, not_done, over))
          | inr (_, inl begun) ↦ absurd (omega (arith, none_yet, begun))
          | inr (_, inr found) ↦ found
        ] in
      let (state0, found0, future0) = announced_now in
      let trans : s1.executor.transactions ≡ s.executor.transactions = rw (here, unseen) refl in
      let done : s1.done ≡ s.done = rw (here, unseen) refl in
      let inner : s1.inners ≡ s.inners = rw (here, unseen) refl in
      let messages : s1.planner_messages ≡ s.planner_messages = rw (here, unseen) refl in
      let tasks : s1.tasks ≡ s.tasks ++ x ∷ [] = rw (here, unseen) refl in
      let more : (t d : ℕ) → tasks_of t d s1.tasks ≡ tasks_of t d s.tasks + bit (is_task t d x) =
        λ t d. rw tasks (omega (arith, count-append (is_task t d) s.tasks (x ∷ []))) in
      let more_requests : (t d : ℕ)
          → requests t d s1.tasks ≡ requests t d s.tasks + bit (is_task t d x) =
        λ t d. rw tasks (
          ground
            (arith, count-append (λ y. is_task t d y && is_requested y.stage) s.tasks (x ∷ []))) in
      let same_lives : (t d : ℕ) → lives t d s1.tasks ≡ lives t d s.tasks = λ t d.
        rw tasks
          (ground (arith, count-append (λ y. is_task t d y && is_live y.stage) s.tasks (x ∷ []))) in
      let same_holders : (t d : ℕ) → holders t d s1.tasks ≡ holders t d s.tasks = λ t d. rw tasks (
        ground
          (arith, count-append (λ y. t == y.transaction_id && holds d y.stage) s.tasks (x ∷ []))) in
      let steady : Steady s s1 = record {
        committed_stays = λ t k. rw (trans, done) k;
        done_stays = λ t. omega (arith, ap (times t) done);
        begun = λ t d k. omega (arith, more t d, more_requests t d);
      } in
      let keeps : Keeps s s1 final final = record {
        done = λ t. omega (arith, ap (times t) done);
        tasks = λ t d. omega (arith, more t d);
        stays = λ t k. inr (rw trans k);
        future = λ t d state k f i. inr (inr (state, f, i));
        idle = λ t state k q f i. elim (Bool-cases (t == id)) [
          | inl same ↦ absurd (ground (arith, i c))
          | inr other ↦
              inr (λ d. ground (arith, q d, more_requests t d, same_lives t d), (state, f, i))
        ];
      } in
      record {
        planned = rw messages v.planned;
        registered = v.registered;
        registers = regs;
        ends = v.ends;
        fresh = λ t lt. rw (trans, done) (v.fresh t lt);
        known = λ t here_t.
            let (state, found, a) = v.known t (rw trans at here_t) in
            (
              state,
              found,
              record {
                ready = a.ready;
                futures = λ d.
                    ground
                      (arith, a.futures d, more t d, more_requests t d, same_holders t d, inner);
                nows = λ d. omega (arith, a.nows d, same_lives t d);
                asked = λ d. ground (arith, a.asked d, more_requests t d, lives-le id c s.tasks);
              },
            );
        parents = rw inner v.parents;
        subs = rw tasks (All-snoc (λ y. IsSub (length ranks) y.stage) s.tasks x v.subs tt);
        quiet = λ t d k.
            ground (arith, v.quiet t d, same_lives t d, more_requests t d, ap (times t) done);
        sensible =
            All-map (IsSensible s final) (IsSensible s1 final) rest
              (λ m h. IsSensible-Keeps s s1 final final m keeps h) sensible.1;
        sent = rw messages (
            All-map (IsSent s) (IsSent s1) s.planner_messages (λ m h. IsSent-Steady s s1 m steady h)
              v.sent);
        initialized = rw (trans, done) v.initialized;
      }

  pub start_update-View :
      (id c : ℕ)
      → r.executor_messages ≡ start_update_cluster id c ∷ rest
      → View ranks
          (record r { system = handle_start_update r.system id c; executor_messages = rest })
          final
  unfolding handle_start_update
  start_update-View id c e =
      let s = r.system in
      let cs = set_at id s.executor.transaction_updatings in
      let sensible : IsStartable s final id c × All (IsSensible s final) rest =
        rw e at v.sensible in
      let regs : Registers r.next_transaction_id v.registered rest = rw e at v.registers in
      elim (Bool-cases (contains id s.executor.transactions)) [
        | inr missing ↦ rw missing (same-View s refl refl refl refl refl regs sensible.1)
        | inl here ↦ elim (Bool-cases (contains c cs)) [
          | inr unseen ↦ requested-View id c e here unseen
          | inl seen ↦
              same-View (handle_start_update s id c) (rw (here, seen) refl) (rw (here, seen) refl)
                (rw (here, seen) refl) (rw (here, seen) refl) (rw (here, seen) refl) regs sensible.1
        ]
      ]

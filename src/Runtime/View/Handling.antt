-- ===== src/Runtime/View/Handling.antt =====
-- The view is kept by the executor's handlers.
use prf.Base.{
  ℕ, suc, ◌+◌, ◌<◌, ◌≡◌, refl, inl, inr, some, List, ◌∷◌, arith, ◌==◌, if◌then◌else◌, Bool-cases,
  u64_mod, insert, contains-insert,
}
use prf.Rank.{Rank}
use prf.Messages.{
  ExecutorMessage, execute, register_transaction, UpdateTransactionMessage, start_transaction,
  update_transaction,
}
use prf.Planner.{TransactionState, new_state, PlannerManager, handle_start, handle_message}
use prf.Planner.Sequence.{find_state}
use prf.Planner.Effect.{EndsAt, handle_start-next}
use prf.Planner.Pending.{Strict, update-Updated}
use prf.Transaction.{keys_of, target_clusters, is_in_updating}
use prf.Executor.{
  System, no_update, push_planner, handle_execute, handle_register, invoke_before_update_hooks,
}
use prf.Runtime.{Runtime}
use prf.Runtime.Phases.{Phases}
use prf.Runtime.Queues.{All, All-map, All-snoc, Registers, Registers-le, Planned-push}
use prf.Runtime.View.{committed, Agrees, IsSensible, IsSent, View}
use prf.Runtime.View.Clients.{Agrees-same}
use prf.Runtime.View.Keeping.{
  Keeps, IsSensible-Keeps, Steady, IsSent-Steady, lives-le, holders_zero, no_tasks,
  keys_of-contains, update-EndsAt,
}

module _ {H : Type 0} (ranks : List Rank) (r : Runtime H) (final : PlannerManager) (w : Phases r)
    (v : View ranks r final) (rest : List ExecutorMessage) where
  pub execute-View :
      (id : ℕ) (s' : System H)
      → r.executor_messages ≡ execute id ∷ rest
      → handle_execute r.system id ≡ some s'
      → (final' : PlannerManager) × View ranks
          (record r { system = s'; executor_messages = rest })
          final'
  unfolding handle_execute target_clusters is_in_updating new_state
  execute-View id s' e h =
      let s = r.system in
      let inside = (v.parents id).targets in
      let clusters = keys_of (s.inners id).targets_outside in
      let m : UpdateTransactionMessage = record (no_update id) { future = clusters } in
      let e1 : push_planner
            (record s {
              executor = record s.executor { transactions = insert id s.executor.transactions };
            })
            (update_transaction m)
          ≡ s' =
        ground (arith, (v.parents id).unmanaged) in
      let regs : Registers r.next_transaction_id v.registered (execute id ∷ rest) =
        rw e at v.registers in
      let none_yet : committed s id ≡ 0 = ground (arith, w.phase id) in
      let untouched = no_tasks r id w none_yet in
      let found = v.fresh id regs.0 none_yet in
      let fits : Strict final (update_transaction m) = λ st f.
        let same : st ≡ new_state id = ground arith in
        rw (same, v.planned.same_ranks)
          (record {
            futures = λ j k. (
              inside.ranked j (ground (arith, keys_of-contains j (s.inners id).targets_outside)),
              refl,
            );
            distinct = tt;
            nows = λ j k. cc;
            finishes = λ j k. cc;
            first = λ _ _. refl;
          }) in
      let (final', h', planned') = Planned-push (update_transaction m) v.planned fits in
      let (state', upd, finds) =
        update-Updated final final' m (new_state id) v.planned.sound fits h' found in
      let sensible : All (IsSensible s final) (execute id ∷ rest) = rw e at v.sensible in
      let s1 =
        push_planner
          (record s {
            executor = record s.executor { transactions = insert id s.executor.transactions };
          })
          (update_transaction m) in
      let steady : Steady s s1 = record {
        committed_stays = λ t k. ground (arith, contains-insert t id s.executor.transactions);
        done_stays = λ t. omega arith;
        begun = λ t c k. k;
      } in
      let added : Agrees s1 id state' = record {
        ready = upd.initialized;
        futures = λ c. ground (
          arith,
          upd.future c,
          keys_of-contains c (s.inners id).targets_outside,
          untouched c,
          holders_zero id c s.tasks untouched,
          lives-le id c s.tasks,
        );
        nows = λ c. ground (arith, upd.now c, untouched c, lives-le id c s.tasks);
        asked = λ c. omega (arith, untouched c, lives-le id c s.tasks);
      } in
      let keeps : Keeps s s1 final final' = record {
        done = λ t. omega arith;
        tasks = λ t c. omega arith;
        stays = λ t k. inr (ground (arith, contains-insert t id s.executor.transactions));
        future = λ t c state k f i. inr (inr (state, ground (arith, finds t), i));
        idle = λ t state k q f i. inr (q, (state, ground (arith, finds t), i));
      } in
      rw (← e1) (
        final',
        record {
          planned = planned';
          registered = v.registered;
          registers = regs.1;
          ends =
              update-EndsAt v.registered id final.transaction_states final'.transaction_states
                (new_state id) state' v.ends found finds;
          fresh = λ t lt none_t.
              ground (arith, v.fresh t lt, finds t, contains-insert t id s.executor.transactions);
          known = λ t here. elim (Bool-cases (t == id)) [
            | inl same ↦
                let e2 : t ≡ id = ground arith in (state', ground (arith, finds t), rw e2 added)
            | inr other ↦
                let (state, found_t, a) =
                  v.known t (ground (arith, contains-insert t id s.executor.transactions)) in
                (state, ground (arith, finds t), Agrees-same s s1 t state refl refl a)
          ];
          parents = v.parents;
          subs = v.subs;
          quiet = v.quiet;
          sensible =
              All-map (IsSensible s final) (IsSensible s1 final') rest
                (λ x k. IsSensible-Keeps s s1 final final' x keeps k) sensible.1;
          sent =
              All-snoc (IsSent s1) s.planner_messages (update_transaction m)
                (All-map (IsSent s) (IsSent s1) s.planner_messages
                  (λ x k. IsSent-Steady s s1 x steady k) v.sent)
                (ground (arith, contains-insert id id s.executor.transactions), λ c k. cc);
          initialized = λ t state f i.
              ground
                (arith, v.initialized t state f i, contains-insert t id s.executor.transactions);
        },
      )

  pub register-View :
      (id : ℕ)
      → r.executor_messages ≡ register_transaction id ∷ rest
      → (final' : PlannerManager) × View ranks
          (record r { system = handle_register r.system id; executor_messages = rest })
          final'
  unfolding handle_register invoke_before_update_hooks handle_message
  register-View id e =
      let s = r.system in
      let s1 = handle_register s id in
      let regs : Registers r.next_transaction_id v.registered (register_transaction id ∷ rest) =
        rw e at v.registers in
      let high = Registers-le r.next_transaction_id (suc v.registered) rest regs.1 in
      let lt : id < u64_mod = omega (arith, regs.0, high, w.small) in
      let ends : EndsAt id final.transaction_states = rw regs.0 v.ends in
      let (final', h', planned') = Planned-push (start_transaction id) v.planned lt in
      let (finds, ends') =
        handle_start-next v.planned.sound.first id final.transaction_states
          v.planned.sound.consecutive ends lt in
      let states : final'.transaction_states ≡ handle_start final.transaction_states id =
        ground arith in
      let finds' = λ (j : ℕ).
        let p : find_state j final'.transaction_states
            ≡ (if j == id then some (new_state id) else find_state j final.transaction_states) =
          rw states (finds j) in
        p in
      let kept =
        λ (j : ℕ) (st : TransactionState) (f : find_state j final.transaction_states ≡ some st).
          let p : find_state j final'.transaction_states ≡ some st =
            ground (arith, finds' j, ends.below j) in
          p in
      let sensible : All (IsSensible s final) (register_transaction id ∷ rest) =
        rw e at v.sensible in
      let steady : Steady s s1 = record {
        committed_stays = λ t k. k;
        done_stays = λ t. omega arith;
        begun = λ t c k. k;
      } in
      let keeps : Keeps s s1 final final' = record {
        done = λ t. omega arith;
        tasks = λ t c. omega arith;
        stays = λ t k. inr k;
        future = λ t c state k f i. inr (inr (state, kept t state f, i));
        idle = λ t state k q f i. inr (q, (state, kept t state f, i));
      } in
      (
        final',
        record {
          planned = planned';
          registered = suc v.registered;
          registers = regs.1;
          ends = let p : suc v.registered ≡ id + 1 = omega (arith, regs.0) in rw (p, states) ends';
          fresh = λ t lt none_t. ground (arith, v.fresh t, finds' t, regs.0);
          known = λ t here.
              let (state, found_t, a) = v.known t here in
              (state, kept t state found_t, Agrees-same s s1 t state refl refl a);
          parents = v.parents;
          subs = v.subs;
          quiet = v.quiet;
          sensible =
              All-map (IsSensible s final) (IsSensible s1 final') rest
                (λ x k. IsSensible-Keeps s s1 final final' x keeps k) sensible.1;
          sent =
              All-snoc (IsSent s1) s.planner_messages (start_transaction id)
                (All-map (IsSent s) (IsSent s1) s.planner_messages
                  (λ x k. IsSent-Steady s s1 x steady k) v.sent)
                tt;
          initialized = v.initialized;
        },
      )

-- ===== src/Runtime/View/Ending.antt =====
-- The view is kept where the executor finalizes a transaction.
use prf.Base.{
  ℕ, ◌+◌, ◌≡◌, ◌∙◌, refl, ap, true, false, inl, inr, not, ◌&&◌, List, [], ◌∷◌, ◌++◌, arith, ◌==◌,
  Bool-cases, contains, contains-erase,
}
use prf.Rank.{Rank}
use prf.Messages.{ExecutorMessage, finalize_transaction, finish_transaction}
use prf.Planner.{PlannerManager, handle_finish, handle_message}
use prf.Planner.Sequence.{find_state}
use prf.Planner.Effect.{handle_finish-find, handle_finish-EndsAt}
use prf.Executor.{handle_finalize}
use prf.Runtime.{Runtime}
use prf.Runtime.Counts.{bit, times, times-append, requests, lives}
use prf.Runtime.Phases.{Phases}
use prf.Runtime.Queues.{All, All-map, All-snoc, Registers, Planned-push}
use prf.Runtime.View.{IsEndable, IsSensible, IsSent, View}
use prf.Runtime.View.Clients.{Agrees-same}
use prf.Runtime.View.Keeping.{Keeps, IsSensible-Keeps, Steady, IsSent-Steady}
use prf.Runtime.View.Starting.{same-View}

module _ {H : Type 0} (ranks : List Rank) (r : Runtime H) (final : PlannerManager) (w : Phases r)
    (v : View ranks r final) (rest : List ExecutorMessage) where
  ended-View :
      (id : ℕ)
      → r.executor_messages ≡ finalize_transaction id ∷ rest
      → contains id r.system.executor.transactions ≡ true
      → (final' : PlannerManager) × View ranks
          (record r { system = handle_finalize r.system id; executor_messages = rest })
          final'
  unfolding handle_finalize handle_message
  ended-View id e here =
      let s = r.system in
      let s1 = handle_finalize s id in
      let not_done : times id s.done ≡ 0 = ground (arith, w.phase id) in
      let sensible : IsEndable s final id × All (IsSensible s final) rest = rw e at v.sensible in
      let regs : Registers r.next_transaction_id v.registered rest = rw e at v.registers in
      let quiet_now : (c : ℕ) → lives id c s.tasks + requests id c s.tasks ≡ 0 = elim sensible.0 [
        | inl over ↦ absurd (omega (arith, not_done, over))
        | inr (_, q, _) ↦ q
      ] in
      let (final', h', planned') = Planned-push (finish_transaction id) v.planned tt in
      let states : final'.transaction_states ≡ handle_finish final.transaction_states id =
        ground arith in
      let (others, _) =
        handle_finish-find v.planned.sound.first id final.transaction_states
          v.planned.sound.consecutive in
      let kept = λ (j : ℕ) (ne : (j == id) ≡ false).
        let p : find_state j final'.transaction_states ≡ find_state j final.transaction_states =
          rw states (others j (λ m. ground arith)) in
        p in
      let trans : (t : ℕ)
          → contains t s1.executor.transactions
            ≡ (not (t == id) && contains t s.executor.transactions) =
        λ t. ground (arith, here, contains-erase t id s.executor.transactions) in
      let done : (t : ℕ) → times t s1.done ≡ times t s.done + bit (t == id) =
        λ t. ground (arith, here, times-append t s.done (id ∷ [])) in
      let tasks : s1.tasks ≡ s.tasks = rw here refl in
      let inner : s1.inners ≡ s.inners = rw here refl in
      let messages : s1.planner_messages ≡ s.planner_messages ++ finish_transaction id ∷ [] =
        rw here refl in
      let steady : Steady s s1 = record {
        committed_stays = λ t k. ground (arith, trans t, done t);
        done_stays = λ t. omega (arith, done t);
        begun = λ t c k. rw tasks k;
      } in
      let keeps : Keeps s s1 final final' = record {
        done = λ t. omega (arith, done t);
        tasks = λ t c. rw tasks (omega arith);
        stays = λ t k. elim (Bool-cases (t == id)) [
          | inl same ↦ inl (ground (arith, done t))
          | inr other ↦ inr (ground (arith, trans t))
        ];
        future = λ t c state k f i. elim (Bool-cases (t == id)) [
          | inl same ↦ inl (ground (arith, done t))
          | inr other ↦ inr (inr (state, kept t other ∙ f, i))
        ];
        idle = λ t state k q f i. elim (Bool-cases (t == id)) [
          | inl same ↦ inl (ground (arith, done t))
          | inr other ↦ inr (rw tasks q, (state, kept t other ∙ f, i))
        ];
      } in
      (
        final',
        record {
          planned = rw messages planned';
          registered = v.registered;
          registers = regs;
          ends = rw states (
              handle_finish-EndsAt v.planned.sound.first v.registered id final.transaction_states
                v.planned.sound.consecutive v.ends);
          fresh = λ t lt none_t. elim (Bool-cases (t == id)) [
            | inl same ↦ absurd (ground (arith, done t))
            | inr other ↦ kept t other ∙ v.fresh t lt (ground (arith, done t, trans t))
          ];
          known = λ t here_t. elim (Bool-cases (t == id)) [
            | inl same ↦ absurd (ground (arith, trans t))
            | inr other ↦
                let (state, found, a) = v.known t (ground (arith, trans t)) in
                (
                  state,
                  kept t other ∙ found,
                  Agrees-same s s1 t state tasks (ap (λ f. f t) inner) a,
                )
          ];
          parents = rw inner v.parents;
          subs = rw tasks v.subs;
          quiet = λ t c k. rw tasks (elim (Bool-cases (t == id)) [
            | inl same ↦ let p : t ≡ id = ground arith in rw p (quiet_now c)
            | inr other ↦ v.quiet t c (ground (arith, done t))
          ]);
          sensible =
              All-map (IsSensible s final) (IsSensible s1 final') rest
                (λ m h. IsSensible-Keeps s s1 final final' m keeps h) sensible.1;
          sent = rw messages (
              All-snoc (IsSent s1) s.planner_messages (finish_transaction id)
                (All-map (IsSent s) (IsSent s1) s.planner_messages
                  (λ m h. IsSent-Steady s s1 m steady h) v.sent)
                (ground (arith, done id)));
          initialized = λ t state f i. steady.committed_stays t (v.initialized t state f i);
        },
      )

  pub finalize-View :
      (id : ℕ)
      → r.executor_messages ≡ finalize_transaction id ∷ rest
      → (final' : PlannerManager) × View ranks
          (record r { system = handle_finalize r.system id; executor_messages = rest })
          final'
  unfolding handle_finalize
  finalize-View id e =
      let s = r.system in
      let sensible : IsEndable s final id × All (IsSensible s final) rest = rw e at v.sensible in
      let regs : Registers r.next_transaction_id v.registered rest = rw e at v.registers in
      elim (Bool-cases (contains id s.executor.transactions)) [
        | inr missing ↦
            rw missing
              (final, same-View ranks r final w v rest s refl refl refl refl refl regs sensible.1)
        | inl here ↦ ended-View id e here
      ]

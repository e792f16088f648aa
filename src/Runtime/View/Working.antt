-- ===== src/Runtime/View/Working.antt =====
-- The view is kept where a task does its next part.
use prf.Base.{
  ℕ, ◌+◌, ◌≡◌, refl, true, inl, inr, List, [], ◌∷◌, ◌++◌, arith, ◌==◌, if◌then◌else◌, Bool-cases,
  length,
}
use prf.Rank.{Rank}
use prf.Messages.{UpdateTransactionMessage, update_transaction}
use prf.Planner.{PlannerManager}
use prf.Transaction.{InnerTransaction, has_key}
use prf.Executor.{
  System, Task, Stage, requested, announced, buffered, ended, no_update, push_planner,
}
use prf.Runtime.{Runtime}
use prf.Runtime.Counts.{bit, times, is_live, holds}
use prf.Runtime.Phases.{Phases}
use prf.Runtime.Queues.{All, All-middle}
use prf.Runtime.View.{IsParent, IsSub, View}
use prf.Runtime.View.Clients.{IsParent-if}
use prf.Runtime.View.Keeping.{lives-le, task_known}
use prf.Runtime.View.Tasks.{Moves, replace-Moves, still-View}
use prf.Runtime.View.Telling.{tell-View}

module _ {H : Type 0} (ranks : List Rank) (r : Runtime H) (final : PlannerManager) (w : Phases r)
    (v : View ranks r final) (before after : List (Task H)) (t0 c0 : ℕ) where
  abbrev pub task_at : Stage H → Task H
  task_at stage = record { transaction_id = t0; cluster_id = c0; stage = stage }

  pub announce-View :
      r.system.tasks ≡ before ++ task_at requested ∷ after
      → (final' : PlannerManager) × View ranks
          (record r {
            system =
                record (push_planner r.system
                  (update_transaction (record (no_update t0) { now = c0 ∷ [] }))) {
                    tasks = before ++ task_at announced ∷ after;
                  };
          })
          final'
  announce-View e =
      let x = task_at requested in
      let ys = before ++ task_at announced ∷ after in
      let m : UpdateTransactionMessage = record (no_update t0) { now = c0 ∷ [] } in
      let mv : Moves x announced r.system.tasks ys =
        rw e (replace-Moves before after x announced) in
      let some_request = mv.requests_here refl in
      tell-View ranks r final w v before after x announced e m refl (omega (arith, some_request))
        (λ t c. ground (arith, mv.requested_now t c))
        (λ c h. ground (
          arith,
          mv.requested_now t0 c,
          mv.all t0 c,
          mv.here,
          w.at_most t0 c,
          lives-le t0 c r.system.tasks,
        ))
        tt
        (λ state a. (
          record {
            futures = λ j k. cc;
            distinct = (refl, tt);
            nows = λ j k. ground (arith, a.asked c0, some_request);
            finishes = λ j k. cc;
            first = λ h. cc;
          },
          λ state' u. record {
            ready = u.initialized;
            futures = λ c. ground (
              arith,
              u.future c,
              a.futures c,
              a.asked c,
              mv.requested_now t0 c,
              mv.holding t0 c,
              mv.all t0 c,
              some_request,
            );
            nows = λ c. ground (
              arith,
              u.now c,
              a.nows c,
              mv.live t0 c,
              w.at_most t0 c,
              lives-le t0 c r.system.tasks,
              some_request,
            );
            asked = λ c. ground (
              arith,
              u.future c,
              a.asked c,
              mv.requested_now t0 c,
              w.at_most t0 c,
              lives-le t0 c r.system.tasks,
            );
          },
        ))

  pub report-View :
      (futures : List ℕ)
      → r.system.tasks ≡ before ++ task_at (buffered futures) ∷ after
      → (final' : PlannerManager) × View ranks
          (record r {
            system =
                record (push_planner r.system (
                  update_transaction
                    (record (no_update t0) { future = futures; finish = c0 ∷ [] }))) {
                      tasks = before ++ task_at ended ∷ after;
                    };
          })
          final'
  report-View futures e =
      let x = task_at (buffered futures) in
      let ys = before ++ task_at ended ∷ after in
      let m : UpdateTransactionMessage = record (no_update t0) {
        future = futures;
        finish = c0 ∷ [];
      } in
      let mv : Moves x ended r.system.tasks ys = rw e (replace-Moves before after x ended) in
      let some_live = mv.lives_here refl in
      tell-View ranks r final w v before after x ended e m refl (omega (arith, some_live))
        (λ t c. ground (arith, mv.requested_now t c)) (λ c h. cc) tt
        (λ state a. (
          record {
            futures = λ j k.
                let held = mv.holds_here j k in
                (
                  (v.parents t0).targets.ranked j
                      (ground (arith, a.futures j, held, lives-le t0 j r.system.tasks)),
                  ground (arith, a.futures j, a.nows j, held, lives-le t0 j r.system.tasks),
                );
            distinct = tt;
            nows = λ j k. cc;
            finishes = λ j k. ground (arith, a.nows c0, some_live);
            first = λ _ h. cc;
          },
          λ state' u. record {
            ready = u.initialized;
            futures = λ c. ground (
              arith,
              u.future c,
              a.futures c,
              mv.requested_now t0 c,
              mv.holding t0 c,
              mv.all t0 c,
              lives-le t0 c r.system.tasks,
              mv.holds_here c,
            );
            nows = λ c. ground (
              arith,
              u.now c,
              a.nows c,
              mv.live t0 c,
              w.at_most t0 c,
              lives-le t0 c r.system.tasks,
            );
            asked = λ c. ground (arith, u.future c, a.asked c, mv.requested_now t0 c);
          },
        ))

  -- A task that is under way has targets.
  pub under_way :
      (stage : Stage H)
      → r.system.tasks ≡ before ++ task_at stage ∷ after
      → is_live stage ≡ true
      → has_key c0 (r.system.inners t0).targets_outside ≡ true
  under_way stage e live =
      let mv : Moves (task_at stage) stage r.system.tasks (before ++ task_at stage ∷ after) =
        rw e (replace-Moves before after (task_at stage) stage) in
      let some_live = mv.lives_here live in
      let not_done : times t0 r.system.done ≡ 0 = ground (arith, v.quiet t0 c0, some_live) in
      let (state, found, a) = v.known t0 (task_known r t0 c0 w not_done mv.here) in
      ground (arith, a.futures c0, some_live, lives-le t0 c0 r.system.tasks)

  -- A task moves on and its transaction becomes `parent`.
  pub replace-View :
      (stage stage' : Stage H) (parent : InnerTransaction) (s' : System H)
      → r.system.tasks ≡ before ++ task_at stage ∷ after
      → s'.tasks ≡ before ++ task_at stage' ∷ after
      → s'.executor.transactions ≡ r.system.executor.transactions
      → s'.done ≡ r.system.done
      → s'.planner_messages ≡ r.system.planner_messages
      → ((t : ℕ) → s'.inners t ≡ (if t == t0 then parent else r.system.inners t))
      → is_live stage ≡ true
      → is_live stage' ≡ true
      → ((c : ℕ)
          → bit (holds c stage') + bit (has_key c (r.system.inners t0).targets_outside)
            ≡ bit (holds c stage) + bit (has_key c parent.targets_outside))
      → IsParent (length ranks) parent
      → IsSub (length ranks) stage'
      → View ranks (record r { system = s' }) final
  replace-View stage stage' parent s' e tasks trans done messages inner live live' balance is_parent
        sub =
      let x = task_at stage in
      let mv : Moves x stage' r.system.tasks s'.tasks =
        rw (e, tasks) (replace-Moves before after x stage') in
      let subs_now : All (λ y. IsSub (length ranks) y.stage) (before ++ x ∷ after) =
        rw e at v.subs in
      still-View ranks r final v s' trans done messages mv.all
        (λ t c. ground (arith, mv.requested_now t c)) (λ t c. ground (arith, mv.live t c))
        (λ t c. elim (Bool-cases (t == t0)) [
          | inl same ↦
              let p : t ≡ t0 = ground arith in
              rw p (ground (arith, inner t0, mv.holding t0 c, balance c))
          | inr other ↦ ground (arith, inner t, mv.holding t c)
        ])
        (λ t.
          rw (inner t) (
            IsParent-if (length ranks) (t == t0) parent (r.system.inners t) is_parent
              (v.parents t)))
        (rw tasks (
          (All-middle (λ y. IsSub (length ranks) y.stage) before after x subs_now).1
            (task_at stage') sub))

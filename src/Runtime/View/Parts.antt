-- ===== src/Runtime/View/Parts.antt =====
-- The view is kept by every part of a task.
use prf.Base.{
  ℕ, ◌<◌, ◌≡◌, refl, inl, inr, Option, some, List, [], ◌∷◌, ◌++◌, arith, ◌==◌, if◌then◌else◌,
  Bool-cases, Option-cases, length,
}
use prf.Rank.{Rank}
use prf.Messages.{update_transaction}
use prf.Planner.{PlannerManager}
use prf.Transaction.{
  Network, InnerTransaction, set_at, generate_sub_transaction, register_execution_result,
}
use prf.Transaction.Targets.{IsTargets, has_key-assign, IsTargets-assign}
use prf.Executor.{
  System, Task, Stage, requested, announced, generated, registered, buffered, ended, Outcome,
  no_update, push_planner, buffer_hooks, advance,
}
use prf.Runtime.{Runtime}
use prf.Runtime.Phases.{Phases}
use prf.Runtime.Queues.{All, All-middle}
use prf.Runtime.View.{IsSub, View}
use prf.Transaction.Targets.{execute_loop-IsTargets, sub_transaction-IsTargets}
use prf.Transaction.Merging.{register_execution_result-IsTargets}
use prf.Runtime.{Executed, ran}
use prf.Runtime.View.Working.{task_at, announce-View, report-View, under_way, replace-View}

module _ {H : Type 0} (net : Network) {S : Type 0} (updater : ℕ → S → Option S) (ranks : List Rank)
    (low : (x : ℕ) → net.cluster_of x < length ranks) (r : Runtime H) (final : PlannerManager)
    (w : Phases r) (v : View ranks r final) (before after : List (Task H)) (t0 c0 : ℕ) where
  -- The runtime after a part of the task.
  abbrev moved : System H → Stage H → Runtime H
  moved s' stage' = record r {
    system = record s' {
      tasks = before ++ record { transaction_id = t0; cluster_id = c0; stage = stage' } ∷ after;
    };
  }

  generate-View :
      r.system.tasks ≡ before ++ task_at ranks r final w v before after t0 c0 announced ∷ after
      → View ranks
          (moved
            (record r.system {
              inners = λ j.
                  if j == t0
                  then (generate_sub_transaction net (r.system.inners t0) c0).0
                  else r.system.inners j;
            })
            (generated (generate_sub_transaction net (r.system.inners t0) c0).1))
          final
  unfolding generate_sub_transaction
  generate-View e =
      let has = under_way ranks r final w v before after t0 c0 announced e refl in
      let parent0 = v.parents t0 in
      let targets = (r.system.inners t0).targets_outside in
      let (parent, sub) = generate_sub_transaction net (r.system.inners t0) c0 in
      replace-View ranks r final w v before after t0 c0 announced (generated sub) parent _ e refl
        refl refl refl (λ t. refl) refl refl
        (λ c. ground (arith, has, has_key-assign c c0 (set_at c0 targets) targets))
        (record {
          unmanaged = parent0.unmanaged;
          targets =
              IsTargets-assign (length ranks) c0 (set_at c0 targets) targets parent0.targets
                (parent0.targets.ranked c0 has) (parent0.targets.filled c0 has);
        })
        (sub_transaction-IsTargets net (length ranks) low (r.system.inners t0) c0)

  register-View :
      (sub : InnerTransaction) (o : Outcome H) (parent : InnerTransaction) (futures : List ℕ)
      → r.system.tasks
        ≡ before ++ task_at ranks r final w v before after t0 c0 (generated sub) ∷ after
      → Executed net updater o (generated sub)
      → register_execution_result (r.system.inners t0) o.result ≡ some (parent, futures)
      → View ranks
          (moved
            (record r.system { inners = λ j. if j == t0 then parent else r.system.inners j })
            (registered futures o.hooks))
          final
  register-View sub o parent futures e (ran {sub' = sub'} fuel s0 s1 trace run same) h =
      let parent0 = v.parents t0 in
      let subs_now : All (λ y. IsSub (length ranks) y.stage)
          (before ++ task_at ranks r final w v before after t0 c0 (generated sub) ∷ after) =
        rw e at v.subs in
      let in_sub =
        (All-middle (λ y. IsSub (length ranks) y.stage) before after
          (task_at ranks r final w v before after t0 c0 (generated sub)) subs_now).0 in
      let in_result : IsTargets (length ranks) o.result.targets = rw same (
        execute_loop-IsTargets net (length ranks) low updater fuel sub sub' s0 s1 trace in_sub
          sub.executor refl run) in
      let (targets', unmanaged', keys, news) =
        register_execution_result-IsTargets (length ranks) (r.system.inners t0) parent o.result
          futures parent0.unmanaged parent0.targets in_result h in
      replace-View ranks r final w v before after t0 c0 (generated sub) (registered futures o.hooks)
        parent _ e refl refl refl refl (λ t. refl) refl refl (λ c. ground (arith, keys c, news c))
        (record { unmanaged = unmanaged'; targets = targets' }) tt

  pub work-View :
      (stage stage' : Stage H) (o : Outcome H) (s' : System H)
      → r.system.tasks ≡ before ++ task_at ranks r final w v before after t0 c0 stage ∷ after
      → Executed net updater o stage
      → advance net r.system t0 c0 stage o ≡ some (s', stage')
      → (final' : PlannerManager) × View ranks (moved s' stage') final'
  unfolding advance
  work-View requested stage' o s' e did h =
      let same : (push_planner r.system
              (update_transaction (record (no_update t0) { now = c0 ∷ [] }))
            ≡ s')
          × (announced ≡ stage') =
        (cc, cc) in
      rw (← same.0, ← same.1) (announce-View ranks r final w v before after t0 c0 e)
  work-View announced stage' o s' e did h =
      let (parent, sub) = generate_sub_transaction net (r.system.inners t0) c0 in
      let same : (record r.system { inners = λ j. if j == t0 then parent else r.system.inners j }
            ≡ s')
          × (generated sub ≡ stage') =
        (cc, cc) in
      rw (← same.0, ← same.1) (final, generate-View e)
  work-View (generated sub) stage' o s' e did h =
      elim (Option-cases (register_execution_result (r.system.inners t0) o.result)) [
        | inl failed ↦ absurd (ground arith)
        | inr ((parent, futures), got) ↦
            let same : (record r.system {
              inners = λ j. if j == t0 then parent else r.system.inners j;
            }
                  ≡ s')
                × (registered futures o.hooks ≡ stage') =
              (let h' : some (
                record r.system { inners = λ j. if j == t0 then parent else r.system.inners j },
                registered futures o.hooks,
              )
                    ≡ some (s', stage') =
                  rw got at h in
                (cc, cc)) in
            rw (← same.0, ← same.1) (final, register-View sub o parent futures e did got)
      ]
  work-View (registered futures hooks) stage' o s' e did h =
      let s = r.system in
      let same : (record s {
        executor = record s.executor {
          before_update_hooks_buffers =
              buffer_hooks t0 hooks s.executor.before_update_hooks_buffers;
        };
      }
            ≡ s')
          × (buffered futures ≡ stage') =
        (cc, cc) in
      rw (← same.0, ← same.1)
        (
          final,
          replace-View ranks r final w v before after t0 c0 (registered futures hooks)
              (buffered futures) (s.inners t0) _ e refl refl refl refl
              (λ t. elim (Bool-cases (t == t0)) [
                | inl here ↦ let p : t ≡ t0 = ground arith in rw p (ground arith)
                | inr other ↦ ground arith
              ])
              refl refl (λ c. refl) (v.parents t0) tt,
        )
  work-View (buffered futures) stage' o s' e did h =
      let same : (push_planner r.system
              (update_transaction (record (no_update t0) { future = futures; finish = c0 ∷ [] }))
            ≡ s')
          × (ended ≡ stage') =
        (cc, cc) in
      rw (← same.0, ← same.1) (report-View ranks r final w v before after t0 c0 futures e)
  work-View ended stage' o s' e did h = elim did [ ]

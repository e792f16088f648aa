-- ===== src/Runtime/Safety.antt =====
-- What holds in every reachable runtime, whatever the order of the threads: no fault, and no early end.
use prf.Base.{
  ℕ, ◌+◌, ◌<◌, ◌≡◌, refl, Bool, true, inl, inr, Option, some, List, [], ◌∷◌, ◌++◌, arith,
  Option-cases, u64_mod, length, contains,
}
use prf.Rank.{Rank}
use prf.Messages.{
  ExecutorMessage, execute, start_update_cluster, finalize_transaction, register_transaction,
  PlannerMessage,
}
use prf.Planner.{TransactionState, PlannerManager, handle_message}
use prf.Planner.Sequence.{find_state}
use prf.Planner.Dispatch.{AllCounted}
use prf.Transaction.{Network, has_key, target_clusters, is_in_updating}
use prf.Transaction.Targets.{IsTargets}
use prf.Executor.{
  System, Task, Stage, requested, announced, generated, registered, buffered, ended, Outcome,
  handle, handle_execute, advance,
}
use prf.Runtime.{Runtime}
use prf.Runtime.Counts.{bit, times, tasks_of, requests, lives, holders}
use prf.Runtime.Queues.{All, All-middle, Planned}
use prf.Runtime.View.{Agrees, IsEndable, IsSensible, IsSub, View}
use prf.Transaction.Targets.{execute_loop-IsTargets}
use prf.Transaction.Results.{register_execution_result_lem}
use prf.Planner.Pending.{handle_messages}
use prf.Planner.Simple.{simple_planner, simple_planner_lem}
use prf.Planner.RankBased.{rank_based_planner}
use prf.Planner.Exclusion.{rank_based_planner-Justified}
use prf.Runtime.{Reach, Executed, ran}
use prf.Runtime.Queues.{Planned-handle}
use prf.Runtime.Once.{Reach-Phases}
use prf.Runtime.View.Proposals.{AllCounted-AllRanked}
use prf.Runtime.View.Reached.{Reach-View}

-- With no task of the transaction under way, none holds a cluster.
no_holders :
    {H : Type 0} (t c : ℕ) (xs : List (Task H)) → ((d : ℕ) → lives t d xs ≡ 0) → holders t c xs ≡ 0
no_holders t c [] h = refl
no_holders t c (x ∷ xs) h =
    ground (arith, h x.cluster_id, no_holders t c xs (λ d. omega (arith, h d)))

simple_planner-some :
    (ranks : List Rank) (ss : List TransactionState)
    → AllCounted ranks ss
    → (out : List ExecutorMessage) × (simple_planner ranks ss ≡ some out)
unfolding simple_planner
simple_planner-some ranks [] a = ([], refl)
simple_planner-some ranks (s ∷ ss) a = elim (simple_planner_lem ranks s ss a.0) [
  | inl (_, _, _, e) ↦ (_, e)
  | inr (inl (_, _, (_, _, e))) ↦ (_, e)
  | inr (inr (_, e)) ↦ (_, e)
]

module _ {H : Type 0} (net : Network) {S : Type 0} (updater : ℕ → S → Option S) (ranks : List Rank)
    (small : length ranks + length ranks + 1 < u64_mod)
    (low : (x : ℕ) → net.cluster_of x < length ranks) where
  handle-some :
      (r : Runtime H) (final : PlannerManager) (m : ExecutorMessage)
      → View ranks r final
      → (s' : System H) × (handle r.system m ≡ some s')
  unfolding handle handle_execute target_clusters is_in_updating
  handle-some r final (execute id) v = elim (Option-cases (handle r.system (execute id))) [
    | inl failed ↦ absurd (ground (arith, (v.parents id).unmanaged))
    | inr found ↦ found
  ]
  handle-some r final (start_update_cluster id c) v = (_, refl)
  handle-some r final (finalize_transaction id) v = (_, refl)
  handle-some r final (register_transaction id) v = (_, refl)

  advance-some :
      (r : Runtime H) (final : PlannerManager) (id c : ℕ) (stage : Stage H) (o : Outcome H)
      → View ranks r final
      → IsSub (length ranks) stage
      → Executed net updater o stage
      → (s' : System H) × (stage' : Stage H) × (advance net r.system id c stage o
          ≡ some (s', stage'))
  unfolding advance
  advance-some r final id c requested o v sub did = (_, _, refl)
  advance-some r final id c announced o v sub did = (_, _, refl)
  advance-some r final id c (generated sub) o v in_sub
        (ran {sub' = sub'} fuel s0 s1 trace run same) =
      let in_result : IsTargets (length ranks) o.result.targets = rw same (
        execute_loop-IsTargets net (length ranks) low updater fuel sub sub' s0 s1 trace in_sub
          sub.executor refl run) in
      let (parent, futures, e, _, _, _) =
        register_execution_result_lem (r.system.inners id) o.result (v.parents id).unmanaged
          in_result.ordered in
      elim (Option-cases (advance net r.system id c (generated sub) o)) [
        | inl failed ↦ absurd (ground (arith, e))
        | inr ((s', stage'), found) ↦ (s', stage', found)
      ]
  advance-some r final id c (registered futures hooks) o v sub did = (_, _, refl)
  advance-some r final id c (buffered futures) o v sub did = (_, _, refl)
  advance-some r final id c ended o v sub did = (_, _, refl)

  -- Where every cluster has a rank, and there are fewer than 2 ^ 63 ranks, in every reachable runtime
  -- the executor handles any message without a fault, and both planners run without one on the states
  -- at hand, whatever the stop flag holds.
  pub handle_no_fault :
      (r : Runtime H) (m : ExecutorMessage) (stop : ℕ → Bool)
      → Reach net updater ranks r
      → ((s' : System H) × (handle r.system m ≡ some s'))
        × ((out : List ExecutorMessage) × (rank_based_planner r.planner.cluster_ranks stop
                r.planner.transaction_states
              ≡ some out))
        × ((out : List ExecutorMessage) × (simple_planner r.planner.cluster_ranks
                r.planner.transaction_states
              ≡ some out))
  handle_no_fault r m stop reach =
      let (final, v) = Reach-View ranks net updater low small reach in
      let counted = v.planned.sound_now.counted in
      let (out, e, _) =
        rank_based_planner-Justified r.planner.cluster_ranks stop r.planner.transaction_states
          (AllCounted-AllRanked r.planner.cluster_ranks r.planner.transaction_states counted) in
      (
        handle-some r final m v,
        (out, e),
        simple_planner-some r.planner.cluster_ranks r.planner.transaction_states counted,
      )

  -- Where every cluster has a rank, and there are fewer than 2 ^ 63 ranks, in every reachable runtime
  -- the planner handles the first message in its queue without a fault.
  pub handle_message_no_fault :
      (r : Runtime H) (m : PlannerMessage) (rest : List PlannerMessage)
      → Reach net updater ranks r
      → r.system.planner_messages ≡ m ∷ rest
      → (p' : PlannerManager) × (handle_message r.planner m ≡ some p')
  handle_message_no_fault r m rest reach e =
      let (final, v) = Reach-View ranks net updater low small reach in
      let planned : Planned ranks r.planner (m ∷ rest) final = rw e at v.planned in
      Planned-handle m planned

  -- Where every cluster has a rank, and there are fewer than 2 ^ 63 ranks, in every reachable runtime
  -- each task can do its next part, with whatever an execution of its sub-transaction gave.
  pub advance_no_fault :
      (r : Runtime H) (before after : List (Task H)) (x : Task H) (o : Outcome H)
      → Reach net updater ranks r
      → r.system.tasks ≡ before ++ x ∷ after
      → Executed net updater o x.stage
      → (s' : System H) × (stage' : Stage H) × (advance net r.system x.transaction_id x.cluster_id
            x.stage o
          ≡ some (s', stage'))
  advance_no_fault r before after x o reach e did =
      let (final, v) = Reach-View ranks net updater low small reach in
      let subs : All (λ y. IsSub (length ranks) y.stage) (before ++ x ∷ after) = rw e at v.subs in
      advance-some r final x.transaction_id x.cluster_id x.stage o v
        (All-middle (λ y. IsSub (length ranks) y.stage) before after x subs).0 did

  -- Where every cluster has a rank, and there are fewer than 2 ^ 63 ranks, then in every reachable
  -- runtime where the executor takes a message to finalize a transaction that it has, each cluster of
  -- the transaction with targets has had exactly one task, a cluster without targets has had none, and
  -- each of these tasks has told the planner that it ended.
  pub ends_complete :
      (r : Runtime H) (id cluster : ℕ) (rest : List ExecutorMessage)
      → Reach net updater ranks r
      → r.executor_messages ≡ finalize_transaction id ∷ rest
      → contains id r.system.executor.transactions ≡ true
      → (tasks_of id cluster r.system.tasks
          ≡ bit (has_key cluster (r.system.inners id).targets_outside))
        × (requests id cluster r.system.tasks ≡ 0)
        × (lives id cluster r.system.tasks ≡ 0)
  ends_complete r id cluster rest reach e here =
      let (final, v) = Reach-View ranks net updater low small reach in
      let w = Reach-Phases net updater reach in
      let s = r.system in
      let sensible : IsEndable s final id × All (IsSensible s final) rest = rw e at v.sensible in
      let not_done : times id s.done ≡ 0 = ground (arith, w.phase id) in
      elim sensible.0 [
        | inl over ↦ absurd (omega (arith, over, not_done))
        | inr (_, quiet, (state, found, idle)) ↦
            let (state', found', a) = v.known id here in
            let same : state' ≡ state = ground arith in
            let a' : Agrees s id state = rw same at a in
            let held = no_holders id cluster s.tasks (λ d. omega (arith, quiet d)) in
            (
              ground (arith, a'.futures cluster, quiet cluster, idle cluster, held),
              omega (arith, quiet cluster),
              omega (arith, quiet cluster),
            )
      ]

  -- Where every cluster has a rank, and there are fewer than 2 ^ 63 ranks, then in every reachable
  -- runtime where the planner has no message left, its state of a transaction that the executor has is
  -- initialized; the clusters in now are those with a task under way; and a cluster that has targets is
  -- in future, is held by a task that has still to announce it, or has had its task begun, and just one
  -- of these, while a cluster without targets is none of them.
  pub Reach-Agrees :
      (r : Runtime H) (id : ℕ)
      → Reach net updater ranks r
      → r.system.planner_messages ≡ []
      → contains id r.system.executor.transactions ≡ true
      → (state : TransactionState) × (find_state id r.planner.transaction_states ≡ some state)
        × Agrees r.system id state
  unfolding handle_messages
  Reach-Agrees r id reach e here =
      let (final, v) = Reach-View ranks net updater low small reach in
      let planned : Planned ranks r.planner [] final = rw e at v.planned in
      let run : some r.planner ≡ some final = planned.view in
      let same : final ≡ r.planner = cc in
      let (state, found, a) = v.known id here in (state, rw (← same) found, a)

-- ===== src/Runtime/View/Reached.antt =====
-- In every reachable runtime the planner and the executor agree.
use prf.Base.{ℕ, ◌+◌, ◌<◌, ◌≡◌, refl, inl, Option, some, List, ◌∷◌, arith, u64_mod, length}
use prf.Rank.{Rank}
use prf.Messages.{
  ExecutorMessage, execute, start_update_cluster, finalize_transaction, register_transaction,
}
use prf.Planner.{PlannerManager}
use prf.Planner.Dispatch.{IsSound}
use prf.Transaction.{Network}
use prf.Executor.{System, handle, handle_start_update, handle_finalize, handle_register}
use prf.Runtime.{Runtime}
use prf.Runtime.Phases.{Phases}
use prf.Runtime.View.{View}
use prf.Planner.{new_manager}
use prf.Planner.Pending.{handle_messages}
use prf.Executor.{new_executor}
use prf.Runtime.{
  new_runtime, Step, begins, sends, commits, handles, works, receives, plans, Reach, start, next,
}
use prf.Runtime.Phases.{Proposes-is_plan}
use prf.Runtime.Once.{Reach-Phases}
use prf.Runtime.View.Clients.{new-IsParent, begin-View, commit-View, send-View}
use prf.Runtime.View.Handling.{execute-View, register-View}
use prf.Runtime.View.Starting.{start_update-View}
use prf.Runtime.View.Ending.{finalize-View}
use prf.Runtime.View.Parts.{work-View}
use prf.Runtime.View.Planning.{receive-View, plan-View}
use prf.Runtime.View.Proposals.{Proposes-IsSensible}

module _ {H : Type 0} (ranks : List Rank) where
  new_runtime-View :
      length ranks + length ranks + 1 < u64_mod
      → View ranks (new_runtime {H = H} ranks) (new_manager ranks)
  unfolding new_runtime new_executor new_manager handle_messages
  new_runtime-View small =
      let sound : IsSound (new_manager ranks) = record {
        first = 0;
        consecutive = tt;
        counted = tt;
        small = small;
      } in
      record {
        planned = record {
          strict = tt;
          view = refl;
          sound = sound;
          sound_now = sound;
          same_ranks = refl;
          same_ranks_now = refl;
        };
        registered = 0;
        registers = refl;
        ends = record { below = λ j h. absurd (h refl); last = inl refl };
        fresh = λ t lt none_t. absurd (omega arith);
        known = λ t here. cc;
        parents = λ t. new-IsParent (length ranks) t;
        subs = tt;
        quiet = λ t c k. absurd (omega arith);
        sensible = tt;
        sent = tt;
        initialized = λ t state found ready. cc;
      }

  handle-View :
      (r : Runtime H) (final : PlannerManager) (m : ExecutorMessage) (rest : List ExecutorMessage)
      (s' : System H)
      → Phases r
      → View ranks r final
      → r.executor_messages ≡ m ∷ rest
      → handle r.system m ≡ some s'
      → (final' : PlannerManager) × View ranks
          (record r { system = s'; executor_messages = rest })
          final'
  unfolding handle
  handle-View r final (execute id) rest s' w v e h = execute-View ranks r final w v rest id s' e h
  handle-View r final (start_update_cluster id c) rest s' w v e h =
      let same : handle_start_update r.system id c ≡ s' = cc in
      rw (← same) (final, start_update-View ranks r final w v rest id c e)
  handle-View r final (finalize_transaction id) rest s' w v e h =
      let same : handle_finalize r.system id ≡ s' = cc in
      rw (← same) (finalize-View ranks r final w v rest id e)
  handle-View r final (register_transaction id) rest s' w v e h =
      let same : handle_register r.system id ≡ s' = cc in
      rw (← same) (register-View ranks r final w v rest id e)

  module _ (net : Network) {S : Type 0} (updater : ℕ → S → Option S)
      (low : (x : ℕ) → net.cluster_of x < length ranks) where
    Step-View :
        {r r' : Runtime H} (final : PlannerManager)
        → Step net updater r r'
        → Phases r
        → View ranks r final
        → (final' : PlannerManager) × View ranks r' final'
    Step-View {r} final (begins lt) w v = (final, begin-View ranks r final w v lt)
    Step-View {r} final (sends id tiv open_now) w v =
        (final, send-View ranks net r final id tiv low w v open_now)
    Step-View {r} final (commits id open_now) w v =
        (final, commit-View ranks r final id w v open_now)
    Step-View {r} final (handles m rest s' e h) w v = handle-View r final m rest s' w v e h
    Step-View {r} final (works before after x o s' stage' e did h) w v =
        work-View net updater ranks low r final w v before after x.transaction_id x.cluster_id
          x.stage stage' o s' e did h
    Step-View {r} final (receives m rest p' e h) w v =
        (final, receive-View ranks r final w v m rest p' e h)
    Step-View {r} final (plans m h) w v = (
      final,
      plan-View ranks r final w v m (Proposes-is_plan r.planner m h)
          (Proposes-IsSensible ranks r final w v m h),
    )

    pub Reach-View :
        {r : Runtime H}
        → length ranks + length ranks + 1 < u64_mod
        → Reach net updater ranks r
        → (final : PlannerManager) × View ranks r final
    Reach-View small start = (new_manager ranks, new_runtime-View small)
    Reach-View small (next before step) =
        let (final, v) = Reach-View small before in
        Step-View final step (Reach-Phases net updater before) v

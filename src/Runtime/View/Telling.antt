-- ===== src/Runtime/View/Telling.antt =====
-- The view is kept where a task sends a message to the planner.
use prf.Base.{
  ℕ, ◌+◌, ◌≤◌, ◌<◌, ◌≡◌, true, false, inl, inr, some, List, [], ◌∷◌, ◌++◌, arith, ◌==◌,
  if◌then◌else◌, Bool-cases, length, contains,
}
use prf.Rank.{Rank}
use prf.Messages.{UpdateTransactionMessage, update_transaction}
use prf.Planner.{TransactionState, PlannerManager}
use prf.Planner.Sequence.{find_state}
use prf.Planner.Pending.{Fits, Strict, Updated, update-Updated}
use prf.Executor.{System, Task, Stage, push_planner}
use prf.Runtime.{Runtime}
use prf.Runtime.Counts.{times, tasks_of, requests, lives, holders}
use prf.Runtime.Phases.{Phases}
use prf.Runtime.Queues.{All, All-map, All-snoc, All-middle, Planned, Planned-push}
use prf.Runtime.View.{Agrees, IsSensible, IsSent, IsSub, View}
use prf.Runtime.View.Keeping.{
  Steady, IsSent-Steady, Keeps, IsSensible-Keeps, Steady, IsSent-Steady, task_known, update-EndsAt,
}
use prf.Runtime.View.Tasks.{Moves, replace-Moves}

module _ {H : Type 0} (ranks : List Rank) (r : Runtime H) (final : PlannerManager) (w : Phases r)
    (v : View ranks r final) (before after : List (Task H)) (x : Task H) (stage' : Stage H)
    (e : r.system.tasks ≡ before ++ x ∷ after) where
  abbrev told : UpdateTransactionMessage → System H
  told m = record (push_planner r.system (update_transaction m)) {
    tasks = before ++ record x { stage = stage' } ∷ after;
  }

  told-View :
      (m : UpdateTransactionMessage)
      → m.transaction_id ≡ x.transaction_id
      → 1
        ≤ lives x.transaction_id x.cluster_id r.system.tasks
          + requests x.transaction_id x.cluster_id r.system.tasks
      → ((t c : ℕ) → requests t c (told m).tasks ≤ requests t c r.system.tasks)
      → ((c : ℕ)
          → contains c m.now ≡ true
          → requests x.transaction_id c (told m).tasks < tasks_of x.transaction_id c (told m).tasks)
      → IsSub (length ranks) stage'
      → times x.transaction_id r.system.done ≡ 0
      → contains x.transaction_id r.system.executor.transactions ≡ true
      → (state state' : TransactionState) (final' : PlannerManager)
      → find_state x.transaction_id final.transaction_states ≡ some state
      → Updated m state state'
      → Agrees (told m) x.transaction_id state'
      → Planned ranks r.planner (r.system.planner_messages ++ update_transaction m ∷ []) final'
      → ((j : ℕ)
          → find_state j final'.transaction_states ≡ (
              if x.transaction_id == j then some state' else find_state j final.transaction_states))
      → View ranks (record r { system = told m }) final'
  told-View m same_id busy less begun sub not_done here state state' final' found upd agreed
        planned' finds =
      let s = r.system in
      let s1 = told m in
      let t0 = x.transaction_id in
      let mv : Moves x stage' s.tasks s1.tasks = rw e (replace-Moves before after x stage') in
      let at_t0 : find_state t0 final'.transaction_states ≡ some state' =
        ground (arith, finds t0) in
      let other_counts : (t c : ℕ)
          → (t == t0) ≡ false
          → (requests t c s1.tasks ≡ requests t c s.tasks)
            × (lives t c s1.tasks ≡ lives t c s.tasks)
            × (holders t c s1.tasks ≡ holders t c s.tasks) =
        λ t c other. (
          ground (arith, mv.requested_now t c),
          ground (arith, mv.live t c),
          ground (arith, mv.holding t c),
        ) in
      let steady : Steady s s1 = record {
        committed_stays = λ t k. k;
        done_stays = λ t. omega arith;
        begun = λ t c k. omega (arith, less t c, mv.all t c);
      } in
      let keeps : Keeps s s1 final final' = record {
        done = λ t. omega arith;
        tasks = λ t c. omega (arith, mv.all t c);
        stays = λ t k. inr k;
        future = λ t c st k f i. elim (Bool-cases (t == t0)) [
          | inr other ↦ inr (inr (st, ground (arith, finds t), i))
          | inl same ↦
              let t_same : t ≡ t0 = ground arith in
              let st_same : st ≡ state = ground arith in
              elim (Bool-cases (contains c m.now)) [
                | inl starts ↦ inr (inl (rw t_same (omega (arith, begun c starts))))
                | inr no_start ↦ inr (
                    inr (
                      state',
                      rw t_same at_t0,
                      (let i' : contains c state.future ≡ true = rw (← st_same) i in
                          ground (arith, upd.future c)),
                    ))
              ]
        ];
        idle = λ t st k q f i. elim (Bool-cases (t == t0)) [
          | inl same ↦ absurd (ground (arith, q x.cluster_id, busy))
          | inr other ↦
              inr
                (λ c. ground (arith, q c, other_counts t c other), (st, ground (arith, finds t), i))
        ];
      } in
      record {
        planned = planned';
        registered = v.registered;
        registers = v.registers;
        ends =
            update-EndsAt v.registered t0 final.transaction_states final'.transaction_states state
              state' v.ends found finds;
        fresh = λ t lt none_t. ground (arith, v.fresh t lt, finds t);
        known = λ t here_t. elim (Bool-cases (t == t0)) [
          | inl same ↦ let p : t ≡ t0 = ground arith in (state', rw p at_t0, rw p agreed)
          | inr other ↦
              let (st, found_t, b) = v.known t here_t in
              (
                st,
                ground (arith, finds t),
                record {
                  ready = b.ready;
                  futures = λ c. omega (arith, b.futures c, mv.all t c, other_counts t c other);
                  nows = λ c. omega (arith, b.nows c, other_counts t c other);
                  asked = λ c. omega (arith, b.asked c, other_counts t c other);
                },
              )
        ];
        parents = v.parents;
        subs =
            let subs_now : All (λ y. IsSub (length ranks) y.stage) (before ++ x ∷ after) =
              rw e at v.subs in
            (All-middle (λ y. IsSub (length ranks) y.stage) before after x subs_now).1
              (record x { stage = stage' }) sub;
        quiet = λ t c k. elim (Bool-cases (t == t0)) [
          | inl same ↦ absurd (ground (arith, k, not_done))
          | inr other ↦ omega (arith, v.quiet t c k, other_counts t c other)
        ];
        sensible =
            All-map (IsSensible s final) (IsSensible s1 final') r.executor_messages
              (λ y k. IsSensible-Keeps s s1 final final' y keeps k) v.sensible;
        sent =
            All-snoc (IsSent s1) s.planner_messages (update_transaction m)
              (All-map (IsSent s) (IsSent s1) s.planner_messages
                (λ y k. IsSent-Steady s s1 y steady k) v.sent)
              (rw same_id (ground (arith, here), begun));
        initialized = v.initialized;
      }

  -- The message fits the state of the task's transaction, and agrees with the task's next stage.
  pub tell-View :
      (m : UpdateTransactionMessage)
      → m.transaction_id ≡ x.transaction_id
      → 1
        ≤ lives x.transaction_id x.cluster_id r.system.tasks
          + requests x.transaction_id x.cluster_id r.system.tasks
      → ((t c : ℕ) → requests t c (told m).tasks ≤ requests t c r.system.tasks)
      → ((c : ℕ)
          → contains c m.now ≡ true
          → requests x.transaction_id c (told m).tasks < tasks_of x.transaction_id c (told m).tasks)
      → IsSub (length ranks) stage'
      → ((state : TransactionState)
          → Agrees r.system x.transaction_id state
          → Fits ranks state m
            × ((state' : TransactionState)
                → Updated m state state'
                → Agrees (told m) x.transaction_id state'))
      → (final' : PlannerManager) × View ranks (record r { system = told m }) final'
  tell-View m same_id busy less begun sub plan =
      let s = r.system in
      let s1 = told m in
      let t0 = x.transaction_id in
      let mv : Moves x stage' s.tasks s1.tasks = rw e (replace-Moves before after x stage') in
      let not_done : times t0 s.done ≡ 0 = ground (arith, v.quiet t0 x.cluster_id, busy) in
      let here = task_known r t0 x.cluster_id w not_done mv.here in
      let (state, found, a) = v.known t0 here in
      let (fits_now, agree) = plan state a in
      let found_m : find_state m.transaction_id final.transaction_states ≡ some state =
        rw same_id found in
      let fits : Strict final (update_transaction m) =
        λ st f. let same : st ≡ state = ground arith in rw (same, v.planned.same_ranks) fits_now in
      let (final', h', planned') = Planned-push (update_transaction m) v.planned fits in
      let (state', upd, finds0) =
        update-Updated final final' m state v.planned.sound fits h' found_m in
      let finds : (j : ℕ)
          → find_state j final'.transaction_states
            ≡ (if t0 == j then some state' else find_state j final.transaction_states) =
        rw same_id at finds0 in
      (
        final',
        told-View m same_id busy less begun sub not_done here state state' final' found upd
            (agree state' upd) planned' finds,
      )

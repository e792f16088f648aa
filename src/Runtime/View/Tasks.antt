-- ===== src/Runtime/View/Tasks.antt =====
-- One task moves on to another stage.
use prf.Base.{ℕ, ◌+◌, ◌≤◌, ◌≡◌, ap, Bool, true, inr, ◌&&◌, List, ◌∷◌, ◌++◌, arith, ◌==◌, length}
use prf.Rank.{Rank}
use prf.Planner.{PlannerManager}
use prf.Transaction.{has_key}
use prf.Executor.{System, Task, Stage}
use prf.Runtime.{Runtime}
use prf.Runtime.Counts.{
  bit, times, count, count_middle, is_task, is_requested, is_live, holds, tasks_of, requests, lives,
  holders,
}
use prf.Runtime.Queues.{All, All-map}
use prf.Runtime.View.{IsSensible, IsSent, IsParent, IsSub, View}
use prf.Runtime.View.Keeping.{Steady, IsSent-Steady, Keeps, IsSensible-Keeps, Steady, IsSent-Steady}

module _ {H : Type 0} where
  moved :
      (p : Task H → Bool) (before after : List (Task H)) (x y : Task H)
      → count p (before ++ y ∷ after) + bit (p x) ≡ count p (before ++ x ∷ after) + bit (p y)
  moved p before after x y =
      omega (arith, count_middle p before after x, count_middle p before after y)

  -- What becomes of the counts.
  pub record Moves (x : Task H) (stage' : Stage H) (xs ys : List (Task H)) : Type 0 where
    pub all : (t c : ℕ) → tasks_of t c ys ≡ tasks_of t c xs
    pub requested_now :
        (t c : ℕ)
        → requests t c ys + bit (is_task t c x && is_requested x.stage)
          ≡ requests t c xs + bit (is_task t c x && is_requested stage')
    pub live :
        (t c : ℕ)
        → lives t c ys + bit (is_task t c x && is_live x.stage)
          ≡ lives t c xs + bit (is_task t c x && is_live stage')
    pub holding :
        (t c : ℕ)
        → holders t c ys + bit (t == x.transaction_id && holds c x.stage)
          ≡ holders t c xs + bit (t == x.transaction_id && holds c stage')
    -- The task itself is among those that are counted.
    pub here : 1 ≤ tasks_of x.transaction_id x.cluster_id xs
    pub requests_here : is_requested x.stage ≡ true → 1 ≤ requests x.transaction_id x.cluster_id xs
    pub lives_here : is_live x.stage ≡ true → 1 ≤ lives x.transaction_id x.cluster_id xs
    pub holds_here : (c : ℕ) → holds c x.stage ≡ true → 1 ≤ holders x.transaction_id c xs

  pub replace-Moves :
      (before after : List (Task H)) (x : Task H) (stage' : Stage H)
      → Moves x stage' (before ++ x ∷ after) (before ++ record x { stage = stage' } ∷ after)
  replace-Moves before after x stage' =
      let y = record x { stage = stage' } in
      let t0 = x.transaction_id in
      let c0 = x.cluster_id in
      record {
        all = λ t c. omega (arith, moved (is_task t c) before after x y);
        requested_now = λ t c. moved (λ z. is_task t c z && is_requested z.stage) before after x y;
        live = λ t c. moved (λ z. is_task t c z && is_live z.stage) before after x y;
        holding = λ t c. moved (λ z. t == z.transaction_id && holds c z.stage) before after x y;
        here = ground (arith, count_middle (is_task t0 c0) before after x);
        requests_here = λ h.
            ground
              (arith, count_middle (λ z. is_task t0 c0 z && is_requested z.stage) before after x);
        lives_here = λ h.
            ground (arith, count_middle (λ z. is_task t0 c0 z && is_live z.stage) before after x);
        holds_here = λ c h.
            ground
              (arith, count_middle (λ z. t0 == z.transaction_id && holds c z.stage) before after x);
      }

module _ {H : Type 0} (ranks : List Rank) (r : Runtime H) (final : PlannerManager)
    (v : View ranks r final) where
  -- No message is sent, and no task starts or ends: what tasks come to hold gets targets.
  pub still-View :
      (s' : System H)
      → s'.executor.transactions ≡ r.system.executor.transactions
      → s'.done ≡ r.system.done
      → s'.planner_messages ≡ r.system.planner_messages
      → ((t c : ℕ) → tasks_of t c s'.tasks ≡ tasks_of t c r.system.tasks)
      → ((t c : ℕ) → requests t c s'.tasks ≡ requests t c r.system.tasks)
      → ((t c : ℕ) → lives t c s'.tasks ≡ lives t c r.system.tasks)
      → ((t c : ℕ)
          → holders t c s'.tasks + bit (has_key c (r.system.inners t).targets_outside)
            ≡ holders t c r.system.tasks + bit (has_key c (s'.inners t).targets_outside))
      → ((t : ℕ) → IsParent (length ranks) (s'.inners t))
      → All (λ y. IsSub (length ranks) y.stage) s'.tasks
      → View ranks (record r { system = s' }) final
  still-View s' trans done messages all reqs live balance parents' subs' =
      let s = r.system in
      let steady : Steady s s' = record {
        committed_stays = λ t k. rw (trans, done) k;
        done_stays = λ t. omega (arith, ap (times t) done);
        begun = λ t d k. omega (arith, all t d, reqs t d);
      } in
      let keeps : Keeps s s' final final = record {
        done = λ t. omega (arith, ap (times t) done);
        tasks = λ t d. omega (arith, all t d);
        stays = λ t k. inr (rw trans k);
        future = λ t d state k f i. inr (inr (state, f, i));
        idle = λ t state k q f i. inr (λ d. omega (arith, q d, reqs t d, live t d), (state, f, i));
      } in
      record {
        planned = rw messages v.planned;
        registered = v.registered;
        registers = v.registers;
        ends = v.ends;
        fresh = λ t lt. rw (trans, done) (v.fresh t lt);
        known = λ t here.
            let (state, found, a) = v.known t (rw trans at here) in
            (
              state,
              found,
              record {
                ready = a.ready;
                futures = λ d. omega (arith, a.futures d, all t d, reqs t d, balance t d);
                nows = λ d. omega (arith, a.nows d, live t d);
                asked = λ d. omega (arith, a.asked d, reqs t d);
              },
            );
        parents = parents';
        subs = subs';
        quiet = λ t d k.
            let k' : 1 ≤ times t s.done = rw done at k in
            omega (arith, v.quiet t d k', live t d, reqs t d);
        sensible =
            All-map (IsSensible s final) (IsSensible s' final) r.executor_messages
              (λ m h. IsSensible-Keeps s s' final final m keeps h) v.sensible;
        sent = rw messages (
            All-map (IsSent s) (IsSent s') s.planner_messages (λ m h. IsSent-Steady s s' m steady h)
              v.sent);
        initialized = rw (trans, done) v.initialized;
      }

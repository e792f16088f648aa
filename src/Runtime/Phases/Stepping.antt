-- ===== src/Runtime/Phases/Stepping.antt =====
-- The life of a transaction, and every step.
use prf.Base.{ℕ, ◌≡◌, inl, inr, Option, some, List, ◌∷◌, ◌++◌, arith, Option-cases}
use prf.Transaction.{Network, register_execution_result}
use prf.Executor.{
  System, Task, Stage, requested, announced, generated, registered, buffered, ended, Outcome,
  advance,
}
use prf.Runtime.{Runtime, Step, begins, sends, commits, handles, works, receives, plans}
use prf.Runtime.Counts.{count_middle, is_task, tasks_of}
use prf.Runtime.Phases.{
  Phases, begin-Phases, start-Phases, send-Phases, plan-Phases, Proposes-is_plan,
}
use prf.Runtime.Phases.Handling.{handle-Phases}

module _ {H : Type 0} where
  -- A part of a task leaves the executor's maps alone.
  pub advance_frame :
      (net : Network) (s s' : System H) (id cluster : ℕ) (stage stage' : Stage H) (o : Outcome H)
      → advance net s id cluster stage o ≡ some (s', stage')
      → (s'.executor.transactions ≡ s.executor.transactions)
        × (s'.executor.transaction_updatings ≡ s.executor.transaction_updatings)
        × (s'.done ≡ s.done)
        × (s'.tasks ≡ s.tasks)
  unfolding advance
  advance_frame net s s' id cluster requested stage' o h = (cc, cc, cc, cc)
  advance_frame net s s' id cluster announced stage' o h = (cc, cc, cc, cc)
  advance_frame net s s' id cluster (generated sub) stage' o h =
      elim (Option-cases (register_execution_result (s.inners id) o.result)) [
        | inl failed ↦ absurd (ground arith)
        | inr ((parent, futures), got) ↦ ground arith
      ]
  advance_frame net s s' id cluster (registered futures hooks) stage' o h = (cc, cc, cc, cc)
  advance_frame net s s' id cluster (buffered futures) stage' o h = (cc, cc, cc, cc)
  advance_frame net s s' id cluster ended stage' o h = (cc, cc, cc, cc)

  tasks_of-stage :
      (t c : ℕ) (before after : List (Task H)) (x : Task H) (stage : Stage H)
      → tasks_of t c (before ++ record x { stage = stage } ∷ after)
        ≡ tasks_of t c (before ++ x ∷ after)
  tasks_of-stage t c before after x stage = omega (
    arith,
    count_middle (is_task t c) before after x,
    count_middle (is_task t c) before after (record x { stage = stage }),
  )

  module _ (net : Network) {S : Type 0} (updater : ℕ → S → Option S) where
    pub Step-Phases : {r r' : Runtime H} → Step net updater r r' → Phases r → Phases r'
    Step-Phases {r} (begins lt) v = begin-Phases r v lt
    Step-Phases {r} (sends id tiv open_now) v = send-Phases net r id tiv v
    Step-Phases {r} (commits id open_now) v = start-Phases r id v open_now
    Step-Phases {r} (handles m rest s' e h) v = handle-Phases r m rest s' v e h
    Step-Phases {r} (works before after x o s' stage' e did h) v =
        let (trans, ups, done, tasks) =
          advance_frame net r.system s' x.transaction_id x.cluster_id x.stage stage' o h in
        record {
          phase = λ t. rw (trans, done) (v.phase t);
          blank = λ t. rw (trans, ups) (v.blank t);
          once = λ t c. rw (ups, done, tasks_of-stage t c before after x stage', ← e) (v.once t c);
          at_most = λ t c. rw (tasks_of-stage t c before after x stage', ← e) (v.at_most t c);
          small = v.small;
        }
    Step-Phases {r} (receives m rest p' e h) v = record {
      phase = v.phase;
      blank = v.blank;
      once = v.once;
      at_most = v.at_most;
      small = v.small;
    }
    Step-Phases {r} (plans m h) v = plan-Phases r m v (Proposes-is_plan r.planner m h)

-- ===== src/Runtime/View/Planning.antt =====
-- The view is kept where the planner receives a message.
use prf.Base.{
  ℕ, ◌≤◌, ◌<◌, ◌≡◌, ◌⊎◌, refl, true, false, inl, inr, ◌&&◌, some, List, [], ◌∷◌, arith, ◌==◌,
  Bool-cases, Option-cases, contains,
}
use prf.Rank.{Rank}
use prf.Messages.{
  ExecutorMessage, PlannerMessage, start_transaction, update_transaction, finish_transaction,
}
use prf.Planner.{TransactionState, PlannerManager, handle_message}
use prf.Planner.Sequence.{find_state}
use prf.Planner.Dispatch.{IsSound}
use prf.Planner.Effect.{handle_finish-find}
use prf.Planner.Pending.{Strict, update-Updated}
use prf.Runtime.{Runtime}
use prf.Runtime.Counts.{times, tasks_of, requests}
use prf.Runtime.Phases.{Phases}
use prf.Runtime.Queues.{All, All-map, All-snoc, Planned, Planned-receive}
use prf.Runtime.View.{committed, Agrees, IsStartable, IsEndable, IsSensible, IsSent, View}
use prf.Runtime.View.Clients.{Agrees-same, IsSensible-same, IsSent-same}
use prf.Planner.Unchanged.{Spares, future_kept, Survives, idle_kept}
use prf.Runtime.{push_executor}
use prf.Runtime.Queues.{Registers-plan}
use prf.Planner.Sent.{is_plan}
use prf.Planner.Pending.{update_missing}
use prf.Planner.Effect.{handle_start_keeps}

-- Is the message about the state of `t`?
abbrev Updates : ℕ → PlannerMessage → Type 0
Updates t (start_transaction id) = ⊥
Updates t (update_transaction m) = m.transaction_id ≡ t
Updates t (finish_transaction id) = ⊥

-- Only an update makes a state initialized.
handle_message_initializes :
    (p p' : PlannerManager) (m : PlannerMessage) (t : ℕ) (state : TransactionState)
    → IsSound p
    → Strict p m
    → handle_message p m ≡ some p'
    → find_state t p'.transaction_states ≡ some state
    → state.initialized ≡ true
    → (find_state t p.transaction_states ≡ some state) ⊎ Updates t m
unfolding handle_message
handle_message_initializes p p' (start_transaction id) t state v lt h found ready =
    elim (handle_start_keeps v.first id t p.transaction_states v.consecutive lt) [
      | inl same ↦ inl (ground arith)
      | inr (missing, blank) ↦ absurd (ground (arith, blank state))
    ]
handle_message_initializes p p' (update_transaction m) t state v fits h found ready =
    elim (Option-cases (find_state m.transaction_id p.transaction_states)) [
      | inl missing ↦ let same = update_missing p p' m v fits h missing in inl (rw (← same) found)
      | inr (s0, found0) ↦
          let (s1, upd, finds) = update-Updated p p' m s0 v fits h found0 in
          elim (Bool-cases (m.transaction_id == t)) [
            | inl here ↦ inr (ground arith)
            | inr other ↦ inl (ground (arith, finds t))
          ]
    ]
handle_message_initializes p p' (finish_transaction id) t state v s h found ready =
    let (_, same_or_none) = handle_finish-find v.first id p.transaction_states v.consecutive in
    elim (same_or_none t) [ inl same ↦ inl (ground arith) | inr missing ↦ absurd (ground arith) ]

module _ {H : Type 0} (ranks : List Rank) (r : Runtime H) (final : PlannerManager) (w : Phases r)
    (v : View ranks r final) where
  updated-committed :
      (t : ℕ) (m : PlannerMessage) → IsSent r.system m → Updates t m → 1 ≤ committed r.system t
  updated-committed t (start_transaction id) h u = absurd u
  updated-committed t (update_transaction m) h u = rw (← u) h.0
  updated-committed t (finish_transaction id) h u = absurd u

  pub receive-View :
      (m : PlannerMessage) (rest : List PlannerMessage) (p' : PlannerManager)
      → r.system.planner_messages ≡ m ∷ rest
      → handle_message r.planner m ≡ some p'
      → View ranks
          (record r { planner = p'; system = record r.system { planner_messages = rest } })
          final
  receive-View m rest p' e h =
      let s = r.system in
      let s' = record s { planner_messages = rest } in
      let planned : Planned ranks r.planner (m ∷ rest) final = rw e at v.planned in
      let sent : All (IsSent s) (m ∷ rest) = rw e at v.sent in
      record {
        planned = Planned-receive m planned h;
        registered = v.registered;
        registers = v.registers;
        ends = v.ends;
        fresh = v.fresh;
        known = λ t here.
            let (state, found, a) = v.known t here in
            (state, found, Agrees-same s s' t state refl refl a);
        parents = v.parents;
        subs = v.subs;
        quiet = v.quiet;
        sensible =
            All-map (IsSensible s final) (IsSensible s' final) r.executor_messages
              (λ x k. IsSensible-same s s' final x refl refl refl k) v.sensible;
        sent =
            All-map (IsSent s) (IsSent s') rest (λ x k. IsSent-same s s' x refl refl refl k) sent.1;
        initialized = λ t state found ready.
            elim (handle_message_initializes r.planner p' m t state planned.sound_now
              planned.strict.0 h found ready) [
                | inl before ↦ v.initialized t state before ready
                | inr updates ↦ updated-committed t m sent.0 updates
              ];
      }

  pub plan-View :
      (m : ExecutorMessage)
      → is_plan m ≡ true
      → IsSensible r.system final m
      → View ranks (push_executor r m) final
  plan-View m h sensible = record {
    planned = v.planned;
    registered = v.registered;
    registers =
        Registers-plan r.next_transaction_id v.registered r.executor_messages m v.registers h;
    ends = v.ends;
    fresh = v.fresh;
    known = v.known;
    parents = v.parents;
    subs = v.subs;
    quiet = v.quiet;
    sensible = All-snoc (IsSensible r.system final) r.executor_messages m v.sensible sensible;
    sent = v.sent;
    initialized = v.initialized;
  }

  spares :
      (t c : ℕ) (q : List PlannerMessage)
      → All (IsSent r.system) q
      → (1 ≤ times t r.system.done) ⊎ (1 ≤ tasks_of t c r.system.tasks) ⊎ Spares t c q
  spares t c [] a = inr (inr tt)
  spares t c (start_transaction id ∷ q) a = spares t c q a.1
  spares t c (update_transaction m ∷ q) a = elim (spares t c q a.1) [
    | inl over ↦ inl over
    | inr (inl begun) ↦ inr (inl begun)
    | inr (inr later) ↦ elim (Bool-cases (m.transaction_id == t && contains c m.now)) [
      | inl starts ↦
          let same : m.transaction_id ≡ t = ground arith in
          let begun = a.0.1 c (ground arith) in
          let begun' : requests t c r.system.tasks < tasks_of t c r.system.tasks =
            rw same at begun in
          inr (inl (omega (arith, begun')))
      | inr other ↦ inr (inr (λ e. ground arith, later))
    ]
  ]
  spares t c (finish_transaction id ∷ q) a = elim (spares t c q a.1) [
    | inl over ↦ inl over
    | inr (inl begun) ↦ inr (inl begun)
    | inr (inr later) ↦ elim (Bool-cases (t == id)) [
      | inl ends ↦ let same : t ≡ id = ground arith in inl (rw same a.0)
      | inr other ↦ inr (inr (λ e. ground arith, later))
    ]
  ]

  survives :
      (t : ℕ) (q : List PlannerMessage)
      → All (IsSent r.system) q
      → (1 ≤ times t r.system.done) ⊎ Survives t q
  survives t [] a = inr tt
  survives t (start_transaction id ∷ q) a = survives t q a.1
  survives t (update_transaction m ∷ q) a = survives t q a.1
  survives t (finish_transaction id ∷ q) a = elim (survives t q a.1) [
    | inl over ↦ inl over
    | inr later ↦ elim (Bool-cases (t == id)) [
      | inl ends ↦ let same : t ≡ id = ground arith in inl (rw same a.0)
      | inr other ↦ inr (λ e. ground arith, later)
    ]
  ]

  -- A cluster that the planner sees announced can still be started.
  pub announced-IsStartable :
      (t c : ℕ) (state : TransactionState)
      → find_state t r.planner.transaction_states ≡ some state
      → state.initialized ≡ true
      → contains c state.future ≡ true
      → IsStartable r.system final t c
  announced-IsStartable t c state found ready future =
      elim (Bool-cases (contains t r.system.executor.transactions)) [
        | inr gone ↦ inl (ground (arith, v.initialized t state found ready))
        | inl here ↦ elim (spares t c r.system.planner_messages v.sent) [
          | inl over ↦ inl over
          | inr (inl begun) ↦ inr (here, inl begun)
          | inr (inr left) ↦ inr (
            here,
            inr (
                future_kept r.planner final t c r.system.planner_messages state v.planned.sound_now
                  v.planned.strict v.planned.view left found future),
          )
        ]
      ]

  -- A transaction that the planner sees with nothing to do has nothing to do.
  pub idle-IsEndable :
      (t : ℕ) (state : TransactionState)
      → find_state t r.planner.transaction_states ≡ some state
      → state.initialized ≡ true
      → state.future ≡ []
      → state.now ≡ []
      → IsEndable r.system final t
  idle-IsEndable t state found ready no_future no_now =
      elim (Bool-cases (contains t r.system.executor.transactions)) [
        | inr gone ↦ inl (ground (arith, v.initialized t state found ready))
        | inl here ↦ elim (survives t r.system.planner_messages v.sent) [
          | inl over ↦ inl over
          | inr left ↦
              let none_left : (c : ℕ) → contains c state.future ≡ false = λ c. rw no_future refl in
              let kept =
                idle_kept r.planner final t r.system.planner_messages state v.planned.sound_now
                  v.planned.strict v.planned.view left found ready none_left
                  (λ c. rw no_now refl) in
              let (state', found', a) = v.known t here in
              let same : state' ≡ state = ground arith in
              let a' : Agrees r.system t state = rw same at a in
              inr (
                here,
                λ c.
                    let now_none : contains c state.now ≡ false = rw no_now refl in
                    ground (arith, a'.nows c, a'.asked c, none_left c, now_none),
                (state, kept, none_left),
              )
        ]
      ]

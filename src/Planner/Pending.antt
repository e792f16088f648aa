-- ===== src/Planner/Pending.antt =====
-- A queue of messages for the planner that it can handle one after the other, and what the messages
-- in the queue leave alone.
use prf.Base.{
  ℕ, ◌<◌, ◌≡◌, true, false, not, ◌&&◌, ◌||◌, inl, inr, Option, none, some, List, [], ◌∷◌, ◌++◌,
  arith, ◌==◌, if◌then◌else◌, ◌>>=◌, Option-cases, u64_mod, length, contains, Distinct,
}
use prf.Rank.{Rank}
use prf.Messages.{
  UpdateTransactionMessage, PlannerMessage, start_transaction, update_transaction,
  finish_transaction,
}
use prf.Planner.{TransactionState, PlannerManager, update_state, handle_message}
use prf.Planner.Sequence.{find_state}
use prf.Planner.Handlers.{update_state-IsCounted}
use prf.Planner.Dispatch.{Legal, IsSound, handle_update_lem, AllCounted-find}

-- The messages of the executor about a state: they announce clusters that have a rank and do not run,
-- start announced clusters, end running ones, and do neither at most as long as the state is new.
pub record Fits (ranks : List Rank) (s : TransactionState) (m : UpdateTransactionMessage)
    : Type 0 where
  pub futures :
      (j : ℕ) → contains j m.future ≡ true → (j < length ranks) × (contains j s.now ≡ false)
  pub distinct : Distinct m.now
  pub nows : (j : ℕ) → contains j m.now ≡ true → contains j s.future ≡ true
  pub finishes : (j : ℕ) → contains j m.finish ≡ true → contains j s.now ≡ true
  pub first : m.now ≡ [] → m.finish ≡ [] → s.initialized ≡ false

abbrev pub Strict : PlannerManager → PlannerMessage → Type 0
Strict p (start_transaction id) = id < u64_mod
Strict p (update_transaction m) =
    (s : TransactionState)
    → find_state m.transaction_id p.transaction_states ≡ some s
    → Fits p.cluster_ranks s m
Strict p (finish_transaction id) = Unit

pub Strict-Legal : (p : PlannerManager) (m : PlannerMessage) → Strict p m → Legal p m
Strict-Legal p (start_transaction id) h = h
Strict-Legal p (update_transaction m) h = λ s e.
    let v = h s e in
    record { futures = v.futures; distinct = v.distinct; nows = λ j k. inl (v.nows j k) }
Strict-Legal p (finish_transaction id) h = tt

unfoldable pub handle_messages : PlannerManager → List PlannerMessage → Option PlannerManager
handle_messages p [] = some p
handle_messages p (m ∷ q) = do p' ← handle_message p m; handle_messages p' q

abbrev pub AllStrict : PlannerManager → List PlannerMessage → Type 0
AllStrict p [] = Unit
AllStrict p (m ∷ q) =
    Strict p m × ((p' : PlannerManager) → handle_message p m ≡ some p' → AllStrict p' q)

pub AllStrict-snoc :
    (p e e' : PlannerManager) (q : List PlannerMessage) (m : PlannerMessage)
    → AllStrict p q
    → handle_messages p q ≡ some e
    → Strict e m
    → handle_message e m ≡ some e'
    → AllStrict p (q ++ m ∷ []) × (handle_messages p (q ++ m ∷ []) ≡ some e')
unfolding handle_messages
AllStrict-snoc p e e' [] m a ran s h =
    let same : p ≡ e = cc in (rw same (s, λ p' k. tt), rw same (rw h))
AllStrict-snoc p e e' (x ∷ q) m a ran s h = elim (Option-cases (handle_message p x)) [
  | inl failed ↦ absurd (ground arith)
  | inr (p1, e1) ↦
      let ran' : handle_messages p1 q ≡ some e = rw e1 at ran in
      let (a', ran'') = AllStrict-snoc p1 e e' q m (a.1 p1 e1) ran' s h in
      ((a.0, λ p' k. let same : p1 ≡ p' = ground arith in rw same at a'), rw e1 ran'')
]

-- What an update makes of the state that it finds.
pub record Updated (m : UpdateTransactionMessage) (s s' : TransactionState) : Type 0 where
  pub initialized : s'.initialized ≡ true
  pub future :
      (j : ℕ)
      → contains j s'.future
        ≡ ((contains j s.future || contains j m.future) && not (contains j m.now))
  pub now :
      (j : ℕ)
      → contains j s'.now ≡ ((contains j s.now || contains j m.now) && not (contains j m.finish))

pub update-Updated :
    (p p' : PlannerManager) (m : UpdateTransactionMessage) (s : TransactionState)
    → IsSound p
    → Strict p (update_transaction m)
    → handle_message p (update_transaction m) ≡ some p'
    → find_state m.transaction_id p.transaction_states ≡ some s
    → (s' : TransactionState) × Updated m s s'
      × ((j : ℕ)
          → find_state j p'.transaction_states
            ≡ (if m.transaction_id == j then some s' else find_state j p.transaction_states))
unfolding handle_message
update-Updated p p' m s v fits h found =
    let (ss, e, _, effect) = handle_update_lem p m v (Strict-Legal p (update_transaction m) fits) in
    let states : p'.transaction_states ≡ ss = ground arith in
    let f = fits s found in
    let (counted, _) =
      AllCounted-find p.cluster_ranks m.transaction_id s p.transaction_states v.counted found in
    let (s1, e1, _, init, _, future, now) =
      update_state-IsCounted p.cluster_ranks v.small m counted f.futures f.distinct
        (λ j k. inl (f.nows j k)) in
    elim effect [
      | inl (missing, _) ↦ cc
      | inr (s0, s', found', e', finds) ↦
          let same : s0 ≡ s = ground arith in
          let same' : s' ≡ s1 =
            (let e'' : update_state p.cluster_ranks s m ≡ some s' = rw same at e' in
              ground arith) in
          (
            s1,
            record { initialized = init; future = future; now = now },
            λ j. rw states (rw (← same') (finds j)),
          )
    ]

pub update_missing :
    (p p' : PlannerManager) (m : UpdateTransactionMessage)
    → IsSound p
    → Strict p (update_transaction m)
    → handle_message p (update_transaction m) ≡ some p'
    → find_state m.transaction_id p.transaction_states ≡ none
    → p'.transaction_states ≡ p.transaction_states
unfolding handle_message
update_missing p p' m v fits h missing =
    let (ss, e, _, effect) = handle_update_lem p m v (Strict-Legal p (update_transaction m) fits) in
    elim effect [ inl (_, same) ↦ ground arith | inr (s0, s', found', e', finds) ↦ cc ]

-- ===== src/Planner/Unchanged.antt =====
-- What the messages in the planner's queue leave alone.
use prf.Base.{
  ℕ, ◌<◌, ◌≡◌, ◌≢◌, ◌∙◌, refl, true, false, inl, inr, some, List, [], ◌∷◌, arith, ◌==◌, Bool-cases,
  Option-cases, u64_mod, contains,
}
use prf.Messages.{
  UpdateTransactionMessage, PlannerMessage, start_transaction, update_transaction,
  finish_transaction,
}
use prf.Planner.{TransactionState, PlannerManager, handle_message}
use prf.Planner.Sequence.{find_state}
use prf.Planner.Dispatch.{IsSound, handle_message-IsSound}
use prf.Planner.Effect.{handle_finish-find, handle_start_keeps}
use prf.Planner.Pending.{
  Fits, Strict, Strict-Legal, handle_messages, AllStrict, update-Updated, update_missing,
}

start_found :
    (p p' : PlannerManager) (id j : ℕ) (s : TransactionState)
    → IsSound p
    → id < u64_mod
    → handle_message p (start_transaction id) ≡ some p'
    → find_state j p.transaction_states ≡ some s
    → find_state j p'.transaction_states ≡ some s
unfolding handle_message
start_found p p' id j s v lt h found =
    elim (handle_start_keeps v.first id j p.transaction_states v.consecutive lt) [
      | inl same ↦ ground arith
      | inr (missing, _) ↦ cc
    ]

finish_found :
    (p p' : PlannerManager) (id j : ℕ)
    → IsSound p
    → j ≢ id
    → handle_message p (finish_transaction id) ≡ some p'
    → find_state j p'.transaction_states ≡ find_state j p.transaction_states
unfolding handle_message
finish_found p p' id j v ne h =
    let (same, _) = handle_finish-find v.first id p.transaction_states v.consecutive in
    ground (arith, same j ne)

next_IsSound :
    (p p' : PlannerManager) (m : PlannerMessage)
    → IsSound p
    → Strict p m
    → handle_message p m ≡ some p'
    → IsSound p'
next_IsSound p p' m v s h =
    let (p1, e, v1, _) = handle_message-IsSound p m v (Strict-Legal p m s) in
    let same : p1 ≡ p' = ground arith in rw same at v1

-- No message of the queue starts the cluster in the transaction, or ends the transaction.
abbrev pub Spares : ℕ → ℕ → List PlannerMessage → Type 0
Spares t c [] = Unit
Spares t c (start_transaction id ∷ q) = Spares t c q
Spares t c (update_transaction m ∷ q) =
    (m.transaction_id ≡ t → contains c m.now ≡ false) × Spares t c q
Spares t c (finish_transaction id ∷ q) = (t ≢ id) × Spares t c q

-- An announced cluster stays announced.
pub future_kept :
    (p e : PlannerManager) (t c : ℕ) (q : List PlannerMessage) (s : TransactionState)
    → IsSound p
    → AllStrict p q
    → handle_messages p q ≡ some e
    → Spares t c q
    → find_state t p.transaction_states ≡ some s
    → contains c s.future ≡ true
    → (s' : TransactionState) × (find_state t e.transaction_states ≡ some s')
      × (contains c s'.future ≡ true)
unfolding handle_messages
future_kept p e t c [] s v a ran k found k' = let same : p ≡ e = cc in (s, rw same at found, k')
future_kept p e t c (start_transaction id ∷ q) s v a ran k found k' =
    elim (Option-cases (handle_message p (start_transaction id))) [
      | inl failed ↦ absurd (ground arith)
      | inr (p1, e1) ↦
          future_kept p1 e t c q s (next_IsSound p p1 (start_transaction id) v a.0 e1) (a.1 p1 e1)
            (rw e1 at ran) k (start_found p p1 id t s v a.0 e1 found) k'
    ]
future_kept p e t c (update_transaction m ∷ q) s v a ran k found k' =
    elim (Option-cases (handle_message p (update_transaction m))) [
      | inl failed ↦ absurd (ground arith)
      | inr (p1, e1) ↦
          let v1 = next_IsSound p p1 (update_transaction m) v a.0 e1 in
          let ran1 : handle_messages p1 q ≡ some e = rw e1 at ran in
          elim (Option-cases (find_state m.transaction_id p.transaction_states)) [
            | inl missing ↦
                let same = update_missing p p1 m v a.0 e1 missing in
                future_kept p1 e t c q s v1 (a.1 p1 e1) ran1 k.1 (rw same found) k'
            | inr (s0, found0) ↦
                let (s1, upd, finds) = update-Updated p p1 m s0 v a.0 e1 found0 in
                elim (Bool-cases (m.transaction_id == t)) [
                  | inl here ↦
                      let same : m.transaction_id ≡ t = ground arith in
                      let same' : s0 ≡ s = ground arith in
                      future_kept p1 e t c q s1 v1 (a.1 p1 e1) ran1 k.1 (ground (arith, finds t))
                        (ground (arith, upd.future c, k.0 same))
                  | inr other ↦
                      future_kept p1 e t c q s v1 (a.1 p1 e1) ran1 k.1 (ground (arith, finds t)) k'
                ]
          ]
    ]
future_kept p e t c (finish_transaction id ∷ q) s v a ran k found k' =
    elim (Option-cases (handle_message p (finish_transaction id))) [
      | inl failed ↦ absurd (ground arith)
      | inr (p1, e1) ↦
          future_kept p1 e t c q s (next_IsSound p p1 (finish_transaction id) v a.0 e1) (a.1 p1 e1)
            (rw e1 at ran) k.1 (finish_found p p1 id t v k.0 e1 ∙ found) k'
    ]

-- The queue does not end the transaction.
abbrev pub Survives : ℕ → List PlannerMessage → Type 0
Survives t [] = Unit
Survives t (start_transaction id ∷ q) = Survives t q
Survives t (update_transaction m ∷ q) = Survives t q
Survives t (finish_transaction id ∷ q) = (t ≢ id) × Survives t q

none_contained : (xs : List ℕ) → ((j : ℕ) → contains j xs ≡ false) → xs ≡ []
none_contained [] h = refl
none_contained (x ∷ xs) h = absurd (ground (arith, h x))

-- No message fits an initialized state that announces and runs nothing.
idle_refuses :
    (p : PlannerManager) (m : UpdateTransactionMessage) (s : TransactionState)
    → Fits p.cluster_ranks s m
    → s.initialized ≡ true
    → ((j : ℕ) → contains j s.future ≡ false)
    → ((j : ℕ) → contains j s.now ≡ false)
    → ⊥
idle_refuses p m s f init futures nows =
    let no_now = none_contained m.now (λ j. ground (arith, f.nows j, futures j)) in
    let no_finish = none_contained m.finish (λ j. ground (arith, f.finishes j, nows j)) in
    ground (arith, f.first no_now no_finish)

-- An initialized state that announces and runs nothing stays as it is.
pub idle_kept :
    (p e : PlannerManager) (t : ℕ) (q : List PlannerMessage) (s : TransactionState)
    → IsSound p
    → AllStrict p q
    → handle_messages p q ≡ some e
    → Survives t q
    → find_state t p.transaction_states ≡ some s
    → s.initialized ≡ true
    → ((j : ℕ) → contains j s.future ≡ false)
    → ((j : ℕ) → contains j s.now ≡ false)
    → find_state t e.transaction_states ≡ some s
unfolding handle_messages
idle_kept p e t [] s v a ran k found i f n = let same : p ≡ e = cc in rw same at found
idle_kept p e t (start_transaction id ∷ q) s v a ran k found i f n =
    elim (Option-cases (handle_message p (start_transaction id))) [
      | inl failed ↦ absurd (ground arith)
      | inr (p1, e1) ↦
          idle_kept p1 e t q s (next_IsSound p p1 (start_transaction id) v a.0 e1) (a.1 p1 e1)
            (rw e1 at ran) k (start_found p p1 id t s v a.0 e1 found) i f n
    ]
idle_kept p e t (update_transaction m ∷ q) s v a ran k found i f n =
    elim (Option-cases (handle_message p (update_transaction m))) [
      | inl failed ↦ absurd (ground arith)
      | inr (p1, e1) ↦
          let v1 = next_IsSound p p1 (update_transaction m) v a.0 e1 in
          let ran1 : handle_messages p1 q ≡ some e = rw e1 at ran in
          elim (Option-cases (find_state m.transaction_id p.transaction_states)) [
            | inl missing ↦
                let same = update_missing p p1 m v a.0 e1 missing in
                idle_kept p1 e t q s v1 (a.1 p1 e1) ran1 k (rw same found) i f n
            | inr (s0, found0) ↦
                let (s1, upd, finds) = update-Updated p p1 m s0 v a.0 e1 found0 in
                elim (Bool-cases (m.transaction_id == t)) [
                  | inl here ↦
                      let same : m.transaction_id ≡ t = ground arith in
                      let same' : s0 ≡ s = ground arith in
                      let fits : Fits p.cluster_ranks s m = rw same' at (a.0 s0 found0) in
                      absurd (idle_refuses p m s fits i f n)
                  | inr other ↦
                      idle_kept p1 e t q s v1 (a.1 p1 e1) ran1 k (ground (arith, finds t)) i f n
                ]
          ]
    ]
idle_kept p e t (finish_transaction id ∷ q) s v a ran k found i f n =
    elim (Option-cases (handle_message p (finish_transaction id))) [
      | inl failed ↦ absurd (ground arith)
      | inr (p1, e1) ↦
          idle_kept p1 e t q s (next_IsSound p p1 (finish_transaction id) v a.0 e1) (a.1 p1 e1)
            (rw e1 at ran) k.1 (finish_found p p1 id t v k.0 e1 ∙ found) i f n
    ]

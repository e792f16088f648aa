-- ===== src/Runtime/View/Proposals.antt =====
-- What the planner proposes makes sense to the executor.
use prf.Base.{ℕ, suc, ◌≤◌, ◌≡◌, refl, inl, inr, some, List, [], ◌∷◌, ◌++◌, arith}
use prf.Rank.{Rank}
use prf.Messages.{ExecutorMessage, start_update_cluster, finalize_transaction}
use prf.Planner.{TransactionState, PlannerManager}
use prf.Planner.Sequence.{find_state}
use prf.Runtime.{Runtime}
use prf.Runtime.Phases.{Phases}
use prf.Runtime.View.{IsSensible, View}
use prf.Planner.Sequence.{Consecutive}
use prf.Planner.Dispatch.{AllCounted}
use prf.Planner.Simple.{simple_planner, simple_planner_lem}
use prf.Planner.Exclusion.{
  AllRanked, Justified, starts, finishes, AllJustified, rank_based_planner-Justified,
}
use prf.Runtime.{Proposes, by_rank, by_simple}
use prf.Runtime.View.Planning.{announced-IsStartable, idle-IsEndable}

Consecutive-le :
    (n : ℕ) (older younger : List TransactionState) (s : TransactionState)
    → Consecutive n (older ++ s ∷ younger)
    → n ≤ s.transaction_id
Consecutive-le n [] younger s c = omega (arith, c.0)
Consecutive-le n (t ∷ older) younger s c = omega (arith, Consecutive-le (suc n) older younger s c.1)

find_state-Consecutive :
    (n : ℕ) (older younger : List TransactionState) (s : TransactionState)
    → Consecutive n (older ++ s ∷ younger)
    → find_state s.transaction_id (older ++ s ∷ younger) ≡ some s
find_state-Consecutive n [] younger s c = ground arith
find_state-Consecutive n (t ∷ older) younger s c = ground (
  arith,
  c.0,
  Consecutive-le (suc n) older younger s c.1,
  find_state-Consecutive (suc n) older younger s c.1,
)

pub AllCounted-AllRanked :
    (ranks : List Rank) (ss : List TransactionState) → AllCounted ranks ss → AllRanked ranks ss
AllCounted-AllRanked ranks [] a = tt
AllCounted-AllRanked ranks (s ∷ ss) a =
    (a.0.now_ranked, a.0.future_ranked, AllCounted-AllRanked ranks ss a.1)

AllJustified-middle :
    (ranks : List Rank) (ss : List TransactionState) (xs ys : List ExecutorMessage)
    (m : ExecutorMessage)
    → AllJustified ranks ss (xs ++ m ∷ ys)
    → Justified ranks ss m
AllJustified-middle ranks ss [] ys m a = a.0
AllJustified-middle ranks ss (x ∷ xs) ys m a = AllJustified-middle ranks ss xs ys m a.1

module _ {H : Type 0} (ranks : List Rank) (r : Runtime H) (final : PlannerManager) (w : Phases r)
    (v : View ranks r final) where
  Justified-IsSensible :
      (m : ExecutorMessage)
      → Justified r.planner.cluster_ranks r.planner.transaction_states m
      → IsSensible r.system final m
  Justified-IsSensible m (starts older younger s c e at_m ready future clear) =
      let sound = v.planned.sound_now in
      let found : find_state s.transaction_id r.planner.transaction_states ≡ some s =
        rw e (find_state-Consecutive sound.first older younger s (rw e at sound.consecutive)) in
      rw at_m (announced-IsStartable ranks r final w v s.transaction_id c s found ready future)
  Justified-IsSensible m (finishes s younger e at_m ready no_now no_future) =
      let found : find_state s.transaction_id r.planner.transaction_states ≡ some s =
        rw e (ground arith) in
      rw at_m (idle-IsEndable ranks r final w v s.transaction_id s found ready no_future no_now)

  simple-IsSensible :
      (m : ExecutorMessage) (ss : List TransactionState)
      → r.planner.transaction_states ≡ ss
      → simple_planner r.planner.cluster_ranks ss ≡ some (m ∷ [])
      → IsSensible r.system final m
  unfolding simple_planner
  simple-IsSensible m [] e h = absurd (ground arith)
  simple-IsSensible m (s ∷ ss) e h =
      let found : find_state s.transaction_id r.planner.transaction_states ≡ some s =
        rw e (ground arith) in
      let counted : AllCounted r.planner.cluster_ranks (s ∷ ss) =
        rw e at v.planned.sound_now.counted in
      elim (simple_planner_lem r.planner.cluster_ranks s ss counted.0) [
        | inl (ready, no_now, no_future, out) ↦
            let same : m ≡ finalize_transaction s.transaction_id = ground arith in
            rw same
              (idle-IsEndable ranks r final w v s.transaction_id s found ready no_future no_now)
        | inr (inl (ready, no_now, (c, low, out))) ↦
            let same : m ≡ start_update_cluster s.transaction_id c = ground arith in
            rw same (
              announced-IsStartable ranks r final w v s.transaction_id c s found ready
                low.announced)
        | inr (inr (why, out)) ↦ absurd (ground arith)
      ]

  pub Proposes-IsSensible :
      (m : ExecutorMessage) → Proposes r.planner m → IsSensible r.system final m
  Proposes-IsSensible m (by_rank stop before after e) =
      let p = r.planner in
      let (out, e', justified) =
        rank_based_planner-Justified p.cluster_ranks stop p.transaction_states
          (AllCounted-AllRanked p.cluster_ranks p.transaction_states v.planned.sound_now.counted) in
      let same : out ≡ before ++ m ∷ after = ground arith in
      let justified' : AllJustified p.cluster_ranks p.transaction_states (before ++ m ∷ after) =
        rw same at justified in
      Justified-IsSensible m
        (AllJustified-middle p.cluster_ranks p.transaction_states before after m justified')
  Proposes-IsSensible m (by_simple e) = simple-IsSensible m r.planner.transaction_states refl e

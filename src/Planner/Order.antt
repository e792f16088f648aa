-- ===== src/Planner/Order.antt =====
-- The rank-based planner within one transaction: it makes progress, but its loop follows the IDs of
-- the clusters and not their ranks.
use prf.Base.{
  ℕ, ◌<◌, ◌≡◌, inl, inr, Bool, true, false, some, List, [], ◌∷◌, ◌++◌, arith, u64_mod, Option-cases,
  length,
}
use prf.Rank.{Rank}
use prf.Messages.{ExecutorMessage, start_update_cluster}
use prf.Planner.{TransactionState}
use prf.Planner.Counts.{rank_at, rank_of-rank_at}
use prf.Planner.RankBased.{
  Plan, empty_plan, mark_nows, take_future, take_futures, finish_plan, plan_states,
  rank_based_planner,
}
use prf.Planner.Exclusion.{AllRanked, rank_based_planner-Justified}

-- The oldest transaction can go on: it is initialized, runs no cluster, and its clusters have
-- ranks that are u64 values.
pub record IsIdle (ranks : List Rank) (s : TransactionState) (a : ℕ) (rest : List ℕ) : Type 0 where
  pub ready : s.initialized ≡ true
  pub idle : s.now ≡ []
  pub announced : s.future ≡ (a ∷ rest)
  pub first_u64 : rank_at ranks a < u64_mod
  pub first_ranked : a < length ranks

module _ (ranks : List Rank) where
  take_first :
      (tid a : ℕ)
      → a < length ranks
      → rank_at ranks a < u64_mod
      → take_future ranks tid empty_plan a
        ≡ some (
          record { target_rank = rank_at ranks a; used_clusters = a ∷ [] },
          start_update_cluster tid a ∷ [],
        )
  unfolding take_future
  take_first tid a h u = rw (rank_of-rank_at ranks a h) (ground arith)

  take_second :
      (tid a b : ℕ)
      → b < length ranks
      → rank_at ranks b < rank_at ranks a
      → take_future ranks tid (record { target_rank = rank_at ranks a; used_clusters = a ∷ [] }) b
        ≡ some (
          record { target_rank = rank_at ranks b; used_clusters = b ∷ [] },
          start_update_cluster tid b ∷ [],
        )
  unfolding take_future
  take_second tid a b h low = rw (rank_of-rank_at ranks b h) (ground arith)

  -- A run with an idle oldest transaction begins with what its announced clusters give.
  head_round :
      (stop : ℕ → Bool) (s : TransactionState) (ss : List TransactionState)
      (out : List ExecutorMessage)
      → stop 0 ≡ false
      → s.initialized ≡ true
      → s.now ≡ []
      → rank_based_planner ranks stop (s ∷ ss) ≡ some out
      → (p : Plan) × (first more : List ExecutorMessage) × (take_futures ranks s.transaction_id
            empty_plan s.future
          ≡ some (p, first))
        × (out ≡ first ++ more)
  unfolding rank_based_planner plan_states mark_nows
  head_round stop s ss out going ready idle e =
      elim (Option-cases (take_futures ranks s.transaction_id empty_plan s.future)) [
        | inl fault ↦ ground arith
        | inr ((p, first), got) ↦ elim (Option-cases (plan_states ranks stop 1 false p ss)) [
          | inl fault ↦ ground arith
          | inr (rest, e') ↦ (p, first, finish_plan true s ++ rest, got, ground arith)
        ]
      ]

  take_futures-cons :
      (tid a : ℕ) (rest : List ℕ) (p p' q : Plan) (o out : List ExecutorMessage)
      → take_future ranks tid p a ≡ some (p', o)
      → take_futures ranks tid p (a ∷ rest) ≡ some (q, out)
      → (more : List ExecutorMessage) × (take_futures ranks tid p' rest ≡ some (q, more))
        × (out ≡ o ++ more)
  unfolding take_futures
  take_futures-cons tid a rest p p' q o out h e =
      elim (Option-cases (take_futures ranks tid p' rest)) [
        | inl fault ↦ ground arith
        | inr ((p'', more), got) ↦ (more, ground arith, ground arith)
      ]

-- When every cluster has a rank and the stop flag is not set as the first round reads it,
-- rank_based_planner with an idle oldest transaction first of all starts the first cluster that
-- this transaction announces.
pub rank_based_planner_progress :
    (ranks : List Rank) (stop : ℕ → Bool) (s : TransactionState) (ss : List TransactionState)
    (a : ℕ) (rest : List ℕ)
    → AllRanked ranks (s ∷ ss)
    → stop 0 ≡ false
    → IsIdle ranks s a rest
    → (more : List ExecutorMessage) × (rank_based_planner ranks stop (s ∷ ss)
        ≡ some (start_update_cluster s.transaction_id a ∷ more))
rank_based_planner_progress ranks stop s ss a rest r going v =
    let (out, e, _) = rank_based_planner-Justified ranks stop (s ∷ ss) r in
    let (p, first, more, got, split) = head_round ranks stop s ss out going v.ready v.idle e in
    let (more', _, split') =
      take_futures-cons ranks s.transaction_id a rest empty_plan _ p _ first
        (take_first ranks s.transaction_id a v.first_ranked v.first_u64) (rw v.announced at got) in
    (more' ++ more, rw (e, split, split'))

-- Whenever every cluster has a rank, the stop flag is not set as the first round reads it, and the
-- oldest transaction is idle and announces a cluster `b` directly after a cluster `a` of a strictly
-- higher rank, rank_based_planner starts both in one run: `a` does not wait for `b`, whatever else
-- is announced and whatever the younger transactions hold.
pub rank_based_planner_out_of_order :
    (ranks : List Rank) (stop : ℕ → Bool) (s : TransactionState) (ss : List TransactionState)
    (a b : ℕ) (rest : List ℕ)
    → AllRanked ranks (s ∷ ss)
    → stop 0 ≡ false
    → IsIdle ranks s a (b ∷ rest)
    → b < length ranks
    → rank_at ranks b < rank_at ranks a
    → (more : List ExecutorMessage) × (rank_based_planner ranks stop (s ∷ ss)
        ≡ some (
            start_update_cluster s.transaction_id a
            ∷ start_update_cluster s.transaction_id b
            ∷ more))
rank_based_planner_out_of_order ranks stop s ss a b rest r going v hb low =
    let (out, e, _) = rank_based_planner-Justified ranks stop (s ∷ ss) r in
    let (p, first, more, got, split) = head_round ranks stop s ss out going v.ready v.idle e in
    let (more1, got1, split1) =
      take_futures-cons ranks s.transaction_id a (b ∷ rest) empty_plan _ p _ first
        (take_first ranks s.transaction_id a v.first_ranked v.first_u64) (rw v.announced at got) in
    let (more2, got2, split2) =
      take_futures-cons ranks s.transaction_id b rest _ _ p _ more1
        (take_second ranks s.transaction_id a b hb low) got1 in
    (more2 ++ more, rw (e, split, split1, split2))

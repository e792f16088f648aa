-- ===== src/Planner/RankBased.antt =====
-- rank_based_planner of src/prf/planner.cpp: clusters for several transactions at once. The result
-- is what the planner pushes to the executor's queue, in order. `stop i` is what the flag holds
-- when the round of the i-th state reads it. `none` is a cluster without a rank.
use prf.Base.{
  ℕ, ◌+◌, ◌-◌, Bool, true, false, not, ◌&&◌, Option, some, List, [], ◌∷◌, ◌++◌, ltb, if◌then◌else◌,
  ◌>>=◌, u64_mod, contains, insert, is_empty,
}
use prf.Rank.{Rank}
use prf.Messages.{ExecutorMessage, start_update_cluster, finalize_transaction}
use prf.Planner.{TransactionState, rank_of}

-- The planner's locals: the lowest rank in use, and the clusters of that rank in use.
pub record Plan : Type 0 where
  pub target_rank : ℕ
  pub used_clusters : List ℕ

-- std::numeric_limits<ID>::max(), and no clusters.
abbrev pub empty_plan : Plan
empty_plan = record { target_rank = u64_mod - 1; used_clusters = [] }

abbrev pub lower : Plan → ℕ → Plan
lower p rank =
    if ltb rank p.target_rank then record { target_rank = rank; used_clusters = [] } else p

abbrev pub mark : Plan → ℕ → Plan
mark p id = record p { used_clusters = insert id p.used_clusters }

-- The loop over state.now.
unfoldable pub mark_nows : List Rank → Plan → List ℕ → Option Plan
mark_nows ranks p [] = some p
mark_nows ranks p (id ∷ ids) = do
  rank ← rank_of ranks id
  mark_nows ranks (mark (lower p rank) id) ids

-- One round of the loop over state.future.
unfoldable pub take_future : List Rank → ℕ → Plan → ℕ → Option (Plan × List ExecutorMessage)
take_future ranks tid p id = do
  rank ← rank_of ranks id
  some (
      if ltb p.target_rank rank
      then (p, [])
      else if contains id (lower p rank).used_clusters
      then (lower p rank, [])
      else (mark (lower p rank) id, start_update_cluster tid id ∷ []))

unfoldable pub take_futures : List Rank → ℕ → Plan → List ℕ → Option (Plan × List ExecutorMessage)
unfolding take_future
take_futures ranks tid p [] = some (p, [])
take_futures ranks tid p (id ∷ ids) = do
  (p', out) ← take_future ranks tid p id
  (p'', out') ← take_futures ranks tid p' ids
  some (p'', out ++ out')

-- The last test of a round.
unfoldable pub finish_plan : Bool → TransactionState → List ExecutorMessage
finish_plan can_finish s =
    if can_finish && is_empty s.future && is_empty s.now
    then finalize_transaction s.transaction_id ∷ []
    else []

-- The loop over the states, at the i-th state.
unfoldable pub plan_states :
    List Rank → (ℕ → Bool) → ℕ → Bool → Plan → List TransactionState → Option (List ExecutorMessage)
unfolding mark_nows take_futures finish_plan
plan_states ranks stop i is_head p [] = some []
plan_states ranks stop i is_head p (s ∷ ss) =
    let round = (do
      p1 ← mark_nows ranks p s.now
      (p2, out) ← take_futures ranks s.transaction_id p1 s.future
      rest ← plan_states ranks stop (i + 1) false p2 ss
      some (out ++ (finish_plan is_head s ++ rest))) in
    if stop i then some [] else if not s.initialized then some [] else round

unfoldable pub rank_based_planner :
    List Rank → (ℕ → Bool) → List TransactionState → Option (List ExecutorMessage)
unfolding plan_states
rank_based_planner ranks stop states = plan_states ranks stop 0 true empty_plan states

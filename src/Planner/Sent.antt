-- ===== src/Planner/Sent.antt =====
-- Both planners send StartUpdateClusterMessage and FinalizeTransactionMessage only.
use prf.Base.{
  ℕ, ◌+◌, ◌≡◌, refl, Bool, true, false, inl, inr, ◌&&◌, some, List, [], ◌∷◌, ◌++◌, arith,
  Option-cases,
}
use prf.Rank.{Rank}
use prf.Messages.{
  ExecutorMessage, execute, start_update_cluster, finalize_transaction, register_transaction,
}
use prf.Planner.{TransactionState}
use prf.Planner.Simple.{simple_planner, first_rank, start_first}
use prf.Planner.RankBased.{
  Plan, mark_nows, take_future, take_futures, finish_plan, plan_states, rank_based_planner,
}

abbrev pub is_plan : ExecutorMessage → Bool
is_plan (execute id) = false
is_plan (start_update_cluster id cluster) = true
is_plan (finalize_transaction id) = true
is_plan (register_transaction id) = false

abbrev pub all_plans : List ExecutorMessage → Bool
all_plans [] = true
all_plans (m ∷ ms) = is_plan m && all_plans ms

all_plans-append :
    (xs ys : List ExecutorMessage) → all_plans (xs ++ ys) ≡ (all_plans xs && all_plans ys)
all_plans-append [] ys = refl
all_plans-append (x ∷ xs) ys = ground (arith, all_plans-append xs ys)

finish_plan_sent : (b : Bool) (s : TransactionState) → all_plans (finish_plan b s) ≡ true
unfolding finish_plan
finish_plan_sent b s = ground arith

module _ (ranks : List Rank) where
  take_future_sent :
      (tid : ℕ) (p p' : Plan) (id : ℕ) (out : List ExecutorMessage)
      → take_future ranks tid p id ≡ some (p', out)
      → all_plans out ≡ true
  unfolding take_future
  take_future_sent tid p p' id out h = ground arith

  take_futures_sent :
      (tid : ℕ) (p p' : Plan) (ids : List ℕ) (out : List ExecutorMessage)
      → take_futures ranks tid p ids ≡ some (p', out)
      → all_plans out ≡ true
  unfolding take_futures
  take_futures_sent tid p p' [] out h = ground arith
  take_futures_sent tid p p' (id ∷ ids) out h = elim (Option-cases (take_future ranks tid p id)) [
    | inl failed ↦ absurd (ground arith)
    | inr ((p1, out1), e1) ↦ elim (Option-cases (take_futures ranks tid p1 ids)) [
      | inl failed ↦ absurd (ground arith)
      | inr ((p2, out2), e2) ↦ ground (
        arith,
        take_future_sent tid p p1 id out1 e1,
        take_futures_sent tid p1 p2 ids out2 e2,
        all_plans-append out1 out2,
      )
    ]
  ]

  plan_states_sent :
      (stop : ℕ → Bool) (i : ℕ) (is_head : Bool) (p : Plan) (ss : List TransactionState)
      (out : List ExecutorMessage)
      → plan_states ranks stop i is_head p ss ≡ some out
      → all_plans out ≡ true
  unfolding plan_states
  plan_states_sent stop i is_head p [] out h = ground arith
  plan_states_sent stop i is_head p (s ∷ ss) out h = elim (Option-cases (mark_nows ranks p s.now)) [
    | inl failed ↦ ground arith
    | inr (p1, e1) ↦ elim (Option-cases (take_futures ranks s.transaction_id p1 s.future)) [
      | inl failed ↦ ground arith
      | inr ((p2, out2), e2) ↦ elim (Option-cases (plan_states ranks stop (i + 1) false p2 ss)) [
        | inl failed ↦ ground arith
        | inr (rest, e3) ↦ ground (
          arith,
          take_futures_sent s.transaction_id p1 p2 s.future out2 e2,
          plan_states_sent stop (i + 1) false p2 ss rest e3,
          all_plans-append out2 (finish_plan is_head s ++ rest),
          all_plans-append (finish_plan is_head s) rest,
          finish_plan_sent is_head s,
        )
      ]
    ]
  ]

  pub rank_based_planner_sent :
      (stop : ℕ → Bool) (ss : List TransactionState) (out : List ExecutorMessage)
      → rank_based_planner ranks stop ss ≡ some out
      → all_plans out ≡ true
  unfolding rank_based_planner
  rank_based_planner_sent stop ss out h = plan_states_sent stop 0 true _ ss out h

  start_first_sent :
      (id target : ℕ) (cs : List ℕ) (out : List ExecutorMessage)
      → start_first ranks id target cs ≡ some out
      → all_plans out ≡ true
  unfolding start_first
  start_first_sent id target [] out h = ground arith
  start_first_sent id target (c ∷ cs) out h = elim (Option-cases (start_first ranks id target cs)) [
    | inl failed ↦ ground arith
    | inr (rest, e) ↦ ground (arith, start_first_sent id target cs rest e)
  ]

  pub simple_planner_sent :
      (ss : List TransactionState) (out : List ExecutorMessage)
      → simple_planner ranks ss ≡ some out
      → all_plans out ≡ true
  unfolding simple_planner
  simple_planner_sent [] out h = ground arith
  simple_planner_sent (s ∷ ss) out h = elim (Option-cases (first_rank s.target_ranks)) [
    | inl failed ↦ ground arith
    | inr (target, e) ↦ ground (arith, start_first_sent s.transaction_id target s.future out)
  ]

pub is_plan-middle :
    (before after : List ExecutorMessage) (m : ExecutorMessage)
    → all_plans (before ++ m ∷ after) ≡ true
    → is_plan m ≡ true
is_plan-middle before after m h = ground (arith, all_plans-append before (m ∷ after))

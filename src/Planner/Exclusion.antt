-- ===== src/Planner/Exclusion.antt =====
-- The rank-based planner across transactions: what an older transaction uses is left alone.
use mathlib.Core.List.{append_assoc}
use prf.Base.{
  ℕ, ◌+◌, ◌≤◌, ◌<◌, ◌≡◌, ◌≢◌, ◌∙◌, ◌⊎◌, refl, sym, inl, inr, Bool, true, false, ◌&&◌, ◌||◌, some,
  List, [], ◌∷◌, ◌++◌, arith, ◌==◌, ltb, Bool-cases, length, contains, contains-insert, is_empty,
}
use prf.Rank.{Rank}
use prf.Messages.{ExecutorMessage, start_update_cluster, finalize_transaction}
use prf.Planner.{TransactionState}
use prf.Planner.Counts.{rank_at, rank_of-rank_at}
use prf.Planner.RankBased.{
  Plan, empty_plan, lower, mark, mark_nows, take_future, take_futures, finish_plan, plan_states,
  rank_based_planner,
}

-- A cluster that a transaction runs or will run.
abbrev pub uses : TransactionState → ℕ → Bool
uses s c = contains c s.now || contains c s.future

abbrev pub used_by : List TransactionState → ℕ → Bool
used_by [] c = false
used_by (s ∷ ss) c = uses s c || used_by ss c

-- No cluster that `seen` holds is below the plan's rank, and those of that rank are in the set.
abbrev Covers : List Rank → Plan → (ℕ → Bool) → Type 0
Covers ranks p seen =
    (c : ℕ)
    → seen c ≡ true
    → (p.target_rank ≤ rank_at ranks c)
      × (rank_at ranks c ≡ p.target_rank → contains c p.used_clusters ≡ true)

-- A cluster that may be started beside those that `seen` holds.
abbrev pub Clear : List Rank → (ℕ → Bool) → ℕ → Type 0
Clear ranks seen c = (j : ℕ) → seen j ≡ true → (c ≢ j) × (rank_at ranks c ≤ rank_at ranks j)

abbrev pub Ranked : List Rank → List ℕ → Type 0
Ranked ranks ids = (j : ℕ) → contains j ids ≡ true → j < length ranks

-- Each message of a transaction starts one of the clusters `ids`, clear of `seen`.
abbrev AllClear : List Rank → ℕ → (ℕ → Bool) → List ℕ → List ExecutorMessage → Type 0
AllClear ranks tid seen ids [] = Unit
AllClear ranks tid seen ids (m ∷ ms) =
    ((c : ℕ) × (m ≡ start_update_cluster tid c) × (contains c ids ≡ true) × Clear ranks seen c)
    × AllClear ranks tid seen ids ms

module _ (ranks : List Rank) where
  mark_nows-Covers :
      (p : Plan) (ids : List ℕ) (seen : ℕ → Bool)
      → Covers ranks p seen
      → Ranked ranks ids
      → (p' : Plan) × (mark_nows ranks p ids ≡ some p')
        × Covers ranks p' (λ c. contains c ids || seen c)
  unfolding mark_nows
  mark_nows-Covers p [] seen v r = (p, refl, v)
  mark_nows-Covers p (id ∷ ids) seen v r =
      let rank = rank_at ranks id in
      let here = rank_of-rank_at ranks id (r id (ground arith)) in
      let step : Covers ranks (mark (lower p rank) id) (λ c. c == id || seen c) =
        λ c k. ground (arith, v c, contains-insert c id (lower p rank).used_clusters) in
      let (p', e, v') =
        mark_nows-Covers (mark (lower p rank) id) ids (λ c. c == id || seen c) step
          (λ j k. r j (ground arith)) in
      (p', rw here e, λ c k. v' c (ground arith))

  take_future-Clear :
      (tid id : ℕ) (p : Plan) (seen : ℕ → Bool)
      → Covers ranks p seen
      → id < length ranks
      → (p' : Plan) × (out : List ExecutorMessage) × (take_future ranks tid p id ≡ some (p', out))
        × Covers ranks p' (λ c. c == id || seen c)
        × ((out ≡ []) ⊎ (out ≡ start_update_cluster tid id ∷ []) × Clear ranks seen id)
  unfolding take_future
  take_future-Clear tid id p seen v r =
      rw (rank_of-rank_at ranks id r) (elim (Bool-cases (ltb p.target_rank rank)) [
        | inl above ↦ (p, [], rw above, λ c k. ground (arith, v c), inl refl)
        | inr low ↦ elim (Bool-cases (contains id (lower p rank).used_clusters)) [
          | inl used ↦ (lower p rank, [], rw (low, used), λ c k. ground (arith, v c), inl refl)
          | inr free ↦ (
            mark (lower p rank) id,
            start_update_cluster tid id ∷ [],
            rw (low, free),
            λ c k. ground (arith, v c, contains-insert c id (lower p rank).used_clusters),
            inr (refl, λ j k. (λ e. ground (arith, v j k, v id), ground (arith, v j k))),
          )
        ]
      ])
    where
      rank : ℕ
      rank = rank_at ranks id

  AllClear-weaken :
      (tid : ℕ) (seen seen' : ℕ → Bool) (ids ids' : List ℕ) (ms : List ExecutorMessage)
      → ((c : ℕ) → seen' c ≡ true → seen c ≡ true)
      → ((c : ℕ) → contains c ids ≡ true → contains c ids' ≡ true)
      → AllClear ranks tid seen ids ms
      → AllClear ranks tid seen' ids' ms
  AllClear-weaken tid seen seen' ids ids' [] h k a = tt
  AllClear-weaken tid seen seen' ids ids' (m ∷ ms) h k ((c, e, i, l), a) =
      ((c, e, k c i, λ j u. l j (h j u)), AllClear-weaken tid seen seen' ids ids' ms h k a)

  take_futures-Clear :
      (tid : ℕ) (ids : List ℕ) (p : Plan) (seen : ℕ → Bool)
      → Covers ranks p seen
      → Ranked ranks ids
      → (p' : Plan) × (out : List ExecutorMessage) × (take_futures ranks tid p ids ≡ some (p', out))
        × Covers ranks p' (λ c. contains c ids || seen c)
        × AllClear ranks tid seen ids out
  unfolding take_futures
  take_futures-Clear tid [] p seen v r = (p, [], refl, v, tt)
  take_futures-Clear tid (id ∷ ids) p seen v r =
      let (p1, out1, e1, v1, first) = take_future-Clear tid id p seen v (r id (ground arith)) in
      let (p2, out2, e2, v2, rest) =
        take_futures-Clear tid ids p1 (λ c. c == id || seen c) v1 (λ j k. r j (ground arith)) in
      let rest' =
        AllClear-weaken tid (λ c. c == id || seen c) seen ids (id ∷ ids) out2 (λ c k. ground arith)
          (λ c k. ground arith) rest in
      (
        p2,
        out1 ++ out2,
        rw (e1, e2),
        λ c k. v2 c (ground arith),
        elim first [
          | inl none_out ↦ rw none_out rest'
          | inr (one, clear) ↦ rw one ((id, refl, ground arith, clear), rest')
        ],
      )

-- Why a message may be sent about the deque `states`: it starts an announced cluster of an
-- initialized transaction that runs in no older one, is announced in no older one, does not run
-- in its own, and has a rank at most that of each of these; or it ends the oldest transaction,
-- which is initialized and has no cluster left.
pub data Justified (ranks : List Rank) (states : List TransactionState) (m : ExecutorMessage)
    : Type 0 where
  starts :
      (older younger : List TransactionState) (s : TransactionState) (c : ℕ)
      → states ≡ older ++ s ∷ younger
      → m ≡ start_update_cluster s.transaction_id c
      → s.initialized ≡ true
      → contains c s.future ≡ true
      → Clear ranks (λ j. contains j s.now || used_by older j) c
      → Justified ranks states m
  finishes :
      (s : TransactionState) (younger : List TransactionState)
      → states ≡ s ∷ younger
      → m ≡ finalize_transaction s.transaction_id
      → s.initialized ≡ true
      → s.now ≡ []
      → s.future ≡ []
      → Justified ranks states m

abbrev pub AllJustified : List Rank → List TransactionState → List ExecutorMessage → Type 0
AllJustified ranks states [] = Unit
AllJustified ranks states (m ∷ ms) = Justified ranks states m × AllJustified ranks states ms

abbrev pub AllRanked : List Rank → List TransactionState → Type 0
AllRanked ranks [] = Unit
AllRanked ranks (s ∷ ss) = Ranked ranks s.now × Ranked ranks s.future × AllRanked ranks ss

used_by-append :
    (c : ℕ) (older : List TransactionState) (s : TransactionState)
    → used_by (older ++ s ∷ []) c ≡ (uses s c || used_by older c)
used_by-append c [] s = refl
used_by-append c (t ∷ older) s = ground (arith, used_by-append c older s)

module _ (ranks : List Rank) (states : List TransactionState) where
  AllJustified-append :
      (xs ys : List ExecutorMessage)
      → AllJustified ranks states xs
      → AllJustified ranks states ys
      → AllJustified ranks states (xs ++ ys)
  AllJustified-append [] ys a b = b
  AllJustified-append (x ∷ xs) ys a b = (a.0, AllJustified-append xs ys a.1 b)

  AllClear-Justified :
      (older younger : List TransactionState) (s : TransactionState) (ms : List ExecutorMessage)
      → states ≡ older ++ s ∷ younger
      → s.initialized ≡ true
      → AllClear ranks s.transaction_id (λ j. contains j s.now || used_by older j) s.future ms
      → AllJustified ranks states ms
  AllClear-Justified older younger s [] e r a = tt
  AllClear-Justified older younger s (m ∷ ms) e r ((c, at_m, i, l), a) =
      (starts older younger s c e at_m r i l, AllClear-Justified older younger s ms e r a)

  finish_plan-Justified :
      (is_head : Bool) (older younger : List TransactionState) (s : TransactionState)
      → states ≡ older ++ s ∷ younger
      → s.initialized ≡ true
      → (is_head ≡ true → older ≡ [])
      → AllJustified ranks states (finish_plan is_head s)
  unfolding finish_plan
  finish_plan-Justified is_head older younger s e r h =
      elim (Bool-cases (is_head && is_empty s.future && is_empty s.now)) [
        | inl all ↦ rw all (
          finishes s younger (rw (h (ground arith)) at e) refl r (ground arith) (ground arith),
          tt,
        )
        | inr no_end ↦ rw no_end tt
      ]

  plan_states-Justified :
      (stop : ℕ → Bool) (i : ℕ) (is_head : Bool) (p : Plan) (older ss : List TransactionState)
      → states ≡ older ++ ss
      → (is_head ≡ true → older ≡ [])
      → Covers ranks p (used_by older)
      → AllRanked ranks ss
      → (out : List ExecutorMessage) × (plan_states ranks stop i is_head p ss ≡ some out)
        × AllJustified ranks states out
  unfolding plan_states
  plan_states-Justified stop i is_head p older [] e h v r = ([], refl, tt)
  plan_states-Justified stop i is_head p older (s ∷ ss) e h v r = elim (Bool-cases (stop i)) [
    | inl stopped ↦ ([], rw stopped, tt)
    | inr going ↦ elim (Bool-cases s.initialized) [
      | inr waiting ↦ ([], rw (going, waiting), tt)
      | inl ready ↦
          let (p1, e1, v1) = mark_nows-Covers ranks p s.now (used_by older) v r.0 in
          let (p2, out, e2, v2, clear) =
            take_futures-Clear ranks s.transaction_id s.future p1
              (λ c. contains c s.now || used_by older c) v1 r.1 in
          let (rest, e3, later) =
            plan_states-Justified stop (i + 1) false p2 (older ++ s ∷ []) ss
              (e ∙ sym (append_assoc older (s ∷ []) ss)) (λ k. cc)
              (λ c k. v2 c (ground (arith, used_by-append c older s))) r.2 in
          (
            out ++ (finish_plan is_head s ++ rest),
            rw (going, ready, e1, e2, e3),
            AllJustified-append out _ (AllClear-Justified older ss s out e ready clear) (
                AllJustified-append (finish_plan is_head s) rest
                  (finish_plan-Justified is_head older ss s e ready h) later),
          )
    ]
  ]

-- Whenever every cluster has a rank, rank_based_planner runs without fault, whatever the stop flag
-- holds, and each message that it sends is justified: it never starts a cluster that an older
-- transaction runs or has announced, or one of a higher rank than such a cluster, and it ends only
-- the oldest transaction.
pub rank_based_planner-Justified :
    (ranks : List Rank) (stop : ℕ → Bool) (states : List TransactionState)
    → AllRanked ranks states
    → (out : List ExecutorMessage) × (rank_based_planner ranks stop states ≡ some out)
      × AllJustified ranks states out
unfolding rank_based_planner
rank_based_planner-Justified ranks stop states r =
    plan_states-Justified ranks states stop 0 true empty_plan [] states refl (λ h. refl) (λ c h. cc)
      r

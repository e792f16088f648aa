-- ===== src/Planner.antt =====
-- src/prf/planner.hpp and src/prf/planner.cpp: the planner's view of the running transactions and
-- the handlers of its messages. The deque is a list, oldest first. `none` is undefined behaviour:
-- a cluster without a rank (a read beyond `cluster_ranks`), or a rank that `target_ranks` lacks.
-- The planners are in the children Simple and RankBased; threads and logging are left out.
pub mod Counts
pub mod Handlers
pub mod Sequence
pub mod Dispatch
pub mod Simple
pub mod RankBased
pub mod Exclusion
pub mod Order
pub mod Sent
pub mod Effect
pub mod Pending
pub mod Unchanged
use prf.Base.{
  ℕ, zero, suc, ◌+◌, ◌-◌, ◌%◌, Bool, true, false, ◌||◌, Option, none, some, List, [], ◌∷◌, ◌++◌,
  ◌==◌, ltb, if◌then◌else◌, ◌>>=◌, wrap, u64_mod, get_elem?, set, contains, insert, erase, find,
  assign, remove, get_or_default,
}
use prf.Rank.{Rank}
use prf.Messages.{
  UpdateTransactionMessage, PlannerMessage, start_transaction, update_transaction,
  finish_transaction,
}

pub record TransactionState : Type 0 where
  pub transaction_id : ℕ
  pub initialized : Bool
  pub future : List ℕ
  pub now : List ℕ
  pub target_ranks : List (ℕ × ℕ)

-- TransactionState::TransactionState
unfoldable pub new_state : ℕ → TransactionState
new_state id = record {
  transaction_id = id;
  initialized = false;
  future = [];
  now = [];
  target_ranks = [];
}

-- cluster_ranks[id].value
abbrev pub rank_of : List Rank → ℕ → Option ℕ
rank_of ranks id = do r ← get_elem? ranks id; some r.value

-- One round of the loop over message.future.
unfoldable pub add_future : List Rank → TransactionState → ℕ → Option TransactionState
add_future ranks s id = if contains id s.future then some s else (do
  rank ← rank_of ranks id
  some (record s {
    future = insert id s.future;
    target_ranks =
        assign rank (wrap (get_or_default 0 (find rank s.target_ranks) + 1)) s.target_ranks;
  }))

-- One round of the loop over message.now: an ID that was not announced is only logged.
unfoldable pub add_now : TransactionState → ℕ → TransactionState
add_now s id =
    if contains id s.future
    then record s { future = erase id s.future; now = insert id s.now }
    else record s { now = insert id s.now }

-- The update of a found counter in target_ranks.
unfoldable pub decrement : ℕ → ℕ → List (ℕ × ℕ) → List (ℕ × ℕ)
decrement rank count m =
    if count == 1 then remove rank m else assign rank (wrap (count + u64_mod - 1)) m

-- One round of the loop over message.finish.
unfoldable pub add_finish : List Rank → TransactionState → ℕ → Option TransactionState
unfolding decrement
add_finish ranks s id =
    if contains id s.now
    then (do
      rank ← rank_of ranks id
      count ← find rank s.target_ranks
      some (record s { now = erase id s.now; target_ranks = decrement rank count s.target_ranks }))
    else some s

unfoldable pub add_futures : List Rank → TransactionState → List ℕ → Option TransactionState
unfolding add_future
add_futures ranks s [] = some s
add_futures ranks s (id ∷ ids) = do s' ← add_future ranks s id; add_futures ranks s' ids

unfoldable pub add_nows : TransactionState → List ℕ → TransactionState
unfolding add_now
add_nows s [] = s
add_nows s (id ∷ ids) = add_nows (add_now s id) ids

unfoldable pub add_finishes : List Rank → TransactionState → List ℕ → Option TransactionState
unfolding add_finish
add_finishes ranks s [] = some s
add_finishes ranks s (id ∷ ids) = do s' ← add_finish ranks s id; add_finishes ranks s' ids

-- The body of handleUpdateMessage on the state that it finds.
unfoldable pub update_state :
    List Rank → TransactionState → UpdateTransactionMessage → Option TransactionState
unfolding add_futures add_nows add_finishes
update_state ranks s m = do
  s1 ← add_futures ranks s m.future
  s2 ← add_finishes ranks (add_nows s1 m.now) m.finish
  some (record s2 { initialized = true })

pub record PlannerManager : Type 0 where
  pub cluster_ranks : List Rank
  pub transaction_states : List TransactionState

-- PlannerManager::PlannerManager
unfoldable pub new_manager : List Rank → PlannerManager
new_manager ranks = record { cluster_ranks = ranks; transaction_states = [] }

-- The ID of transaction_states.back(), where the first of the states is given.
abbrev pub last_id : TransactionState → List TransactionState → ℕ
last_id s [] = s.transaction_id
last_id s (t ∷ ts) = last_id t ts

-- The while loop of handleStartMessage, with `k` rounds of fuel. A round adds the ID after the last.
unfoldable pub fill_up_to : ℕ → ℕ → TransactionState → List TransactionState → List TransactionState
unfolding new_state
fill_up_to zero id s ts = s ∷ ts
fill_up_to (suc k) id s ts =
    let rest = fill_up_to k id s (ts ++ new_state (wrap (last_id s ts + 1)) ∷ []) in
    if ltb (last_id s ts) id then rest else s ∷ ts

-- handleStartMessage: the loop makes at most `id` rounds.
unfoldable pub handle_start : List TransactionState → ℕ → List TransactionState
unfolding fill_up_to
handle_start [] id = new_state id ∷ []
handle_start (s ∷ ts) id = fill_up_to id id s ts

-- handleUpdateMessage
unfoldable pub handle_update :
    List Rank → List TransactionState → UpdateTransactionMessage → Option (List TransactionState)
unfolding update_state
handle_update ranks [] m = some []
handle_update ranks (s ∷ ts) m =
    let id_min = s.transaction_id in
    let id_max = last_id s ts in
    let id_arg = m.transaction_id in
    let idx = id_arg - id_min in
    let found = (do
      state ← get_elem? (s ∷ ts) idx
      state' ← update_state ranks state m
      some (set (s ∷ ts) idx state')) in
    if ltb id_arg id_min || ltb id_max id_arg then some (s ∷ ts) else found

-- handleFinishMessage: only the oldest transaction can end.
unfoldable pub handle_finish : List TransactionState → ℕ → List TransactionState
handle_finish [] id = []
handle_finish (s ∷ ts) id = if s.transaction_id == id then ts else s ∷ ts

-- handleMessage
unfoldable pub handle_message : PlannerManager → PlannerMessage → Option PlannerManager
unfolding handle_start handle_update handle_finish
handle_message p (start_transaction id) =
    some (record p { transaction_states = handle_start p.transaction_states id })
handle_message p (update_transaction m) = do
  states ← handle_update p.cluster_ranks p.transaction_states m
  some (record p { transaction_states = states })
handle_message p (finish_transaction id) =
    some (record p { transaction_states = handle_finish p.transaction_states id })

-- ===== src/Transaction.antt =====
-- src/prf/transaction.hpp and src/prf/transaction.cpp: the inner transaction that updates the
-- time-varying values of one cluster. A TimeInvariantValues* is an address. The virtual call
-- tiv->update(this) is a parameter, `updater`: from the store of values it computes nothing, or
-- the store with the new value of `tiv`, whereupon the code registers the listeners and the
-- cleanup (StreamInternal::send and CellInternal::send).
pub mod Run
pub mod Results
pub mod Targets
pub mod Merging
use prf.Base.{
  ℕ, zero, suc, ◌+◌, Bool, true, false, not, ◌&&◌, ◌||◌, Option, none, some, List, [], ◌∷◌, ◌++◌,
  ◌==◌, ltb, if◌then◌else◌, contains, insert, erase, find, assign, get_or_default,
}

-- What the transaction reads of the graph.
pub record Network : Type 0 where
  pub cluster_of : ℕ → ℕ
  pub rank : ℕ → ℕ
  pub listeners : ℕ → List ℕ

-- InnerTransaction, less its lock and its hooks; the priority queue is in ascending order.
pub record InnerTransaction : Type 0 where
  pub id : ℕ
  pub updating_cluster : ℕ
  pub inside_transaction : Bool
  pub updating : Bool
  pub targets_inside : List ℕ
  pub executor : List (ℕ × ℕ)
  pub targets_outside : List (ℕ × List ℕ)
  pub cleanups : List ℕ

-- ClusterManager::UNMANAGED_CLUSTER_ID
abbrev pub unmanaged_cluster_id : ℕ
unmanaged_cluster_id = 0

-- InnerTransaction::InnerTransaction(ID, ID)
unfoldable pub new_sub_transaction : ℕ → ℕ → InnerTransaction
new_sub_transaction id cluster = record {
  id = id;
  updating_cluster = cluster;
  inside_transaction = not (cluster == unmanaged_cluster_id);
  updating = false;
  targets_inside = [];
  executor = [];
  targets_outside = [];
  cleanups = [];
}

unfoldable pub is_in_updating : InnerTransaction → Bool
is_in_updating t = not (t.updating_cluster == unmanaged_cluster_id)

-- The order of std::pair<u64, TimeInvariantValues *>.
abbrev pub pair_lt : ℕ × ℕ → ℕ × ℕ → Bool
pair_lt (r, p) (s, q) = ltb r s || (r == s && ltb p q)

-- executor.push
abbrev pub push : ℕ × ℕ → List (ℕ × ℕ) → List (ℕ × ℕ)
push e [] = e ∷ []
push e (x ∷ q) = if pair_lt e x then e ∷ x ∷ q else x ∷ push e q

-- map[id], which makes an empty set.
abbrev pub set_at : ℕ → List (ℕ × List ℕ) → List ℕ
set_at id m = get_or_default [] (find id m)

module _ (net : Network) where
  unfoldable pub register_update : InnerTransaction → ℕ → InnerTransaction
  register_update t tiv =
      let id = net.cluster_of tiv in
      if t.updating_cluster == id
      then (if contains tiv t.targets_inside then t else record t {
        targets_inside = insert tiv t.targets_inside;
        executor = push (net.rank tiv, tiv) t.executor;
      })
      else record t {
        targets_outside = assign id (insert tiv (set_at id t.targets_outside)) t.targets_outside;
      }

  -- A loop of register_update.
  unfoldable pub register_updates : InnerTransaction → List ℕ → InnerTransaction
  unfolding register_update
  register_updates t [] = t
  register_updates t (tiv ∷ tivs) = register_updates (register_update t tiv) tivs

  unfoldable pub register_cleanup : InnerTransaction → ℕ → InnerTransaction
  register_cleanup t tiv = record t { cleanups = insert tiv t.cleanups }

  -- generate_sub_transaction: the parent, whose map gets an entry for the cluster if it has none,
  -- and the new transaction.
  unfoldable pub generate_sub_transaction :
      InnerTransaction → ℕ → InnerTransaction × InnerTransaction
  unfolding register_updates new_sub_transaction
  generate_sub_transaction t cluster =
      let targets = set_at cluster t.targets_outside in
      (
        record t { targets_outside = assign cluster targets t.targets_outside },
        register_updates (new_sub_transaction t.id cluster) targets,
      )

  module _ {S : Type 0} (updater : ℕ → S → Option S) where
    -- tiv->update(this)
    unfoldable pub update : InnerTransaction → S → ℕ → InnerTransaction × S
    unfolding register_updates register_cleanup
    update t s tiv = elim (updater tiv s) [
      | none ↦ (t, s)
      | some s' ↦ (register_cleanup (register_updates t (net.listeners tiv)) tiv, s')
    ]

    -- The loop of execute, with the values that it updates, in order; `none` is fuel that does not
    -- suffice.
    unfoldable pub execute_loop : ℕ → InnerTransaction → S → Option (InnerTransaction × S × List ℕ)
    unfolding update
    execute_loop zero t s = elim t.executor [ [] ↦ some (t, s, []) | e ∷ q ↦ none ]
    execute_loop (suc fuel) t s = elim t.executor [
      | [] ↦ some (t, s, [])
      | (rank, tiv) ∷ q ↦
          let (t', s') =
            update (record t { executor = q; targets_inside = erase tiv t.targets_inside }) s tiv in
          elim (execute_loop fuel t' s') [
            | none ↦ none
            | some (t'', s'', trace) ↦ some (t'', s'', tiv ∷ trace)
          ]
    ]

-- ExecuteResult, less the hooks.
pub record ExecuteResult : Type 0 where
  pub targets : List (ℕ × List ℕ)
  pub cleanups : List ℕ

abbrev pub result_of : InnerTransaction → ExecuteResult
result_of t = record { targets = t.targets_outside; cleanups = t.cleanups }

-- for (auto x : ...) map[id].insert(x), where an empty loop leaves the map alone.
abbrev pub insert_all : ℕ → List ℕ → List (ℕ × List ℕ) → List (ℕ × List ℕ)
insert_all id [] m = m
insert_all id (x ∷ xs) m = insert_all id xs (assign id (insert x (set_at id m)) m)

-- for (auto cleanup : ...) cleanups.insert(cleanup)
abbrev pub insert_each : List ℕ → List ℕ → List ℕ
insert_each [] s = s
insert_each (x ∷ xs) s = insert_each xs (insert x s)

abbrev pub has_key : ℕ → List (ℕ × List ℕ) → Bool
has_key id m = elim (find id m) [ none ↦ false | some v ↦ true ]

-- The loop over result.targets, with the set of new clusters.
unfoldable pub merge_targets :
    List (ℕ × List ℕ) → List ℕ → List (ℕ × List ℕ) → List (ℕ × List ℕ) × List ℕ
merge_targets m res [] = (m, res)
merge_targets m res ((id, tivs) ∷ targets) =
    merge_targets (insert_all id tivs m) (if has_key id m then res else insert id res) targets

-- register_execution_result: the set of new clusters. `none` is the exit of a transaction that is
-- itself updating.
unfoldable pub register_execution_result :
    InnerTransaction → ExecuteResult → Option (InnerTransaction × List ℕ)
unfolding merge_targets is_in_updating
register_execution_result t result =
    let (m, res) = merge_targets t.targets_outside [] result.targets in
    let t' = record t { targets_outside = m; cleanups = insert_each result.cleanups t.cleanups } in
    if is_in_updating t then none else some (t', res)

abbrev pub keys_of : List (ℕ × List ℕ) → List ℕ
keys_of [] = []
keys_of ((id, tivs) ∷ m) = insert id (keys_of m)

-- target_clusters
unfoldable pub target_clusters : InnerTransaction → Option (List ℕ)
unfolding is_in_updating
target_clusters t = if is_in_updating t then none else some (keys_of t.targets_outside)

-- ===== src/Tests/Transactions.antt =====
-- Runs of src/prf/transaction.cpp on concrete data.
use prf.Base.{
  ℕ, zero, suc, ◌+◌, ◌<◌, ◌≡◌, refl, true, false, not, ◌&&◌, ◌||◌, some, List, [], ◌∷◌, arith,
  contains,
}
use prf.Transaction.{
  Network, InnerTransaction, set_at, generate_sub_transaction, execute_loop, ExecuteResult,
  register_execution_result, has_key,
}
use prf.Transaction.Run.{Rising, Ordered, execute-Ordered}
use prf.Transaction.Results.{register_execution_result_lem}

abbrev listeners_of : ℕ → List ℕ
listeners_of zero = []
listeners_of (suc zero) = 2 ∷ 3 ∷ []
listeners_of (suc (suc zero)) = 3 ∷ []
listeners_of (suc (suc (suc p))) = []

listeners_bound : (u l : ℕ) → contains l (listeners_of u) ≡ true → (u < l) × (l < 4)
listeners_bound zero l h = cc
listeners_bound (suc zero) l h = ground arith
listeners_bound (suc (suc zero)) l h = ground arith
listeners_bound (suc (suc (suc u))) l h = cc

-- The values 1, 2 and 3 of cluster 7, with their addresses as ranks: 1 is listened to by 2 and 3, and
-- 2 by 3.
abbrev network : Network
network = record { cluster_of = λ p. 7; rank = λ p. p; listeners = listeners_of }

abbrev sources : InnerTransaction
sources = record {
  id = 4;
  updating_cluster = 0;
  inside_transaction = false;
  updating = false;
  targets_inside = [];
  executor = [];
  targets_outside = (7, 1 ∷ 2 ∷ []) ∷ [];
  cleanups = [];
}

network-Rising : Rising network 7 4
network-Rising = record {
  higher = λ u l h e f. (listeners_bound u l h).0;
  below = λ u l h. (listeners_bound u l h).1;
}

execute-Ordered_example :
    (t' : InnerTransaction) × (s' : ℕ) × (trace : List ℕ) × (execute_loop network
        (λ p s. some (s + p))
        4
        (generate_sub_transaction network sources 7).1
        0
      ≡ some (t', s', trace))
    × (t'.executor ≡ [])
    × Ordered network trace
    × ((p : ℕ)
        → contains p (set_at 7 sources.targets_outside) ≡ true
        → network.cluster_of p ≡ 7
        → contains p trace ≡ true)
    × ((p : ℕ) → contains p trace ≡ true → network.cluster_of p ≡ 7)
execute-Ordered_example =
    execute-Ordered network 4 7 network-Rising (λ p s. some (s + p)) sources 0 (λ p h. ground arith)

-- More targets for cluster 7, and the first ones for cluster 9.
abbrev result : ExecuteResult
result = record { targets = (7, 3 ∷ []) ∷ (9, 5 ∷ []) ∷ []; cleanups = 1 ∷ [] }

register_execution_result_lem_example :
    (t' : InnerTransaction) × (res : List ℕ) × (register_execution_result sources result
      ≡ some (t', res))
    × ((j x : ℕ)
        → contains x (set_at j t'.targets_outside)
          ≡ (contains x (set_at j sources.targets_outside) || contains x (set_at j result.targets)))
    × ((j : ℕ)
        → contains j res ≡ (has_key j result.targets && not (has_key j sources.targets_outside)))
    × ((x : ℕ)
        → contains x t'.cleanups ≡ (contains x sources.cleanups || contains x result.cleanups))
register_execution_result_lem_example =
    register_execution_result_lem sources result refl (ground arith)

-- ===== src/Transaction/Results.antt =====
-- register_execution_result: which clusters it reports as new.
use prf.Base.{
  ℕ, suc, ◌≡◌, refl, false, not, ◌&&◌, ◌||◌, some, List, [], ◌∷◌, arith, ◌==◌, if◌then◌else◌,
  contains, insert, contains-insert, assign, find-assign, find_below, KeysAscending,
}
use prf.Transaction.{
  InnerTransaction, ExecuteResult, set_at, insert_all, insert_each, has_key, is_in_updating,
  merge_targets, register_execution_result, unmanaged_cluster_id,
}

insert_all-set :
    (id j x : ℕ) (tivs : List ℕ) (m : List (ℕ × List ℕ))
    → contains x (set_at j (insert_all id tivs m))
      ≡ (contains x (set_at j m) || (j == id && contains x tivs))
insert_all-set id j x [] m = ground arith
insert_all-set id j x (y ∷ tivs) m = ground (
  arith,
  insert_all-set id j x tivs (assign id (insert y (set_at id m)) m),
  find-assign j id (insert y (set_at id m)) m,
  contains-insert x y (set_at id m),
)

insert_all-key :
    (id j : ℕ) (tivs : List ℕ) (m : List (ℕ × List ℕ))
    → (j == id) ≡ false
    → has_key j (insert_all id tivs m) ≡ has_key j m
insert_all-key id j [] m h = refl
insert_all-key id j (y ∷ tivs) m h = ground (
  arith,
  insert_all-key id j tivs (assign id (insert y (set_at id m)) m),
  find-assign j id (insert y (set_at id m)) m,
)

insert_each_lem :
    (x : ℕ) (xs s : List ℕ) → contains x (insert_each xs s) ≡ (contains x s || contains x xs)
insert_each_lem x [] s = ground arith
insert_each_lem x (y ∷ xs) s =
    ground (arith, insert_each_lem x xs (insert y s), contains-insert x y s)

merge_targets_lem :
    (lo : ℕ) (m : List (ℕ × List ℕ)) (res : List ℕ) (targets : List (ℕ × List ℕ))
    → KeysAscending lo targets
    → ((j x : ℕ)
        → contains x (set_at j (merge_targets m res targets).0)
          ≡ (contains x (set_at j m) || contains x (set_at j targets)))
      × ((j : ℕ)
          → contains j (merge_targets m res targets).1
            ≡ (contains j res || (has_key j targets && not (has_key j m))))
unfolding merge_targets
merge_targets_lem lo m res [] a = (λ j x. ground arith, λ j. ground arith)
merge_targets_lem lo m res ((id, tivs) ∷ targets) a =
    let res' : List ℕ = if has_key id m then res else insert id res in
    let (sets, news) = merge_targets_lem (suc id) (insert_all id tivs m) res' targets a.1 in
    (
      λ j x.
          ground
            (arith, sets j x, insert_all-set id j x tivs m, find_below (suc id) id targets a.1),
      λ j. ground (
        arith,
        news j,
        insert_all-key id j tivs m,
        contains-insert j id res,
        find_below (suc id) id targets a.1,
      ),
    )

-- On a transaction that is not updating itself, and a result whose map of targets is in order,
-- register_execution_result succeeds: it adds the targets of the result to those of their clusters
-- and its cleanups to the cleanups, and reports a cluster exactly when the result has an entry for
-- it and the transaction had none. A cluster that has an entry is not reported again.
pub register_execution_result_lem :
    (t : InnerTransaction) (result : ExecuteResult)
    → t.updating_cluster ≡ unmanaged_cluster_id
    → KeysAscending 0 result.targets
    → (t' : InnerTransaction) × (res : List ℕ) × (register_execution_result t result
        ≡ some (t', res))
      × ((j x : ℕ)
          → contains x (set_at j t'.targets_outside)
            ≡ (contains x (set_at j t.targets_outside) || contains x (set_at j result.targets)))
      × ((j : ℕ) → contains j res ≡ (has_key j result.targets && not (has_key j t.targets_outside)))
      × ((x : ℕ) → contains x t'.cleanups ≡ (contains x t.cleanups || contains x result.cleanups))
unfolding register_execution_result is_in_updating
register_execution_result_lem t result h a =
    let (sets, news) = merge_targets_lem 0 t.targets_outside [] result.targets a in
    (
      record t {
        targets_outside = (merge_targets t.targets_outside [] result.targets).0;
        cleanups = insert_each result.cleanups t.cleanups;
      },
      (merge_targets t.targets_outside [] result.targets).1,
      ground arith,
      sets,
      news,
      λ x. insert_each_lem x result.cleanups t.cleanups,
    )

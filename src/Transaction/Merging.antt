-- ===== src/Transaction/Merging.antt =====
-- The map of targets outside after register_execution_result.
use prf.Base.{
  ℕ, suc, ◌<◌, ◌≡◌, true, false, not, ◌&&◌, ◌||◌, some, List, [], ◌∷◌, arith, ◌==◌, if◌then◌else◌,
  contains, insert, assign, find_below, is_empty, KeysAscending,
}
use prf.Transaction.{
  InnerTransaction, ExecuteResult, set_at, has_key, insert_all, insert_each, merge_targets,
  is_in_updating, register_execution_result, unmanaged_cluster_id,
}
use prf.Transaction.Targets.{IsTargets, IsTargets-assign, has_key-assign, is_empty-insert}
use prf.Transaction.Results.{register_execution_result_lem}

insert_all-IsTargets :
    (n id : ℕ) (tivs : List ℕ) (m : List (ℕ × List ℕ))
    → IsTargets n m
    → id < n
    → IsTargets n (insert_all id tivs m)
      × ((c : ℕ)
          → has_key c (insert_all id tivs m) ≡ (has_key c m || (c == id && not (is_empty tivs))))
insert_all-IsTargets n id [] m v h = (v, λ c. ground arith)
insert_all-IsTargets n id (x ∷ xs) m v h =
    let m1 = assign id (insert x (set_at id m)) m in
    let v1 =
      IsTargets-assign n id (insert x (set_at id m)) m v h (is_empty-insert x (set_at id m)) in
    let (v2, keys) = insert_all-IsTargets n id xs m1 v1 h in
    (v2, λ c. ground (arith, keys c, has_key-assign c id (insert x (set_at id m)) m))

merge_targets-IsTargets :
    (n lo : ℕ) (m : List (ℕ × List ℕ)) (res : List ℕ) (targets : List (ℕ × List ℕ))
    → IsTargets n m
    → KeysAscending lo targets
    → ((c : ℕ) → has_key c targets ≡ true → c < n)
    → ((c : ℕ) → has_key c targets ≡ true → is_empty (set_at c targets) ≡ false)
    → IsTargets n (merge_targets m res targets).0
      × ((c : ℕ) → has_key c (merge_targets m res targets).0 ≡ (has_key c m || has_key c targets))
unfolding merge_targets
merge_targets-IsTargets n lo m res [] v a ranked filled = (v, λ c. ground arith)
merge_targets-IsTargets n lo m res ((id, tivs) ∷ targets) v a ranked filled =
    let unique = find_below (suc id) id targets a.1 in
    let (v1, keys1) = insert_all-IsTargets n id tivs m v (ranked id (ground arith)) in
    let (v2, keys2) =
      merge_targets-IsTargets n (suc id) (insert_all id tivs m)
        (if has_key id m then res else insert id res) targets v1 a.1
        (λ c e. ranked c (ground arith)) (λ c e. ground (arith, filled c, unique)) in
    (v2, λ c. ground (arith, keys1 c, keys2 c, filled id))

-- The clusters with targets are those of the transaction and those of the result, and the new ones
-- are reported.
pub register_execution_result-IsTargets :
    (n : ℕ) (t t' : InnerTransaction) (result : ExecuteResult) (res : List ℕ)
    → t.updating_cluster ≡ unmanaged_cluster_id
    → IsTargets n t.targets_outside
    → IsTargets n result.targets
    → register_execution_result t result ≡ some (t', res)
    → IsTargets n t'.targets_outside
      × (t'.updating_cluster ≡ unmanaged_cluster_id)
      × ((c : ℕ)
          → has_key c t'.targets_outside
            ≡ (has_key c t.targets_outside || has_key c result.targets))
      × ((c : ℕ) → contains c res ≡ (has_key c result.targets && not (has_key c t.targets_outside)))
unfolding register_execution_result is_in_updating
register_execution_result-IsTargets n t t' result res h v a e =
    let (t1, res1, e1, _, news, _) = register_execution_result_lem t result h a.ordered in
    let (v1, keys) =
      merge_targets-IsTargets n 0 t.targets_outside [] result.targets v a.ordered a.ranked
        a.filled in
    let same : res1 ≡ res = ground arith in
    let same' : t' ≡ record t {
      targets_outside = (merge_targets t.targets_outside [] result.targets).0;
      cleanups = insert_each result.cleanups t.cleanups;
    } =
      ground arith in
    rw same' (v1, h, keys, rw same at news)

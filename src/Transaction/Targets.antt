-- ===== src/Transaction/Targets.antt =====
-- The map of targets outside: its keys are in order, and they are clusters of registered values.
use prf.Base.{
  ℕ, zero, suc, ◌<◌, ◌≡◌, ◌∙◌, refl, true, inl, inr, Option, some, List, [], ◌∷◌, arith, ◌==◌,
  if◌then◌else◌, Bool-cases, Option-cases, contains, insert, erase, assign, find-assign,
  KeysAscending, KeysAscending-assign, is_empty, false,
}
use prf.Transaction.{
  Network, InnerTransaction, new_sub_transaction, has_key, set_at, register_update,
  register_updates, register_cleanup, update, execute_loop, generate_sub_transaction,
}

-- The keys are in order and below `n`, and their sets are not empty.
pub record IsTargets (n : ℕ) (m : List (ℕ × List ℕ)) : Type 0 where
  pub ordered : KeysAscending 0 m
  pub ranked : (c : ℕ) → has_key c m ≡ true → c < n
  pub filled : (c : ℕ) → has_key c m ≡ true → is_empty (set_at c m) ≡ false

pub has_key-assign :
    (j k : ℕ) (v : List ℕ) (m : List (ℕ × List ℕ))
    → has_key j (assign k v m) ≡ (if j == k then true else has_key j m)
has_key-assign j k v m = ground (arith, find-assign j k v m)

pub IsTargets-assign :
    (n k : ℕ) (v : List ℕ) (m : List (ℕ × List ℕ))
    → IsTargets n m
    → k < n
    → is_empty v ≡ false
    → IsTargets n (assign k v m)
IsTargets-assign n k v m t h some_v = record {
  ordered = KeysAscending-assign 0 k v m t.ordered (omega arith);
  ranked = λ c e. ground (arith, has_key-assign c k v m, t.ranked c);
  filled = λ c e. ground (arith, find-assign c k v m, t.filled c);
}

pub is_empty-insert : (x : ℕ) (s : List ℕ) → is_empty (insert x s) ≡ false
is_empty-insert x [] = refl
is_empty-insert x (y ∷ s) = ground arith

module _ (net : Network) (n : ℕ) (low : (x : ℕ) → net.cluster_of x < n) where
  register_update-IsTargets :
      (t : InnerTransaction) (tiv : ℕ)
      → IsTargets n t.targets_outside
      → IsTargets n (register_update net t tiv).targets_outside
        × ((register_update net t tiv).updating_cluster ≡ t.updating_cluster)
  unfolding register_update
  register_update-IsTargets t tiv v =
      let id = net.cluster_of tiv in
      elim (Bool-cases (t.updating_cluster == id)) [
        | inr outside ↦ rw outside (
          IsTargets-assign n id (insert tiv (set_at id t.targets_outside)) t.targets_outside v
              (low tiv) (is_empty-insert tiv (set_at id t.targets_outside)),
          refl,
        )
        | inl inside ↦ elim (Bool-cases (contains tiv t.targets_inside)) [
          | inl known ↦ rw (inside, known) (v, refl)
          | inr new ↦ rw (inside, new) (v, refl)
        ]
      ]

  pub register_updates-IsTargets :
      (t : InnerTransaction) (tivs : List ℕ)
      → IsTargets n t.targets_outside
      → IsTargets n (register_updates net t tivs).targets_outside
        × ((register_updates net t tivs).updating_cluster ≡ t.updating_cluster)
  unfolding register_updates
  register_updates-IsTargets t [] v = (v, refl)
  register_updates-IsTargets t (tiv ∷ tivs) v =
      let (v1, same1) = register_update-IsTargets t tiv v in
      let (v2, same2) = register_updates-IsTargets (register_update net t tiv) tivs v1 in
      (v2, same2 ∙ same1)

  pub sub_transaction-IsTargets :
      (t : InnerTransaction) (cluster : ℕ)
      → IsTargets n (generate_sub_transaction net t cluster).1.targets_outside
  unfolding generate_sub_transaction new_sub_transaction
  sub_transaction-IsTargets t cluster =
      (register_updates-IsTargets (new_sub_transaction t.id cluster)
        (set_at cluster t.targets_outside)
        (record { ordered = tt; ranked = λ c e. cc; filled = λ c e. cc })).0

  module _ {S : Type 0} (updater : ℕ → S → Option S) where
    update-IsTargets :
        (t : InnerTransaction) (s : S) (tiv : ℕ)
        → IsTargets n t.targets_outside
        → IsTargets n (update net updater t s tiv).0.targets_outside
    unfolding update register_cleanup
    update-IsTargets t s tiv v = elim (Option-cases (updater tiv s)) [
      | inl quiet ↦ rw (quiet, update) v
      | inr (s', sent) ↦ rw (sent, update) (register_updates-IsTargets t (net.listeners tiv) v).0
    ]

    -- However far it runs, an execution has targets outside for clusters with a rank only.
    pub execute_loop-IsTargets :
        (fuel : ℕ) (t t' : InnerTransaction) (s s' : S) (trace : List ℕ)
        → IsTargets n t.targets_outside
        → (q : List (ℕ × ℕ)) → t.executor ≡ q
        → execute_loop net updater fuel t s ≡ some (t', s', trace)
        → IsTargets n t'.targets_outside
    unfolding execute_loop
    execute_loop-IsTargets zero t t' s s' trace v [] e h =
        let same : t ≡ t' = ground arith in rw same at v
    execute_loop-IsTargets zero t t' s s' trace v (x ∷ q) e h = absurd (ground arith)
    execute_loop-IsTargets (suc fuel) t t' s s' trace v [] e h =
        let same : t ≡ t' = ground arith in rw same at v
    execute_loop-IsTargets (suc fuel) t t' s s' trace v ((r, tiv) ∷ q) e h =
        let next =
          update net updater
            (record t { executor = q; targets_inside = erase tiv t.targets_inside }) s tiv in
        let v1 =
          update-IsTargets (record t { executor = q; targets_inside = erase tiv t.targets_inside })
            s tiv v in
        elim (Option-cases (execute_loop net updater fuel next.0 next.1)) [
          | inl failed ↦ absurd (ground arith)
          | inr ((t2, s2, trace2), ran) ↦
              let same : t2 ≡ t' = ground arith in
              let done =
                execute_loop-IsTargets fuel next.0 t2 next.1 s2 trace2 v1 next.0.executor refl
                  ran in
              rw same at done
        ]

-- ===== src/Planner/Handlers.antt =====
-- An UpdateTransactionMessage keeps the counters of the state that it is applied to.
use prf.Base.{
  ℕ, ◌+◌, ◌-◌, ◌≤◌, ◌<◌, ◌≡◌, ◌∙◌, ◌⊎◌, refl, inl, inr, true, false, not, ◌&&◌, ◌||◌, none, some,
  List, [], ◌∷◌, arith, ◌==◌, if◌then◌else◌, wrap, u64_mod, Bool-cases, Option-cases, Distinct,
  length, contains, erase, contains-insert, contains-erase, Ascending-insert, Ascending-erase, find,
  find-assign, find-remove, KeysAscending, KeysAscending-assign, KeysAscending-remove,
}
use prf.Rank.{Rank}
use prf.Messages.{UpdateTransactionMessage}
use prf.Planner.{
  TransactionState, add_now, add_finish, decrement, add_futures, add_nows, add_finishes,
  update_state,
}
use prf.Planner.Counts.{
  rank_at, rank_of-rank_at, count_rank-insert, count_rank-erase, IsCounted, counted_bound,
  add_future-IsCounted,
}

module _ (ranks : List Rank) {s : TransactionState} (v : IsCounted ranks s) where
  pub add_now-IsCounted :
      (id : ℕ)
      → contains id s.future ≡ true
      → IsCounted ranks (add_now s id)
        × ((j : ℕ) → contains j (add_now s id).future ≡ (not (j == id) && contains j s.future))
        × ((j : ℕ) → contains j (add_now s id).now ≡ (j == id || contains j s.now))
        × ((add_now s id).transaction_id ≡ s.transaction_id)
  unfolding add_now
  add_now-IsCounted id h = rw h (
    record {
      future_set = Ascending-erase 0 id s.future v.future_set;
      now_set = Ascending-insert 0 id s.now v.now_set (omega arith);
      future_ranked = λ j m. ground (arith, contains-erase j id s.future, v.future_ranked j);
      now_ranked =
          λ j m. ground (arith, contains-insert j id s.now, v.now_ranked j, v.future_ranked j);
      apart = λ j m.
          ground (arith, contains-erase j id s.future, contains-insert j id s.now, v.apart j);
      counted = λ r. ground (
        arith,
        v.counted r,
        count_rank-erase ranks r 0 id s.future v.future_set h,
        count_rank-insert ranks r id s.now (v.apart id h),
      );
      positive = v.positive;
      keys = v.keys;
    },
    λ j. contains-erase j id s.future,
    λ j. contains-insert j id s.now,
    refl,
  )

  -- The counter of a running cluster is there, and is not 0.
  counter :
      (id : ℕ)
      → contains id s.now ≡ true
      → (c : ℕ) × (find (rank_at ranks id) s.target_ranks ≡ some c)
        × (1 ≤ c)
        × (c ≤ length ranks + length ranks)
  counter id h = elim (Option-cases (find (rank_at ranks id) s.target_ranks)) [
    | inl e ↦ absurd (
        ground (
          arith,
          v.counted (rank_at ranks id),
          count_rank-erase ranks (rank_at ranks id) 0 id s.now v.now_set h,
        ))
    | inr (c, e) ↦ (
      c,
      e,
      ground (arith, v.positive (rank_at ranks id)),
      ground (arith, v.counted (rank_at ranks id), counted_bound ranks v (rank_at ranks id)),
    )
  ]

  find-decrement :
      (r k c : ℕ)
      → find k s.target_ranks ≡ some c
      → 1 ≤ c
      → c < u64_mod
      → find r (decrement k c s.target_ranks)
        ≡ (if r == k then (if c == 1 then none else some (c - 1)) else find r s.target_ranks)
  unfolding decrement
  find-decrement r k c e h small = ground (
    arith,
    find-remove r k s.target_ranks,
    find-assign r k (wrap (c + u64_mod - 1)) s.target_ranks,
  )

  keys-decrement : (k c : ℕ) → KeysAscending 0 (decrement k c s.target_ranks)
  unfolding decrement
  keys-decrement k c = ground (
    arith,
    KeysAscending-remove 0 k s.target_ranks v.keys,
    KeysAscending-assign 0 k (wrap (c + u64_mod - 1)) s.target_ranks v.keys,
  )

  pub add_finish-IsCounted :
      (id : ℕ)
      → length ranks + length ranks + 1 < u64_mod
      → (s' : TransactionState) × (add_finish ranks s id ≡ some s')
        × IsCounted ranks s'
        × (s'.future ≡ s.future)
        × ((j : ℕ) → contains j s'.now ≡ (not (j == id) && contains j s.now))
        × (s'.transaction_id ≡ s.transaction_id)
  unfolding add_finish
  add_finish-IsCounted id small = elim (Bool-cases (contains id s.now)) [
    | inr absent ↦ (s, rw absent, v, refl, λ j. ground arith, refl)
    | inl running ↦
        let (c, e, pos, low) = counter id running in
        let rank = rank_at ranks id in
        let found = λ (r : ℕ). find-decrement r rank c e pos (omega arith) in
        (
          record s { now = erase id s.now; target_ranks = decrement rank c s.target_ranks },
          rw (running, rank_of-rank_at ranks id (v.now_ranked id running)) (rw e),
          record {
            future_set = v.future_set;
            now_set = Ascending-erase 0 id s.now v.now_set;
            future_ranked = v.future_ranked;
            now_ranked = λ j m. ground (arith, contains-erase j id s.now, v.now_ranked j);
            apart = λ j m. ground (arith, contains-erase j id s.now, v.apart j);
            counted = λ r. ground (
              arith,
              found r,
              v.counted r,
              count_rank-erase ranks r 0 id s.now v.now_set running,
            );
            positive = λ r. ground (arith, found r, v.positive r);
            keys = keys-decrement rank c;
          },
          refl,
          λ j. contains-erase j id s.now,
          refl,
        )
  ]

module _ (ranks : List Rank) (small : length ranks + length ranks + 1 < u64_mod) where
  add_futures-IsCounted :
      {s : TransactionState} (ids : List ℕ)
      → IsCounted ranks s
      → ((j : ℕ) → contains j ids ≡ true → (j < length ranks) × (contains j s.now ≡ false))
      → (s' : TransactionState) × (add_futures ranks s ids ≡ some s')
        × IsCounted ranks s'
        × ((j : ℕ) → contains j s'.future ≡ (contains j s.future || contains j ids))
        × (s'.now ≡ s.now)
        × (s'.transaction_id ≡ s.transaction_id)
  unfolding add_futures
  add_futures-IsCounted {s} [] v h = (s, refl, v, λ j. ground arith, refl, refl)
  add_futures-IsCounted {s} (id ∷ ids) v h =
      let (ranked, fresh) = h id (ground arith) in
      let (s1, e1, v1, f1, n1, t1) = add_future-IsCounted ranks v id small ranked fresh in
      let (s2, e2, v2, f2, n2, t2) =
        add_futures-IsCounted {s = s1} ids v1 (λ j m. rw n1 (h j (ground arith))) in
      (s2, rw (e1, e2), v2, λ j. ground (arith, f1 j, f2 j), n2 ∙ n1, t2 ∙ t1)

  add_nows-IsCounted :
      {s : TransactionState} (ids : List ℕ)
      → IsCounted ranks s
      → Distinct ids
      → ((j : ℕ) → contains j ids ≡ true → contains j s.future ≡ true)
      → IsCounted ranks (add_nows s ids)
        × ((j : ℕ)
            → contains j (add_nows s ids).future ≡ (contains j s.future && not (contains j ids)))
        × ((j : ℕ) → contains j (add_nows s ids).now ≡ (contains j s.now || contains j ids))
        × ((add_nows s ids).transaction_id ≡ s.transaction_id)
  unfolding add_nows
  add_nows-IsCounted {s} [] v d h = (v, λ j. ground arith, λ j. ground arith, refl)
  add_nows-IsCounted {s} (id ∷ ids) v d h =
      let (v1, f1, n1, t1) = add_now-IsCounted ranks v id (h id (ground arith)) in
      let (v2, f2, n2, t2) =
        add_nows-IsCounted {s = add_now s id} ids v1 d.1 (λ j m. ground (arith, f1 j, h j, d.0)) in
      (v2, λ j. ground (arith, f1 j, f2 j), λ j. ground (arith, n1 j, n2 j), t2 ∙ t1)

  add_finishes-IsCounted :
      {s : TransactionState} (ids : List ℕ)
      → IsCounted ranks s
      → (s' : TransactionState) × (add_finishes ranks s ids ≡ some s')
        × IsCounted ranks s'
        × (s'.future ≡ s.future)
        × ((j : ℕ) → contains j s'.now ≡ (contains j s.now && not (contains j ids)))
        × (s'.transaction_id ≡ s.transaction_id)
  unfolding add_finishes
  add_finishes-IsCounted {s} [] v = (s, refl, v, refl, λ j. ground arith, refl)
  add_finishes-IsCounted {s} (id ∷ ids) v =
      let (s1, e1, v1, f1, n1, t1) = add_finish-IsCounted ranks v id small in
      let (s2, e2, v2, f2, n2, t2) = add_finishes-IsCounted {s = s1} ids v1 in
      (s2, rw (e1, e2), v2, f2 ∙ f1, λ j. ground (arith, n1 j, n2 j), t2 ∙ t1)

  -- On a state with exact counters, and with so few clusters that a counter cannot overflow, a
  -- message that announces only clusters that have a rank and do not run, and that starts only
  -- clusters that are announced, none twice, is applied with no fault: the state is then
  -- initialized and keeps its ID, `future` is the announced clusters less the started ones, `now`
  -- is the running and started clusters less the finished ones, and `target_ranks` counts both
  -- exactly.
  pub update_state-IsCounted :
      {s : TransactionState} (m : UpdateTransactionMessage)
      → IsCounted ranks s
      → ((j : ℕ) → contains j m.future ≡ true → (j < length ranks) × (contains j s.now ≡ false))
      → Distinct m.now
      → ((j : ℕ)
          → contains j m.now ≡ true
          → (contains j s.future ≡ true) ⊎ (contains j m.future ≡ true))
      → (s' : TransactionState) × (update_state ranks s m ≡ some s')
        × IsCounted ranks s'
        × (s'.initialized ≡ true)
        × (s'.transaction_id ≡ s.transaction_id)
        × ((j : ℕ)
            → contains j s'.future
              ≡ ((contains j s.future || contains j m.future) && not (contains j m.now)))
        × ((j : ℕ)
            → contains j s'.now
              ≡ ((contains j s.now || contains j m.now) && not (contains j m.finish)))
  unfolding update_state
  update_state-IsCounted {s} m v hf d hn =
      let (s1, e1, v1, f1, n1, t1) = add_futures-IsCounted {s = s} m.future v hf in
      let (v2, f2, n2, t2) =
        add_nows-IsCounted {s = s1} m.now v1 d (λ j h. ground (arith, hn j, f1 j)) in
      let (s3, e3, v3, f3, n3, t3) = add_finishes-IsCounted {s = add_nows s1 m.now} m.finish v2 in
      (
        record s3 { initialized = true },
        rw (e1, e3),
        record {
          future_set = v3.future_set;
          now_set = v3.now_set;
          future_ranked = v3.future_ranked;
          now_ranked = v3.now_ranked;
          apart = v3.apart;
          counted = v3.counted;
          positive = v3.positive;
          keys = v3.keys;
        },
        refl,
        t3 ∙ t2 ∙ t1,
        λ j. ground (arith, f1 j, f2 j, f3),
        λ j. ground (arith, n1, n2 j, n3 j),
      )

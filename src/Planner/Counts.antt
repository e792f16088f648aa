-- ===== src/Planner/Counts.antt =====
-- What `target_ranks` counts: the clusters of `future` and `now` by their rank.
use prf.Base.{
  ℕ, suc, ◌+◌, ◌≤◌, ◌<◌, ◌≡◌, ◌≢◌, refl, inl, inr, true, false, ◌||◌, some, List, [], ◌∷◌, arith,
  ◌==◌, if◌then◌else◌, wrap, u64_mod, Bool-cases, length, get_elem?-get_or, contains, insert, erase,
  contains-insert, Ascending, Ascending-insert, not-contains_below, erase_missing,
  length-le_of_Ascending, find, assign, get_or_default, find-assign, KeysAscending,
  KeysAscending-assign,
}
use prf.Rank.{Rank}
use prf.Planner.{TransactionState, rank_of, add_future}

-- The rank of a cluster that has one.
abbrev pub rank_at : List Rank → ℕ → ℕ
rank_at ranks id = get_or_default 0 (rank_of ranks id)

abbrev pub count_rank : List Rank → ℕ → List ℕ → ℕ
count_rank ranks r [] = 0
count_rank ranks r (id ∷ ids) = (if rank_at ranks id == r then 1 else 0) + count_rank ranks r ids

pub rank_of-rank_at :
    (ranks : List Rank) (id : ℕ) → id < length ranks → rank_of ranks id ≡ some (rank_at ranks id)
rank_of-rank_at ranks id h = ground (arith, get_elem?-get_or ranks id (record { value = 0 }) h)

module _ (ranks : List Rank) (r : ℕ) where
  pub count_rank-insert :
      (id : ℕ) (s : List ℕ)
      → contains id s ≡ false
      → count_rank ranks r (insert id s)
        ≡ (if rank_at ranks id == r then 1 else 0) + count_rank ranks r s
  count_rank-insert id [] h = refl
  count_rank-insert id (x ∷ s) h = ground (arith, count_rank-insert id s)

  pub count_rank-erase :
      (lo id : ℕ) (s : List ℕ)
      → Ascending lo s
      → contains id s ≡ true
      → (if rank_at ranks id == r then 1 else 0) + count_rank ranks r (erase id s)
        ≡ count_rank ranks r s
  count_rank-erase lo id [] a h = cc
  count_rank-erase lo id (x ∷ s) a h = ground (
    arith,
    count_rank-erase (suc x) id s a.1,
    not-contains_below (suc x) id s a.1,
    erase_missing id s,
  )

  pub count_rank-le : (s : List ℕ) → count_rank ranks r s ≤ length s
  count_rank-le [] = omega arith
  count_rank-le (x ∷ s) = ground (arith, count_rank-le s)

-- The sets are in order and apart, and each rank is counted exactly, with no entry of 0.
pub record IsCounted (ranks : List Rank) (s : TransactionState) : Type 0 where
  pub future_set : Ascending 0 s.future
  pub now_set : Ascending 0 s.now
  pub future_ranked : (id : ℕ) → contains id s.future ≡ true → id < length ranks
  pub now_ranked : (id : ℕ) → contains id s.now ≡ true → id < length ranks
  pub apart : (id : ℕ) → contains id s.future ≡ true → contains id s.now ≡ false
  pub counted :
      (r : ℕ)
      → get_or_default 0 (find r s.target_ranks)
        ≡ count_rank ranks r s.future + count_rank ranks r s.now
  pub positive : (r : ℕ) → find r s.target_ranks ≢ some 0
  pub keys : KeysAscending 0 s.target_ranks

module _ (ranks : List Rank) {s : TransactionState} (v : IsCounted ranks s) where
  pub counted_bound :
      (r : ℕ) → count_rank ranks r s.future + count_rank ranks r s.now ≤ length ranks + length ranks
  counted_bound r = omega (
    arith,
    count_rank-le ranks r s.future,
    count_rank-le ranks r s.now,
    length-le_of_Ascending 0 (length ranks) s.future v.future_set (omega arith) v.future_ranked,
    length-le_of_Ascending 0 (length ranks) s.now v.now_set (omega arith) v.now_ranked,
  )

  pub add_future-IsCounted :
      (id : ℕ)
      → length ranks + length ranks + 1 < u64_mod
      → id < length ranks
      → contains id s.now ≡ false
      → (s' : TransactionState) × (add_future ranks s id ≡ some s')
        × IsCounted ranks s'
        × ((j : ℕ) → contains j s'.future ≡ (j == id || contains j s.future))
        × (s'.now ≡ s.now)
        × (s'.transaction_id ≡ s.transaction_id)
  unfolding add_future
  add_future-IsCounted id small h apart = elim (Bool-cases (contains id s.future)) [
    | inl old ↦ (s, rw old, v, λ j. ground arith, refl, refl)
    | inr new ↦ (
      record s {
        future = insert id s.future;
        target_ranks =
            assign rank (wrap (get_or_default 0 (find rank s.target_ranks) + 1)) s.target_ranks;
      },
      rw (new, rank_of-rank_at ranks id h),
      record {
        future_set = Ascending-insert 0 id s.future v.future_set (omega arith);
        now_set = v.now_set;
        future_ranked = λ j m. ground (arith, contains-insert j id s.future, v.future_ranked j);
        now_ranked = v.now_ranked;
        apart = λ j m. ground (arith, contains-insert j id s.future, v.apart j);
        counted = λ r. ground (
          arith,
          find-assign r rank (wrap (get_or_default 0 (find rank s.target_ranks) + 1))
              s.target_ranks,
          v.counted r,
          counted_bound r,
          count_rank-insert ranks r id s.future new,
        );
        positive = λ r. ground (
          arith,
          find-assign r rank (wrap (get_or_default 0 (find rank s.target_ranks) + 1))
              s.target_ranks,
          v.positive r,
          v.counted r,
          counted_bound r,
        );
        keys = KeysAscending-assign 0 rank _ s.target_ranks v.keys (omega arith);
      },
      λ j. contains-insert j id s.future,
      refl,
      refl,
    )
  ]
    where
      rank : ℕ
      rank = rank_at ranks id

-- ===== src/Node/Order.antt =====
-- The ranks of an acyclic graph: the loop ends within one round for each number, and ranks strictly
-- increase along the edges.
use prf.Base.{
  ℕ, zero, suc, ◌+◌, ◌≤◌, ◌<◌, ◌≡◌, refl, ◌∙◌, Bool, true, false, not, ◌&&◌, ◌||◌, some, List, [],
  ◌∷◌, arith, ◌==◌, ltb, if◌then◌else◌, u64_mod, length, replicate, length-replicate, contains,
  is_empty, contains-erase, Ascending, Distinct, not-contains_of_is_empty, is_empty_of, undone,
  undone_step, undone-le, undone_pos,
}
use prf.Rank.{Rank, new_rank}
use prf.Node.{Graph, childs_of, parents_of, Ranking, rank_round, rank_loop, roots_from, graph_ranks}
use prf.Node.Propagate.{val, raise_childs_lem, release_childs_lem}

abbrev pub edge : Graph → ℕ → ℕ → Bool
edge g u c = contains c (childs_of g u)

-- The two vectors hold the same edges, between numbers below `n`.
pub record IsGraph (n : ℕ) (g : Graph) : Type 0 where
  pub childs_size : length g.childs ≡ n
  pub parents_size : length g.parents ≡ n
  pub in_range : (u c : ℕ) → edge g u c ≡ true → (u < n) × (c < n)
  pub mirror : (u c : ℕ) → contains u (parents_of g.parents c) ≡ edge g u c
  pub ascending : (u : ℕ) → Ascending 0 (childs_of g u)

-- A level for each number that grows along the edges: the graph has no cycle.
pub record Acyclic (n : ℕ) (g : Graph) (level : ℕ → ℕ) : Type 0 where
  pub grows : (u c : ℕ) → edge g u c ≡ true → level u < level c
  pub bounded : (x : ℕ) → x < n → level x + 1 < u64_mod

pub roots_from_lem :
    (k i : ℕ) (ps : List (List ℕ)) (updates : List ℕ)
    → Distinct updates
    → ((x : ℕ) → contains x updates ≡ (ltb x i && is_empty (parents_of ps x)))
    → Distinct (roots_from k i ps updates)
      × ((x : ℕ)
          → contains x (roots_from k i ps updates) ≡ (ltb x (i + k) && is_empty (parents_of ps x)))
unfolding roots_from
roots_from_lem zero i ps updates d h = (d, λ x. ground (arith, h x))
roots_from_lem (suc k) i ps updates d h =
    let pushed : List ℕ = if is_empty (parents_of ps i) then i ∷ updates else updates in
    let (d', h') =
      roots_from_lem k (i + 1) ps pushed (ground (arith, h i)) (λ x. ground (arith, h x)) in
    let e : i + 1 + k ≡ i + suc k = omega arith in (d', λ x. rw e at (h' x))

pub val_zero : (k x : ℕ) → val (replicate k new_rank) x ≡ 0
unfolding new_rank
val_zero zero x = refl
val_zero (suc k) zero = refl
val_zero (suc k) (suc x) = val_zero k x

pub roots_from_parents :
    (n : ℕ) (ps : List (List ℕ)) (x : ℕ)
    → contains x (roots_from n 0 ps []) ≡ (ltb x (0 + n) && is_empty (parents_of ps x))
roots_from_parents n ps = (roots_from_lem n 0 ps [] tt (λ x. ground arith)).1

module _ {n : ℕ} {g : Graph} {level : ℕ → ℕ} (w : IsGraph n g) (acyclic : Acyclic n g level) where
  pub record Inv (done : ℕ → Bool) (r : Ranking) : Type 0 where
    pub ranks_size : length r.ranks ≡ n
    pub parents_size : length r.parents ≡ n
    pub low : (x : ℕ) → x < n → val r.ranks x ≤ level x
    pub open_parents :
        (u c : ℕ) → contains u (parents_of r.parents c) ≡ (edge g u c && not (done u))
    pub waiting :
        (x : ℕ)
        → contains x r.updates ≡ true
        → (x < n) × (done x ≡ false) × (is_empty (parents_of r.parents x) ≡ true)
    pub ready :
        (x : ℕ)
        → x < n
        → is_empty (parents_of r.parents x) ≡ true
        → done x ≡ false
        → contains x r.updates ≡ true
    pub distinct : Distinct r.updates
    pub closed : (u c : ℕ) → done c ≡ true → edge g u c ≡ true → done u ≡ true
    pub sorted : (u c : ℕ) → done u ≡ true → edge g u c ≡ true → val r.ranks u < val r.ranks c

  no_loop : (u : ℕ) → edge g u u ≡ false
  no_loop u = ground (arith, acyclic.grows u u)

  Inv-round :
      (done : ℕ → Bool) (ranks : List Rank) (ps : List (List ℕ)) (u : ℕ) (rest : List ℕ)
      → Inv done (record { ranks = ranks; parents = ps; updates = u ∷ rest })
      → Inv (λ x. x == u || done x) (rank_round g ranks ps u rest)
  unfolding rank_round
  Inv-round done ranks ps u rest v =
      let (lt, fresh, bare) = v.waiting u (ground arith) in
      let cs = childs_of g u in
      let child_lt = λ (c : ℕ) (k : contains c cs ≡ true). (w.in_range u c k).1 in
      let (size, at) =
        raise_childs_lem ranks u cs (no_loop u) (λ c k. rw v.ranks_size (child_lt c k))
          (ground (arith, v.low u lt, acyclic.bounded u lt)) in
      let rel =
        release_childs_lem 0 ps u rest cs (w.ascending u)
          (λ c k. rw v.parents_size (child_lt c k)) in
      let not_done = λ (c : ℕ) (k : contains c cs ≡ true).
        let p : done c ≡ false = ground (arith, v.closed u c) in p in
      let above = λ (y : ℕ). not-contains_of_is_empty y (parents_of ps u) bare in
      record {
        ranks_size = size ∙ v.ranks_size;
        parents_size = rel.size ∙ v.parents_size;
        low = λ x h. ground (arith, at x, v.low x h, v.low u lt, acyclic.grows u x);
        open_parents = λ y c.
            ground (arith, rel.parents c, contains-erase y u (parents_of ps c), v.open_parents y c);
        waiting = λ x k. ground (
          arith,
          rel.stack x,
          rel.parents x,
          v.waiting x,
          v.open_parents u x,
          not-contains_of_is_empty u (parents_of ps x),
          not_done x,
          child_lt x,
          v.distinct,
        );
        ready = λ x h e d. ground (arith, rel.stack x, rel.parents x, v.ready x);
        distinct = rel.distinct v.distinct.1 (λ x i e.
            ground (
              arith,
              v.waiting x,
              v.open_parents u x,
              not-contains_of_is_empty u (parents_of ps x),
            ));
        closed = λ y c d e. ground (arith, v.closed y c, above y, v.open_parents y c);
        sorted = λ y c d e. ground (arith, at y, at c, v.sorted y c, v.closed u y, no_loop u);
      }

  -- With an empty stack every number is done, by induction on its level.
  all_done :
      (done : ℕ → Bool) (r : Ranking)
      → Inv done r
      → r.updates ≡ []
      → (k x : ℕ) → x < n
      → level x < k
      → done x ≡ true
  all_done done r v e zero x h lt = absurd (omega arith)
  all_done done r v e (suc k) x h lt =
      let orphan = λ (y : ℕ).
        let p : contains y (parents_of r.parents x) ≡ false =
          ground (
            arith,
            v.open_parents y x,
            w.in_range y x,
            acyclic.grows y x,
            all_done done r v e k y,
          ) in
        p in
      ground (arith, v.ready x h (is_empty_of (parents_of r.parents x) orphan))

  -- What the ranks of an acyclic graph promise.
  pub record Sorted (ranks : List Rank) : Type 0 where
    pub size : length ranks ≡ n
    pub least : (x : ℕ) → x < n → val ranks x ≤ level x
    pub increases : (u c : ℕ) → edge g u c ≡ true → val ranks u < val ranks c

  ended :
      (done : ℕ → Bool) (ranks : List Rank) (ps : List (List ℕ))
      → Inv done (record { ranks = ranks; parents = ps; updates = [] })
      → Sorted ranks
  ended done ranks ps v = record {
    size = v.ranks_size;
    least = v.low;
    increases = λ u c e.
        let h = (w.in_range u c e).0 in
        v.sorted u c (all_done done _ v refl (suc (level u)) u h (omega arith)) e;
  }

  pub rank_loop-Sorted :
      (fuel : ℕ) (done : ℕ → Bool) (ranks : List Rank) (ps : List (List ℕ)) (updates : List ℕ)
      → Inv done (record { ranks = ranks; parents = ps; updates = updates })
      → undone n done ≤ fuel
      → (ranks' : List Rank) × (rank_loop fuel g
            (record { ranks = ranks; parents = ps; updates = updates })
          ≡ some ranks')
        × Sorted ranks'
  unfolding rank_loop
  rank_loop-Sorted zero done ranks ps [] v h = (ranks, refl, ended done ranks ps v)
  rank_loop-Sorted (suc fuel) done ranks ps [] v h = (ranks, refl, ended done ranks ps v)
  rank_loop-Sorted zero done ranks ps (u ∷ rest) v h =
      let (lt, fresh, _) = v.waiting u (ground arith) in
      absurd (omega (arith, undone_pos n u done lt fresh))
  rank_loop-Sorted (suc fuel) done ranks ps (u ∷ rest) v h =
      let (lt, fresh, _) = v.waiting u (ground arith) in
      let next = rank_round g ranks ps u rest in
      rank_loop-Sorted fuel (λ x. x == u || done x) next.ranks next.parents next.updates
        (Inv-round done ranks ps u rest v) (omega (arith, undone_step n u done lt fresh))

  -- On an acyclic graph the ranking loop ends within one round for each number, no rank is above
  -- its number's level, and ranks strictly increase along every edge.
  pub graph_ranks-Sorted : (ranks : List Rank) × (graph_ranks n g ≡ some ranks) × Sorted ranks
  unfolding graph_ranks
  graph_ranks-Sorted =
      let (distinct, stack) = roots_from_lem n 0 g.parents [] tt (λ x. ground arith) in
      let all = undone-le n (λ x. false) in
      rank_loop-Sorted n (λ x. false) (replicate n new_rank) g.parents (roots_from n 0 g.parents [])
        (record {
          ranks_size = length-replicate n new_rank;
          parents_size = w.parents_size;
          low = λ x h. omega (arith, val_zero n x);
          open_parents = λ u c. ground (arith, w.mirror u c);
          waiting = λ x k. ground (arith, stack x);
          ready = λ x h e d. ground (arith, stack x);
          distinct = distinct;
          closed = λ u c d e. cc;
          sorted = λ u c d e. cc;
        })
        all

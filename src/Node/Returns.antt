-- ===== src/Node/Returns.antt =====
-- The loop of generate_cluster_ranks on any graph, with cycles or not: each number is taken off the
-- stack at most once.
use prf.Base.{
  ℕ, zero, suc, ◌<◌, ◌≤◌, ◌≡◌, refl, ◌∙◌, Bool, true, false, not, ◌&&◌, ◌||◌, some, List, [], ◌∷◌,
  arith, ◌==◌, replicate, length-replicate, length, length-set, set, get_or, contains, is_empty,
  contains-erase, Distinct, not-contains_of_is_empty, undone, undone_step, undone-le, undone_pos,
}
use prf.Rank.{Rank, new_rank, ensure_after}
use prf.Node.{
  Graph, childs_of, parents_of, raise_childs, release_childs, rank_round, rank_loop, roots_from,
  graph_ranks,
}
use prf.Node.Propagate.{release_childs_lem}
use prf.Node.Order.{edge, IsGraph, roots_from_lem}

raise_childs-length :
    (ranks : List Rank) (u : ℕ) (cs : List ℕ) → length (raise_childs ranks u cs) ≡ length ranks
unfolding raise_childs
raise_childs-length ranks u [] = refl
raise_childs-length ranks u (c ∷ cs) =
    let new =
      (ensure_after (get_or ranks u (record { value = 0 }))
        (get_or ranks c (record { value = 0 }))).1 in
    raise_childs-length (set ranks c new) u cs ∙ length-set ranks c new

module _ {n : ℕ} {g : Graph} (w : IsGraph n g) where
  -- The numbers in `done` were taken off the stack, and those on it were not and have no parent
  -- left.
  record Live (done : ℕ → Bool) (ps : List (List ℕ)) (updates : List ℕ) : Type 0 where
    size : length ps ≡ n
    open_parents : (u c : ℕ) → contains u (parents_of ps c) ≡ (edge g u c && not (done u))
    waiting :
        (x : ℕ)
        → contains x updates ≡ true
        → (x < n) × (done x ≡ false) × (is_empty (parents_of ps x) ≡ true)
    distinct : Distinct updates
    closed : (u c : ℕ) → done c ≡ true → edge g u c ≡ true → done u ≡ true

  Live-round :
      (done : ℕ → Bool) (ps : List (List ℕ)) (u : ℕ) (rest : List ℕ)
      → Live done ps (u ∷ rest)
      → Live
          (λ x. x == u || done x)
          (release_childs ps u rest (childs_of g u)).0
          (release_childs ps u rest (childs_of g u)).1
  Live-round done ps u rest v =
      let (lt, fresh, bare) = v.waiting u (ground arith) in
      let cs = childs_of g u in
      let child_lt = λ (c : ℕ) (k : contains c cs ≡ true). (w.in_range u c k).1 in
      let rel =
        release_childs_lem 0 ps u rest cs (w.ascending u) (λ c k. rw v.size (child_lt c k)) in
      let not_done = λ (c : ℕ) (k : contains c cs ≡ true).
        let p : done c ≡ false = ground (arith, v.closed u c) in p in
      let above = λ (y : ℕ). not-contains_of_is_empty y (parents_of ps u) bare in
      let no_loop : edge g u u ≡ false = ground (arith, above u, v.open_parents u u) in
      record {
        size = rel.size ∙ v.size;
        open_parents = λ y c.
            ground (arith, rel.parents c, contains-erase y u (parents_of ps c), v.open_parents y c);
        waiting = λ x k. ground (
          arith,
          rel.stack x,
          rel.parents x,
          v.waiting x,
          v.open_parents u x,
          not-contains_of_is_empty u (parents_of ps x),
          not_done x,
          child_lt x,
          v.distinct,
        );
        distinct = rel.distinct v.distinct.1 (λ x i e.
            ground (
              arith,
              v.waiting x,
              v.open_parents u x,
              not-contains_of_is_empty u (parents_of ps x),
            ));
        closed = λ y c d e. ground (arith, v.closed y c, above y, v.open_parents y c);
      }

  rank_loop_returns :
      (fuel : ℕ) (done : ℕ → Bool) (ranks : List Rank) (ps : List (List ℕ)) (updates : List ℕ)
      → Live done ps updates
      → undone n done ≤ fuel
      → (ranks' : List Rank) × (rank_loop fuel g
            (record { ranks = ranks; parents = ps; updates = updates })
          ≡ some ranks')
        × (length ranks' ≡ length ranks)
  unfolding rank_loop rank_round
  rank_loop_returns zero done ranks ps [] v h = (ranks, refl, refl)
  rank_loop_returns (suc fuel) done ranks ps [] v h = (ranks, refl, refl)
  rank_loop_returns zero done ranks ps (u ∷ rest) v h =
      let (lt, fresh, _) = v.waiting u (ground arith) in
      absurd (omega (arith, undone_pos n u done lt fresh))
  rank_loop_returns (suc fuel) done ranks ps (u ∷ rest) v h =
      let (lt, fresh, _) = v.waiting u (ground arith) in
      let cs = childs_of g u in
      let (ranks', got, size) =
        rank_loop_returns fuel (λ x. x == u || done x) (raise_childs ranks u cs)
          (release_childs ps u rest cs).0 (release_childs ps u rest cs).1
          (Live-round done ps u rest v) (omega (arith, undone_step n u done lt fresh)) in
      (ranks', got, size ∙ raise_childs-length ranks u cs)

  -- One round for each number is enough, whatever edges the graph has.
  pub graph_ranks_returns :
      (ranks : List Rank) × (graph_ranks n g ≡ some ranks) × (length ranks ≡ n)
  unfolding graph_ranks
  graph_ranks_returns =
      let (distinct, stack) = roots_from_lem n 0 g.parents [] tt (λ x. ground arith) in
      let (ranks, got, size) =
        rank_loop_returns n (λ x. false) (replicate n new_rank) g.parents
          (roots_from n 0 g.parents [])
          (record {
            size = w.parents_size;
            open_parents = λ u c. ground (arith, w.mirror u c);
            waiting = λ x k. ground (arith, stack x);
            distinct = distinct;
            closed = λ u c d e. cc;
          })
          (undone-le n (λ x. false)) in
      (ranks, got, size ∙ length-replicate n new_rank)

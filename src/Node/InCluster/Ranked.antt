-- ===== src/Node/InCluster/Ranked.antt =====
-- The ranks inside the clusters rise along the dependencies.
use prf.Base.{
  ℕ, ◌+◌, ◌<◌, ◌≡◌, ◌∙◌, refl, sym, ap, true, false, inl, inr, some, List, [], arith, length,
  contains, is_empty, Distinct, get_or, replicate, length-replicate, undone-le, u64_mod,
}
use prf.Rank.{Rank, new_rank}
use prf.Node.{Store, empty_graph, parents_of}
use prf.Node.Order.{Acyclic, rank_loop-Sorted, val_zero}
use prf.Node.Edges.{Registered}
use prf.Node.Numbering.{numbering, transpose, at, numbering-IsNumbering}
use prf.Node.InCluster.{in_graph, in_roots, generate_in_cluster_ranks}
use prf.Node.InCluster.Edges.{in_edge-member, in_edge-Comes, nodes-IsGraph}
use prf.Node.InCluster.Placed.{Matches, in_loop-Matches, in_roots_lem}

-- A level for each node that grows along every dependency inside a cluster.
pub record NodesAcyclic (h : Store) (nodes : List ℕ) (level : ℕ → ℕ) : Type 0 where
  pub grows :
      (a d : ℕ)
      → contains a nodes ≡ true
      → contains d (h a).childs ≡ true
      → (h a).cluster_id ≡ (h d).cluster_id
      → level a < level d
  pub bounded : (x : ℕ) → level x + 1 < u64_mod

same_rank : (r s : Rank) → r.value ≡ s.value → r ≡ s
same_rank r s e = ap mk e
  where
    mk : ℕ → Rank
    mk x = record { value = x }

-- One result for all dependencies.
pub generate_in_cluster_ranks_lem :
    (h : Store) (nodes : List ℕ) (level : ℕ → ℕ)
    → Distinct nodes
    → Registered h nodes
    → ((x : ℕ) → contains x nodes ≡ true → (h x).in_cluster_rank.value ≡ 0)
    → NodesAcyclic h nodes level
    → (h' : Store) × (generate_in_cluster_ranks h nodes ≡ some h')
      × ((a d : ℕ)
          → contains a nodes ≡ true
          → contains d (h a).childs ≡ true
          → (h a).cluster_id ≡ (h d).cluster_id
          → (h' a).in_cluster_rank.value < (h' d).in_cluster_rank.value)
      × ((x : ℕ) → ((h' x).cluster_id ≡ (h x).cluster_id) × ((h' x).childs ≡ (h x).childs))
unfolding generate_in_cluster_ranks new_rank
generate_in_cluster_ranks_lem h nodes level distinct reg blank acyclic =
    let number = at (numbering nodes) in
    let node_at = at (transpose (numbering nodes)) in
    let v = numbering-IsNumbering nodes distinct in
    let n = length nodes in
    let g = in_graph h number (empty_graph n) nodes in
    let (w, e) = nodes-IsGraph h number nodes v reg in
    let acyclic' : Acyclic n g (λ x. level (node_at x)) = record {
      grows = λ u c k.
          let comes = in_edge-Comes h number nodes u c (rw e at k) in
          let known = reg comes.source comes.target comes.registered comes.child in
          let at_u : node_at u ≡ comes.source =
            rw (← comes.source_number) (v.back comes.source comes.registered) in
          let at_c : node_at c ≡ comes.target =
            rw (← comes.target_number) (v.back comes.target known) in
          rw (at_u, at_c)
            (acyclic.grows comes.source comes.target comes.registered comes.child
              comes.same_cluster);
      bounded = λ x k. acyclic.bounded (node_at x);
    } in
    let (unique, only, _, all) =
      in_roots_lem nodes number node_at v h g.parents [] nodes distinct tt (λ x k. k)
        (λ x k. refl) in
    let stack = in_roots number g.parents [] nodes in
    let (ranks', got, sorted) =
      rank_loop-Sorted w acyclic' n (λ x. false) (replicate n new_rank) g.parents stack
        (record {
          ranks_size = length-replicate n new_rank;
          parents_size = w.parents_size;
          low = λ x k. omega (arith, val_zero n x);
          open_parents = λ u c. ground (arith, w.mirror u c);
          waiting = λ x k. elim (only x k) [
            | inl none_there ↦ cc
            | inr ((b, kb, at_x), empty) ↦ (rw (← at_x) (v.below b kb), refl, empty)
          ];
          ready = λ x k empty _.
              let (b, kb, at_x) = v.onto x k in
              let empty' : is_empty (parents_of g.parents (number b)) ≡ true = rw at_x empty in
              rw (← at_x) (all b kb empty');
          distinct = unique;
          closed = λ u c k. cc;
          sorted = λ u c k. cc;
        })
        (undone-le n (λ x. false)) in
    let matches : Matches nodes number node_at v h (replicate n new_rank) h = record {
      size = length-replicate n new_rank;
      ranked = λ x k.
          same_rank (get_or (replicate n new_rank) (number x) (record { value = 0 }))
            (h x).in_cluster_rank (val_zero n (number x) ∙ sym (blank x k));
      same_cluster = λ x. refl;
      same_childs = λ x. refl;
    } in
    let (h', done, m) =
      in_loop-Matches nodes number node_at v h n g (replicate n new_rank) ranks' h g.parents stack
        (λ u c k.
          let comes = in_edge-Comes h number nodes u c (rw e at k) in
          (
            comes.target,
            reg comes.source comes.target comes.registered comes.child,
            comes.target_number,
          ))
        matches (λ x k. elim (only x k) [ inl none_there ↦ cc | inr (at_x, empty) ↦ at_x ]) got in
    (
      h',
      done,
      λ a d ka kd same.
          let rises =
            sorted.increases (number a) (number d)
              (e (number a) (number d) ∙ in_edge-member h number nodes a d ka kd same) in
          let below : (h' a).in_cluster_rank.value < (h' d).in_cluster_rank.value =
            rw (← m.ranked a ka, ← m.ranked d (reg a d ka kd)) rises in
          below,
      λ x. (m.same_cluster x, m.same_childs x),
    )

-- Where no node is registered twice, the children of the nodes are registered, all ranks in the nodes
-- are still 0, and the dependencies inside the clusters form no cycle (their levels are below
-- 2 ^ 64 - 1), generate_in_cluster_ranks returns, keeps the clusters and children of all nodes, and
-- gives a node a strictly lower rank than its child in the same cluster.
pub generate_in_cluster_ranks_increase :
    (h : Store) (nodes : List ℕ) (level : ℕ → ℕ) (a d : ℕ)
    → Distinct nodes
    → Registered h nodes
    → ((x : ℕ) → contains x nodes ≡ true → (h x).in_cluster_rank.value ≡ 0)
    → NodesAcyclic h nodes level
    → contains a nodes ≡ true
    → contains d (h a).childs ≡ true
    → (h a).cluster_id ≡ (h d).cluster_id
    → (h' : Store) × (generate_in_cluster_ranks h nodes ≡ some h')
      × ((h' a).in_cluster_rank.value < (h' d).in_cluster_rank.value)
      × ((x : ℕ) → ((h' x).cluster_id ≡ (h x).cluster_id) × ((h' x).childs ≡ (h x).childs))
generate_in_cluster_ranks_increase h nodes level a d distinct reg blank acyclic ka kd same =
    let (h', done, rises, kept) =
      generate_in_cluster_ranks_lem h nodes level distinct reg blank acyclic in
    (h', done, rises a d ka kd same, kept)

-- ===== src/Node/Clusters.antt =====
-- generate_cluster_ranks on the nodes of a program: what it achieves where no dependency stays
-- inside a cluster, and what goes wrong where one does.
use prf.Base.{
  ℕ, zero, suc, ◌+◌, ◌<◌, ◌≡◌, refl, ◌∙◌, true, false, some, List, [], ◌∷◌, arith, u64_mod, length,
  get_or, get_or-set_ne, set, replicate, contains, erase, contains-erase, not-contains_of_is_empty,
}
use prf.Rank.{Rank, new_rank, ensure_after}
use prf.Node.{
  Store, Graph, childs_of, parents_of, empty_graph, cluster_graph, max_cluster_id, raise_childs,
  release_childs, rank_round, rank_loop, roots_from, graph_ranks, generate_cluster_ranks,
}
use prf.Node.Propagate.{val, release_childs_lem}
use prf.Node.Order.{edge, IsGraph, Acyclic, graph_ranks-Sorted, roots_from_parents, val_zero}
use prf.Node.Returns.{graph_ranks_returns}
use prf.Node.Edges.{has_edge, Registered, clusters-IsGraph, has_edge-member}

-- A level for each cluster that grows along every dependency: no dependency stays inside a cluster,
-- and the clusters form no cycle.
pub record ClustersAcyclic (h : Store) (nodes : List ℕ) (level : ℕ → ℕ) : Type 0 where
  pub grows : (u c : ℕ) → has_edge h nodes u c ≡ true → level u < level c
  pub bounded : (x : ℕ) → level x + 1 < u64_mod

-- Where the children of the nodes are registered, every dependency leads to another cluster and the
-- clusters form no cycle (their levels are below 2 ^ 64 - 1), generate_cluster_ranks returns, gives
-- one rank to each cluster ID up to the largest, and gives the cluster of a node a strictly lower
-- rank than the clusters of the node's children.
pub generate_cluster_ranks_increase :
    (h : Store) (nodes : List ℕ) (level : ℕ → ℕ)
    → Registered h nodes
    → ClustersAcyclic h nodes level
    → (ranks : List Rank) × (generate_cluster_ranks h nodes ≡ some ranks)
      × (length ranks ≡ max_cluster_id h 0 nodes + 1)
      × ((a d : ℕ)
          → contains a nodes ≡ true
          → contains d (h a).childs ≡ true
          → val ranks (h a).cluster_id < val ranks (h d).cluster_id)
unfolding generate_cluster_ranks
generate_cluster_ranks_increase h nodes level reg v =
    let (w, e) = clusters-IsGraph h nodes reg in
    let n = max_cluster_id h 0 nodes + 1 in
    let acyclic : Acyclic n (cluster_graph h (empty_graph n) nodes) level = record {
      grows = λ u c k. v.grows u c (ground (arith, e u c));
      bounded = λ x k. v.bounded x;
    } in
    let (ranks, got, s) = graph_ranks-Sorted w acyclic in
    (
      ranks,
      got,
      s.size,
      λ a d k i.
          s.increases (h a).cluster_id (h d).cluster_id
            (ground (arith, e (h a).cluster_id (h d).cluster_id, has_edge-member h nodes a d k i)),
    )

-- Where the children of the nodes are registered, whatever the dependencies are, cycles and
-- dependencies inside a cluster included, generate_cluster_ranks returns and gives one rank to each
-- cluster ID up to the largest.
pub generate_cluster_ranks_returns :
    (h : Store) (nodes : List ℕ)
    → Registered h nodes
    → (ranks : List Rank) × (generate_cluster_ranks h nodes ≡ some ranks)
      × (length ranks ≡ max_cluster_id h 0 nodes + 1)
unfolding generate_cluster_ranks
generate_cluster_ranks_returns h nodes reg = graph_ranks_returns (clusters-IsGraph h nodes reg).0

raise_childs_other :
    (ranks : List Rank) (u x : ℕ) (cs : List ℕ)
    → contains x cs ≡ false
    → val (raise_childs ranks u cs) x ≡ val ranks x
unfolding raise_childs
raise_childs_other ranks u x [] h = refl
raise_childs_other ranks u x (c ∷ cs) h =
    let new =
      (ensure_after (get_or ranks u (record { value = 0 }))
        (get_or ranks c (record { value = 0 }))).1 in
    ground (
      arith,
      raise_childs_other (set ranks c new) u x cs,
      get_or-set_ne ranks c x new (record { value = 0 }),
    )

-- A number `b` with an edge to itself, and a number `c` that only `b` has an edge to.
pub record IsBlocked (g : Graph) (b c : ℕ) : Type 0 where
  pub itself : edge g b b ≡ true
  pub only : (u : ℕ) → edge g u c ≡ true → u ≡ b

module _ {n : ℕ} {g : Graph} (w : IsGraph n g) {b c : ℕ} (k : IsBlocked g b c) where
  -- `b` never enters the stack, so `c` keeps its rank.
  rank_loop_blocked :
      (fuel : ℕ) (ranks : List Rank) (ps : List (List ℕ)) (updates : List ℕ) (ranks' : List Rank)
      → length ps ≡ n
      → contains b (parents_of ps b) ≡ true
      → contains b updates ≡ false
      → val ranks c ≡ 0
      → rank_loop fuel g (record { ranks = ranks; parents = ps; updates = updates }) ≡ some ranks'
      → val ranks' c ≡ 0
  unfolding rank_loop rank_round
  rank_loop_blocked zero ranks ps [] ranks' size held out zero_rank e = ground arith
  rank_loop_blocked (suc fuel) ranks ps [] ranks' size held out zero_rank e = ground arith
  rank_loop_blocked zero ranks ps (u ∷ rest) ranks' size held out zero_rank e = cc
  rank_loop_blocked (suc fuel) ranks ps (u ∷ rest) ranks' size held out zero_rank e =
      let cs = childs_of g u in
      let rel =
        release_childs_lem 0 ps u rest cs (w.ascending u) (λ d i. rw size ((w.in_range u d i).1)) in
      let kept : contains b (erase u (parents_of ps b)) ≡ true =
        ground (arith, contains-erase b u (parents_of ps b)) in
      let not_child : contains c cs ≡ false = ground (arith, k.only u) in
      rank_loop_blocked fuel (raise_childs ranks u cs) (release_childs ps u rest cs).0
        (release_childs ps u rest cs).1 ranks' (rel.size ∙ size) (ground (arith, rel.parents b))
        (ground (arith, rel.stack b, not-contains_of_is_empty b (erase u (parents_of ps b))))
        (raise_childs_other ranks u c cs not_child ∙ zero_rank) e

  graph_ranks_blocked : (ranks : List Rank) → graph_ranks n g ≡ some ranks → val ranks c ≡ 0
  unfolding graph_ranks
  graph_ranks_blocked ranks e =
      let held : contains b (parents_of g.parents b) ≡ true =
        ground (arith, w.mirror b b, k.itself) in
      rank_loop_blocked n (replicate n new_rank) g.parents (roots_from n 0 g.parents []) ranks
        w.parents_size held
        (ground (
          arith,
          roots_from_parents n g.parents b,
          not-contains_of_is_empty b (parents_of g.parents b),
        ))
        (val_zero n c) e

-- Whenever the children of the nodes are registered, a node `a` and its child `d` are in one
-- cluster, and a cluster `c` depends on no other cluster than that one, generate_cluster_ranks
-- returns and leaves `c` at rank 0, so the rank of the cluster of `a` is not below the rank of `c`.
pub generate_cluster_ranks_blocked :
    (h : Store) (nodes : List ℕ) (a d c : ℕ)
    → Registered h nodes
    → contains a nodes ≡ true
    → contains d (h a).childs ≡ true
    → (h d).cluster_id ≡ (h a).cluster_id
    → ((u : ℕ) → has_edge h nodes u c ≡ true → u ≡ (h a).cluster_id)
    → (ranks : List Rank) × (generate_cluster_ranks h nodes ≡ some ranks)
      × (val ranks c ≡ 0)
      × ¬ (val ranks (h a).cluster_id < val ranks c)
unfolding generate_cluster_ranks
generate_cluster_ranks_blocked h nodes a d c reg ka kd same only =
    let (w, e) = clusters-IsGraph h nodes reg in
    let b = (h a).cluster_id in
    let self : has_edge h nodes b b ≡ true = rw same at (has_edge-member h nodes a d ka kd) in
    let n = max_cluster_id h 0 nodes + 1 in
    let blocked : IsBlocked (cluster_graph h (empty_graph n) nodes) b c = record {
      itself = e b b ∙ self;
      only = λ u k. only u (ground (arith, e u c));
    } in
    let (ranks, got, size) = graph_ranks_returns w in
    let low = graph_ranks_blocked w {b = b} {c = c} blocked ranks got in
    (ranks, got, low, omega (arith, low))

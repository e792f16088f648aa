-- ===== src/Node.antt =====
-- src/prf/node.hpp and src/prf/node.cpp: the dependency graph and the ranks that its build assigns.
-- A Node* is an address in a store of nodes. A vector of sets is a list of ascending lists; its
-- reads have a default, which is never seen, since the indices stay below the size.
-- The back of the vector `updates` is the head of its list.
pub mod Propagate
pub mod Order
pub mod Returns
pub mod Edges
pub mod Clusters
pub mod Numbering
pub mod InCluster
pub mod Split
use prf.Base.{
  ℕ, zero, suc, ◌+◌, Bool, true, false, Option, none, some, List, [], ◌∷◌, ◌==◌, ltb, if◌then◌else◌,
  get_or, set, replicate, length, contains, insert, erase, is_empty, find, assign, get_or_default,
}
use prf.Rank.{Rank, new_rank, ensure_after}

pub record Node : Type 0 where
  pub cluster_id : ℕ
  pub in_cluster_rank : Rank
  pub node_id : ℕ
  pub childs : List ℕ
  pub loop_childs : List ℕ
  pub same_clusters : List ℕ

-- Node::Node, with the ID that next_node_id gives.
unfoldable pub new_node : ℕ → ℕ → Node
unfolding new_rank
new_node cluster_id node_id = record {
  cluster_id = cluster_id;
  in_cluster_rank = new_rank;
  node_id = node_id;
  childs = [];
  loop_childs = [];
  same_clusters = [];
}

abbrev pub Store : Type 0
Store = ℕ → Node

abbrev pub update : Store → ℕ → Node → Store
update h a n b = if b == a then n else h b

-- push_back
abbrev pub push_back : List ℕ → ℕ → List ℕ
push_back [] a = a ∷ []
push_back (x ∷ xs) a = x ∷ push_back xs a

-- self->link_to(other)
unfoldable pub link_to : Store → ℕ → ℕ → Store
link_to h self other = update h self (record (h self) { childs = push_back (h self).childs other })

-- self->loop_child_to(other); `none` is the exit on a loop across clusters.
unfoldable pub loop_child_to : Store → ℕ → ℕ → Option Store
loop_child_to h self other =
    let h1 =
      update h self (record (h self) { same_clusters = push_back (h self).same_clusters other }) in
    let h2 =
      update h1 other
        (record (h1 other) { same_clusters = push_back (h1 other).same_clusters self }) in
    let h3 =
      update h2 self (record (h2 self) { loop_childs = push_back (h2 self).loop_childs other }) in
    if (h self).cluster_id == (h other).cluster_id then some h3 else none

-- The sets of children and parents by number.
pub record Graph : Type 0 where
  pub childs : List (List ℕ)
  pub parents : List (List ℕ)

abbrev pub childs_of : Graph → ℕ → List ℕ
childs_of g u = get_or g.childs u []

abbrev pub parents_of : List (List ℕ) → ℕ → List ℕ
parents_of ps c = get_or ps c []

-- parents[child].insert(parent); childs[parent].insert(child);
unfoldable pub add_edge : Graph → ℕ → ℕ → Graph
add_edge g u c = record {
  childs = set g.childs u (insert c (childs_of g u));
  parents = set g.parents c (insert u (parents_of g.parents c));
}

abbrev pub empty_graph : ℕ → Graph
empty_graph n = record { childs = replicate n []; parents = replicate n [] }

-- The loop of generate_cluster_ranks over the children of one node: no edge is left out.
unfoldable pub add_cluster_edges : Store → Graph → ℕ → List ℕ → Graph
unfolding add_edge
add_cluster_edges h g this_id [] = g
add_cluster_edges h g this_id (c ∷ cs) =
    add_cluster_edges h (add_edge g this_id (h c).cluster_id) this_id cs

-- The loop of generate_cluster_ranks over the nodes.
unfoldable pub cluster_graph : Store → Graph → List ℕ → Graph
unfolding add_cluster_edges
cluster_graph h g [] = g
cluster_graph h g (a ∷ nodes) =
    cluster_graph h (add_cluster_edges h g (h a).cluster_id (h a).childs) nodes

abbrev pub max : ℕ → ℕ → ℕ
max a b = if ltb a b then b else a

abbrev pub max_cluster_id : Store → ℕ → List ℕ → ℕ
max_cluster_id h m [] = m
max_cluster_id h m (a ∷ nodes) = max_cluster_id h (max m (h a).cluster_id) nodes

-- What the loop `while (not updates.empty())` works on.
pub record Ranking : Type 0 where
  pub ranks : List Rank
  pub parents : List (List ℕ)
  pub updates : List ℕ

-- The first inner loop: ranks[u].ensure_after(ranks[c]).
unfoldable pub raise_childs : List Rank → ℕ → List ℕ → List Rank
raise_childs ranks u [] = ranks
raise_childs ranks u (c ∷ cs) =
    raise_childs
      (set ranks c
        (ensure_after (get_or ranks u (record { value = 0 }))
          (get_or ranks c (record { value = 0 }))).1)
      u cs

-- The second inner loop: the edge from `u` is taken away.
unfoldable pub release_childs : List (List ℕ) → ℕ → List ℕ → List ℕ → List (List ℕ) × List ℕ
release_childs ps u updates [] = (ps, updates)
release_childs ps u updates (c ∷ cs) =
    let left = erase u (parents_of ps c) in
    release_childs (set ps c left) u (if is_empty left then c ∷ updates else updates) cs

-- One round, for the node `u` taken off the stack.
unfoldable pub rank_round : Graph → List Rank → List (List ℕ) → ℕ → List ℕ → Ranking
unfolding raise_childs release_childs
rank_round g ranks ps u rest =
    let (ps', updates) = release_childs ps u rest (childs_of g u) in
    record { ranks = raise_childs ranks u (childs_of g u); parents = ps'; updates = updates }

-- The loop; `none` is fuel that does not suffice.
unfoldable pub rank_loop : ℕ → Graph → Ranking → Option (List Rank)
unfolding rank_round
rank_loop zero g r = elim r.updates [ [] ↦ some r.ranks | u ∷ rest ↦ none ]
rank_loop (suc fuel) g r = elim r.updates [
  | [] ↦ some r.ranks
  | u ∷ rest ↦ rank_loop fuel g (rank_round g r.ranks r.parents u rest)
]

-- for (ID i = ...; i < n; ++i) if (parents[i].empty()) updates.push_back(i);
unfoldable pub roots_from : ℕ → ℕ → List (List ℕ) → List ℕ → List ℕ
roots_from zero i ps updates = updates
roots_from (suc k) i ps updates =
    roots_from k (i + 1) ps (if is_empty (parents_of ps i) then i ∷ updates else updates)

-- The ranks of a graph with `n` numbers, from ranks of 0.
unfoldable pub graph_ranks : ℕ → Graph → Option (List Rank)
unfolding roots_from rank_loop new_rank
graph_ranks n g = rank_loop n g (record {
  ranks = replicate n new_rank;
  parents = g.parents;
  updates = roots_from n 0 g.parents [];
})

-- NodeManager::generate_cluster_ranks. Cluster IDs are numbered from 0, far below 2 ^ 64, so that
-- max_id + 1 does not wrap.
unfoldable pub generate_cluster_ranks : Store → List ℕ → Option (List Rank)
unfolding cluster_graph graph_ranks
generate_cluster_ranks h nodes =
    let n = max_cluster_id h 0 nodes + 1 in graph_ranks n (cluster_graph h (empty_graph n) nodes)

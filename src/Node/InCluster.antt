-- ===== src/Node/InCluster.antt =====
-- NodeManager::generate_in_cluster_ranks: the ranks of the nodes inside their clusters, which stand
-- in the nodes themselves.
pub mod Edges
pub mod Placed
pub mod Ranked
use prf.Base.{
  ℕ, zero, suc, Option, none, some, List, [], ◌∷◌, ◌==◌, if◌then◌else◌, length, is_empty,
}
use prf.Rank.{ensure_after}
use prf.Node.{
  Node, Store, update, Graph, childs_of, parents_of, add_edge, empty_graph, release_childs,
}
use prf.Node.Numbering.{numbering, transpose, at}

-- The loop over the children of one node: an edge to another cluster is left out.
unfoldable pub add_in_edges : Store → (ℕ → ℕ) → Graph → ℕ → List ℕ → Graph
unfolding add_edge
add_in_edges h number g parent [] = g
add_in_edges h number g parent (child ∷ childs) =
    let g' : Graph =
      if (h parent).cluster_id == (h child).cluster_id
      then add_edge g (number parent) (number child)
      else g in
    add_in_edges h number g' parent childs

-- The loop over the nodes.
unfoldable pub in_graph : Store → (ℕ → ℕ) → Graph → List ℕ → Graph
unfolding add_in_edges
in_graph h number g [] = g
in_graph h number g (a ∷ nodes) = in_graph h number (add_in_edges h number g a (h a).childs) nodes

-- for (Node *node : nodes) if (parents[node_id].empty()) updates.push_back(node_id);
unfoldable pub in_roots : (ℕ → ℕ) → List (List ℕ) → List ℕ → List ℕ → List ℕ
in_roots number ps updates [] = updates
in_roots number ps updates (a ∷ nodes) =
    in_roots number ps (if is_empty (parents_of ps (number a)) then number a ∷ updates else updates)
      nodes

-- The first inner loop, on the ranks in the nodes.
unfoldable pub raise_nodes : Store → (ℕ → ℕ) → ℕ → List ℕ → Store
raise_nodes h node_at u [] = h
raise_nodes h node_at u (c ∷ cs) =
    let child = h (node_at c) in
    raise_nodes
      (update h (node_at c) (record child {
        in_cluster_rank = (ensure_after (h (node_at u)).in_cluster_rank child.in_cluster_rank).1;
      }))
      node_at u cs

-- What the loop `while (not updates.empty())` works on.
pub record Placing : Type 0 where
  pub store : Store
  pub parents : List (List ℕ)
  pub updates : List ℕ

-- The loop; `none` is fuel that does not suffice.
unfoldable pub in_loop : ℕ → Graph → (ℕ → ℕ) → Placing → Option Store
unfolding raise_nodes release_childs
in_loop zero g node_at p = elim p.updates [ [] ↦ some p.store | u ∷ rest ↦ none ]
in_loop (suc fuel) g node_at p = elim p.updates [
  | [] ↦ some p.store
  | u ∷ rest ↦
      let (ps', updates') = release_childs p.parents u rest (childs_of g u) in
      in_loop fuel g node_at (record {
        store = raise_nodes p.store node_at u (childs_of g u);
        parents = ps';
        updates = updates';
      })
]

-- NodeManager::generate_in_cluster_ranks
unfoldable pub generate_in_cluster_ranks : Store → List ℕ → Option Store
unfolding numbering transpose in_graph in_roots in_loop
generate_in_cluster_ranks h nodes =
    let number = at (numbering nodes) in
    let node_at = at (transpose (numbering nodes)) in
    let g = in_graph h number (empty_graph (length nodes)) nodes in
    in_loop (length nodes) g node_at
      (record { store = h; parents = g.parents; updates = in_roots number g.parents [] nodes })

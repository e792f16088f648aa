-- ===== src/Node/Split.antt =====
-- NodeManager::split_cluster_by_associates: nodes get new clusters by what they are associated with.
-- Names of clusters serve logging only and are left out.
pub mod Together
pub mod Assigned
use prf.Base.{
  ℕ, Bool, not, Option, none, some, List, [], ◌∷◌, ◌==◌, ◌&&◌, if◌then◌else◌, ◌>>=◌, length,
}
use prf.UnionFind.{UnionFind, new_union_find, get_parent, merge}
use prf.Transaction.{unmanaged_cluster_id}
use prf.Node.{Node, Store, update}
use prf.Node.Numbering.{numbering, at}

-- The loop over the children of one node: a child in another cluster is left alone.
unfoldable pub merge_childs : Store → (ℕ → ℕ) → UnionFind → ℕ → List ℕ → Option UnionFind
merge_childs h number uf parent [] = some uf
merge_childs h number uf parent (child ∷ childs) = do
  uf' ←
      if (h parent).cluster_id == (h child).cluster_id
      then merge uf (number parent) (number child)
      else some uf
  merge_childs h number uf' parent childs

unfoldable pub merge_links : Store → (ℕ → ℕ) → UnionFind → List ℕ → Option UnionFind
unfolding merge_childs
merge_links h number uf [] = some uf
merge_links h number uf (parent ∷ nodes) = do
  uf' ← merge_childs h number uf parent (h parent).childs
  merge_links h number uf' nodes

unfoldable pub merge_same : (ℕ → ℕ) → UnionFind → ℕ → List ℕ → Option UnionFind
merge_same number uf a [] = some uf
merge_same number uf a (b ∷ bs) = do
  uf' ← merge uf (number a) (number b)
  merge_same number uf' a bs

unfoldable pub merge_sames : Store → (ℕ → ℕ) → UnionFind → List ℕ → Option UnionFind
unfolding merge_same
merge_sames h number uf [] = some uf
merge_sames h number uf (a ∷ nodes) = do
  uf' ← merge_same number uf a (h a).same_clusters
  merge_sames h number uf' nodes

-- The loop over the sinks, once the first of them is found.
unfoldable pub merge_sinks : Store → (ℕ → ℕ) → UnionFind → ℕ → List ℕ → Option UnionFind
merge_sinks h number uf sink [] = some uf
merge_sinks h number uf sink (a ∷ nodes) = do
  uf' ←
      if (h a).cluster_id == unmanaged_cluster_id
      then merge uf (number a) (number sink)
      else some uf
  merge_sinks h number uf' sink nodes

-- The loop over the sinks: the sink_node, and the nodes after it are merged with it.
unfoldable pub find_sink : Store → (ℕ → ℕ) → UnionFind → List ℕ → Option (UnionFind × Option ℕ)
unfolding merge_sinks
find_sink h number uf [] = some (uf, none)
find_sink h number uf (a ∷ nodes) =
    let found = (do uf' ← merge_sinks h number uf a nodes; some (uf', some a)) in
    let rest = find_sink h number uf nodes in
    if (h a).cluster_id == unmanaged_cluster_id then found else rest

-- unionfind_ids
unfoldable pub collect_ids : UnionFind → List (ℕ × ℕ) → Option (List ℕ × UnionFind)
collect_ids uf [] = some ([], uf)
collect_ids uf ((key, value) ∷ m) = do
  (r, uf') ← get_parent uf value
  (ids, uf'') ← collect_ids uf' m
  some (r ∷ ids, uf'')

-- The loop that gives every node its cluster.
unfoldable pub assign_clusters : (ℕ → ℕ) → List (ℕ × ℕ) → Store → UnionFind → List ℕ → Option Store
assign_clusters number ids h uf [] = some h
assign_clusters number ids h uf (a ∷ nodes) = do
  (r, uf') ← get_parent uf (number a)
  assign_clusters number ids (update h a (record (h a) { cluster_id = at ids r })) uf' nodes

-- fixed_id
abbrev pub fixed : ℕ → ℕ → ℕ
fixed sink_id id =
    if id == sink_id
    then unmanaged_cluster_id
    else if id == unmanaged_cluster_id
    then sink_id
    else id

unfoldable pub swap_clusters : ℕ → Store → List ℕ → Store
swap_clusters sink_id h [] = h
swap_clusters sink_id h (a ∷ nodes) =
    swap_clusters sink_id
      (update h a (record (h a) { cluster_id = fixed sink_id (h a).cluster_id })) nodes

-- The sinks get the unmanaged cluster, and the nodes that had it get theirs.
unfoldable pub settle : Option ℕ → Store → List ℕ → Store
unfolding swap_clusters
settle none h nodes = h
settle (some sink) h nodes =
    if (h sink).cluster_id == unmanaged_cluster_id
    then h
    else swap_clusters (h sink).cluster_id h nodes

unfoldable pub split_cluster_by_associates : Store → List ℕ → Option Store
unfolding numbering merge_links merge_sames find_sink collect_ids assign_clusters settle
split_cluster_by_associates h nodes = do
  let numbers = numbering nodes
  let number = at numbers
  uf1 ← merge_links h number (new_union_find (length numbers)) nodes
  uf2 ← merge_sames h number uf1 nodes
  (uf3, sink) ← find_sink h number uf2 nodes
  (ids, uf4) ← collect_ids uf3 numbers
  h' ← assign_clusters number (numbering ids) h uf4 nodes
  some (settle sink h' nodes)

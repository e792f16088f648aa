-- ===== src/Tests/Graphs.antt =====
-- Runs of src/prf/rank.cpp, src/prf/union_find.cpp and src/prf/node.cpp on concrete data.
use prf.Base.{
  ℕ, zero, suc, ◌+◌, ◌≤◌, ◌<◌, ◌≡◌, ◌⊎◌, ◌↔◌, refl, Bool, true, not, some, List, [], ◌∷◌, arith,
  ◌==◌, length, contains, if◌then◌else◌,
}
use prf.Rank.{Rank, rank_lt, ensure_after, ensure_after_lem}
use prf.UnionFind.{UnionFind, new_union_find, is_same}
use prf.UnionFind.Classes.{merge_all, Connected, is_same-Connected}
use prf.Node.{Node, Store, max_cluster_id, generate_cluster_ranks}
use prf.Node.Propagate.{val}
use prf.Node.Edges.{Registered}
use prf.Node.Clusters.{
  ClustersAcyclic, generate_cluster_ranks_increase, generate_cluster_ranks_returns,
  generate_cluster_ranks_blocked,
}

abbrev rank_3 : Rank
rank_3 = record { value = 3 }

ensure_after-lem_example :
    (rank_lt rank_3 (ensure_after rank_3 rank_3).1 ≡ true)
    × (rank_3.value ≤ (ensure_after rank_3 rank_3).1.value)
    × (((ensure_after rank_3 rank_3).1.value ≡ rank_3.value)
        ⊎ ((ensure_after rank_3 rank_3).1.value ≡ rank_3.value + 1))
    × ((ensure_after rank_3 rank_3).0 ≡ not (rank_3.value == (ensure_after rank_3 rank_3).1.value))
ensure_after-lem_example = ensure_after_lem rank_3 rank_3 (omega arith)

abbrev pairs : List (ℕ × ℕ)
pairs = (0, 1) ∷ (2, 3) ∷ (1, 3) ∷ []

is_same-Connected_example :
    (uf uf' : UnionFind) × (b : Bool) × (merge_all (new_union_find 5) pairs ≡ some uf)
    × (is_same uf 0 2 ≡ some (b, uf'))
    × ((b ≡ true) ↔ Connected pairs 0 2)
is_same-Connected_example =
    is_same-Connected 5 pairs 0 2
      (omega arith, omega arith, (omega arith, omega arith, (omega arith, omega arith, tt)))
      (omega arith) (omega arith)

-- Two nodes of cluster 0 before one of cluster 1.
abbrev two_clusters : Store
two_clusters zero = record {
  cluster_id = 0;
  in_cluster_rank = rank_3;
  node_id = 0;
  childs = 2 ∷ [];
  loop_childs = [];
  same_clusters = [];
}
two_clusters (suc zero) = record {
  cluster_id = 0;
  in_cluster_rank = rank_3;
  node_id = 1;
  childs = 2 ∷ [];
  loop_childs = [];
  same_clusters = [];
}
two_clusters (suc (suc n)) = record {
  cluster_id = 1;
  in_cluster_rank = rank_3;
  node_id = 2;
  childs = [];
  loop_childs = [];
  same_clusters = [];
}

abbrev all_nodes : List ℕ
all_nodes = 0 ∷ 1 ∷ 2 ∷ []

two_clusters-Registered : Registered two_clusters all_nodes
two_clusters-Registered zero d k i = ground arith
two_clusters-Registered (suc zero) d k i = ground arith
two_clusters-Registered (suc (suc a)) d k i = cc

abbrev level_of : ℕ → ℕ
level_of c = if c == 0 then 0 else 1

two_clusters-ClustersAcyclic : ClustersAcyclic two_clusters all_nodes level_of
two_clusters-ClustersAcyclic = record { grows = λ u c h. ground arith; bounded = λ x. ground arith }

generate_cluster_ranks_increase_example :
    (ranks : List Rank) × (generate_cluster_ranks two_clusters all_nodes ≡ some ranks)
    × (length ranks ≡ max_cluster_id two_clusters 0 all_nodes + 1)
    × ((a d : ℕ)
        → contains a all_nodes ≡ true
        → contains d (two_clusters a).childs ≡ true
        → val ranks (two_clusters a).cluster_id < val ranks (two_clusters d).cluster_id)
generate_cluster_ranks_increase_example =
    generate_cluster_ranks_increase two_clusters all_nodes level_of two_clusters-Registered
      two_clusters-ClustersAcyclic

-- A node of cluster 0, two nodes of cluster 1 that are linked, and a node of cluster 2: a chain.
abbrev chain_of : ℕ → ℕ → List ℕ → Node
chain_of id cluster childs = record {
  cluster_id = cluster;
  in_cluster_rank = rank_3;
  node_id = id;
  childs = childs;
  loop_childs = [];
  same_clusters = [];
}

abbrev chain : Store
chain zero = chain_of 0 0 (1 ∷ [])
chain (suc zero) = chain_of 1 1 (2 ∷ [])
chain (suc (suc zero)) = chain_of 2 1 (3 ∷ [])
chain (suc (suc (suc n))) = chain_of 3 2 []

abbrev chain_nodes : List ℕ
chain_nodes = 0 ∷ 1 ∷ 2 ∷ 3 ∷ []

chain-Registered : Registered chain chain_nodes
chain-Registered zero d k i = ground arith
chain-Registered (suc zero) d k i = ground arith
chain-Registered (suc (suc zero)) d k i = ground arith
chain-Registered (suc (suc (suc a))) d k i = cc

generate_cluster_ranks_returns_example :
    (ranks : List Rank) × (generate_cluster_ranks chain chain_nodes ≡ some ranks)
    × (length ranks ≡ max_cluster_id chain 0 chain_nodes + 1)
generate_cluster_ranks_returns_example =
    generate_cluster_ranks_returns chain chain_nodes chain-Registered

generate_cluster_ranks_blocked_example :
    (ranks : List Rank) × (generate_cluster_ranks chain chain_nodes ≡ some ranks)
    × (val ranks 2 ≡ 0)
    × ¬ (val ranks 1 < val ranks 2)
generate_cluster_ranks_blocked_example =
    generate_cluster_ranks_blocked chain chain_nodes 1 2 2 chain-Registered refl refl refl
      (λ u h. ground arith)

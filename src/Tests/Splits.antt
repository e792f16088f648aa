-- ===== src/Tests/Splits.antt =====
-- A run of split_cluster_by_associates of src/prf/node.cpp.
use prf.Base.{ℕ, ◌≡◌, ◌↔◌, refl, some, List, [], ◌∷◌, arith, ◌==◌, if◌then◌else◌}
use prf.UnionFind.Classes.{Connected}
use prf.Node.{Store}
use prf.Node.Edges.{Registered}
use prf.Node.Numbering.{numbering, at}
use prf.Node.Split.{split_cluster_by_associates}
use prf.Node.Split.Assigned.{SamesRegistered, associates, split_cluster_by_associates-Connected}

-- A node at 4 in cluster 1 with a child at 6 in its cluster, a node at 8 there by itself, and two
-- sinks.
abbrev program : Store
program p = record {
  cluster_id = if p == 2 then 0 else if p == 3 then 0 else 1;
  in_cluster_rank = record { value = 0 };
  node_id = p;
  childs = if p == 4 then 6 ∷ [] else if p == 2 then 4 ∷ [] else [];
  loop_childs = [];
  same_clusters = [];
}

abbrev program_nodes : List ℕ
program_nodes = 4 ∷ 2 ∷ 8 ∷ 3 ∷ 6 ∷ []

program-Registered : Registered program program_nodes
program-Registered a d k i = ground arith

program-SamesRegistered : SamesRegistered program program_nodes
program-SamesRegistered a d k i = cc

split_cluster_by_associates-Connected_example :
    (h' : Store) × (split_cluster_by_associates program program_nodes ≡ some h')
    × (((h' 4).cluster_id ≡ (h' 6).cluster_id)
        ↔ Connected
            (associates program program_nodes)
            (at (numbering program_nodes) 4)
            (at (numbering program_nodes) 6))
split_cluster_by_associates-Connected_example =
    split_cluster_by_associates-Connected program program_nodes 4 6
      (refl, (refl, (refl, (refl, (refl, tt))))) program-Registered program-SamesRegistered refl
      refl

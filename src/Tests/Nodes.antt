-- ===== src/Tests/Nodes.antt =====
-- Runs of generate_in_cluster_ranks of src/prf/node.cpp, of numbering of src/prf/utils.hpp and of the
-- wiring of src/prf/time_invariant_values.cpp.
use prf.Base.{
  ℕ, ◌<◌, ◌≡◌, ◌↔◌, refl, some, List, [], ◌∷◌, arith, ◌==◌, find, if◌then◌else◌, true, contains,
}
use prf.Node.{Store, new_node, link_to}
use prf.Rank.{new_rank}
use prf.Transaction.Run.{Rising}
use prf.Wiring.{Wiring, construct, listen, child_to}
use prf.Wiring.Ranked.{
  Wired, empty, constructs, listens, childs, reclustered, network_of,
  generate_in_cluster_ranks-Rising,
}
use prf.Node.Edges.{Registered}
use prf.Node.Numbering.{numbering, transpose, transpose-numbering}
use prf.Node.InCluster.{generate_in_cluster_ranks}
use prf.Node.InCluster.Ranked.{NodesAcyclic, generate_in_cluster_ranks_increase}

-- Nodes at 7, 5 and 3 of one cluster: 7 has the children 3 and 5, and 5 has the child 3.
abbrev childs_at : ℕ → List ℕ
childs_at p = if p == 7 then 3 ∷ 5 ∷ [] else if p == 5 then 3 ∷ [] else []

abbrev triangle : Store
triangle p = record {
  cluster_id = 1;
  in_cluster_rank = record { value = 0 };
  node_id = p;
  childs = childs_at p;
  loop_childs = [];
  same_clusters = [];
}

abbrev triangle_nodes : List ℕ
triangle_nodes = 7 ∷ 5 ∷ 3 ∷ []

abbrev level_of : ℕ → ℕ
level_of p = if p == 7 then 0 else if p == 5 then 1 else 2

triangle-Registered : Registered triangle triangle_nodes
triangle-Registered a d k i = ground arith

triangle-NodesAcyclic : NodesAcyclic triangle triangle_nodes level_of
triangle-NodesAcyclic = record { grows = λ a d k i same. ground arith; bounded = λ x. ground arith }

generate_in_cluster_ranks_increase_example :
    (h' : Store) × (generate_in_cluster_ranks triangle triangle_nodes ≡ some h')
    × ((h' 5).in_cluster_rank.value < (h' 3).in_cluster_rank.value)
    × ((x : ℕ)
        → ((h' x).cluster_id ≡ (triangle x).cluster_id) × ((h' x).childs ≡ (triangle x).childs))
generate_in_cluster_ranks_increase_example =
    generate_in_cluster_ranks_increase triangle triangle_nodes level_of 5 3
      (refl, (refl, (refl, tt))) triangle-Registered (λ x k. refl) triangle-NodesAcyclic refl refl
      refl

transpose-numbering_example :
    (find 5 (numbering triangle_nodes) ≡ some 1)
    ↔ (find 1 (transpose (numbering triangle_nodes)) ≡ some 5)
transpose-numbering_example = transpose-numbering triangle_nodes 5 1

-- A value at 5 that listens to one at 2 and has another parent at 4.
abbrev wired : (w : Wiring) × Wired w
unfolding construct listen child_to new_node new_rank
wired =
    let w1 = constructs 2 0 0 (empty (new_node 0)) refl in
    let w2 = constructs 5 0 1 w1 refl in
    let w3 = constructs 4 0 2 w2 refl in
    let w4 = listens 5 2 w3 refl refl in let w5 = childs 5 4 w4 refl refl in (_, w5)

abbrev wired_level : ℕ → ℕ
wired_level p = if p == 5 then 1 else 0

wired-NodesAcyclic :
    NodesAcyclic (reclustered (λ p. 1) wired.0.nodes) wired.0.registered wired_level
unfolding construct listen child_to new_node new_rank link_to
wired-NodesAcyclic = record { grows = λ a d k i same. ground arith; bounded = λ x. ground arith }

wired_low : (x : ℕ) → contains x wired.0.registered ≡ true → x < 6
unfolding construct listen child_to new_node new_rank link_to
wired_low x k = ground arith

generate_in_cluster_ranks-Rising_example :
    (h' : Store) × (generate_in_cluster_ranks
        (reclustered (λ p. 1) wired.0.nodes)
        wired.0.registered
      ≡ some h')
    × Rising (network_of h' wired.0.listeners) 1 6
generate_in_cluster_ranks-Rising_example =
    generate_in_cluster_ranks-Rising wired.0 (λ p. 1) wired_level 6 1 wired.1 wired-NodesAcyclic
      wired_low

-- ===== src/Node/InCluster/Edges.antt =====
-- The graph of one cluster's nodes that generate_in_cluster_ranks collects.
use prf.Base.{
  ℕ, ◌<◌, ◌≡◌, refl, Bool, true, false, inl, inr, ◌&&◌, ◌||◌, List, [], ◌∷◌, arith, ◌==◌, length,
  contains, Bool-cases,
}
use prf.Node.{Store, Graph, add_edge, empty_graph}
use prf.Node.Order.{edge, IsGraph}
use prf.Node.Edges.{add_edge-IsGraph, empty_graph-IsGraph, Registered}
use prf.Node.Numbering.{IsNumbering}
use prf.Node.InCluster.{add_in_edges, in_graph}

module _ (h : Store) (number : ℕ → ℕ) where
  -- Does the node have a child with the number `y` in its cluster?
  abbrev pub in_child : ℕ → List ℕ → ℕ → Bool
  in_child a [] y = false
  in_child a (d ∷ ds) y = ((h a).cluster_id == (h d).cluster_id && y == number d) || in_child a ds y

  abbrev pub in_edge : List ℕ → ℕ → ℕ → Bool
  in_edge [] x y = false
  in_edge (a ∷ nodes) x y = (x == number a && in_child a (h a).childs y) || in_edge nodes x y

  add_in_edges-IsGraph :
      {n : ℕ} {g : Graph} (a : ℕ) (ds : List ℕ)
      → IsGraph n g
      → number a < n
      → ((d : ℕ) → contains d ds ≡ true → number d < n)
      → IsGraph n (add_in_edges h number g a ds)
        × ((x y : ℕ)
            → edge (add_in_edges h number g a ds) x y
              ≡ ((x == number a && in_child a ds y) || edge g x y))
  unfolding add_in_edges
  add_in_edges-IsGraph {n} {g} a [] w ha all = (w, λ x y. ground arith)
  add_in_edges-IsGraph {n} {g} a (d ∷ ds) w ha all =
      elim (Bool-cases ((h a).cluster_id == (h d).cluster_id)) [
        | inl inside ↦ rw inside (
            let (w1, e1) = add_edge-IsGraph (number a) (number d) w ha (all d (ground arith)) in
            let (w2, e2) =
              add_in_edges-IsGraph {n = n} {g = add_edge g (number a) (number d)} a ds w1 ha
                (λ x k. all x (ground arith)) in
            (w2, λ x y. ground (arith, e1 x y, e2 x y)))
        | inr outside ↦ rw outside (
            let (w2, e2) =
              add_in_edges-IsGraph {n = n} {g = g} a ds w ha (λ x k. all x (ground arith)) in
            (w2, λ x y. ground (arith, e2 x y)))
      ]

  in_graph-IsGraph :
      {n : ℕ} {g : Graph} (nodes : List ℕ)
      → IsGraph n g
      → ((a : ℕ) → contains a nodes ≡ true → number a < n)
      → ((a d : ℕ) → contains a nodes ≡ true → contains d (h a).childs ≡ true → number d < n)
      → IsGraph n (in_graph h number g nodes)
        × ((x y : ℕ) → edge (in_graph h number g nodes) x y ≡ (in_edge nodes x y || edge g x y))
  unfolding in_graph
  in_graph-IsGraph {n} {g} [] w all childs = (w, λ x y. refl)
  in_graph-IsGraph {n} {g} (a ∷ nodes) w all childs =
      let (w1, e1) =
        add_in_edges-IsGraph {n = n} {g = g} a (h a).childs w (all a (ground arith))
          (λ d k. childs a d (ground arith) k) in
      let (w2, e2) =
        in_graph-IsGraph {n = n} {g = add_in_edges h number g a (h a).childs} nodes w1
          (λ x k. all x (ground arith)) (λ x d k i. childs x d (ground arith) i) in
      (w2, λ x y. ground (arith, e1 x y, e2 x y))

  in_child-member :
      (a d : ℕ) (ds : List ℕ)
      → contains d ds ≡ true
      → (h a).cluster_id ≡ (h d).cluster_id
      → in_child a ds (number d) ≡ true
  in_child-member a d [] k same = cc
  in_child-member a d (b ∷ ds) k same = elim (Bool-cases (d == b)) [
    | inl here ↦ let e : d ≡ b = ground arith in rw (← e) (ground (arith, same))
    | inr there ↦ ground (arith, in_child-member a d ds (ground arith) same)
  ]

  pub in_edge-member :
      (nodes : List ℕ) (a d : ℕ)
      → contains a nodes ≡ true
      → contains d (h a).childs ≡ true
      → (h a).cluster_id ≡ (h d).cluster_id
      → in_edge nodes (number a) (number d) ≡ true
  in_edge-member [] a d k i same = cc
  in_edge-member (b ∷ nodes) a d k i same = elim (Bool-cases (a == b)) [
    | inl here ↦
        let e : a ≡ b = ground arith in
        rw (← e) (ground (arith, in_child-member a d (h a).childs i same))
    | inr there ↦ ground (arith, in_edge-member nodes a d (ground arith) i same)
  ]

  -- An edge comes from a node and its child.
  pub record Comes (nodes : List ℕ) (x y : ℕ) : Type 0 where
    pub source : ℕ
    pub target : ℕ
    pub registered : contains source nodes ≡ true
    pub child : contains target (h source).childs ≡ true
    pub same_cluster : (h source).cluster_id ≡ (h target).cluster_id
    pub source_number : number source ≡ x
    pub target_number : number target ≡ y

  in_child-Comes :
      (a y : ℕ) (ds : List ℕ)
      → in_child a ds y ≡ true
      → (d : ℕ) × (contains d ds ≡ true) × ((h a).cluster_id ≡ (h d).cluster_id) × (number d ≡ y)
  in_child-Comes a y [] e = cc
  in_child-Comes a y (d ∷ ds) e =
      elim (Bool-cases ((h a).cluster_id == (h d).cluster_id && y == number d)) [
        | inl here ↦ (d, ground arith, ground arith, ground arith)
        | inr there ↦
            let (b, k, same, at) = in_child-Comes a y ds (ground arith) in
            (b, ground arith, same, at)
      ]

  pub in_edge-Comes : (nodes : List ℕ) (x y : ℕ) → in_edge nodes x y ≡ true → Comes nodes x y
  in_edge-Comes [] x y e = cc
  in_edge-Comes (a ∷ nodes) x y e = elim (Bool-cases (x == number a && in_child a (h a).childs y)) [
    | inl here ↦
        let (d, k, same, at) = in_child-Comes a y (h a).childs (ground arith) in
        record {
          source = a;
          target = d;
          registered = ground arith;
          child = k;
          same_cluster = same;
          source_number = ground arith;
          target_number = at;
        }
    | inr there ↦
        let c = in_edge-Comes nodes x y (ground arith) in
        record {
          source = c.source;
          target = c.target;
          registered = ground (arith, c.registered);
          child = c.child;
          same_cluster = c.same_cluster;
          source_number = c.source_number;
          target_number = c.target_number;
        }
  ]

  pub nodes-IsGraph :
      {node_at : ℕ → ℕ} (nodes : List ℕ)
      → IsNumbering nodes number node_at
      → Registered h nodes
      → IsGraph (length nodes) (in_graph h number (empty_graph (length nodes)) nodes)
        × ((x y : ℕ)
            → edge (in_graph h number (empty_graph (length nodes)) nodes) x y ≡ in_edge nodes x y)
  nodes-IsGraph nodes v reg =
      let (w0, none_at) = empty_graph-IsGraph (length nodes) in
      let (w, e) = in_graph-IsGraph nodes w0 v.below (λ a d k i. v.below d (reg a d k i)) in
      (w, λ x y. ground (arith, e x y, none_at x y))

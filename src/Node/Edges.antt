-- ===== src/Node/Edges.antt =====
-- The graph of clusters that generate_cluster_ranks collects from the nodes.
use prf.Base.{
  ℕ, zero, suc, ◌+◌, ◌≤◌, ◌<◌, ◌≡◌, refl, Bool, true, false, ◌&&◌, ◌||◌, List, [], ◌∷◌, arith, ◌==◌,
  get_or, set, length-set, get_or-set, replicate, length-replicate, contains, insert,
  contains-insert, Ascending-insert, Bool-cases, inl, inr,
}
use prf.Node.{
  Store, Graph, childs_of, parents_of, add_edge, empty_graph, add_cluster_edges, cluster_graph, max,
  max_cluster_id,
}
use prf.Node.Order.{edge, IsGraph}

pub add_edge-IsGraph :
    {n : ℕ} {g : Graph} (u c : ℕ)
    → IsGraph n g
    → u < n
    → c < n
    → IsGraph n (add_edge g u c)
      × ((x y : ℕ) → edge (add_edge g u c) x y ≡ ((x == u && y == c) || edge g x y))
unfolding add_edge
add_edge-IsGraph {n} {g} u c w hu hc =
    let news = λ (x : ℕ).
      get_or-set g.childs u x (insert c (childs_of g u)) [] (omega (arith, w.childs_size)) in
    let newp = λ (y : ℕ).
      get_or-set g.parents c y (insert u (parents_of g.parents c)) []
        (omega (arith, w.parents_size)) in
    let edges = λ (x y : ℕ).
      let p : contains y (get_or (set g.childs u (insert c (childs_of g u))) x [])
          ≡ ((x == u && y == c) || edge g x y) =
        ground (arith, news x, contains-insert y c (childs_of g u)) in
      p in
    (
      record {
        childs_size = rw length-set w.childs_size;
        parents_size = rw length-set w.parents_size;
        in_range = λ x y e. ground (arith, edges x y, w.in_range x y);
        mirror = λ x y.
            ground (
              arith,
              edges x y,
              newp y,
              contains-insert x u (parents_of g.parents c),
              w.mirror x y,
            );
        ascending = λ x.
            ground
              (arith, news x, w.ascending x, Ascending-insert 0 c (childs_of g u) (w.ascending u));
      },
      edges,
    )

-- Does a child of the list belong to the cluster `c`?
abbrev pub child_in : Store → List ℕ → ℕ → Bool
child_in h [] c = false
child_in h (d ∷ ds) c = c == (h d).cluster_id || child_in h ds c

-- Does a node of the cluster `u` have a child in the cluster `c`?
abbrev pub has_edge : Store → List ℕ → ℕ → ℕ → Bool
has_edge h [] u c = false
has_edge h (a ∷ nodes) u c =
    (u == (h a).cluster_id && child_in h (h a).childs c) || has_edge h nodes u c

abbrev pub AllIn : Store → ℕ → List ℕ → Type 0
AllIn h n ds = (d : ℕ) → contains d ds ≡ true → (h d).cluster_id < n

add_cluster_edges-IsGraph :
    (h : Store) {n : ℕ} {g : Graph} (u : ℕ) (ds : List ℕ)
    → IsGraph n g
    → u < n
    → AllIn h n ds
    → IsGraph n (add_cluster_edges h g u ds)
      × ((x y : ℕ)
          → edge (add_cluster_edges h g u ds) x y ≡ ((x == u && child_in h ds y) || edge g x y))
unfolding add_cluster_edges
add_cluster_edges-IsGraph h {n} {g} u [] w hu all = (w, λ x y. ground arith)
add_cluster_edges-IsGraph h {n} {g} u (d ∷ ds) w hu all =
    let (w1, e1) = add_edge-IsGraph u (h d).cluster_id w hu (all d (ground arith)) in
    let (w2, e2) =
      add_cluster_edges-IsGraph h {n = n} {g = add_edge g u (h d).cluster_id} u ds w1 hu
        (λ x k. all x (ground arith)) in
    (w2, λ x y. ground (arith, e1 x y, e2 x y))

cluster_graph-IsGraph :
    (h : Store) {n : ℕ} {g : Graph} (nodes : List ℕ)
    → IsGraph n g
    → AllIn h n nodes
    → ((a : ℕ) → contains a nodes ≡ true → AllIn h n (h a).childs)
    → IsGraph n (cluster_graph h g nodes)
      × ((x y : ℕ) → edge (cluster_graph h g nodes) x y ≡ (has_edge h nodes x y || edge g x y))
unfolding cluster_graph
cluster_graph-IsGraph h {n} {g} [] w all childs = (w, λ x y. refl)
cluster_graph-IsGraph h {n} {g} (a ∷ nodes) w all childs =
    let (w1, e1) =
      add_cluster_edges-IsGraph h (h a).cluster_id (h a).childs w (all a (ground arith))
        (childs a (ground arith)) in
    let (w2, e2) =
      cluster_graph-IsGraph h {n = n} {g = add_cluster_edges h g (h a).cluster_id (h a).childs}
        nodes w1 (λ x k. all x (ground arith)) (λ x k. childs x (ground arith)) in
    (w2, λ x y. ground (arith, e1 x y, e2 x y))

-- Every child of a node is registered too.
abbrev pub Registered : Store → List ℕ → Type 0
Registered h nodes =
    (a d : ℕ) → contains a nodes ≡ true → contains d (h a).childs ≡ true → contains d nodes ≡ true

get_or-replicate : (k x : ℕ) → get_or {A = List ℕ} (replicate k []) x [] ≡ []
get_or-replicate zero x = refl
get_or-replicate (suc k) zero = refl
get_or-replicate (suc k) (suc x) = get_or-replicate k x

pub empty_graph-IsGraph :
    (n : ℕ) → IsGraph n (empty_graph n) × ((x y : ℕ) → edge (empty_graph n) x y ≡ false)
empty_graph-IsGraph n =
    let none_at =
      λ (x y : ℕ). let p : edge (empty_graph n) x y ≡ false = rw (get_or-replicate n x) refl in p in
    (
      record {
        childs_size = length-replicate n [];
        parents_size = length-replicate n [];
        in_range = λ x y e. ground (arith, none_at x y);
        mirror = λ x y. ground (arith, none_at x y, get_or-replicate n y);
        ascending = λ x. rw (get_or-replicate n x) tt;
      },
      none_at,
    )

max_cluster_id-le : (h : Store) (m : ℕ) (nodes : List ℕ) → m ≤ max_cluster_id h m nodes
max_cluster_id-le h m [] = omega arith
max_cluster_id-le h m (a ∷ nodes) =
    ground (arith, max_cluster_id-le h (max m (h a).cluster_id) nodes)

le-max_cluster_id :
    (h : Store) (m : ℕ) (nodes : List ℕ) (a : ℕ)
    → contains a nodes ≡ true
    → (h a).cluster_id ≤ max_cluster_id h m nodes
le-max_cluster_id h m [] a k = cc
le-max_cluster_id h m (b ∷ nodes) a k = elim (Bool-cases (a == b)) [
  | inl same ↦
      let e : a ≡ b = ground arith in
      rw e (ground (arith, max_cluster_id-le h (max m (h b).cluster_id) nodes))
  | inr other ↦ le-max_cluster_id h (max m (h b).cluster_id) nodes a (ground arith)
]

-- The graph that generate_cluster_ranks works on, and its edges.
pub clusters-IsGraph :
    (h : Store) (nodes : List ℕ)
    → Registered h nodes
    → let n = max_cluster_id h 0 nodes + 1 in
      IsGraph n (cluster_graph h (empty_graph n) nodes)
      × ((x y : ℕ) → edge (cluster_graph h (empty_graph n) nodes) x y ≡ has_edge h nodes x y)
clusters-IsGraph h nodes reg =
    let n = max_cluster_id h 0 nodes + 1 in
    let inside : AllIn h n nodes = λ d k. omega (arith, le-max_cluster_id h 0 nodes d k) in
    let (w0, none_at) = empty_graph-IsGraph n in
    let (w, e) = cluster_graph-IsGraph h nodes w0 inside (λ a k d i. inside d (reg a d k i)) in
    (w, λ x y. ground (arith, e x y, none_at x y))

child_in-member :
    (h : Store) (ds : List ℕ) (d : ℕ) → contains d ds ≡ true → child_in h ds (h d).cluster_id ≡ true
child_in-member h [] d k = cc
child_in-member h (b ∷ ds) d k = elim (Bool-cases (d == b)) [
  | inl same ↦ let e : d ≡ b = ground arith in rw e (ground arith)
  | inr other ↦ ground (arith, child_in-member h ds d)
]

pub has_edge-member :
    (h : Store) (nodes : List ℕ) (a d : ℕ)
    → contains a nodes ≡ true
    → contains d (h a).childs ≡ true
    → has_edge h nodes (h a).cluster_id (h d).cluster_id ≡ true
has_edge-member h [] a d k i = cc
has_edge-member h (b ∷ nodes) a d k i = elim (Bool-cases (a == b)) [
  | inl same ↦
      let e : a ≡ b = ground arith in rw (← e) (ground (arith, child_in-member h (h a).childs d i))
  | inr other ↦ ground (arith, has_edge-member h nodes a d)
]

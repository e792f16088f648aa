-- ===== src/Node/Split/Assigned.antt =====
-- The clusters that the nodes are given.
use prf.Base.{
  ℕ, ◌<◌, ◌≡◌, ◌↔◌, ◌∙◌, refl, sym, ap, true, inl, inr, Option, none, some, List, [], ◌∷◌, ◌++◌,
  arith, ◌==◌, if◌then◌else◌, length, contains, find, Distinct, Bool-cases,
}
use prf.UnionFind.{UnionFind, new_union_find, get_parent}
use prf.UnionFind.Merge.{get_parent-IsValid, new_union_find-IsValid, new_union_find_size}
use prf.UnionFind.Classes.{table, table_iff, Connected}
use prf.Transaction.{unmanaged_cluster_id}
use prf.Node.{Store, update}
use prf.Node.Edges.{Registered}
use prf.Node.Numbering.{
  numbering, at, numbering_unique, ValuesBelow, numbering-ValuesBelow, numbering_found,
}
use prf.Node.Split.{
  collect_ids, assign_clusters, fixed, swap_clusters, settle, split_cluster_by_associates,
}
use prf.Node.Split.Together.{
  Holds, table-append, link_pairs, loop_pairs, sink_pairs, merge_links-Holds, merge_sames-Holds,
  find_sink-Holds,
}

get_parent-Holds :
    (n p : ℕ) (rep : ℕ → ℕ) (uf : UnionFind)
    → Holds n rep uf
    → p < n
    → (uf' : UnionFind) × (get_parent uf p ≡ some (rep p, uf')) × Holds n rep uf'
get_parent-Holds n p rep uf (v, size) h =
    let (uf', got, v', size') = get_parent-IsValid p v (omega (arith, size)) in
    (uf', got, (v', size' ∙ size))

collect_ids-Holds :
    (n : ℕ) (rep : ℕ → ℕ) (uf : UnionFind) (m : List (ℕ × ℕ))
    → Holds n rep uf
    → ValuesBelow n m
    → (ids : List ℕ) × (uf' : UnionFind) × (collect_ids uf m ≡ some (ids, uf'))
      × Holds n rep uf'
      × ((k i : ℕ) → find k m ≡ some i → contains (rep i) ids ≡ true)
unfolding collect_ids
collect_ids-Holds n rep uf [] v b = ([], uf, refl, v, λ k i e. cc)
collect_ids-Holds n rep uf ((key, value) ∷ m) v b =
    let (uf1, got, v1) = get_parent-Holds n value rep uf v b.0 in
    let (ids, uf2, got2, v2, all) = collect_ids-Holds n rep uf1 m v1 b.1 in
    (
      rep value ∷ ids,
      uf2,
      rw got (rw got2 refl),
      v2,
      λ k i e. elim (Bool-cases (k == key)) [
        | inl here ↦ let same : value ≡ i = ground arith in rw (← same) (ground arith)
        | inr there ↦ ground (arith, all k i (ground arith))
      ],
    )

assign_clusters-Holds :
    (number : ℕ → ℕ) (ids : List (ℕ × ℕ)) (n : ℕ) (rep : ℕ → ℕ) (h : Store) (uf : UnionFind)
    (nodes : List ℕ)
    → Holds n rep uf
    → ((a : ℕ) → contains a nodes ≡ true → number a < n)
    → (h' : Store) × (assign_clusters number ids h uf nodes ≡ some h')
      × ((x : ℕ)
          → (h' x).cluster_id
            ≡ (if contains x nodes then at ids (rep (number x)) else (h x).cluster_id))
unfolding assign_clusters
assign_clusters-Holds number ids n rep h uf [] v all = (h, refl, λ x. refl)
assign_clusters-Holds number ids n rep h uf (a ∷ nodes) v all =
    let (uf1, got, v1) = get_parent-Holds n (number a) rep uf v (all a (ground arith)) in
    let h1 = update h a (record (h a) { cluster_id = at ids (rep (number a)) }) in
    let (h', got2, clusters) =
      assign_clusters-Holds number ids n rep h1 uf1 nodes v1 (λ b k. all b (ground arith)) in
    (
      h',
      rw got got2,
      λ x. elim (Bool-cases (x == a)) [
        | inl same ↦ let e : x ≡ a = ground arith in rw e (ground (arith, clusters a))
        | inr other ↦ ground (arith, clusters x)
      ],
    )

swap_clusters_lem :
    (sink_id : ℕ) (h : Store) (nodes : List ℕ) (x : ℕ)
    → Distinct nodes
    → (swap_clusters sink_id h nodes x).cluster_id
      ≡ (if contains x nodes then fixed sink_id (h x).cluster_id else (h x).cluster_id)
unfolding swap_clusters
swap_clusters_lem sink_id h [] x d = refl
swap_clusters_lem sink_id h (a ∷ nodes) x d =
    let h1 = update h a (record (h a) { cluster_id = fixed sink_id (h a).cluster_id }) in
    elim (Bool-cases (x == a)) [
      | inl same ↦
          let e : x ≡ a = ground arith in
          rw e (ground (arith, swap_clusters_lem sink_id h1 nodes a d.1, d.0))
      | inr other ↦ ground (arith, swap_clusters_lem sink_id h1 nodes x d.1)
    ]

fixed_unique : (sink_id x y : ℕ) → fixed sink_id x ≡ fixed sink_id y → x ≡ y
fixed_unique sink_id x y e = ground arith

-- Who shares a cluster is settled before.
settle_lem :
    (sink : Option ℕ) (h : Store) (nodes : List ℕ) (a b : ℕ)
    → Distinct nodes
    → contains a nodes ≡ true
    → contains b nodes ≡ true
    → ((settle sink h nodes a).cluster_id ≡ (settle sink h nodes b).cluster_id)
      ↔ ((h a).cluster_id ≡ (h b).cluster_id)
unfolding settle
settle_lem none h nodes a b d ka kb = (λ e. e, λ e. e)
settle_lem (some sink) h nodes a b d ka kb =
    let id = (h sink).cluster_id in
    elim (Bool-cases (id == unmanaged_cluster_id)) [
      | inl there ↦ rw there (λ e. e, λ e. e)
      | inr moved ↦
          let at_a : (swap_clusters id h nodes a).cluster_id ≡ fixed id (h a).cluster_id =
            swap_clusters_lem id h nodes a d ∙ rw ka refl in
          let at_b : (swap_clusters id h nodes b).cluster_id ≡ fixed id (h b).cluster_id =
            swap_clusters_lem id h nodes b d ∙ rw kb refl in
          rw moved (
            λ e. fixed_unique id (h a).cluster_id (h b).cluster_id (sym at_a ∙ e ∙ at_b),
            λ e. at_a ∙ ap (fixed id) e ∙ sym at_b,
          )
    ]

-- Nodes to which another one is tied are registered too.
abbrev pub SamesRegistered : Store → List ℕ → Type 0
SamesRegistered h nodes =
    (a d : ℕ)
    → contains a nodes ≡ true
    → contains d (h a).same_clusters ≡ true
    → contains d nodes ≡ true

-- The pairs of numbers of associated nodes: a node and its child in the same cluster, two nodes of a
-- loop, and the first sink and any other.
abbrev pub associates : Store → List ℕ → List (ℕ × ℕ)
associates h nodes =
    let number = at (numbering nodes) in
    link_pairs h number nodes ++ (loop_pairs h number nodes ++ sink_pairs h number nodes)

-- Where no node is registered twice, and the children of the nodes and the nodes tied to them by loops
-- are registered, split_cluster_by_associates returns, and gives two nodes one cluster exactly when
-- they are connected by pairs of associated nodes: a node and its child in the same old cluster, two
-- nodes of a loop, and the first and another node of the unmanaged cluster.
pub split_cluster_by_associates-Connected :
    (h : Store) (nodes : List ℕ) (a b : ℕ)
    → Distinct nodes
    → Registered h nodes
    → SamesRegistered h nodes
    → contains a nodes ≡ true
    → contains b nodes ≡ true
    → (h' : Store) × (split_cluster_by_associates h nodes ≡ some h')
      × (((h' a).cluster_id ≡ (h' b).cluster_id)
          ↔ Connected (associates h nodes) (at (numbering nodes) a) (at (numbering nodes) b))
unfolding split_cluster_by_associates
split_cluster_by_associates-Connected h nodes a b distinct reg sames ka kb =
    let numbers = numbering nodes in
    let number = at numbers in
    let n = length numbers in
    let low = λ (x : ℕ) (k : contains x nodes ≡ true). (numbering_found nodes x k).1 in
    let (uf1, got1, v1) =
      merge_links-Holds h number n (λ z. z) (new_union_find n) nodes
        (new_union_find-IsValid n, new_union_find_size n) low (λ x c k i. low c (reg x c k i)) in
    let (uf2, got2, v2) =
      merge_sames-Holds h number n (table (λ z. z) (link_pairs h number nodes)) uf1 nodes v1 low
        (λ x c k i. low c (sames x c k i)) in
    let links = link_pairs h number nodes in
    let loops = loop_pairs h number nodes in
    let sinks = sink_pairs h number nodes in
    let (uf3, sink, got3, v3) =
      find_sink-Holds h number n (table (table (λ z. z) links) loops) uf2 nodes v2 low in
    let rep = table (table (table (λ z. z) links) loops) sinks in
    let whole : table (λ z. z) (links ++ (loops ++ sinks)) ≡ rep =
      table-append (λ z. z) links (loops ++ sinks)
      ∙ table-append (table (λ z. z) links) loops sinks in
    let (ids, uf4, got4, v4, held) =
      collect_ids-Holds n rep uf3 numbers v3 (numbering-ValuesBelow nodes) in
    let (h1, got5, clusters) =
      assign_clusters-Holds number (numbering ids) n rep h uf4 nodes v4 low in
    let at_a : (h1 a).cluster_id ≡ at (numbering ids) (rep (number a)) =
      ground (arith, clusters a) in
    let at_b : (h1 b).cluster_id ≡ at (numbering ids) (rep (number b)) =
      ground (arith, clusters b) in
    let held_a = held a (number a) (numbering_found nodes a ka).0 in
    let held_b = held b (number b) (numbering_found nodes b kb).0 in
    let (sound, complete) = table_iff (links ++ (loops ++ sinks)) (number a) (number b) in
    let joined = λ (e : (h1 a).cluster_id ≡ (h1 b).cluster_id).
      let same =
        numbering_unique ids (rep (number a)) (rep (number b)) held_a held_b
          (sym at_a ∙ e ∙ at_b) in
      sound (rw whole same) in
    let apart = λ (j : Connected (links ++ (loops ++ sinks)) (number a) (number b)).
      let same : rep (number a) ≡ rep (number b) = rw whole at (complete j) in
      let p : (h1 a).cluster_id ≡ (h1 b).cluster_id =
        at_a ∙ ap (at (numbering ids)) same ∙ sym at_b in
      p in
    let (back, forth) = settle_lem sink h1 nodes a b distinct ka kb in
    (
      settle sink h1 nodes,
      rw got1 (rw got2 (rw got3 (rw got4 (rw got5 refl)))),
      (λ e. joined (back e), λ j. forth (apart j)),
    )

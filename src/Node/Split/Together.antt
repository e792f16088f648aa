-- ===== src/Node/Split/Together.antt =====
-- Which nodes get one cluster.
use prf.Base.{
  ℕ, ◌<◌, ◌≡◌, ◌∙◌, refl, true, inl, inr, Option, none, some, List, [], ◌∷◌, ◌++◌, arith, ◌==◌,
  if◌then◌else◌, contains, Bool-cases,
}
use prf.UnionFind.{UnionFind, merge}
use prf.UnionFind.Merge.{IsValid, relabel, merge-IsValid}
use prf.UnionFind.Classes.{table}
use prf.Transaction.{unmanaged_cluster_id}
use prf.Node.{Store}
use prf.Node.Split.{merge_childs, merge_links, merge_same, merge_sames, merge_sinks, find_sink}

pub table-append :
    (rep : ℕ → ℕ) (es fs : List (ℕ × ℕ)) → table rep (es ++ fs) ≡ table (table rep es) fs
table-append rep [] fs = refl
table-append rep ((p, q) ∷ es) fs = table-append (relabel rep (rep p) (rep q)) es fs

-- A union-find of size `n` that represents the table.
abbrev pub Holds : ℕ → (ℕ → ℕ) → UnionFind → Type 0
Holds n rep uf = IsValid uf rep × (uf.size ≡ n)

merge-Holds :
    (n p q : ℕ) (rep : ℕ → ℕ) (uf : UnionFind)
    → Holds n rep uf
    → p < n
    → q < n
    → (uf' : UnionFind) × (merge uf p q ≡ some uf') × Holds n (relabel rep (rep p) (rep q)) uf'
merge-Holds n p q rep uf (v, size) hp hq =
    let (uf', got, v', size') = merge-IsValid p q v (omega (arith, size)) (omega (arith, size)) in
    (uf', got, (v', size' ∙ size))

module _ (h : Store) (number : ℕ → ℕ) where
  -- The pairs that the loops merge.
  abbrev pub child_pairs : ℕ → List ℕ → List (ℕ × ℕ)
  child_pairs a [] = []
  child_pairs a (c ∷ cs) =
      let rest = child_pairs a cs in
      if (h a).cluster_id == (h c).cluster_id then (number a, number c) ∷ rest else rest

  abbrev pub link_pairs : List ℕ → List (ℕ × ℕ)
  link_pairs [] = []
  link_pairs (a ∷ nodes) = child_pairs a (h a).childs ++ link_pairs nodes

  abbrev pub same_pairs : ℕ → List ℕ → List (ℕ × ℕ)
  same_pairs a [] = []
  same_pairs a (b ∷ bs) = (number a, number b) ∷ same_pairs a bs

  abbrev pub loop_pairs : List ℕ → List (ℕ × ℕ)
  loop_pairs [] = []
  loop_pairs (a ∷ nodes) = same_pairs a (h a).same_clusters ++ loop_pairs nodes

  abbrev pub with_sink : ℕ → List ℕ → List (ℕ × ℕ)
  with_sink sink [] = []
  with_sink sink (a ∷ nodes) =
      let rest = with_sink sink nodes in
      if (h a).cluster_id == unmanaged_cluster_id then (number a, number sink) ∷ rest else rest

  abbrev pub sink_pairs : List ℕ → List (ℕ × ℕ)
  sink_pairs [] = []
  sink_pairs (a ∷ nodes) =
      let rest = sink_pairs nodes in
      let found = with_sink a nodes in
      if (h a).cluster_id == unmanaged_cluster_id then found else rest

  merge_childs-Holds :
      (n a : ℕ) (rep : ℕ → ℕ) (uf : UnionFind) (cs : List ℕ)
      → Holds n rep uf
      → number a < n
      → ((c : ℕ) → contains c cs ≡ true → number c < n)
      → (uf' : UnionFind) × (merge_childs h number uf a cs ≡ some uf')
        × Holds n (table rep (child_pairs a cs)) uf'
  unfolding merge_childs
  merge_childs-Holds n a rep uf [] v ha all = (uf, refl, v)
  merge_childs-Holds n a rep uf (c ∷ cs) v ha all =
      elim (Bool-cases ((h a).cluster_id == (h c).cluster_id)) [
        | inl inside ↦
            let (uf1, got, v1) =
              merge-Holds n (number a) (number c) rep uf v ha (all c (ground arith)) in
            let (uf2, got2, v2) =
              merge_childs-Holds n a (relabel rep (rep (number a)) (rep (number c))) uf1 cs v1 ha
                (λ d k. all d (ground arith)) in
            (uf2, rw (inside, got) got2, rw inside v2)
        | inr outside ↦
            let (uf2, got2, v2) =
              merge_childs-Holds n a rep uf cs v ha (λ d k. all d (ground arith)) in
            (uf2, rw outside got2, rw outside v2)
      ]

  pub merge_links-Holds :
      (n : ℕ) (rep : ℕ → ℕ) (uf : UnionFind) (nodes : List ℕ)
      → Holds n rep uf
      → ((a : ℕ) → contains a nodes ≡ true → number a < n)
      → ((a c : ℕ) → contains a nodes ≡ true → contains c (h a).childs ≡ true → number c < n)
      → (uf' : UnionFind) × (merge_links h number uf nodes ≡ some uf')
        × Holds n (table rep (link_pairs nodes)) uf'
  unfolding merge_links
  merge_links-Holds n rep uf [] v all childs = (uf, refl, v)
  merge_links-Holds n rep uf (a ∷ nodes) v all childs =
      let (uf1, got, v1) =
        merge_childs-Holds n a rep uf (h a).childs v (all a (ground arith))
          (λ c k. childs a c (ground arith) k) in
      let (uf2, got2, v2) =
        merge_links-Holds n (table rep (child_pairs a (h a).childs)) uf1 nodes v1
          (λ b k. all b (ground arith)) (λ b c k i. childs b c (ground arith) i) in
      (uf2, rw got got2, rw (table-append rep (child_pairs a (h a).childs) (link_pairs nodes)) v2)

  merge_same-Holds :
      (n a : ℕ) (rep : ℕ → ℕ) (uf : UnionFind) (bs : List ℕ)
      → Holds n rep uf
      → number a < n
      → ((b : ℕ) → contains b bs ≡ true → number b < n)
      → (uf' : UnionFind) × (merge_same number uf a bs ≡ some uf')
        × Holds n (table rep (same_pairs a bs)) uf'
  unfolding merge_same
  merge_same-Holds n a rep uf [] v ha all = (uf, refl, v)
  merge_same-Holds n a rep uf (b ∷ bs) v ha all =
      let (uf1, got, v1) = merge-Holds n (number a) (number b) rep uf v ha (all b (ground arith)) in
      let (uf2, got2, v2) =
        merge_same-Holds n a (relabel rep (rep (number a)) (rep (number b))) uf1 bs v1 ha
          (λ d k. all d (ground arith)) in
      (uf2, rw got got2, v2)

  pub merge_sames-Holds :
      (n : ℕ) (rep : ℕ → ℕ) (uf : UnionFind) (nodes : List ℕ)
      → Holds n rep uf
      → ((a : ℕ) → contains a nodes ≡ true → number a < n)
      → ((a c : ℕ) → contains a nodes ≡ true → contains c (h a).same_clusters ≡ true → number c < n)
      → (uf' : UnionFind) × (merge_sames h number uf nodes ≡ some uf')
        × Holds n (table rep (loop_pairs nodes)) uf'
  unfolding merge_sames
  merge_sames-Holds n rep uf [] v all sames = (uf, refl, v)
  merge_sames-Holds n rep uf (a ∷ nodes) v all sames =
      let (uf1, got, v1) =
        merge_same-Holds n a rep uf (h a).same_clusters v (all a (ground arith))
          (λ c k. sames a c (ground arith) k) in
      let (uf2, got2, v2) =
        merge_sames-Holds n (table rep (same_pairs a (h a).same_clusters)) uf1 nodes v1
          (λ b k. all b (ground arith)) (λ b c k i. sames b c (ground arith) i) in
      (
        uf2,
        rw got got2,
        rw (table-append rep (same_pairs a (h a).same_clusters) (loop_pairs nodes)) v2,
      )

  merge_sinks-Holds :
      (n sink : ℕ) (rep : ℕ → ℕ) (uf : UnionFind) (nodes : List ℕ)
      → Holds n rep uf
      → number sink < n
      → ((a : ℕ) → contains a nodes ≡ true → number a < n)
      → (uf' : UnionFind) × (merge_sinks h number uf sink nodes ≡ some uf')
        × Holds n (table rep (with_sink sink nodes)) uf'
  unfolding merge_sinks
  merge_sinks-Holds n sink rep uf [] v hs all = (uf, refl, v)
  merge_sinks-Holds n sink rep uf (a ∷ nodes) v hs all =
      elim (Bool-cases ((h a).cluster_id == unmanaged_cluster_id)) [
        | inl is_sink ↦
            let (uf1, got, v1) =
              merge-Holds n (number a) (number sink) rep uf v (all a (ground arith)) hs in
            let (uf2, got2, v2) =
              merge_sinks-Holds n sink (relabel rep (rep (number a)) (rep (number sink))) uf1 nodes
                v1 hs (λ d k. all d (ground arith)) in
            (uf2, rw (is_sink, got) got2, rw is_sink v2)
        | inr other ↦
            let (uf2, got2, v2) =
              merge_sinks-Holds n sink rep uf nodes v hs (λ d k. all d (ground arith)) in
            (uf2, rw other got2, rw other v2)
      ]

  pub find_sink-Holds :
      (n : ℕ) (rep : ℕ → ℕ) (uf : UnionFind) (nodes : List ℕ)
      → Holds n rep uf
      → ((a : ℕ) → contains a nodes ≡ true → number a < n)
      → (uf' : UnionFind) × (sink : Option ℕ) × (find_sink h number uf nodes ≡ some (uf', sink))
        × Holds n (table rep (sink_pairs nodes)) uf'
  unfolding find_sink
  find_sink-Holds n rep uf [] v all = (uf, none, refl, v)
  find_sink-Holds n rep uf (a ∷ nodes) v all =
      elim (Bool-cases ((h a).cluster_id == unmanaged_cluster_id)) [
        | inl is_sink ↦
            let (uf1, got, v1) =
              merge_sinks-Holds n a rep uf nodes v (all a (ground arith))
                (λ d k. all d (ground arith)) in
            (uf1, some a, rw (is_sink, got) refl, rw is_sink v1)
        | inr other ↦
            let (uf1, sink, got, v1) =
              find_sink-Holds n rep uf nodes v (λ d k. all d (ground arith)) in
            (uf1, sink, rw other got, rw other v1)
      ]

-- ===== src/Node/InCluster/Placed.antt =====
-- The ranks in the nodes run along with a list of ranks by number.
use prf.Base.{
  ℕ, zero, suc, ◌<◌, ◌≡◌, ◌⊎◌, ◌∙◌, refl, true, false, inl, inr, ◌&&◌, some, List, [], ◌∷◌, arith,
  ◌==◌, if◌then◌else◌, length, contains, erase, is_empty, Distinct, Bool-cases, get_or, set,
  get_or-set, length-set,
}
use prf.Rank.{Rank, ensure_after}
use prf.Node.{
  Store, update, Graph, childs_of, parents_of, raise_childs, release_childs, rank_round, rank_loop,
}
use prf.Node.Order.{edge}
use prf.Node.Numbering.{IsNumbering}
use prf.Node.InCluster.{raise_nodes, in_loop, in_roots}

module _ (nodes : List ℕ) (number node_at : ℕ → ℕ) (v : IsNumbering nodes number node_at)
    (h0 : Store) where
  abbrev pub IsNumber : ℕ → Type 0
  IsNumber x = (a : ℕ) × (contains a nodes ≡ true) × (number a ≡ x)

  pub record Matches (ranks : List Rank) (h : Store) : Type 0 where
    pub size : length ranks ≡ length nodes
    pub ranked :
        (a : ℕ)
        → contains a nodes ≡ true
        → get_or ranks (number a) (record { value = 0 }) ≡ (h a).in_cluster_rank
    pub same_cluster : (a : ℕ) → (h a).cluster_id ≡ (h0 a).cluster_id
    pub same_childs : (a : ℕ) → (h a).childs ≡ (h0 a).childs

  raise-Matches :
      (ranks : List Rank) (h : Store) (u : ℕ) (cs : List ℕ)
      → Matches ranks h
      → IsNumber u
      → ((c : ℕ) → contains c cs ≡ true → IsNumber c)
      → Matches (raise_childs ranks u cs) (raise_nodes h node_at u cs)
  unfolding raise_childs raise_nodes
  raise-Matches ranks h u [] m is_u all = m
  raise-Matches ranks h u (c ∷ cs) m is_u all =
      let (a, ka, at_u) = is_u in
      let (b, kb, at_c) = all c (ground arith) in
      let back_u : node_at u ≡ a = rw (← at_u) (v.back a ka) in
      let back_c : node_at c ≡ b = rw (← at_c) (v.back b kb) in
      let zero_rank : Rank = record { value = 0 } in
      let new = (ensure_after (get_or ranks u zero_rank) (get_or ranks c zero_rank)).1 in
      let old_u : get_or ranks u zero_rank ≡ (h a).in_cluster_rank = rw (← at_u) (m.ranked a ka) in
      let old_c : get_or ranks c zero_rank ≡ (h b).in_cluster_rank = rw (← at_c) (m.ranked b kb) in
      let child = h (node_at c) in
      let h1 = update h (node_at c) (record child {
        in_cluster_rank = (ensure_after (h (node_at u)).in_cluster_rank child.in_cluster_rank).1;
      }) in
      let new_same : new ≡ (ensure_after (h (node_at u)).in_cluster_rank child.in_cluster_rank).1 =
        rw (back_u, back_c, old_u, old_c) refl in
      let low : c < length ranks = ground (arith, at_c, v.below b kb, m.size) in
      let m1 : Matches (set ranks c new) h1 = record {
        size = length-set ranks c new ∙ m.size;
        ranked = λ x kx.
            let other : (c == number x) ≡ (x == b) = elim (Bool-cases (x == b)) [
              | inl same ↦ let e : x ≡ b = ground arith in rw (e, at_c) (ground arith)
              | inr differ ↦ ground (arith, v.back x kx, back_c)
            ] in
            ground (
              arith,
              get_or-set ranks c (number x) new zero_rank low,
              other,
              m.ranked x kx,
              new_same,
              back_c,
            );
        same_cluster = λ x. ground (arith, m.same_cluster x, m.same_cluster (node_at c));
        same_childs = λ x. ground (arith, m.same_childs x, m.same_childs (node_at c));
      } in
      raise-Matches (set ranks c new) h1 u cs m1 is_u (λ d k. all d (ground arith))

  release_childs_stack :
      (ps : List (List ℕ)) (u x : ℕ) (updates cs : List ℕ)
      → contains x (release_childs ps u updates cs).1 ≡ true
      → (contains x updates ≡ true) ⊎ (contains x cs ≡ true)
  unfolding release_childs
  release_childs_stack ps u x updates [] e = inl e
  release_childs_stack ps u x updates (c ∷ cs) e =
      let left = erase u (parents_of ps c) in
      elim (release_childs_stack (set ps c left) u x
        (if is_empty left then c ∷ updates else updates) cs e) [
          | inl old ↦ ground arith
          | inr later ↦ inr (ground arith)
        ]

  pub in_loop-Matches :
      (fuel : ℕ) (g : Graph) (ranks ranks' : List Rank) (h : Store) (ps : List (List ℕ))
      (updates : List ℕ)
      → ((u c : ℕ) → edge g u c ≡ true → IsNumber c)
      → Matches ranks h
      → ((x : ℕ) → contains x updates ≡ true → IsNumber x)
      → rank_loop fuel g (record { ranks = ranks; parents = ps; updates = updates }) ≡ some ranks'
      → (h' : Store) × (in_loop fuel g node_at
            (record { store = h; parents = ps; updates = updates })
          ≡ some h')
        × Matches ranks' h'
  unfolding rank_loop rank_round in_loop
  in_loop-Matches zero g ranks ranks' h ps [] ends m ups e =
      let same : ranks ≡ ranks' = ground arith in (h, refl, rw same at m)
  in_loop-Matches (suc fuel) g ranks ranks' h ps [] ends m ups e =
      let same : ranks ≡ ranks' = ground arith in (h, refl, rw same at m)
  in_loop-Matches zero g ranks ranks' h ps (u ∷ rest) ends m ups e = cc
  in_loop-Matches (suc fuel) g ranks ranks' h ps (u ∷ rest) ends m ups e =
      let cs = childs_of g u in
      in_loop-Matches fuel g (raise_childs ranks u cs) ranks' (raise_nodes h node_at u cs)
        (release_childs ps u rest cs).0 (release_childs ps u rest cs).1 ends
        (raise-Matches ranks h u cs m (ups u (ground arith)) (λ c k. ends u c k))
        (λ x k. elim (release_childs_stack ps u x rest cs k) [
          | inl old ↦ ups x (ground arith)
          | inr child ↦ ends u x child
        ])
        e

  -- The stack that the loop starts with.
  pub in_roots_lem :
      (ps : List (List ℕ)) (updates xs : List ℕ)
      → Distinct xs
      → Distinct updates
      → ((a : ℕ) → contains a xs ≡ true → contains a nodes ≡ true)
      → ((a : ℕ) → contains a xs ≡ true → contains (number a) updates ≡ false)
      → Distinct (in_roots number ps updates xs)
        × ((x : ℕ)
            → contains x (in_roots number ps updates xs) ≡ true
            → (contains x updates ≡ true) ⊎ IsNumber x × (is_empty (parents_of ps x) ≡ true))
        × ((x : ℕ) → contains x updates ≡ true → contains x (in_roots number ps updates xs) ≡ true)
        × ((a : ℕ)
            → contains a xs ≡ true
            → is_empty (parents_of ps (number a)) ≡ true
            → contains (number a) (in_roots number ps updates xs) ≡ true)
  unfolding in_roots
  in_roots_lem ps updates [] d u known out = (u, λ x k. inl k, λ x k. k, λ a k. cc)
  in_roots_lem ps updates (a ∷ xs) d u known out =
      let pushed : List ℕ =
        if is_empty (parents_of ps (number a)) then number a ∷ updates else updates in
      let apart = λ (b : ℕ) (k : contains b xs ≡ true).
        let p : (number b == number a) ≡ false =
          ground
            (arith, v.back b (known b (ground arith)), v.back a (known a (ground arith)), d.0, k) in
        p in
      let (u', only, kept, all) =
        in_roots_lem ps pushed xs d.1 (ground (arith, out a)) (λ b k. known b (ground arith))
          (λ b k. ground (arith, out b, apart b k)) in
      (
        u',
        λ x k. elim (only x k) [
          | inr later ↦ inr later
          | inl old ↦ elim (Bool-cases (x == number a && is_empty (parents_of ps (number a)))) [
            | inl here ↦
                let e : x ≡ number a = ground arith in
                inr (rw e ((a, known a (ground arith), refl), ground arith))
            | inr other ↦ inl (ground arith)
          ]
        ],
        λ x k. kept x (ground arith),
        λ b k empty. elim (Bool-cases (b == a)) [
          | inl same ↦
              let e : b ≡ a = ground arith in
              let empty' : is_empty (parents_of ps (number a)) ≡ true = rw e at empty in
              rw e (kept (number a) (ground arith))
          | inr other ↦ all b (ground arith) empty
        ],
      )

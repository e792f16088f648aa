-- ===== src/UnionFind/Merge.antt =====
-- The methods as a refinement of a table of representatives: `merge p q` gives every element with
-- the representative of `p` that of `q`, and the other methods leave the table alone.
use mathlib.Core.Path.{fun_ext}
use prf.Base.{
  ℕ, zero, suc, ◌+◌, ◌≤◌, ◌<◌, ◌≡◌, refl, ◌≢◌, inl, inr, some, List, arith, ◌==◌, if◌then◌else◌,
  length, set, replicate, length-set, get_or-set, length-replicate, Bool-cases, eq_of_==, ne_of_==,
}
use prf.UnionFind.{UnionFind, init_loop, new_union_find, get_parent, merge, is_same}
use prf.UnionFind.Forest.{Forest, par, rep_rep, read, get_parent_loop-Forest}

-- The table after the class of `a` has been merged into that of `b`.
abbrev pub relabel : (ℕ → ℕ) → ℕ → ℕ → ℕ → ℕ
relabel rep a b x = if rep x == a then b else rep x

-- The number of roots below `k`.
abbrev pub roots : ℕ → (ℕ → ℕ) → ℕ
roots zero rep = 0
roots (suc k) rep = (if rep k == k then 1 else 0) + roots k rep

roots_pos : (k : ℕ) (rep : ℕ → ℕ) (x : ℕ) → x < k → rep x ≡ x → 1 ≤ roots k rep
roots_pos zero rep x h e = absurd (omega arith)
roots_pos (suc k) rep x h e = elim (Bool-cases (x == k)) [
  | inl same ↦ ground arith
  | inr other ↦ ground (arith, roots_pos k rep x)
]

module _ (rep : ℕ → ℕ) (a b : ℕ) (ra : rep a ≡ a) (rb : rep b ≡ b) (ne : a ≢ b) where
  roots_below : (k : ℕ) → k ≤ a → roots k (relabel rep a b) ≡ roots k rep
  roots_below zero h = refl
  roots_below (suc k) h = ground (arith, roots_below k)

  roots-relabel : (k : ℕ) → a < k → suc (roots k (relabel rep a b)) ≡ roots k rep
  roots-relabel zero h = absurd (omega arith)
  roots-relabel (suc k) h = elim (Bool-cases (a == k)) [
    | inl same ↦ ground (arith, roots_below k)
    | inr other ↦ ground (arith, roots-relabel k)
  ]

  abbrev deeper : (ℕ → ℕ) → ℕ → ℕ
  deeper depth x = if rep x == a then depth x + 1 else depth x

  Forest-attach :
      {n : ℕ} {depth : ℕ → ℕ} {ps : List ℕ}
      → Forest n rep depth ps
      → a < n
      → b < n
      → Forest n (relabel rep a b) (deeper depth) (set ps a b)
  Forest-attach {n} {depth} {ps} v ha hb = record {
    size = rw (length-set ps a b) v.size;
    par_lt = λ y k. ground (arith, par-set y, v.par_lt y k);
    rep_lt = λ y k. ground (arith, v.rep_lt y k);
    rep_par = λ y k. ground (arith, par-set y, v.rep_par y k);
    root = λ y k e. ground (arith, par-set y, v.root y k);
    par_rep = λ y k. ground (arith, par-set (rep y), par-set b, v.par_rep y k, v.par_rep b hb);
    descends = λ y k e. ground (arith, par-set y, v.descends y k, v.rep_par y k, v.top b hb);
    top = λ y k. ground (arith, v.top y k, v.top b hb, rep_rep v y k);
  }
    where
      par-set : (y : ℕ) → par (set ps a b) y ≡ (if a == y then b else par ps y)
      par-set y = get_or-set ps a y b 0 (omega (arith, v.size))

-- A union-find that represents the table `rep`: no chain of parents is as long as `size`.
pub record IsValid (uf : UnionFind) (rep : ℕ → ℕ) : Type 0 where
  pub depth : ℕ → ℕ
  pub forest : Forest uf.size rep depth uf.parents
  pub shallow : (x : ℕ) → x < uf.size → depth x + roots uf.size rep ≤ uf.size

pub get_parent-IsValid :
    {uf : UnionFind} {rep : ℕ → ℕ} (p : ℕ)
    → IsValid uf rep
    → p < uf.size
    → (uf' : UnionFind) × (get_parent uf p ≡ some (rep p, uf'))
      × IsValid uf' rep
      × (uf'.size ≡ uf.size)
unfolding get_parent
get_parent-IsValid {uf} {rep} p v h =
    let pos = roots_pos uf.size rep (rep p) (v.forest.rep_lt p h) (rep_rep v.forest p h) in
    let low = v.shallow p h in
    let (ps, got, f) = get_parent_loop-Forest uf.size p v.forest h (omega arith) in
    (
      record uf { parents = ps },
      rw got,
      record { depth = v.depth; forest = f; shallow = v.shallow },
      refl,
    )

relabel_self : (rep : ℕ → ℕ) (a : ℕ) → relabel rep a a ≡ rep
relabel_self rep a = fun_ext λ x. ground arith

pub merge-IsValid :
    {uf : UnionFind} {rep : ℕ → ℕ} (p q : ℕ)
    → IsValid uf rep
    → p < uf.size
    → q < uf.size
    → (uf' : UnionFind) × (merge uf p q ≡ some uf')
      × IsValid uf' (relabel rep (rep p) (rep q))
      × (uf'.size ≡ uf.size)
unfolding merge
merge-IsValid {uf} {rep} p q v hp hq =
    let (uf1, got1, v1, size1) = get_parent-IsValid p v hp in
    let (uf2, got2, v2, size2) = get_parent-IsValid q v1 (omega arith) in
    elim (Bool-cases (rep p == rep q)) [
      | inl e ↦
          let same : rep p ≡ rep q = eq_of_== (rep p) (rep q) e in
          (uf2, rw (got1, got2, e), rw (same, relabel_self rep (rep q)) v2, omega arith)
      | inr e ↦
          let ne = ne_of_== (rep p) (rep q) e in
          let hp2 : p < uf2.size = omega arith in
          let hq2 : q < uf2.size = omega arith in
          let f = v2.forest in
          let ra = rep_rep f p hp2 in
          let rb = rep_rep f q hq2 in
          let la = f.rep_lt p hp2 in
          (
            record uf2 { parents = set uf2.parents (rep p) (rep q) },
            rw (got1, got2, e) (rw (read f (rep q) (f.rep_lt q hq2), f.par_rep q hq2)),
            record {
              depth = deeper rep (rep p) (rep q) ra rb ne v2.depth;
              forest = Forest-attach rep (rep p) (rep q) ra rb ne f la (f.rep_lt q hq2);
              shallow = λ x h.
                  ground
                    (arith, roots-relabel rep (rep p) (rep q) ra rb ne uf2.size la, v2.shallow x h);
            },
            omega arith,
          )
    ]

pub is_same-IsValid :
    {uf : UnionFind} {rep : ℕ → ℕ} (p q : ℕ)
    → IsValid uf rep
    → p < uf.size
    → q < uf.size
    → (uf' : UnionFind) × (is_same uf p q ≡ some (rep p == rep q, uf'))
      × IsValid uf' rep
      × (uf'.size ≡ uf.size)
unfolding is_same
is_same-IsValid {uf} {rep} p q v hp hq =
    let (uf1, got1, v1, size1) = get_parent-IsValid p v hp in
    let (uf2, got2, v2, size2) = get_parent-IsValid q v1 (omega arith) in
    (uf2, rw (got1, got2), v2, omega arith)

-- The loop of the constructor writes `i` at `i`.
init_loop-par :
    (k i n : ℕ) (ps : List ℕ)
    → i + k ≡ n
    → length ps ≡ n
    → ((x : ℕ) → x < i → par ps x ≡ x)
    → (length (init_loop k i ps) ≡ n) × ((x : ℕ) → x < n → par (init_loop k i ps) x ≡ x)
unfolding init_loop
init_loop-par zero i n ps e l h = (l, λ x lt. h x (omega arith))
init_loop-par (suc k) i n ps e l h =
    init_loop-par k (i + 1) n (set ps i i) (omega arith) (rw length-set l)
      λ x lt. ground (arith, get_or-set ps i x i 0, h x)

roots_id : (k : ℕ) → roots k (λ x. x) ≡ k
roots_id zero = refl
roots_id (suc k) = ground (arith, roots_id k)

pub new_union_find_size : (n : ℕ) → (new_union_find n).size ≡ n
unfolding new_union_find
new_union_find_size n = refl

pub new_union_find-IsValid : (n : ℕ) → IsValid (new_union_find n) (λ x. x)
unfolding new_union_find
new_union_find-IsValid n =
    let (size, id) =
      init_loop-par n 0 n (replicate n 0) (omega arith) (length-replicate n 0)
        (λ x h. absurd (omega arith)) in
    record {
      depth = λ x. 0;
      forest = record {
        size = size;
        par_lt = λ x h. omega (arith, id x h);
        rep_lt = λ x h. h;
        rep_par = λ x h. id x h;
        root = λ x h e. refl;
        par_rep = λ x h. id x h;
        descends = λ x h e. absurd (e (id x h));
        top = λ x h. refl;
      };
      shallow = λ x h. omega (arith, roots_id n);
    }

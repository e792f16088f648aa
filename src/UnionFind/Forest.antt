-- ===== src/UnionFind/Forest.antt =====
-- The invariant of `parents`: a forest, with the root of each element and its distance to it as
-- ghost state, and `get_parent` under it.
use prf.Base.{
  ℕ, zero, suc, ◌<◌, ◌≡◌, ◌≢◌, inl, inr, some, List, arith, ◌==◌, if◌then◌else◌, length, get_elem?,
  get_or, set, length-set, get_or-set, get_elem?-get_or, Bool-cases, ne_of_==,
}
use prf.UnionFind.{get_parent_loop}

-- The parent of `x`.
abbrev pub par : List ℕ → ℕ → ℕ
par ps x = get_or ps x 0

-- `rep x` is the root of `x`, and `depth x` bounds the way to it.
pub record Forest (n : ℕ) (rep depth : ℕ → ℕ) (ps : List ℕ) : Type 0 where
  pub size : length ps ≡ n
  pub par_lt : (x : ℕ) → x < n → par ps x < n
  pub rep_lt : (x : ℕ) → x < n → rep x < n
  pub rep_par : (x : ℕ) → x < n → rep (par ps x) ≡ rep x
  pub root : (x : ℕ) → x < n → par ps x ≡ x → rep x ≡ x
  pub par_rep : (x : ℕ) → x < n → par ps (rep x) ≡ rep x
  pub descends : (x : ℕ) → x < n → par ps x ≢ x → depth (par ps x) < depth x
  pub top : (x : ℕ) → x < n → depth (rep x) ≡ 0

module _ {n : ℕ} {rep depth : ℕ → ℕ} {ps : List ℕ} (v : Forest n rep depth ps) where
  pub rep_rep : (x : ℕ) → x < n → rep (rep x) ≡ rep x
  rep_rep x h = v.root (rep x) (v.rep_lt x h) (v.par_rep x h)

  pub read : (x : ℕ) → x < n → get_elem? ps x ≡ some (par ps x)
  read x h = get_elem?-get_or ps x 0 (omega (arith, v.size))

  par-set : (x y r : ℕ) → x < n → par (set ps x r) y ≡ (if x == y then r else par ps y)
  par-set x y r h = get_or-set ps x y r 0 (omega (arith, v.size))

  -- The write of path compression keeps the forest, with the same roots and bounds.
  pub Forest-set : (x : ℕ) → x < n → Forest n rep depth (set ps x (rep x))
  Forest-set x h = record {
    size = rw (length-set ps x (rep x)) v.size;
    par_lt = λ y k. ground (arith, par-set x y (rep x) h, v.rep_lt x h, v.par_lt y k);
    rep_lt = v.rep_lt;
    rep_par = λ y k. ground (arith, par-set x y (rep x) h, rep_rep x h, v.rep_par y k);
    root = λ y k e. ground (arith, par-set x y (rep x) h, v.root y k);
    par_rep = λ y k. ground (arith, par-set x (rep y) (rep x) h, rep_rep y k, v.par_rep y k);
    descends =
        λ y k e. ground (arith, par-set x y (rep x) h, v.descends y k, v.root x h, v.top x h);
    top = v.top;
  }

-- With fuel beyond the depth, get_parent returns the root, and what it writes keeps the forest.
pub get_parent_loop-Forest :
    (fuel : ℕ) {n : ℕ} {rep depth : ℕ → ℕ} {ps : List ℕ} (x : ℕ)
    → Forest n rep depth ps
    → x < n
    → depth x < fuel
    → (ps' : List ℕ) × (get_parent_loop fuel ps x ≡ some (rep x, ps')) × Forest n rep depth ps'
unfolding get_parent_loop
get_parent_loop-Forest zero x v h k = absurd (omega arith)
get_parent_loop-Forest (suc fuel) {n} {rep} {depth} {ps} x v h k =
    elim (Bool-cases (par ps x == x)) [
      | inl e ↦ (ps, ground (arith, read v x h, v.root x h), v)
      | inr e ↦
          let below = v.descends x h (ne_of_== _ _ e) in
          let (ps', got, v') =
            get_parent_loop-Forest fuel (par ps x) v (v.par_lt x h) (omega arith) in
          (set ps' x (rep x), ground (arith, read v x h, v.rep_par x h), Forest-set v' x h)
    ]

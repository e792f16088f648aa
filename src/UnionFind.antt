-- ===== src/UnionFind.antt =====
-- src/prf/union_find.hpp and src/prf/union_find.cpp: disjoint sets with path compression.
-- `parents[p] == p` marks a root. A method that writes `parents` returns the new object. `none` is
-- a read out of range, or a chain of parents longer than the fuel; the fuel of the methods is
-- `size`, and `Forest` shows that it is enough.
pub mod Forest
pub mod Merge
pub mod Classes
use prf.Base.{
  ℕ, zero, suc, ◌+◌, Bool, Option, none, some, List, [], ◌∷◌, ◌==◌, if◌then◌else◌, ◌>>=◌, get_elem?,
  set, replicate,
}

pub record UnionFind : Type 0 where
  pub parents : List ℕ
  pub size : ℕ

-- for (u64 i = ...; i < size; ++i) parents[i] = i, with `k` rounds left
pub init_loop : ℕ → ℕ → List ℕ → List ℕ
init_loop zero i ps = ps
init_loop (suc k) i ps = init_loop k (i + 1) (set ps i i)

-- UnionFind::UnionFind
pub new_union_find : ℕ → UnionFind
unfolding init_loop
new_union_find size = record { parents = init_loop size 0 (replicate size 0); size = size }

-- The recursion of get_parent. `parents[p]` is written after the recursive call has returned.
pub get_parent_loop : ℕ → List ℕ → ℕ → Option (ℕ × List ℕ)
get_parent_loop zero ps p = none
get_parent_loop (suc fuel) ps p = do
  q ← get_elem? ps p
  let rest = get_parent_loop fuel ps q
  if q == p then some (p, ps) else (do (r, ps') ← rest; some (r, set ps' p r))

pub get_parent : UnionFind → ℕ → Option (ℕ × UnionFind)
unfolding get_parent_loop
get_parent uf p = do
  (r, ps) ← get_parent_loop uf.size uf.parents p
  some (r, record uf { parents = ps })

pub merge : UnionFind → ℕ → ℕ → Option UnionFind
unfolding get_parent
merge uf p q = do
  (pp, uf') ← get_parent uf p
  (qp, uf'') ← get_parent uf' q
  let attach = (do
    r ← get_elem? uf''.parents qp
    some (record uf'' { parents = set uf''.parents pp r }))
  if pp == qp then some uf'' else attach

pub is_same : UnionFind → ℕ → ℕ → Option (Bool × UnionFind)
unfolding get_parent
is_same uf p q = do
  (pp, uf') ← get_parent uf p
  (qp, uf'') ← get_parent uf' q
  some (pp == qp, uf'')

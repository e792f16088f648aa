-- ===== src/UnionFind/Classes.antt =====
-- What a sequence of merges computes: the equivalence relation that the merged pairs generate.
use mathlib.Core.List.{Memᴰ}
use mathlib.Core.List.Memᴰ
use mathlib.Core.Logic.{⊎_elim}
use prf.Base.{
  ℕ, ◌<◌, ◌≡◌, refl, sym, ◌∙◌, ap, ◌↔◌, inl, inr, Bool, true, Option, some, List, [], ◌∷◌, arith,
  ◌==◌, ◌>>=◌, Bool-cases, eq_of_==,
}
use prf.UnionFind.{UnionFind, new_union_find, merge, is_same}
use prf.UnionFind.Merge.{IsValid, relabel, merge-IsValid, is_same-IsValid, new_union_find-IsValid}

-- uf.merge(p, q) for each pair, in order.
unfoldable pub merge_all : UnionFind → List (ℕ × ℕ) → Option UnionFind
merge_all uf [] = some uf
merge_all uf ((p, q) ∷ es) = do uf' ← merge uf p q; merge_all uf' es

abbrev pub AllBelow : ℕ → List (ℕ × ℕ) → Type 0
AllBelow n [] = Unit
AllBelow n ((p, q) ∷ es) = (p < n) × (q < n) × AllBelow n es

-- The least equivalence relation that holds `R` and the pairs.
pub data Joined (R : ℕ → ℕ → Type 0) (es : List (ℕ × ℕ)) : ℕ → ℕ → Type 0 where
  base : {x y : ℕ} → R x y → Joined R es x y
  pair : {x y : ℕ} → Memᴰ (x, y) es → Joined R es x y
  flip : {x y : ℕ} → Joined R es x y → Joined R es y x
  chain : {x y z : ℕ} → Joined R es x y → Joined R es y z → Joined R es x z

-- The equivalence closure of the pairs.
abbrev pub Connected : List (ℕ × ℕ) → ℕ → ℕ → Type 0
Connected = Joined ◌≡◌

abbrev pub Same : (ℕ → ℕ) → ℕ → ℕ → Type 0
Same rep x y = rep x ≡ rep y

abbrev pub table : (ℕ → ℕ) → List (ℕ × ℕ) → ℕ → ℕ
table rep [] = rep
table rep ((p, q) ∷ es) = table (relabel rep (rep p) (rep q)) es

relabel_mono : (rep : ℕ → ℕ) (a b x y : ℕ) → rep x ≡ rep y → relabel rep a b x ≡ relabel rep a b y
relabel_mono rep a b x y e = ground arith

table_mono :
    (rep : ℕ → ℕ) (es : List (ℕ × ℕ)) (x y : ℕ) → rep x ≡ rep y → table rep es x ≡ table rep es y
table_mono rep [] x y e = e
table_mono rep ((p, q) ∷ es) x y e =
    table_mono (relabel rep (rep p) (rep q)) es x y (relabel_mono rep (rep p) (rep q) x y e)

relabel-pair :
    (rep : ℕ → ℕ) (p q : ℕ) → relabel rep (rep p) (rep q) p ≡ relabel rep (rep p) (rep q) q
relabel-pair rep p q = ground arith

table-pair :
    (rep : ℕ → ℕ) (es : List (ℕ × ℕ)) (x y : ℕ) → Memᴰ (x, y) es → table rep es x ≡ table rep es y
table-pair rep [] x y m = absurd (Memᴰ.not-nil m)
table-pair rep ((p, q) ∷ es) x y m =
    ⊎_elim
      (λ (e : (x, y) ≡ (p, q)). table_mono _ es x y (
        ap (λ (r : ℕ × ℕ). relabel rep (rep p) (rep q) r.0) e
        ∙ relabel-pair rep p q
        ∙ sym (ap (λ (r : ℕ × ℕ). relabel rep (rep p) (rep q) r.1) e)))
      (table-pair (relabel rep (rep p) (rep q)) es x y) (Memᴰ.cases_cons m)

table_complete :
    (rep : ℕ → ℕ) (es : List (ℕ × ℕ)) {x y : ℕ}
    → Joined (Same rep) es x y
    → table rep es x ≡ table rep es y
table_complete rep es (base {x} {y} e) = table_mono rep es x y e
table_complete rep es (pair {x} {y} m) = table-pair rep es x y m
table_complete rep es (flip j) = sym (table_complete rep es j)
table_complete rep es (chain j k) = table_complete rep es j ∙ table_complete rep es k

relabel-Joined :
    (rep : ℕ → ℕ) (p q : ℕ) (es : List (ℕ × ℕ)) (x y : ℕ)
    → relabel rep (rep p) (rep q) x ≡ relabel rep (rep p) (rep q) y
    → Joined (Same rep) ((p, q) ∷ es) x y
relabel-Joined rep p q es x y e = elim (Bool-cases (rep x == rep p)) [
  | inl hx ↦ elim (Bool-cases (rep y == rep p)) [
    | inl hy ↦ base (ground arith)
    | inr hy ↦
        chain (base (eq_of_== (rep x) (rep p) hx))
          (chain (pair (Memᴰ.head refl)) (base (ground arith)))
  ]
  | inr hx ↦ elim (Bool-cases (rep y == rep p)) [
    | inl hy ↦
        chain (base (ground arith))
          (chain (flip (pair (Memᴰ.head refl))) (base (sym (eq_of_== (rep y) (rep p) hy))))
    | inr hy ↦ base (ground arith)
  ]
]

Joined-cons :
    (rep : ℕ → ℕ) (p q : ℕ) (es : List (ℕ × ℕ)) {x y : ℕ}
    → Joined (Same (relabel rep (rep p) (rep q))) es x y
    → Joined (Same rep) ((p, q) ∷ es) x y
Joined-cons rep p q es (base {x} {y} e) = relabel-Joined rep p q es x y e
Joined-cons rep p q es (pair m) = pair (Memᴰ.tail m)
Joined-cons rep p q es (flip j) = flip (Joined-cons rep p q es j)
Joined-cons rep p q es (chain j k) = chain (Joined-cons rep p q es j) (Joined-cons rep p q es k)

table_sound :
    (rep : ℕ → ℕ) (es : List (ℕ × ℕ)) (x y : ℕ)
    → table rep es x ≡ table rep es y
    → Joined (Same rep) es x y
table_sound rep [] x y e = base e
table_sound rep ((p, q) ∷ es) x y e =
    Joined-cons rep p q es (table_sound (relabel rep (rep p) (rep q)) es x y e)

pub merge_all-IsValid :
    {uf : UnionFind} {rep : ℕ → ℕ} (es : List (ℕ × ℕ))
    → IsValid uf rep
    → AllBelow uf.size es
    → (uf' : UnionFind) × (merge_all uf es ≡ some uf')
      × IsValid uf' (table rep es)
      × (uf'.size ≡ uf.size)
unfolding merge_all
merge_all-IsValid {uf} [] v b = (uf, refl, v, refl)
merge_all-IsValid {uf} {rep} ((p, q) ∷ es) v b =
    let (uf1, got1, v1, size1) = merge-IsValid p q v b.0 b.1 in
    let (uf2, got2, v2, size2) =
      merge_all-IsValid {uf = uf1} {rep = (relabel rep (rep p) (rep q))} es v1 (rw size1 b.2) in
    (uf2, rw (got1, got2), v2, size2 ∙ size1)

pub table_iff :
    (es : List (ℕ × ℕ)) (x y : ℕ) → (table (λ z. z) es x ≡ table (λ z. z) es y) ↔ Connected es x y
table_iff es x y = (table_sound (λ z. z) es x y, λ j. table_complete (λ z. z) es j)

-- After any merges of pairs of elements below `n`, every call returns (no read is out of range and
-- every chain of parents ends), and is_same(p, q) is true exactly when `p` and `q` are connected
-- by the merged pairs.
pub is_same-Connected :
    (n : ℕ) (es : List (ℕ × ℕ)) (p q : ℕ)
    → AllBelow n es
    → p < n
    → q < n
    → (uf uf' : UnionFind) × (b : Bool) × (merge_all (new_union_find n) es ≡ some uf)
      × (is_same uf p q ≡ some (b, uf'))
      × ((b ≡ true) ↔ Connected es p q)
unfolding new_union_find
is_same-Connected n es p q b hp hq =
    let (uf, got, v, size) = merge_all-IsValid es (new_union_find-IsValid n) b in
    let (uf', asked, v', size') = is_same-IsValid p q v (omega arith) (omega arith) in
    let rep = table (λ z. z) es in
    let (sound, complete) = table_iff es p q in
    (
      uf,
      uf',
      rep p == rep q,
      got,
      asked,
      (λ e. sound (eq_of_== (rep p) (rep q) e), λ j. ground (arith, complete j)),
    )

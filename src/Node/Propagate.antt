-- ===== src/Node/Propagate.antt =====
-- The two inner loops of a round: what they do to the ranks, the sets of parents and the stack.
use prf.Base.{
  ℕ, suc, ◌+◌, ◌<◌, ◌≡◌, refl, ◌∙◌, true, false, ◌&&◌, ◌||◌, List, [], ◌∷◌, arith, ◌==◌, ltb,
  if◌then◌else◌, u64_mod, get_or, set, length, length-set, get_or-set, contains, erase, is_empty,
  Ascending, not-contains_below, Distinct,
}
use prf.Rank.{Rank, ensure_after, rank_lt}
use prf.Node.{parents_of, raise_childs, release_childs}

abbrev pub val : List Rank → ℕ → ℕ
val ranks x = (get_or ranks x (record { value = 0 })).value

-- The rank of `x` behind one of `u`.
abbrev pub raised : ℕ → ℕ → ℕ
raised u x = if ltb u x then x else u + 1

val-raise :
    (ranks : List Rank) (u c x : ℕ)
    → c < length ranks
    → val ranks u + 1 < u64_mod
    → val
        (set ranks c
          (ensure_after
            (get_or ranks u (record { value = 0 }))
            (get_or ranks c (record { value = 0 }))).1)
        x
      ≡ (if c == x then raised (val ranks u) (val ranks c) else val ranks x)
unfolding ensure_after rank_lt
val-raise ranks u c x h small = ground (
  arith,
  get_or-set ranks c x
      (ensure_after (get_or ranks u (record { value = 0 }))
        (get_or ranks c (record { value = 0 }))).1
      (record { value = 0 }) h,
)

pub raise_childs_lem :
    (ranks : List Rank) (u : ℕ) (cs : List ℕ)
    → contains u cs ≡ false
    → ((c : ℕ) → contains c cs ≡ true → c < length ranks)
    → val ranks u + 1 < u64_mod
    → (length (raise_childs ranks u cs) ≡ length ranks)
      × ((x : ℕ)
          → val (raise_childs ranks u cs) x
            ≡ (if contains x cs then raised (val ranks u) (val ranks x) else val ranks x))
unfolding raise_childs
raise_childs_lem ranks u [] out h small = (refl, λ x. refl)
raise_childs_lem ranks u (c ∷ cs) out h small =
    let new =
      (ensure_after (get_or ranks u (record { value = 0 }))
        (get_or ranks c (record { value = 0 }))).1 in
    let at = λ (x : ℕ). val-raise ranks u c x (h c (ground arith)) small in
    let size = length-set ranks c new in
    let at_u : val (set ranks c new) u ≡ val ranks u = ground (arith, at u) in
    let (size', all) =
      raise_childs_lem (set ranks c new) u cs (ground arith) (λ d k. rw size (h d (ground arith)))
        (rw at_u small) in
    (size' ∙ size, λ x. ground (arith, all x, at x, at_u))

-- The state of the parents and of the stack after the second loop.
pub record Released (ps : List (List ℕ)) (u : ℕ) (updates cs : List ℕ) (ps' : List (List ℕ))
    (updates' : List ℕ) : Type 0 where
  pub size : length ps' ≡ length ps
  pub parents :
      (x : ℕ)
      → parents_of ps' x ≡ (if contains x cs then erase u (parents_of ps x) else parents_of ps x)
  pub stack :
      (x : ℕ)
      → contains x updates'
        ≡ (contains x updates || (contains x cs && is_empty (erase u (parents_of ps x))))
  pub distinct :
      Distinct updates
      → ((x : ℕ)
          → contains x cs ≡ true
          → is_empty (erase u (parents_of ps x)) ≡ true
          → contains x updates ≡ false)
      → Distinct updates'

pub release_childs_lem :
    (lo : ℕ) (ps : List (List ℕ)) (u : ℕ) (updates cs : List ℕ)
    → Ascending lo cs
    → ((c : ℕ) → contains c cs ≡ true → c < length ps)
    → Released ps u updates cs (release_childs ps u updates cs).0 (release_childs ps u updates cs).1
unfolding release_childs
release_childs_lem lo ps u updates [] a h = record {
  size = refl;
  parents = λ x. refl;
  stack = λ x. ground arith;
  distinct = λ d k. d;
}
release_childs_lem lo ps u updates (c ∷ cs) a h =
    let left = erase u (parents_of ps c) in
    let at = λ (x : ℕ). get_or-set ps c x left [] (h c (ground arith)) in
    let size = length-set ps c left in
    let absent = not-contains_below (suc c) c cs a.1 (omega arith) in
    let pushed : List ℕ = if is_empty left then c ∷ updates else updates in
    let r =
      release_childs_lem (suc c) (set ps c left) u pushed cs a.1
        (λ d k. rw size (h d (ground arith))) in
    record {
      size = r.size ∙ size;
      parents = λ x. ground (arith, r.parents x, at x);
      stack = λ x. ground (arith, r.stack x, at x);
      distinct = λ d k. r.distinct (ground (arith, k c)) (λ x i e. ground (arith, k x, at x));
    }

-- ===== src/Values/Runs/Intended.antt =====
-- The values that merge, snapshot, gate and lift intend at one time, when they are updated, and what
-- a cell's samples are while nothing is set.
use prf.Base.{
  ℕ, ◌≤◌, ◌<◌, ◌≡◌, ◌⊎◌, refl, ◌∙◌, sym, inl, inr, Bool, true, false, ◌||◌, Option, none, some,
  List, arith, Option-cases, find, assign, KeysAscending,
}
use prf.Values.Cell.{sample, send, sample-send, sample-Latest, never, set_at}

module _ {A : Type 0} where
  abbrev pub is_set : Option A → Bool
  is_set none = false
  is_set (some x) = true

pub sample_later :
    {U : Type 0} (t id : ℕ) (u : U) (b : List (ℕ × U))
    → KeysAscending 0 b
    → t < id
    → sample t (assign id u b) ≡ sample t b
unfolding send
sample_later t id u b k lt = (sample-send id t u b k).0 lt

-- The values of two streams at one time, combined where both have one.
abbrev pub merged : {T : Type 0} → (T → T → T) → Option T → Option T → Option T
merged f none y = y
merged f (some x) none = some x
merged f (some x) (some y) = some (f x y)

-- A function of two values, where both are there.
abbrev pub both : {T U V : Type 0} → (T → U → V) → Option T → Option U → Option V
both f (some x) (some y) = some (f x y)
both f (some x) none = none
both f none y = none

-- A value, where the flag is there and set.
abbrev pub gated : {T : Type 0} → Option T → Option Bool → Option T
gated x none = none
gated x (some false) = none
gated x (some true) = x

pub gated-none : {T : Type 0} (y : Option Bool) → gated {T = T} none y ≡ none
gated-none none = refl
gated-none (some true) = refl
gated-none (some false) = refl

abbrev pub first_fires : {T U : Type 0} → ℕ → List (ℕ × T) → List (ℕ × U) → Bool
first_fires t a b = is_set (find t a)

abbrev pub any_fires : {T U : Type 0} → ℕ → List (ℕ × T) → List (ℕ × U) → Bool
any_fires t a b = is_set (find t a) || is_set (find t b)

module _ {A : Type 0} where
  pub sample_never :
      (t : ℕ) (m : List (ℕ × A))
      → KeysAscending 0 m
      → ((j : ℕ) → j ≤ t → find j m ≡ none)
      → sample t m ≡ none
  sample_never t m k h = elim (sample-Latest t m k) [
    | never e h' ↦ e
    | set_at i v e le f after ↦ absurd (ground (arith, h i le))
  ]

  pub sample_earlier :
      (j t : ℕ) (m : List (ℕ × A))
      → KeysAscending 0 m
      → j ≤ t
      → sample t m ≡ none
      → sample j m ≡ none
  sample_earlier j t m k le h = elim (sample-Latest t m k) [
    | never e h' ↦ sample_never j m k (λ i p. h' i (omega arith))
    | set_at i v e low f after ↦ absurd (ground (arith, e, h))
  ]

  pub sample_quiet :
      (j t : ℕ) (m : List (ℕ × A))
      → KeysAscending 0 m
      → j ≤ t
      → ((i : ℕ) → j < i → i ≤ t → find i m ≡ none)
      → sample t m ≡ sample j m
  sample_quiet j t m k le h = elim (sample-Latest t m k) [
    | never e h' ↦ e ∙ sym (sample_never j m k (λ i p. h' i (omega arith)))
    | set_at i v e low f after ↦ elim (sample-Latest j m k) [
      | never e' h' ↦ absurd (ground (arith, h i, h' i))
      | set_at i' v' e' low' f' after' ↦ ground (arith, e, e', after i', after' i, h i)
    ]
  ]

pub any_quiet :
    {T U : Type 0} (t : ℕ) (a : List (ℕ × T)) (b : List (ℕ × U))
    → any_fires t a b ≡ false
    → (find t a ≡ none) × (find t b ≡ none)
any_quiet t a b h = elim (Option-cases (find t a)) [
  | inl p ↦ elim (Option-cases (find t b)) [
    | inl q ↦ (p, q)
    | inr (y, q) ↦ absurd (ground (arith, p, q))
  ]
  | inr (x, p) ↦ absurd (ground (arith, p))
]

pub both-none :
    {T U V : Type 0} (f : T → U → V) (x : Option T) (y : Option U)
    → (x ≡ none) ⊎ (y ≡ none)
    → both f x y ≡ none
both-none f none y h = refl
both-none f (some x) none h = refl
both-none f (some x) (some y) (inl e) = cc
both-none f (some x) (some y) (inr e) = cc

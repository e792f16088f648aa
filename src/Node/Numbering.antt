-- ===== src/Node/Numbering.antt =====
-- src/prf/utils.hpp: numbering and transpose.
use prf.Base.{
  ℕ, suc, ltb, ◌⊎◌, ◌↔◌, ◌+◌, ◌≤◌, ◌<◌, ◌≡◌, ◌≢◌, refl, true, inl, inr, none, some, List, [], ◌∷◌,
  arith, ◌==◌, Bool-cases, length, contains, assign, find, find-assign, find_below, get_or_default,
  KeysAscending, KeysAscending-assign, Distinct,
}

-- The first loop of numbering, which makes the keys.
unfoldable pub enter : List (ℕ × ℕ) → List ℕ → List (ℕ × ℕ)
enter m [] = m
enter m (x ∷ xs) = enter (assign x 0 m) xs

-- The second loop, which numbers the keys in their order.
unfoldable pub renumber : ℕ → List (ℕ × ℕ) → List (ℕ × ℕ)
renumber num [] = []
renumber num ((key, value) ∷ m) = (key, num) ∷ renumber (num + 1) m

unfoldable pub numbering : List ℕ → List (ℕ × ℕ)
unfolding enter renumber
numbering xs = renumber 0 (enter [] xs)

unfoldable pub transpose_into : List (ℕ × ℕ) → List (ℕ × ℕ) → List (ℕ × ℕ)
transpose_into res [] = res
transpose_into res ((key, value) ∷ m) = transpose_into (assign value key res) m

unfoldable pub transpose : List (ℕ × ℕ) → List (ℕ × ℕ)
unfolding transpose_into
transpose m = transpose_into [] m

-- map[key] of a map of numbers, which is 0 where the key is missing.
abbrev pub at : List (ℕ × ℕ) → ℕ → ℕ
at m key = get_or_default 0 (find key m)

enter_lem :
    (m : List (ℕ × ℕ)) (xs : List ℕ)
    → KeysAscending 0 m
    → KeysAscending 0 (enter m xs)
      × ((a : ℕ) → contains a xs ≡ true → find a (enter m xs) ≢ none)
      × ((a : ℕ) → find a m ≢ none → find a (enter m xs) ≢ none)
unfolding enter
enter_lem m [] k = (k, λ a h. cc, λ a h. h)
enter_lem m (x ∷ xs) k =
    let (k', new, kept) =
      enter_lem (assign x 0 m) xs (KeysAscending-assign 0 x 0 m k (omega arith)) in
    (
      k',
      λ a h. elim (Bool-cases (a == x)) [
        | inl same ↦ kept a (λ e. ground (arith, find-assign a x 0 m, e))
        | inr other ↦ new a (ground arith)
      ],
      λ a h. kept a (λ e. ground (arith, find-assign a x 0 m, e)),
    )

length-assign :
    (x v : ℕ) (m : List (ℕ × ℕ)) → find x m ≡ none → length (assign x v m) ≡ suc (length m)
length-assign x v [] h = refl
length-assign x v ((k, w) ∷ m) h = ground (arith, length-assign x v m)

-- As many keys as there are elements, where none comes twice.
length-enter :
    (m : List (ℕ × ℕ)) (xs : List ℕ)
    → Distinct xs
    → ((a : ℕ) → contains a xs ≡ true → find a m ≡ none)
    → length (enter m xs) ≡ length m + length xs
unfolding enter
length-enter m [] d h = omega arith
length-enter m (x ∷ xs) d h = omega (
  arith,
  length-assign x 0 m (h x (ground arith)),
  length-enter (assign x 0 m) xs d.1 (λ a k. ground (arith, h a, find-assign a x 0 m, d.0)),
)

-- A key has a number from `num` on.
renumber_bound :
    (num : ℕ) (m : List (ℕ × ℕ)) (a : ℕ)
    → find a m ≢ none
    → (i : ℕ) × (find a (renumber num m) ≡ some i) × (num ≤ i) × (i < num + length m)
unfolding renumber
renumber_bound num [] a h = absurd (h refl)
renumber_bound num ((k, v) ∷ m) a h = elim (Bool-cases (a == k)) [
  | inl same ↦ (num, ground arith, omega arith, omega arith)
  | inr other ↦
      let (i, found, low, high) = renumber_bound (num + 1) m a (λ e. h (ground arith)) in
      (i, ground (arith, found), omega arith, omega arith)
]

-- Every number is given to a key.
renumber_onto :
    (num : ℕ) (lo : ℕ) (m : List (ℕ × ℕ)) (i : ℕ)
    → KeysAscending lo m
    → num ≤ i
    → i < num + length m
    → (a : ℕ) × (find a (renumber num m) ≡ some i) × (find a m ≢ none)
unfolding renumber
renumber_onto num lo [] i k low high = absurd (omega arith)
renumber_onto num lo ((key, v) ∷ m) i k low high = elim (Bool-cases (i == num)) [
  | inl same ↦ (key, ground arith, λ e. ground arith)
  | inr other ↦
      let (a, found, there) =
        renumber_onto (num + 1) (suc key) m i k.1 (ground arith) (omega arith) in
      (
        a,
        ground (arith, found, there, find_below (suc key) key m k.1),
        λ e. ground (arith, there, e),
      )
]

transpose_below :
    (num : ℕ) (m res : List (ℕ × ℕ)) (i : ℕ)
    → i < num
    → find i (transpose_into res (renumber num m)) ≡ find i res
unfolding renumber transpose_into
transpose_below num [] res i h = refl
transpose_below num ((k, v) ∷ m) res i h =
    ground (arith, transpose_below (num + 1) m (assign num k res) i, find-assign i num k res)

transpose_find :
    (num : ℕ) (m res : List (ℕ × ℕ)) (a i : ℕ)
    → find a (renumber num m) ≡ some i
    → find i (transpose_into res (renumber num m)) ≡ some a
unfolding renumber transpose_into
transpose_find num [] res a i h = cc
transpose_find num ((k, v) ∷ m) res a i h = elim (Bool-cases (a == k)) [
  | inl same ↦
      let e : i ≡ num = ground arith in
      ground
        (arith, e, transpose_below (num + 1) m (assign num k res) num, find-assign num num k res)
  | inr other ↦ transpose_find (num + 1) m (assign num k res) a i (ground arith)
]

transpose_above :
    (num : ℕ) (m res : List (ℕ × ℕ)) (i : ℕ)
    → num + length m ≤ i
    → find i (transpose_into res (renumber num m)) ≡ find i res
unfolding renumber transpose_into
transpose_above num [] res i h = refl
transpose_above num ((k, v) ∷ m) res i h =
    ground (
      arith,
      transpose_above (num + 1) m (assign num k res) i (omega arith),
      find-assign i num k res,
    )

-- A key has the number `i` in numbering exactly when transpose gives the key for `i`.
pub transpose-numbering :
    (xs : List ℕ) (a i : ℕ)
    → (find a (numbering xs) ≡ some i) ↔ (find i (transpose (numbering xs)) ≡ some a)
unfolding numbering transpose
transpose-numbering xs a i =
    let m = enter [] xs in
    let (ascending, _, _) = enter_lem [] xs tt in
    (
      λ h. transpose_find 0 m [] a i h,
      λ h. elim (Bool-cases (ltb i (length m))) [
        | inr high ↦
            absurd
              (let none_at = transpose_above 0 m [] i (ground arith) in ground (arith, none_at))
        | inl low ↦
            let (b, found, _) = renumber_onto 0 0 m i ascending (omega arith) (ground arith) in
            ground (arith, found, transpose_find 0 m [] b i found)
      ],
    )

enter_only :
    (m : List (ℕ × ℕ)) (xs : List ℕ) (a : ℕ)
    → find a (enter m xs) ≢ none
    → (contains a xs ≡ true) ⊎ (find a m ≢ none)
unfolding enter
enter_only m [] a h = inr h
enter_only m (x ∷ xs) a h = elim (enter_only (assign x 0 m) xs a h) [
  | inl later ↦ inl (ground arith)
  | inr before ↦ elim (Bool-cases (a == x)) [
    | inl same ↦ inl (ground arith)
    | inr other ↦ inr (λ e. before (ground (arith, find-assign a x 0 m, e)))
  ]
]

-- What the nodes and their numbers are to each other.
pub record IsNumbering (nodes : List ℕ) (number node_at : ℕ → ℕ) : Type 0 where
  pub back : (a : ℕ) → contains a nodes ≡ true → node_at (number a) ≡ a
  pub below : (a : ℕ) → contains a nodes ≡ true → number a < length nodes
  pub onto : (i : ℕ) → i < length nodes → (a : ℕ) × (contains a nodes ≡ true) × (number a ≡ i)

pub numbering-IsNumbering :
    (nodes : List ℕ)
    → Distinct nodes
    → IsNumbering nodes (at (numbering nodes)) (at (transpose (numbering nodes)))
unfolding numbering transpose
numbering-IsNumbering nodes distinct =
    let m = enter [] nodes in
    let (ascending, new, _) = enter_lem [] nodes tt in
    let size = length-enter [] nodes distinct (λ a h. refl) in
    record {
      back = λ a h.
          let (i, found, _, _) = renumber_bound 0 m a (new a h) in
          ground (arith, found, transpose_find 0 m [] a i found);
      below = λ a h.
          let (i, found, _, high) = renumber_bound 0 m a (new a h) in
          ground (arith, found, high, size);
      onto = λ i h.
          let (a, found, there) =
            renumber_onto 0 0 m i ascending (omega arith) (omega (arith, size)) in
          (
            a,
            elim (enter_only [] nodes a there) [ inl k ↦ k | inr k ↦ absurd (k refl) ],
            ground (arith, found),
          );
    }

-- No two keys have one number.
pub numbering_unique :
    (xs : List ℕ) (a b : ℕ)
    → contains a xs ≡ true
    → contains b xs ≡ true
    → at (numbering xs) a ≡ at (numbering xs) b
    → a ≡ b
unfolding numbering
numbering_unique xs a b ka kb e =
    let m = enter [] xs in
    let (_, new, _) = enter_lem [] xs tt in
    let (i, at_a, _, _) = renumber_bound 0 m a (new a ka) in
    let (j, at_b, _, _) = renumber_bound 0 m b (new b kb) in
    let same : i ≡ j = ground (arith, at_a, at_b, e) in
    ground (arith, same, transpose_find 0 m [] a i at_a, transpose_find 0 m [] b j at_b)

abbrev pub ValuesBelow : ℕ → List (ℕ × ℕ) → Type 0
ValuesBelow n [] = Unit
ValuesBelow n ((key, value) ∷ m) = (value < n) × ValuesBelow n m

renumber-ValuesBelow :
    (num n : ℕ) (m : List (ℕ × ℕ)) → num + length m ≤ n → ValuesBelow n (renumber num m)
unfolding renumber
renumber-ValuesBelow num n [] h = tt
renumber-ValuesBelow num n ((k, v) ∷ m) h =
    (omega arith, renumber-ValuesBelow (num + 1) n m (omega arith))

length-renumber : (num : ℕ) (m : List (ℕ × ℕ)) → length (renumber num m) ≡ length m
unfolding renumber
length-renumber num [] = refl
length-renumber num ((k, v) ∷ m) = omega (arith, length-renumber (num + 1) m)

pub numbering-ValuesBelow : (xs : List ℕ) → ValuesBelow (length (numbering xs)) (numbering xs)
unfolding numbering
numbering-ValuesBelow xs =
    let m = enter [] xs in
    renumber-ValuesBelow 0 (length (renumber 0 m)) m (omega (arith, length-renumber 0 m))

-- An element has a number, which lies below the number of keys.
pub numbering_found :
    (xs : List ℕ) (a : ℕ)
    → contains a xs ≡ true
    → (find a (numbering xs) ≡ some (at (numbering xs) a))
      × (at (numbering xs) a < length (numbering xs))
unfolding numbering
numbering_found xs a k =
    let m = enter [] xs in
    let (_, new, _) = enter_lem [] xs tt in
    let (i, found, _, high) = renumber_bound 0 m a (new a k) in
    (ground (arith, found), ground (arith, found, high, length-renumber 0 m))

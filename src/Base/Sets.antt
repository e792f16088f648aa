-- ===== src/Base/Sets.antt =====
-- std::set of u64: ascending lists. The operations are those of the class on ascending lists.
use Prim.Native.Nat.{ℕ, suc, ◌+◌, ◌≤◌, ◌<◌}
use mathlib.Core.Path.{◌≡◌, refl}
use mathlib.Core.Bool.{Bool, true, false, not, ◌&&◌, ◌||◌}
use mathlib.Core.List.{List, [], ◌∷◌}
use native.Mathlib.Omega.{arith}
use prf.Base.Tests.{◌==◌, ltb, if◌then◌else◌}
use prf.Base.Lists.{length}

-- set.count(a)
abbrev pub contains : ℕ → List ℕ → Bool
contains a [] = false
contains a (x ∷ xs) = a == x || contains a xs

abbrev pub insert : ℕ → List ℕ → List ℕ
insert a [] = a ∷ []
insert a (x ∷ xs) = if a == x then x ∷ xs else if ltb a x then a ∷ x ∷ xs else x ∷ insert a xs

abbrev pub erase : ℕ → List ℕ → List ℕ
erase a [] = []
erase a (x ∷ xs) = if a == x then erase a xs else x ∷ erase a xs

abbrev pub is_empty {ℓ} : {A : Type ℓ} → List A → Bool
is_empty [] = true
is_empty (x ∷ xs) = false

-- Strictly ascending, from `lo` on.
abbrev pub Ascending : ℕ → List ℕ → Type 0
Ascending lo [] = Unit
Ascending lo (x ∷ xs) = (lo ≤ x) × Ascending (suc x) xs

pub contains-insert : (j a : ℕ) (s : List ℕ) → contains j (insert a s) ≡ (j == a || contains j s)
contains-insert j a [] = refl
contains-insert j a (x ∷ xs) = ground (arith, contains-insert j a xs)

pub contains-erase :
    (j a : ℕ) (s : List ℕ) → contains j (erase a s) ≡ (not (j == a) && contains j s)
contains-erase j a [] = ground arith
contains-erase j a (x ∷ xs) = ground (arith, contains-erase j a xs)

pub Ascending-mono : (lo hi : ℕ) (s : List ℕ) → lo ≤ hi → Ascending hi s → Ascending lo s
Ascending-mono lo hi [] h v = tt
Ascending-mono lo hi (x ∷ xs) h v = (omega arith, v.1)

pub Ascending-insert : (lo a : ℕ) (s : List ℕ) → Ascending lo s → lo ≤ a → Ascending lo (insert a s)
Ascending-insert lo a [] v h = (h, tt)
Ascending-insert lo a (x ∷ xs) v h = ground (arith, Ascending-insert (suc x) a xs v.1)

pub Ascending-erase : (lo a : ℕ) (s : List ℕ) → Ascending lo s → Ascending lo (erase a s)
Ascending-erase lo a [] v = tt
Ascending-erase lo a (x ∷ xs) v =
    ground (arith, Ascending-erase (suc x) a xs v.1, Ascending-mono lo (suc x) (erase a xs))

pub not-contains_below : (lo a : ℕ) (s : List ℕ) → Ascending lo s → a < lo → contains a s ≡ false
not-contains_below lo a [] v h = refl
not-contains_below lo a (x ∷ xs) v h = ground (arith, not-contains_below (suc x) a xs v.1)

pub erase_missing : (a : ℕ) (s : List ℕ) → contains a s ≡ false → erase a s ≡ s
erase_missing a [] h = refl
erase_missing a (x ∷ xs) h = ground (arith, erase_missing a xs)

-- An ascending list below `n` has at most `n` elements.
pub length-le_of_Ascending :
    (lo n : ℕ) (s : List ℕ)
    → Ascending lo s
    → lo ≤ n
    → ((a : ℕ) → contains a s ≡ true → a < n)
    → lo + length s ≤ n
length-le_of_Ascending lo n [] v h b = omega arith
length-le_of_Ascending lo n (x ∷ xs) v h b =
    let low = b x (ground arith) in
    omega (arith, length-le_of_Ascending (suc x) n xs v.1 low (λ a m. b a (ground arith)))

-- No element twice.
abbrev pub Distinct : List ℕ → Type 0
Distinct [] = Unit
Distinct (x ∷ xs) = (contains x xs ≡ false) × Distinct xs

pub not-contains_of_is_empty : (y : ℕ) (s : List ℕ) → is_empty s ≡ true → contains y s ≡ false
not-contains_of_is_empty y [] h = refl
not-contains_of_is_empty y (x ∷ s) h = cc

pub is_empty_of : (s : List ℕ) → ((y : ℕ) → contains y s ≡ false) → is_empty s ≡ true
is_empty_of [] h = refl
is_empty_of (x ∷ s) h = ground (arith, h x)

-- ===== src/Rank.antt =====
-- src/prf/rank.hpp and src/prf/rank.cpp: the value that orders dependencies. `ensure_after` writes
-- its argument, so it returns the argument's new value beside its own result.
use prf.Base.{
  ℕ, ◌+◌, ◌≤◌, ◌<◌, ◌≡◌, Bool, true, false, not, ◌⊎◌, arith, ltb, ◌==◌, if◌then◌else◌, wrap,
  u64_mod,
}

pub record Rank : Type 0 where
  pub value : ℕ

-- Rank::Rank()
unfoldable pub new_rank : Rank
new_rank = record { value = 0 }

unfoldable pub rank_lt : Rank → Rank → Bool
rank_lt x y = ltb x.value y.value

unfoldable pub rank_gt : Rank → Rank → Bool
rank_gt x y = ltb y.value x.value

unfoldable pub rank_eq : Rank → Rank → Bool
rank_eq x y = x.value == y.value

-- self.ensure_after(other): the result, and the new `other`.
unfoldable pub ensure_after : Rank → Rank → Bool × Rank
unfolding rank_lt
ensure_after self other =
    if rank_lt self other
    then (false, other)
    else (true, record other { value = wrap (self.value + 1) })

-- Below the largest u64, `ensure_after` leaves `other` strictly above the rank that it is called
-- on, never lowers it, takes the least such value, and reports true exactly when the value of
-- `other` was changed.
pub ensure_after_lem :
    (self other : Rank)
    → self.value + 1 < u64_mod
    → (rank_lt self (ensure_after self other).1 ≡ true)
      × (other.value ≤ (ensure_after self other).1.value)
      × (((ensure_after self other).1.value ≡ other.value)
          ⊎ ((ensure_after self other).1.value ≡ self.value + 1))
      × ((ensure_after self other).0 ≡ not (other.value == (ensure_after self other).1.value))
unfolding ensure_after rank_lt
ensure_after_lem self other h = ground arith

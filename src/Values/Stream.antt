-- ===== src/Values/Stream.antt =====
-- StreamInternal of src/prf/stream.hpp. A stream has a value only in the transactions that set one.
use prf.Base.{ℕ, ◌≡◌, Option, some, List, ◌==◌, if◌then◌else◌, find, assign, remove, find-assign}

module _ {T : Type 0} where
  -- StreamInternal::sample
  unfoldable pub stream_sample : ℕ → List (ℕ × T) → Option T
  stream_sample id m = find id m

  -- The write of StreamInternal::send.
  unfoldable pub stream_send : ℕ → T → List (ℕ × T) → List (ℕ × T)
  stream_send id v m = assign id v m

  -- StreamInternal::refresh
  unfoldable pub stream_refresh : ℕ → List (ℕ × T) → List (ℕ × T)
  stream_refresh id m = remove id m

  pub stream_sample-send :
      (id j : ℕ) (v : T) (m : List (ℕ × T))
      → stream_sample j (stream_send id v m) ≡ (if j == id then some v else stream_sample j m)
  unfolding stream_sample stream_send
  stream_sample-send id j v m = find-assign j id v m

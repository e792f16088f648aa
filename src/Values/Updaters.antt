-- ===== src/Values/Updaters.antt =====
-- The updaters that the combinators of src/prf/stream.hpp and src/prf/cell.hpp install, and how
-- StreamInternal::update and CellInternal::update use what they return.
use prf.Base.{ℕ, ◌≡◌, refl, Bool, true, false, Option, none, some, List, if◌then◌else◌}
use prf.Values.Cell.{sample, send}
use prf.Values.Stream.{stream_sample, stream_send}

-- What running an updater comes to: failure_log ends the program, an empty optional is
-- dereferenced, std::nullopt is returned, or a value is.
pub data Update (T : Type 0) : Type 0 where
  exits undefined nothing : Update T
  value : T → Update T

infixl 5 ◌>>=◌
abbrev pub ◌>>=◌ : {T U : Type 0} → Update T → (T → Update U) → Update U
exits >>= f = exits
undefined >>= f = undefined
nothing >>= f = nothing
(value v) >>= f = f v

pub bind_assoc :
    {T U V : Type 0} (u : Update T) (f : T → Update U) (g : U → Update V)
    → ((u >>= f) >>= g) ≡ (u >>= (λ v. f v >>= g))
bind_assoc exits f g = refl
bind_assoc undefined f g = refl
bind_assoc nothing f g = refl
bind_assoc (value v) f g = refl

-- What StreamInternal::unsafeSample and CellInternal::unsafeSample do with the sample.
unfoldable pub or_exit : {T : Type 0} → Option T → Update T
or_exit none = exits
or_exit (some v) = value v

unfoldable pub or_nothing : {T : Type 0} → Option T → Update T
or_nothing none = nothing
or_nothing (some v) = value v

-- StreamInternal::unsafeSample
unfoldable pub get_stream : {T : Type 0} → ℕ → List (ℕ × T) → Update T
get_stream id m = or_exit (stream_sample id m)

-- CellInternal::sample followed by `return std::nullopt` where it is empty.
unfoldable pub get_cell : {T : Type 0} → ℕ → List (ℕ × T) → Update T
get_cell id m = or_nothing (sample id m)

-- CellInternal::unsafeSample
unfoldable pub get_cell_or_exit : {T : Type 0} → ℕ → List (ℕ × T) → Update T
get_cell_or_exit id m = or_exit (sample id m)

-- The updater of Stream::map.
unfoldable pub map_updater : {T U : Type 0} → ℕ → (T → U) → List (ℕ × T) → Update U
map_updater id f m = do v ← get_stream id m; value (f v)

-- The updater of Cell::map.
unfoldable pub cell_map_updater : {T U : Type 0} → ℕ → (T → U) → List (ℕ × T) → Update U
cell_map_updater id f m = do v ← get_cell_or_exit id m; value (f v)

-- The last two branches of the updater of Stream::merge, `**v1` where v2 is empty included.
unfoldable pub merge_values : {T : Type 0} → (T → T → T) → Option T → Option T → Update T
merge_values f (some v1) (some v2) = value (f v1 v2)
merge_values f (some v1) none = value v1
merge_values f none none = undefined
merge_values f none (some v2) = value v2

-- The updater of Stream::merge.
unfoldable pub merge_updater :
    {T : Type 0} → ℕ → (T → T → T) → List (ℕ × T) → List (ℕ × T) → Update T
merge_updater id f m m2 = merge_values f (stream_sample id m) (stream_sample id m2)

-- The updater of the merge that Stream::or_else makes.
unfoldable pub or_else_updater : {T : Type 0} → ℕ → List (ℕ × T) → List (ℕ × T) → Update T
or_else_updater id m m2 = merge_updater id (λ x y. x) m m2

-- The updater of Stream::hold, and of StreamLoop::loop.
unfoldable pub hold_updater : {T : Type 0} → ℕ → List (ℕ × T) → Update T
hold_updater id m = get_stream id m

-- The updater of CellLoop::loop.
unfoldable pub cell_loop_updater : {T : Type 0} → ℕ → List (ℕ × T) → Update T
cell_loop_updater id m = get_cell_or_exit id m

-- The updater of Stream::filter.
unfoldable pub filter_updater : {T : Type 0} → ℕ → (T → Bool) → List (ℕ × T) → Update T
filter_updater id f m = do v ← get_stream id m; if f v then value v else nothing

-- The updater of Stream::gate.
unfoldable pub gate_updater : {T : Type 0} → ℕ → List (ℕ × Bool) → List (ℕ × T) → Update T
gate_updater id c m = do open_now ← get_cell id c; if open_now then get_stream id m else nothing

-- StreamInternal::update: the map of values after it, with whether the listeners were registered.
unfoldable pub stream_update :
    {T : Type 0} → ℕ → Update T → List (ℕ × T) → Update (List (ℕ × T) × Bool)
stream_update id exits m = exits
stream_update id undefined m = undefined
stream_update id nothing m = value (m, false)
stream_update id (value v) m = value (stream_send id v m, true)

-- CellInternal::update
unfoldable pub cell_update :
    {T : Type 0} → ℕ → Update T → List (ℕ × T) → Update (List (ℕ × T) × Bool)
cell_update id exits m = exits
cell_update id undefined m = undefined
cell_update id nothing m = value (m, false)
cell_update id (value v) m = value (send id v m, true)

-- A further cell whose value a function takes.
unfoldable pub apply : {U V : Type 0} → ℕ → Update (U → V) → List (ℕ × U) → Update V
apply id g m = do f ← g; v ← get_cell id m; value (f v)

-- ===== src/Values/Runs/Streams.antt =====
-- A stream of src/prf/stream.hpp with two sources, over many transactions: it has at each time the
-- value that its rule intends.
use prf.Base.{
  ℕ, suc, ◌≤◌, ◌<◌, ◌≡◌, ◌⊎◌, refl, inl, inr, Bool, true, false, Option, none, some, List, [], ◌∷◌,
  arith, ◌==◌, ltb, if◌then◌else◌, find, assign, find-assign, KeysAscending, KeysAscending-assign,
}
use prf.Values.Stream.{stream_sample, stream_send}
use prf.Values.Updaters.{Update, nothing, value, stream_update}
use prf.Values.Runs.{
  Kind, stream, update_value, refreshed, Event, set_first, set_second, update_at, end_at, run,
  updated_to, ended_to, InTurn,
}
use prf.Values.Runs.Ends.{refresh_value-refreshed, refreshed-KeysAscending, find-refreshed_stream}

-- What an updater and a trigger have to do with the intended value at each time.
pub record StreamRule {T U V : Type 0} (first second : Kind)
    (fires : ℕ → List (ℕ × T) → List (ℕ × U) → Bool)
    (updater : ℕ → List (ℕ × T) → List (ℕ × U) → Update V)
    (intended : ℕ → List (ℕ × T) → List (ℕ × U) → Option V) : Type 0 where
  pub calm :
      (t : ℕ) (a : List (ℕ × T)) (b : List (ℕ × U)) → fires t a b ≡ false → intended t a b ≡ none
  pub first_later :
      (t id : ℕ) (v : T) (a : List (ℕ × T)) (b : List (ℕ × U))
      → KeysAscending 0 a
      → t < id
      → intended t (assign id v a) b ≡ intended t a b
  pub second_later :
      (t id : ℕ) (u : U) (a : List (ℕ × T)) (b : List (ℕ × U))
      → KeysAscending 0 b
      → t < id
      → intended t a (assign id u b) ≡ intended t a b
  pub computes :
      (id : ℕ) (a : List (ℕ × T)) (b : List (ℕ × U))
      → fires id a b ≡ true
      → (intended id a b ≡ none) × (updater id a b ≡ nothing)
        ⊎ (v : V) × (intended id a b ≡ some v) × (updater id a b ≡ value v)
  pub ends :
      (t id : ℕ) (a : List (ℕ × T)) (b : List (ℕ × U))
      → KeysAscending 0 b
      → id ≤ t
      → intended t (refreshed first id a) (refreshed second id b)
        ≡ (if t == id then none else intended t a b)

module _ {T U V : Type 0} {first second : Kind} {fires : ℕ → List (ℕ × T) → List (ℕ × U) → Bool}
    {updater : ℕ → List (ℕ × T) → List (ℕ × U) → Update V}
    {intended : ℕ → List (ℕ × T) → List (ℕ × U) → Option V}
    (rule : StreamRule first second fires updater intended) where
  -- The stream has the intended values from `ended` on and before `done`, and none later.
  record StreamUpTo (ended done : ℕ) (a : List (ℕ × T)) (b : List (ℕ × U)) (c : List (ℕ × V))
      : Type 0 where
    first_order : KeysAscending 0 a
    second_order : KeysAscending 0 b
    order : KeysAscending 0 c
    has : (t : ℕ) → ended ≤ t → find t c ≡ (if ltb t done then intended t a b else none)

  StreamUpTo-end :
      (ended done id : ℕ) (a : List (ℕ × T)) (b : List (ℕ × U)) (c : List (ℕ × V))
      → StreamUpTo ended done a b c
      → ended ≤ id
      → id < done
      → StreamUpTo id done (refreshed first id a) (refreshed second id b) (refreshed stream id c)
  StreamUpTo-end ended done id a b c v le lt = record {
    first_order = refreshed-KeysAscending first id a v.first_order;
    second_order = refreshed-KeysAscending second id b v.second_order;
    order = refreshed-KeysAscending stream id c v.order;
    has = λ t p.
        ground (arith, find-refreshed_stream id t c, v.has t, rule.ends t id a b v.second_order p);
  }

  stream_run_lem :
      (es : List (Event T U)) (ended done : ℕ) (a : List (ℕ × T)) (b : List (ℕ × U))
      (c : List (ℕ × V))
      → StreamUpTo ended done a b c
      → InTurn first second fires ended done a b es
      → (a' : List (ℕ × T)) × (b' : List (ℕ × U)) × (c' : List (ℕ × V)) × (run first second stream
            updater es a b c
          ≡ value (a', b', c'))
        × StreamUpTo (ended_to ended es) (updated_to done es) a' b' c'
  unfolding run update_value stream_update stream_send refreshed
  stream_run_lem [] ended done a b c v l = (a, b, c, refl, v)
  stream_run_lem (set_first id x ∷ es) ended done a b c v l =
      stream_run_lem es ended done (assign id x a) b c
        (record {
          first_order = KeysAscending-assign 0 id x a v.first_order (omega arith);
          second_order = v.second_order;
          order = v.order;
          has = λ t p. ground (arith, v.has t, rule.first_later t id x a b v.first_order);
        })
        l.1
  stream_run_lem (set_second id y ∷ es) ended done a b c v l =
      stream_run_lem es ended done a (assign id y b) c
        (record {
          first_order = v.first_order;
          second_order = KeysAscending-assign 0 id y b v.second_order (omega arith);
          order = v.order;
          has = λ t p. ground (arith, v.has t, rule.second_later t id y a b v.second_order);
        })
        l.1
  stream_run_lem (update_at id ∷ es) ended done a b c v (le, fire, quiet, l) =
      let rest = λ (t : ℕ) (p : done ≤ t) (q : t < id). rule.calm t a b (quiet t p q) in
      elim (rule.computes id a b fire) [
        | inl (e, u) ↦ rw u (
            stream_run_lem es ended (suc id) a b c
              (record {
                first_order = v.first_order;
                second_order = v.second_order;
                order = v.order;
                has = λ t p. ground (arith, v.has t, rest t);
              })
              l)
        | inr (z, e, u) ↦ rw u (
            stream_run_lem es ended (suc id) a b (assign id z c)
              (record {
                first_order = v.first_order;
                second_order = v.second_order;
                order = KeysAscending-assign 0 id z c v.order (omega arith);
                has = λ t p. ground (arith, v.has t, rest t, find-assign t id z c);
              })
              l)
      ]
  stream_run_lem (end_at id ∷ es) ended done a b c v (le, lt, l) =
      rw
        (
          refresh_value-refreshed first id a v.first_order,
          refresh_value-refreshed second id b v.second_order,
        )
        (stream_run_lem es id done (refreshed first id a) (refreshed second id b)
          (refreshed stream id c) (StreamUpTo-end ended done id a b c v le lt) l)

  pub stream_run :
      (es : List (Event T U)) (a : List (ℕ × T)) (b : List (ℕ × U))
      → KeysAscending 0 a
      → KeysAscending 0 b
      → InTurn first second fires 0 0 a b es
      → (a' : List (ℕ × T)) × (b' : List (ℕ × U)) × (c' : List (ℕ × V)) × (run first second stream
            updater es a b []
          ≡ value (a', b', c'))
        × ((t : ℕ)
            → ended_to 0 es ≤ t
            → stream_sample t c' ≡ (if ltb t (updated_to 0 es) then intended t a' b' else none))
  unfolding stream_sample
  stream_run es a b ka kb l =
      let (a', b', c', e, v) =
        stream_run_lem es 0 0 a b []
          (record { first_order = ka; second_order = kb; order = tt; has = λ t p. ground arith })
          l in
      (a', b', c', e, v.has)

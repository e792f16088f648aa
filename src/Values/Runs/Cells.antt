-- ===== src/Values/Runs/Cells.antt =====
-- The cell that lift of src/prf/cell.hpp makes, over many transactions: its values are those of the
-- two cells, time by time.
use prf.Base.{
  ℕ, zero, suc, ◌≤◌, ◌<◌, ◌≡◌, ◌⊎◌, refl, ◌∙◌, sym, inl, inr, false, Option, none, some, List, [],
  ◌∷◌, arith, ltb, Bool-cases, Option-cases, find, assign, find-assign, KeysAscending,
  KeysAscending-assign,
}
use prf.Values.Cell.{sample, send, sample-send}
use prf.Values.Updaters.{nothing, value, cell_update, get_cell, or_nothing}
use prf.Values.Lift.{lift_updater_1}
use prf.Values.Runs.{
  cell, update_value, refreshed, Event, set_first, set_second, update_at, end_at, run, updated_to,
  ended_to, InTurn,
}
use prf.Values.Runs.Ends.{
  refresh_value-refreshed, refreshed-KeysAscending, find-refreshed_cell, sample-refreshed_cell,
}
use prf.Values.Runs.Intended.{
  both, any_fires, sample_later, sample_never, sample_earlier, sample_quiet, any_quiet, both-none,
}

lift_computes :
    {T U V : Type 0} (f : T → U → V) (id : ℕ) (a : List (ℕ × T)) (b : List (ℕ × U))
    → (both f (sample id a) (sample id b) ≡ none)
        × ((sample id a ≡ none) ⊎ (sample id b ≡ none))
        × (lift_updater_1 id f a b ≡ nothing)
      ⊎ (v : V) × (both f (sample id a) (sample id b) ≡ some v)
        × (lift_updater_1 id f a b ≡ value v)
unfolding lift_updater_1 get_cell or_nothing
lift_computes f id a b = elim (Option-cases (sample id a)) [
  | inl p ↦ inl (rw p, inl p, rw p)
  | inr (x, p) ↦ elim (Option-cases (sample id b)) [
    | inl q ↦ inl (rw (p, q), inr q, rw (p, q))
    | inr (y, q) ↦ inr (f x y, rw (p, q), rw (p, q))
  ]
]

module _ {T U V : Type 0} (f : T → U → V) where
  abbrev lifted : ℕ → List (ℕ × T) → List (ℕ × U) → Option V
  lifted t a b = both f (sample t a) (sample t b)

  -- The cell has the intended values from `ended` on and before `done`, and no entry from there on.
  -- What has ended has been updated.
  record UpTo (ended done : ℕ) (a : List (ℕ × T)) (b : List (ℕ × U)) (c : List (ℕ × V))
      : Type 0 where
    first_order : KeysAscending 0 a
    second_order : KeysAscending 0 b
    order : KeysAscending 0 c
    past : (t : ℕ) → ended ≤ t → t < done → sample t c ≡ lifted t a b
    begun : (ended ≡ 0) ⊎ (ended < done)
    future : (t : ℕ) → done ≤ t → find t c ≡ none

  -- While nothing is set the cell goes on having the intended value.
  UpTo-quiet :
      (ended done t : ℕ) (a : List (ℕ × T)) (b : List (ℕ × U)) (c : List (ℕ × V))
      → UpTo ended done a b c
      → ((j : ℕ) → done ≤ j → j ≤ t → any_fires j a b ≡ false)
      → ended ≤ t
      → sample t c ≡ lifted t a b
  UpTo-quiet ended zero t a b c v h late =
      sample_never t c v.order (λ j p. v.future j (omega arith))
      ∙ sym (
          both-none f (sample t a) (sample t b) (
            inl
              (sample_never t a v.first_order (λ j p. (any_quiet j a b (h j (omega arith) p)).0))))
  UpTo-quiet ended (suc k) t a b c v h late = elim (Bool-cases (ltb k t)) [
    | inl more ↦
        let le : k ≤ t = ground arith in
        let e = sample_quiet k t c v.order le (λ i p q. v.future i (omega arith)) in
        let e1 =
          sample_quiet k t a v.first_order le
            (λ i p q. (any_quiet i a b (h i (omega arith) q)).0) in
        let e2 =
          sample_quiet k t b v.second_order le
            (λ i p q. (any_quiet i a b (h i (omega arith) q)).1) in
        rw (e, e1, e2, v.past k (ground (arith, v.begun)) (omega arith))
    | inr over ↦ v.past t late (ground arith)
  ]

  -- Where a source has no value yet at `t`, neither has the cell.
  UpTo-none :
      (ended done t : ℕ) (a : List (ℕ × T)) (b : List (ℕ × U)) (c : List (ℕ × V))
      → UpTo ended done a b c
      → done ≤ t
      → (sample t a ≡ none) ⊎ (sample t b ≡ none)
      → sample t c ≡ none
  UpTo-none ended zero t a b c v le h = sample_never t c v.order (λ j p. v.future j (omega arith))
  UpTo-none ended (suc k) t a b c v le h =
      let before : (sample k a ≡ none) ⊎ (sample k b ≡ none) = elim h [
        | inl p ↦ inl (sample_earlier k t a v.first_order (omega arith) p)
        | inr q ↦ inr (sample_earlier k t b v.second_order (omega arith) q)
      ] in
      sample_quiet k t c v.order (omega arith) (λ i p q. v.future i (omega arith))
      ∙ v.past k (ground (arith, v.begun)) (omega arith)
      ∙ both-none f (sample k a) (sample k b) before

  UpTo-first :
      (ended done id : ℕ) (x : T) (a : List (ℕ × T)) (b : List (ℕ × U)) (c : List (ℕ × V))
      → UpTo ended done a b c
      → done ≤ id
      → UpTo ended done (assign id x a) b c
  UpTo-first ended done id x a b c v le = record {
    first_order = KeysAscending-assign 0 id x a v.first_order (omega arith);
    second_order = v.second_order;
    order = v.order;
    past = λ t late lt. rw (sample_later t id x a v.first_order (omega arith), v.past t late lt);
    begun = v.begun;
    future = v.future;
  }

  UpTo-second :
      (ended done id : ℕ) (y : U) (a : List (ℕ × T)) (b : List (ℕ × U)) (c : List (ℕ × V))
      → UpTo ended done a b c
      → done ≤ id
      → UpTo ended done a (assign id y b) c
  UpTo-second ended done id y a b c v le = record {
    first_order = v.first_order;
    second_order = KeysAscending-assign 0 id y b v.second_order (omega arith);
    order = v.order;
    past = λ t late lt. rw (sample_later t id y b v.second_order (omega arith), v.past t late lt);
    begun = v.begun;
    future = v.future;
  }

  module _ (ended done id : ℕ) (a : List (ℕ × T)) (b : List (ℕ × U)) (c : List (ℕ × V))
      (v : UpTo ended done a b c) (le : done ≤ id)
      (quiet : (j : ℕ) → done ≤ j → j < id → any_fires j a b ≡ false) where
    before_turn : (t : ℕ) → ended ≤ t → t < id → sample t c ≡ lifted t a b
    before_turn t late lt = UpTo-quiet ended done t a b c v (λ j p q. quiet j p (omega arith)) late

    UpTo-nothing :
        lifted id a b ≡ none
        → (sample id a ≡ none) ⊎ (sample id b ≡ none)
        → UpTo ended (suc id) a b c
    UpTo-nothing e h = record {
      first_order = v.first_order;
      second_order = v.second_order;
      order = v.order;
      begun = ground (arith, v.begun);
      past = λ t late lt. elim (Bool-cases (ltb t id)) [
        | inl p ↦ before_turn t late (ground arith)
        | inr p ↦
            let same : t ≡ id = ground arith in
            rw same (UpTo-none ended done id a b c v le h ∙ sym e)
      ];
      future = λ t p. v.future t (omega arith);
    }

    UpTo-value : (z : V) → lifted id a b ≡ some z → UpTo ended (suc id) a b (assign id z c)
    unfolding send
    UpTo-value z e = record {
      first_order = v.first_order;
      second_order = v.second_order;
      order = KeysAscending-assign 0 id z c v.order (omega arith);
      begun = ground (arith, v.begun);
      past = λ t late lt. elim (Bool-cases (ltb t id)) [
        | inl p ↦
            let p' : t < id = ground arith in
            sample_later t id z c v.order p' ∙ before_turn t late p'
        | inr p ↦
            let same : t ≡ id = ground arith in
            rw same (
              (sample-send id id z c v.order).1 (omega arith) (λ j q r. absurd (omega arith))
              ∙ sym e)
      ];
      future = λ t p. ground (arith, find-assign t id z c, v.future t);
    }

  UpTo-end :
      (ended done id : ℕ) (a : List (ℕ × T)) (b : List (ℕ × U)) (c : List (ℕ × V))
      → UpTo ended done a b c
      → ended ≤ id
      → id < done
      → UpTo id done (refreshed cell id a) (refreshed cell id b) (refreshed cell id c)
  UpTo-end ended done id a b c v le lt = record {
    first_order = refreshed-KeysAscending cell id a v.first_order;
    second_order = refreshed-KeysAscending cell id b v.second_order;
    order = refreshed-KeysAscending cell id c v.order;
    past = λ t late p. rw (
      sample-refreshed_cell id t a v.first_order late,
      sample-refreshed_cell id t b v.second_order late,
      sample-refreshed_cell id t c v.order late,
      v.past t (omega arith) p,
    );
    begun = inr lt;
    future = λ t p. find-refreshed_cell id t c v.order (omega arith) ∙ v.future t p;
  }

  lift_run_lem :
      (es : List (Event T U)) (ended done : ℕ) (a : List (ℕ × T)) (b : List (ℕ × U))
      (c : List (ℕ × V))
      → UpTo ended done a b c
      → InTurn cell cell any_fires ended done a b es
      → (a' : List (ℕ × T)) × (b' : List (ℕ × U)) × (c' : List (ℕ × V)) × (run cell cell cell
            (λ id. lift_updater_1 id f)
            es
            a
            b
            c
          ≡ value (a', b', c'))
        × UpTo (ended_to ended es) (updated_to done es) a' b' c'
  unfolding run update_value cell_update send
  lift_run_lem [] ended done a b c v l = (a, b, c, refl, v)
  lift_run_lem (set_first id x ∷ es) ended done a b c v l =
      lift_run_lem es ended done (assign id x a) b c (UpTo-first ended done id x a b c v l.0) l.1
  lift_run_lem (set_second id y ∷ es) ended done a b c v l =
      lift_run_lem es ended done a (assign id y b) c (UpTo-second ended done id y a b c v l.0) l.1
  lift_run_lem (update_at id ∷ es) ended done a b c v (le, fire, quiet, l) =
      elim (lift_computes f id a b) [
        | inl (e, h, u) ↦ rw u (
            lift_run_lem es ended (suc id) a b c (UpTo-nothing ended done id a b c v le quiet e h)
              l)
        | inr (z, e, u) ↦ rw u (
            lift_run_lem es ended (suc id) a b (assign id z c)
              (UpTo-value ended done id a b c v le quiet z e) l)
      ]
  lift_run_lem (end_at id ∷ es) ended done a b c v (le, lt, l) =
      rw
        (
          refresh_value-refreshed cell id a v.first_order,
          refresh_value-refreshed cell id b v.second_order,
          refresh_value-refreshed cell id c v.order,
        )
        (lift_run_lem es id done (refreshed cell id a) (refreshed cell id b) (refreshed cell id c)
          (UpTo-end ended done id a b c v le lt) l)

-- Over any transactions that set two cells, whose maps start in order, update their lift, which starts
-- with no value, in turn, in the transactions that set one of them and after they have set them, and
-- end in order, which refreshes the three, neither the updater nor a refresh exits. From the last end
-- on and up to the last update the lift has at each time the value of `f` at what the two cells have
-- then, and none where one of them has none yet. The cells may be set by a later transaction before
-- an earlier one updates the lift.
pub run-lift_updater_1 :
    {T U V : Type 0} (f : T → U → V) (es : List (Event T U)) (a : List (ℕ × T)) (b : List (ℕ × U))
    → KeysAscending 0 a
    → KeysAscending 0 b
    → InTurn cell cell any_fires 0 0 a b es
    → (a' : List (ℕ × T)) × (b' : List (ℕ × U)) × (c' : List (ℕ × V)) × (run cell cell cell
          (λ id. lift_updater_1 id f)
          es
          a
          b
          []
        ≡ value (a', b', c'))
      × ((t : ℕ)
          → ended_to 0 es ≤ t
          → t < updated_to 0 es
          → sample t c' ≡ both f (sample t a') (sample t b'))
run-lift_updater_1 f es a b ka kb l =
    let (a', b', c', e, v) =
      lift_run_lem f es 0 0 a b []
        (record {
          first_order = ka;
          second_order = kb;
          order = tt;
          past = λ t late lt. absurd (omega arith);
          begun = inl refl;
          future = λ t p. refl;
        })
        l in
    (a', b', c', e, v.past)

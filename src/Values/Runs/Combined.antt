-- ===== src/Values/Runs/Combined.antt =====
-- The streams that merge, snapshot and gate of src/prf/stream.hpp make, over many transactions: their
-- values are those of the sources, time by time.
use prf.Base.{
  ℕ, ◌≤◌, ◌≡◌, inl, inr, Bool, true, false, none, List, [], arith, ◌==◌, ltb, if◌then◌else◌,
  Bool-cases, Option-cases, find, find-assign, KeysAscending,
}
use prf.Values.Cell.{sample}
use prf.Values.Stream.{stream_sample}
use prf.Values.Updaters.{
  value, merge_updater, merge_values, gate_updater, get_stream, get_cell, or_exit, or_nothing,
}
use prf.Values.Snapshot.{snapshot_updater_1}
use prf.Values.Runs.{cell, stream, Event, run, updated_to, ended_to, InTurn}
use prf.Values.Runs.Ends.{find-refreshed_stream, sample-refreshed_cell}
use prf.Values.Runs.Streams.{StreamRule, stream_run}
use prf.Values.Runs.Intended.{merged, both, gated, gated-none, first_fires, any_fires, sample_later}

merge_rule :
    {T : Type 0} (f : T → T → T)
    → StreamRule stream stream any_fires
        (λ id. merge_updater id f)
        (λ t a b. merged f (stream_sample t a) (stream_sample t b))
unfolding merge_updater merge_values stream_sample
merge_rule f = record {
  calm = λ t a b h. elim (Option-cases (find t a)) [
    | inl p ↦ elim (Option-cases (find t b)) [
      | inl q ↦ rw (p, q)
      | inr (y, q) ↦ absurd (ground (arith, p, q))
    ]
    | inr (x, p) ↦ absurd (ground (arith, p))
  ];
  first_later = λ t id v a b k lt. ground (arith, find-assign t id v a);
  second_later = λ t id u a b k lt. ground (arith, find-assign t id u b);
  ends = λ t id a b k le.
      rw (find-refreshed_stream id t a, find-refreshed_stream id t b)
        (elim (Bool-cases (t == id)) [ inl p ↦ rw p | inr p ↦ rw p ]);
  computes = λ id a b h. elim (Option-cases (find id a)) [
    | inl p ↦ elim (Option-cases (find id b)) [
      | inl q ↦ absurd (ground (arith, p, q))
      | inr (y, q) ↦ inr (y, rw (p, q), rw (p, q))
    ]
    | inr (x, p) ↦ elim (Option-cases (find id b)) [
      | inl q ↦ inr (x, rw (p, q), rw (p, q))
      | inr (y, q) ↦ inr (f x y, rw (p, q), rw (p, q))
    ]
  ];
}

snapshot_rule :
    {T U V : Type 0} (f : T → U → V)
    → StreamRule stream cell first_fires
        (λ id. snapshot_updater_1 id f)
        (λ t a b. both f (stream_sample t a) (sample t b))
unfolding snapshot_updater_1 get_stream get_cell or_exit or_nothing stream_sample
snapshot_rule f = record {
  calm = λ t a b h. elim (Option-cases (find t a)) [
    | inl p ↦ rw p
    | inr (x, p) ↦ absurd (ground (arith, p))
  ];
  first_later = λ t id v a b k lt. ground (arith, find-assign t id v a);
  second_later = λ t id u a b k lt. rw (sample_later t id u b k lt);
  ends = λ t id a b k le.
      rw (find-refreshed_stream id t a, sample-refreshed_cell id t b k le)
        (elim (Bool-cases (t == id)) [ inl p ↦ rw p | inr p ↦ rw p ]);
  computes = λ id a b h. elim (Option-cases (find id a)) [
    | inl p ↦ absurd (ground (arith, p))
    | inr (x, p) ↦ elim (Option-cases (sample id b)) [
      | inl q ↦ inl (rw (p, q), rw (p, q))
      | inr (y, q) ↦ inr (f x y, rw (p, q), rw (p, q))
    ]
  ];
}

gate_rule :
    {T : Type 0}
    → StreamRule {T = T} stream cell first_fires
        (λ id a b. gate_updater id b a)
        (λ t a b. gated (stream_sample t a) (sample t b))
unfolding gate_updater get_stream get_cell or_exit or_nothing stream_sample
gate_rule = record {
  calm = λ t a b h. elim (Option-cases (find t a)) [
    | inl p ↦ elim (Option-cases (sample t b)) [
      | inl q ↦ rw (p, q)
      | inr (true, q) ↦ rw (p, q)
      | inr (false, q) ↦ rw (p, q)
    ]
    | inr (x, p) ↦ absurd (ground (arith, p))
  ];
  first_later = λ t id v a b k lt. ground (arith, find-assign t id v a);
  second_later = λ t id u a b k lt. rw (sample_later t id u b k lt);
  ends = λ t id a b k le.
      rw (find-refreshed_stream id t a, sample-refreshed_cell id t b k le)
        (elim (Bool-cases (t == id)) [ inl p ↦ rw p (gated-none (sample t b)) | inr p ↦ rw p ]);
  computes = λ id a b h. elim (Option-cases (find id a)) [
    | inl p ↦ absurd (ground (arith, p))
    | inr (x, p) ↦ elim (Option-cases (sample id b)) [
      | inl q ↦ inl (rw (p, q), rw (p, q))
      | inr (true, q) ↦ inr (x, rw (p, q), rw (p, q))
      | inr (false, q) ↦ inl (rw (p, q), rw (p, q))
    ]
  ];
}

-- Over any transactions that set two streams, whose maps start in order, update their merge, which
-- starts empty, in turn, in the transactions that set one of them and after they have set them, and
-- end in order, which refreshes the three, the updater always gives a value. From the last end on and
-- up to the last update the merge has at each time what the two streams have then: the combination
-- where both have a value, the only value where one has, and none where none has; later it has none.
-- The streams may be set by a later transaction first.
pub run-merge_updater :
    {T : Type 0} (f : T → T → T) (es : List (Event T T)) (a b : List (ℕ × T))
    → KeysAscending 0 a
    → KeysAscending 0 b
    → InTurn stream stream any_fires 0 0 a b es
    → (a' : List (ℕ × T)) × (b' : List (ℕ × T)) × (c' : List (ℕ × T)) × (run stream stream stream
          (λ id. merge_updater id f)
          es
          a
          b
          []
        ≡ value (a', b', c'))
      × ((t : ℕ)
          → ended_to 0 es ≤ t
          → stream_sample t c' ≡ (
              if ltb t (updated_to 0 es)
              then merged f (stream_sample t a') (stream_sample t b')
              else none))
run-merge_updater f = stream_run (merge_rule f)

-- Over any transactions that set a stream and a cell, whose maps start in order, update their
-- snapshot, which starts empty, in turn, in the transactions that set the stream and after they have
-- set both, and end in order, which refreshes the three, neither the updater nor a refresh exits.
-- From the last end on and up to the last update the snapshot has at each time the value of `f` where
-- the stream has a value then and the cell has one from then or before, and none otherwise; later it
-- has none. The cell may be set by a later transaction first.
pub run-snapshot_updater_1 :
    {T U V : Type 0} (f : T → U → V) (es : List (Event T U)) (a : List (ℕ × T)) (b : List (ℕ × U))
    → KeysAscending 0 a
    → KeysAscending 0 b
    → InTurn stream cell first_fires 0 0 a b es
    → (a' : List (ℕ × T)) × (b' : List (ℕ × U)) × (c' : List (ℕ × V)) × (run stream cell stream
          (λ id. snapshot_updater_1 id f)
          es
          a
          b
          []
        ≡ value (a', b', c'))
      × ((t : ℕ)
          → ended_to 0 es ≤ t
          → stream_sample t c'
            ≡ (if ltb t (updated_to 0 es) then both f (stream_sample t a') (sample t b') else none))
run-snapshot_updater_1 f = stream_run (snapshot_rule f)

-- Over any transactions that set a stream and a cell of Booleans, whose maps start in order, update
-- the gate, which starts empty, in turn, in the transactions that set the stream and after they have
-- set both, and end in order, which refreshes the three, neither the updater nor a refresh exits.
-- From the last end on and up to the last update the gate has at each time what the stream has then
-- where the latest value of the cell is true, and none otherwise; later it has none. The cell may be
-- set by a later transaction first.
pub run-gate_updater :
    {T : Type 0} (es : List (Event T Bool)) (a : List (ℕ × T)) (b : List (ℕ × Bool))
    → KeysAscending 0 a
    → KeysAscending 0 b
    → InTurn stream cell first_fires 0 0 a b es
    → (a' : List (ℕ × T)) × (b' : List (ℕ × Bool)) × (c' : List (ℕ × T)) × (run stream cell stream
          (λ id x y. gate_updater id y x)
          es
          a
          b
          []
        ≡ value (a', b', c'))
      × ((t : ℕ)
          → ended_to 0 es ≤ t
          → stream_sample t c'
            ≡ (if ltb t (updated_to 0 es) then gated (stream_sample t a') (sample t b') else none))
run-gate_updater = stream_run gate_rule

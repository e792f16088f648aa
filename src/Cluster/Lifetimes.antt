-- ===== src/Cluster/Lifetimes.antt =====
-- What holds of the counters whatever the order in which Cluster objects come and go.
use prf.Base.{
  ℕ, zero, suc, ◌+◌, ◌≤◌, ◌<◌, ◌≡◌, ◌⊎◌, inl, inr, refl, true, none, some, List, [], ◌∷◌, ◌++◌,
  arith, get_elem?, set, length, length-set, length-append, find, find-assign, u64_mod, wrap,
}
use prf.Cluster.{
  Cluster, running, closed, destroyed, Event, construct, close, destroy, Program, is_in_cluster,
  enter_cluster, exit_cluster, next_id, construct_cluster, close_cluster, destroy_cluster, step,
  run,
}

-- 1 for an object that is not closed.
abbrev pub is_open : Cluster → ℕ
is_open running = 1
is_open closed = 0
is_open destroyed = 0

abbrev pub open_count : List Cluster → ℕ
open_count [] = 0
open_count (c ∷ cs) = is_open c + open_count cs

open_count-append : (cs : List Cluster) → open_count (cs ++ running ∷ []) ≡ open_count cs + 1
open_count-append [] = refl
open_count-append (c ∷ cs) = omega (arith, open_count-append cs)

is_open-le : (c : Cluster) → is_open c ≤ 1
is_open-le running = omega arith
is_open-le closed = omega arith
is_open-le destroyed = omega arith

open_count-le : (cs : List Cluster) → open_count cs ≤ length cs
open_count-le [] = omega arith
open_count-le (c ∷ cs) = omega (arith, open_count-le cs, is_open-le c)

open_count-set :
    (cs : List Cluster) (i : ℕ) (c d : Cluster)
    → get_elem? cs i ≡ some c
    → is_open d ≡ 0
    → open_count (set cs i d) + is_open c ≡ open_count cs
open_count-set [] i c d h e = cc
open_count-set (x ∷ cs) zero c d h e = let same : x ≡ c = cc in rw same (omega (arith, e))
open_count-set (x ∷ cs) (suc i) c d h e = omega (arith, open_count-set cs i c d h e)

module _ {N : Type 0} where
  -- The counter of clusters counts the open objects and the implicit cluster, the current ID is not
  -- that of the sinks, and no name stands at an ID that is still to come.
  pub record IsSound (p : Program N) : Type 0 where
    pub counted : p.manager.current_clusters ≡ open_count p.clusters + 1
    pub few : length p.clusters < p.manager.global_current_id
    pub named : (j : ℕ) → p.manager.global_current_id < j → find j p.cluster_names ≡ none

  -- The objects that an event works on exist, and none is closed twice.
  abbrev pub Legal : Program N → Event N → Type 0
  Legal p (construct name) = Unit
  Legal p (close i) = get_elem? p.clusters i ≡ some running
  Legal p (destroy i) =
      (get_elem? p.clusters i ≡ some running) ⊎ (get_elem? p.clusters i ≡ some closed)

  abbrev pub AllLegal : Program N → List (Event N) → Type 0
  AllLegal p [] = Unit
  AllLegal p (e ∷ es) = Legal p e × (elim (step p e) [ none ↦ Unit | some p' ↦ AllLegal p' es ])

  -- What an event does to the current ID and the names.
  abbrev pub Effect : Program N → Event N → Program N → Type 0
  Effect p (construct name) p' =
      (p'.manager.global_current_id ≡ p.manager.global_current_id + 1)
      × (find p'.manager.global_current_id p.cluster_names ≡ none)
      × (find p'.manager.global_current_id p'.cluster_names ≡ some name)
  Effect p (close i) p' = p'.manager.global_current_id ≡ p.manager.global_current_id + 1
  Effect p (destroy i) p' =
      (get_elem? p.clusters i ≡ some running)
        × (p'.manager.global_current_id ≡ p.manager.global_current_id + 1)
      ⊎ (get_elem? p.clusters i ≡ some closed) × (p'.manager ≡ p.manager)

  -- The end of an open object.
  exit-IsSound :
      (p : Program N) (i : ℕ) (d : Cluster)
      → IsSound p
      → get_elem? p.clusters i ≡ some running
      → is_open d ≡ 0
      → p.manager.global_current_id + 1 < u64_mod
      → IsSound (record p { manager = exit_cluster p.manager; clusters = set p.clusters i d })
        × ((exit_cluster p.manager).global_current_id ≡ p.manager.global_current_id + 1)
  unfolding exit_cluster next_id
  exit-IsSound p i d v h e small =
      let o = open_count-set p.clusters i running d h e in
      (
        record {
          counted = omega (arith, v.counted, v.few, open_count-le p.clusters, o);
          few = omega (arith, v.few, length-set p.clusters i d);
          named = λ j k. v.named j (omega arith);
        },
        omega arith,
      )

  -- Every legal event succeeds on sound counters, as long as the IDs do not overflow, and leaves them
  -- sound: a construction moves to a new ID that had no name and names it, the close of an object, and
  -- the end of one that is open, move to a new ID, and the end of a closed one changes no counter.
  pub step_lem :
      (p : Program N) (e : Event N)
      → IsSound p
      → Legal p e
      → p.manager.global_current_id + 1 < u64_mod
      → (p' : Program N) × (step p e ≡ some p') × IsSound p' × Effect p e p'
  unfolding step construct_cluster close_cluster destroy_cluster enter_cluster exit_cluster next_id
  step_lem p (construct name) v h small =
      let o = open_count-append p.clusters in
      let l = length-append p.clusters (running ∷ []) in
      let id : wrap (p.manager.global_current_id + 1) ≡ p.manager.global_current_id + 1 =
        omega arith in
      (
        construct_cluster p name,
        refl,
        record {
          counted = omega (arith, v.counted, v.few, open_count-le p.clusters, o);
          few = omega (arith, v.few, l);
          named = λ j k. ground (
            arith,
            find-assign j (wrap (p.manager.global_current_id + 1)) name p.cluster_names,
            v.named j,
          );
        },
        (
          id,
          ground (arith, v.named (wrap (p.manager.global_current_id + 1))),
          ground (
            arith,
            find-assign (wrap (p.manager.global_current_id + 1))
                (wrap (p.manager.global_current_id + 1)) name p.cluster_names,
          ),
        ),
      )
  step_lem p (close i) v h small =
      let (v', id) = exit-IsSound p i closed v h refl small in
      (
        record p { manager = exit_cluster p.manager; clusters = set p.clusters i closed },
        rw h,
        v',
        id,
      )
  step_lem p (destroy i) v (inl h) small =
      let (v', id) = exit-IsSound p i destroyed v h refl small in
      (
        record p { manager = exit_cluster p.manager; clusters = set p.clusters i destroyed },
        rw h,
        v',
        inl (h, id),
      )
  step_lem p (destroy i) v (inr h) small =
      let o = open_count-set p.clusters i closed destroyed h refl in
      (
        record p { clusters = set p.clusters i destroyed },
        rw h,
        record {
          counted = omega (arith, v.counted, o);
          few = omega (arith, v.few, length-set p.clusters i destroyed);
          named = v.named;
        },
        inr (h, refl),
      )

  Effect-bounds :
      (p : Program N) (e : Event N) (p' : Program N)
      → Effect p e p'
      → (p.manager.global_current_id ≤ p'.manager.global_current_id)
        × (p'.manager.global_current_id ≤ p.manager.global_current_id + 1)
  Effect-bounds p (construct name) p' (id, _, _) = (omega (arith, id), omega (arith, id))
  Effect-bounds p (close i) p' id = (omega (arith, id), omega (arith, id))
  Effect-bounds p (destroy i) p' (inl (_, id)) = (omega (arith, id), omega (arith, id))
  Effect-bounds p (destroy i) p' (inr (_, same)) = (rw same (omega arith), rw same (omega arith))

  -- Any legal sequence of events runs to its end on sound counters, as long as the IDs do not overflow,
  -- and leaves them sound, with the program inside a cluster and the current ID at least as large as
  -- before.
  pub run_lem :
      (p : Program N) (es : List (Event N))
      → IsSound p
      → AllLegal p es
      → p.manager.global_current_id + length es < u64_mod
      → (p' : Program N) × (run p es ≡ some p')
        × IsSound p'
        × (is_in_cluster p'.manager ≡ true)
        × (p.manager.global_current_id ≤ p'.manager.global_current_id)
        × (p'.manager.global_current_id ≤ p.manager.global_current_id + length es)
  unfolding run is_in_cluster
  run_lem p [] v h small = (p, refl, v, ground (arith, v.counted), omega arith, omega arith)
  run_lem p (e ∷ es) v h small =
      let (p1, e1, v1, effect) = step_lem p e v h.0 (omega arith) in
      let (low, high) = Effect-bounds p e p1 effect in
      let rest : AllLegal p1 es = rw e1 at h.1 in
      let (p', e', v', inside, low', high') = run_lem p1 es v1 rest (omega (arith, high)) in
      (p', rw e1 e', v', inside, omega (arith, low, low'), omega (arith, high, high'))

-- ===== src/Transaction/Run.antt =====
-- execute: the values of a cluster are updated in the order of their ranks, each once.
use prf.Base.{
  ℕ, zero, suc, ◌≤◌, ◌<◌, ◌≡◌, refl, ◌∙◌, inl, inr, Bool, true, false, ◌&&◌, ◌||◌, Option, some,
  List, [], ◌∷◌, arith, ◌==◌, Bool-cases, Option-cases, contains, erase, contains-insert,
  contains-erase, undone, undone_step, undone_pos, undone-le,
}
use prf.Transaction.{
  Network, InnerTransaction, pair_lt, push, register_update, register_updates, register_cleanup,
  update, execute_loop, new_sub_transaction, generate_sub_transaction, set_at,
}

abbrev in_queue : ℕ → List (ℕ × ℕ) → Bool
in_queue p [] = false
in_queue p ((r, q) ∷ es) = p == q || in_queue p es

-- The entries of a queue have their values' ranks, and strictly ascend.
abbrev IsQueue : (ℕ → ℕ) → List (ℕ × ℕ) → Type 0
IsQueue rank [] = Unit
IsQueue rank ((r, p) ∷ es) =
    (r ≡ rank p)
    × ((q : ℕ) → in_queue q es ≡ true → pair_lt (r, p) (rank q, q) ≡ true)
    × IsQueue rank es

-- `x` comes before `y`.
abbrev pub before : Network → ℕ → ℕ → Bool
before net x y = pair_lt (net.rank x, x) (net.rank y, y)

in_queue-push :
    (x r p : ℕ) (es : List (ℕ × ℕ)) → in_queue x (push (r, p) es) ≡ (x == p || in_queue x es)
in_queue-push x r p [] = refl
in_queue-push x r p ((s, q) ∷ es) = ground (arith, in_queue-push x r p es)

push-IsQueue :
    (rank : ℕ → ℕ) (p : ℕ) (es : List (ℕ × ℕ))
    → IsQueue rank es
    → in_queue p es ≡ false
    → IsQueue rank (push (rank p, p) es)
push-IsQueue rank p [] v h = (refl, λ q e. cc, tt)
push-IsQueue rank p ((s, q) ∷ es) v h = elim (Bool-cases (pair_lt (rank p, p) (s, q))) [
  | inl low ↦ rw low (refl, λ x e. ground (arith, v.1 x), v)
  | inr high ↦ rw high (
    v.0,
    λ x e. ground (arith, in_queue-push x (rank p) p es, v.1 x),
    push-IsQueue rank p es v.2 (ground arith),
  )
]

-- Within the cluster every listener has a higher rank than its source, and listeners lie below `n`.
pub record Rising (net : Network) (cluster n : ℕ) : Type 0 where
  pub higher :
      (u l : ℕ)
      → contains l (net.listeners u) ≡ true
      → net.cluster_of u ≡ cluster
      → net.cluster_of l ≡ cluster
      → net.rank u < net.rank l
  pub below : (u l : ℕ) → contains l (net.listeners u) ≡ true → l < n

module _ (net : Network) (n : ℕ) where
  -- What holds between two updates, where `done` are the values updated so far.
  pub record Running (done : ℕ → Bool) (t : InnerTransaction) : Type 0 where
    pub listed : (p : ℕ) → in_queue p t.executor ≡ contains p t.targets_inside
    pub queue : IsQueue net.rank t.executor
    pub ahead :
        (p d : ℕ) → contains p t.targets_inside ≡ true → done d ≡ true → before net d p ≡ true
    pub below : (p : ℕ) → contains p t.targets_inside ≡ true → p < n
    pub own : (p : ℕ) → contains p t.targets_inside ≡ true → net.cluster_of p ≡ t.updating_cluster

  register_update-Running :
      (done : ℕ → Bool) (t : InnerTransaction) (p : ℕ)
      → Running done t
      → p < n
      → (t.updating_cluster ≡ net.cluster_of p → (d : ℕ) → done d ≡ true → before net d p ≡ true)
      → Running done (register_update net t p)
        × ((register_update net t p).updating_cluster ≡ t.updating_cluster)
        × ((x : ℕ)
            → contains x (register_update net t p).targets_inside
              ≡ (contains x t.targets_inside || (x == p && t.updating_cluster == net.cluster_of p)))
  unfolding register_update
  register_update-Running done t p v lt after =
      elim (Bool-cases (t.updating_cluster == net.cluster_of p)) [
        | inr outside ↦ rw outside (
          record {
            listed = v.listed;
            queue = v.queue;
            ahead = v.ahead;
            below = v.below;
            own = v.own;
          },
          refl,
          λ x. ground arith,
        )
        | inl inside ↦ elim (Bool-cases (contains p t.targets_inside)) [
          | inl known ↦ rw (inside, known) (v, refl, λ x. ground arith)
          | inr new ↦
              let is_in : t.updating_cluster ≡ net.cluster_of p = ground arith in
              rw (inside, new)
                (
                  record {
                    listed = λ x. ground (
                      arith,
                      in_queue-push x (net.rank p) p t.executor,
                      contains-insert x p t.targets_inside,
                      v.listed x,
                    );
                    queue = push-IsQueue net.rank p t.executor v.queue (v.listed p ∙ new);
                    ahead = λ x d k e.
                        ground
                          (arith, contains-insert x p t.targets_inside, v.ahead x d, after is_in d);
                    below = λ x k. ground (arith, contains-insert x p t.targets_inside, v.below x);
                    own =
                        λ x k. ground (arith, contains-insert x p t.targets_inside, v.own x, is_in);
                  },
                  refl,
                  λ x. ground (arith, contains-insert x p t.targets_inside),
                )
        ]
      ]

  register_updates-Running :
      (done : ℕ → Bool) (t : InnerTransaction) (ps : List ℕ)
      → Running done t
      → ((p : ℕ) → contains p ps ≡ true → p < n)
      → ((p : ℕ)
          → contains p ps ≡ true
          → t.updating_cluster ≡ net.cluster_of p
          → (d : ℕ) → done d ≡ true
          → before net d p ≡ true)
      → Running done (register_updates net t ps)
        × ((register_updates net t ps).updating_cluster ≡ t.updating_cluster)
        × ((x : ℕ)
            → contains x (register_updates net t ps).targets_inside ≡ (
                contains x t.targets_inside
                || (contains x ps && t.updating_cluster == net.cluster_of x)))
  unfolding register_updates
  register_updates-Running done t [] v lt after = (v, refl, λ x. ground arith)
  register_updates-Running done t (p ∷ ps) v lt after =
      let (v1, c1, m1) =
        register_update-Running done t p v (lt p (ground arith)) (after p (ground arith)) in
      let (v2, c2, m2) =
        register_updates-Running done (register_update net t p) ps v1 (λ q k. lt q (ground arith))
          (λ q k e. after q (ground arith) (rw c1 at e)) in
      (v2, c2 ∙ c1, λ x. ground (arith, m1 x, m2 x, c1))

-- Each value comes before all that follow it.
abbrev pub Ordered : Network → List ℕ → Type 0
Ordered net [] = Unit
Ordered net (x ∷ xs) = ((y : ℕ) → contains y xs ≡ true → before net x y ≡ true) × Ordered net xs

module _ (net : Network) (n cluster : ℕ) (rising : Rising net cluster n) {S : Type 0}
    (updater : ℕ → S → Option S) where
  update-Running :
      (done : ℕ → Bool) (t : InnerTransaction) (s : S) (tiv : ℕ)
      → Running net n done t
      → t.updating_cluster ≡ cluster
      → net.cluster_of tiv ≡ cluster
      → ((d : ℕ) → done d ≡ true → net.rank d ≤ net.rank tiv)
      → Running net n done (update net updater t s tiv).0
        × ((update net updater t s tiv).0.updating_cluster ≡ cluster)
        × ((x : ℕ)
            → contains x t.targets_inside ≡ true
            → contains x (update net updater t s tiv).0.targets_inside ≡ true)
  unfolding update register_cleanup
  update-Running done t s tiv v c home low = elim (Option-cases (updater tiv s)) [
    | inl quiet ↦ rw (quiet, update) (v, c, λ x k. k)
    | inr (s', sent) ↦
        let ls = net.listeners tiv in
        let (v', c', m') =
          register_updates-Running net n done t ls v (λ l k. rising.below tiv l k)
            (λ l k e d f. ground (arith, rising.higher tiv l k home, c, e, low d f)) in
        rw (sent, update)
          (
            record {
              listed = v'.listed;
              queue = v'.queue;
              ahead = v'.ahead;
              below = v'.below;
              own = v'.own;
            },
            c' ∙ c,
            λ x k. ground (arith, m' x),
          )
  ]

  take_first-Running :
      (done : ℕ → Bool) (t : InnerTransaction) (r tiv : ℕ) (q : List (ℕ × ℕ))
      → t.executor ≡ (r, tiv) ∷ q
      → Running net n done t
      → Running net n
          (λ x. x == tiv || done x)
          (record t { executor = q; targets_inside = erase tiv t.targets_inside })
        × (tiv < n)
        × (done tiv ≡ false)
        × (contains tiv t.targets_inside ≡ true)
        × ((d : ℕ) → done d ≡ true → before net d tiv ≡ true)
  take_first-Running done t r tiv q e v =
      let queue : IsQueue net.rank ((r, tiv) ∷ q) = rw e at v.queue in
      let listed = λ (x : ℕ).
        let p : (x == tiv || in_queue x q) ≡ contains x t.targets_inside = rw e at (v.listed x) in
        p in
      let inside : contains tiv t.targets_inside ≡ true = ground (arith, listed tiv) in
      let once : in_queue tiv q ≡ false = ground (arith, queue.0, queue.1 tiv) in
      (
        record {
          listed = λ x. ground (arith, listed x, once, contains-erase x tiv t.targets_inside);
          queue = queue.2;
          ahead = λ x d k f. ground (
            arith,
            contains-erase x tiv t.targets_inside,
            listed x,
            queue.0,
            queue.1 x,
            v.ahead x d,
          );
          below = λ x k. ground (arith, contains-erase x tiv t.targets_inside, v.below x);
          own = λ x k. ground (arith, contains-erase x tiv t.targets_inside, v.own x);
        },
        v.below tiv inside,
        ground (arith, v.ahead tiv tiv inside),
        inside,
        λ d f. v.ahead tiv d inside f,
      )

  execute_loop-suc :
      (fuel : ℕ) (t t' : InnerTransaction) (s s' : S) (r tiv : ℕ) (q : List (ℕ × ℕ))
      (trace : List ℕ) (next : InnerTransaction × S)
      → t.executor ≡ (r, tiv) ∷ q
      → update net updater
          (record t { executor = q; targets_inside = erase tiv t.targets_inside })
          s
          tiv
        ≡ next
      → execute_loop net updater fuel next.0 next.1 ≡ some (t', s', trace)
      → execute_loop net updater (suc fuel) t s ≡ some (t', s', tiv ∷ trace)
  unfolding execute_loop
  execute_loop-suc fuel t t' s s' r tiv q trace next e u ran = ground arith

  abbrev Done : (ℕ → Bool) → InnerTransaction → Option (InnerTransaction × S × List ℕ) → Type 0
  Done done t r =
      (t' : InnerTransaction) × (s' : S) × (trace : List ℕ) × (r ≡ some (t', s', trace))
      × (t'.executor ≡ [])
      × Ordered net trace
      × ((y d : ℕ) → contains y trace ≡ true → done d ≡ true → before net d y ≡ true)
      × ((p : ℕ) → contains p t.targets_inside ≡ true → contains p trace ≡ true)
      × ((p : ℕ) → contains p trace ≡ true → net.cluster_of p ≡ cluster)

  execute_loop-Ordered :
      (fuel : ℕ) (done : ℕ → Bool) (t : InnerTransaction) (s : S)
      → Running net n done t
      → t.updating_cluster ≡ cluster
      → undone n done ≤ fuel
      → (es : List (ℕ × ℕ)) → t.executor ≡ es
      → Done done t (execute_loop net updater fuel t s)
  unfolding execute_loop
  execute_loop-Ordered zero done t s v c h [] e =
      (t, s, [], rw e, e, tt, λ y d k. cc, λ p k. ground (arith, v.listed p, e), λ p k. cc)
  execute_loop-Ordered (suc fuel) done t s v c h [] e =
      (t, s, [], rw e, e, tt, λ y d k. cc, λ p k. ground (arith, v.listed p, e), λ p k. cc)
  execute_loop-Ordered zero done t s v c h ((r, tiv) ∷ q) e =
      let (_, lt, fresh, _, _) = take_first-Running done t r tiv q e v in
      absurd (omega (arith, undone_pos n tiv done lt fresh))
  execute_loop-Ordered (suc fuel) done t s v c h ((r, tiv) ∷ q) e =
      let (v1, lt, fresh, inside, after) = take_first-Running done t r tiv q e v in
      let t1 = record t { executor = q; targets_inside = erase tiv t.targets_inside } in
      let done' = λ (x : ℕ). x == tiv || done x in
      let next = update net updater t1 s tiv in
      let (v2, c2, kept) =
        update-Running done' t1 s tiv v1 c (v.own tiv inside ∙ c)
          (λ d f. ground (arith, after d)) in
      let (t', s', trace, ran, empty, ordered, later, all, home) =
        execute_loop-Ordered fuel done' next.0 next.1 v2 c2
          (omega (arith, undone_step n tiv done lt fresh)) next.0.executor refl in
      (
        t',
        s',
        tiv ∷ trace,
        execute_loop-suc fuel t t' s s' r tiv q trace next e refl ran,
        empty,
        (λ y k. later y tiv k (ground arith), ordered),
        λ y d k f. ground (arith, later y d, after d f),
        λ p k. ground (arith, all p, kept p, contains-erase p tiv t.targets_inside),
        λ p k. ground (arith, home p, v.own tiv inside, c),
      )

  sub_transaction-Running : (id : ℕ) → Running net n (λ x. false) (new_sub_transaction id cluster)
  unfolding new_sub_transaction
  sub_transaction-Running id = record {
    listed = λ p. refl;
    queue = tt;
    ahead = λ p d k f. cc;
    below = λ p k. cc;
    own = λ p k. cc;
  }

  -- Where within the cluster every listener has a higher rank than its source, and the addresses of
  -- listeners and targets lie below `n`, the transaction that is generated for the cluster executes to the end within `n`
  -- updates, whatever the values compute: it updates each value at most once, in the order of the
  -- ranks (and of the addresses among equal ranks), and neither leaves out a target that belongs to
  -- the cluster nor updates a value of another cluster.
  pub execute-Ordered :
      (t : InnerTransaction) (s : S)
      → ((p : ℕ) → contains p (set_at cluster t.targets_outside) ≡ true → p < n)
      → (t' : InnerTransaction) × (s' : S) × (trace : List ℕ) × (execute_loop net updater n
            (generate_sub_transaction net t cluster).1
            s
          ≡ some (t', s', trace))
        × (t'.executor ≡ [])
        × Ordered net trace
        × ((p : ℕ)
            → contains p (set_at cluster t.targets_outside) ≡ true
            → net.cluster_of p ≡ cluster
            → contains p trace ≡ true)
        × ((p : ℕ) → contains p trace ≡ true → net.cluster_of p ≡ cluster)
  unfolding generate_sub_transaction new_sub_transaction
  execute-Ordered t s below =
      let targets = set_at cluster t.targets_outside in
      let (v, c, m) =
        register_updates-Running net n (λ x. false) (new_sub_transaction t.id cluster) targets
          (sub_transaction-Running t.id) below (λ p k e d f. cc) in
      let sub = (generate_sub_transaction net t cluster).1 in
      let (t', s', trace, ran, empty, ordered, later, all, home) =
        execute_loop-Ordered n (λ x. false) sub s v c (undone-le n (λ x. false)) sub.executor
          refl in
      (t', s', trace, ran, empty, ordered, λ p k e. all p (ground (arith, m p, k, e)), home)

-- ===== src/Wiring/Ranked.antt =====
-- From the calls that wire values together to the order in which a transaction updates them.
use prf.Base.{
  ℕ, ◌<◌, ◌≡◌, ◌∙◌, refl, sym, true, false, inl, inr, ◌&&◌, ◌||◌, some, List, [], ◌∷◌, arith, ◌==◌,
  contains, Distinct, Bool-cases,
}
use prf.Rank.{new_rank}
use prf.Node.{Store, push_back, new_node, link_to}
use prf.Node.Edges.{Registered}
use prf.Node.InCluster.{generate_in_cluster_ranks}
use prf.Node.InCluster.Ranked.{NodesAcyclic, generate_in_cluster_ranks_lem}
use prf.Transaction.{Network}
use prf.Transaction.Run.{Rising}
use prf.Wiring.{Wiring, construct, listen, child_to}

-- The wirings that construct, listen and child_to make from nothing.
pub data Wired : Wiring → Type 0 where
  empty : (nodes : Store) → Wired (record { nodes = nodes; registered = []; listeners = λ p. [] })
  constructs :
      {w : Wiring} (self cluster_id node_id : ℕ)
      → Wired w
      → contains self w.registered ≡ false
      → Wired (construct w self cluster_id node_id)
  listens :
      {w : Wiring} (self source : ℕ)
      → Wired w
      → contains self w.registered ≡ true
      → contains source w.registered ≡ true
      → Wired (listen w self source)
  childs :
      {w : Wiring} (self source : ℕ)
      → Wired w
      → contains self w.registered ≡ true
      → contains source w.registered ≡ true
      → Wired (child_to w self source)

contains-push_back :
    (x y : ℕ) (xs : List ℕ) → contains x (push_back xs y) ≡ (contains x xs || x == y)
contains-push_back x y [] = ground arith
contains-push_back x y (z ∷ xs) = ground (arith, contains-push_back x y xs)

Distinct-push_back :
    (y : ℕ) (xs : List ℕ) → Distinct xs → contains y xs ≡ false → Distinct (push_back xs y)
Distinct-push_back y [] d h = (refl, tt)
Distinct-push_back y (x ∷ xs) d h =
    (ground (arith, contains-push_back x y xs, d.0), Distinct-push_back y xs d.1 (ground arith))

record IsWired (w : Wiring) : Type 0 where
  distinct : Distinct w.registered
  known : Registered w.nodes w.registered
  blank : (x : ℕ) → contains x w.registered ≡ true → (w.nodes x).in_cluster_rank.value ≡ 0
  linked :
      (u l : ℕ)
      → contains l (w.listeners u) ≡ true
      → (contains u w.registered && contains l (w.nodes u).childs) ≡ true

link_to-child :
    (h : Store) (source self x y : ℕ)
    → contains y (link_to h source self x).childs
      ≡ (contains y (h x).childs || (x == source && y == self))
unfolding link_to
link_to-child h source self x y = elim (Bool-cases (x == source)) [
  | inl same ↦
      let e : x ≡ source = ground arith in
      rw e (ground (arith, contains-push_back y self (h source).childs))
  | inr other ↦ ground arith
]

link_to-rank :
    (h : Store) (source self x : ℕ)
    → (link_to h source self x).in_cluster_rank.value ≡ (h x).in_cluster_rank.value
unfolding link_to
link_to-rank h source self x = elim (Bool-cases (x == source)) [
  | inl same ↦ let e : x ≡ source = ground arith in rw e (ground arith)
  | inr other ↦ ground arith
]

Wired-IsWired : {w : Wiring} → Wired w → IsWired w
unfolding construct new_node new_rank listen child_to
Wired-IsWired (empty nodes) = record {
  distinct = tt;
  known = λ a d k i. cc;
  blank = λ x k. cc;
  linked = λ u l k. cc;
}
Wired-IsWired (constructs {w} self cluster_id node_id before new) =
    let v = Wired-IsWired before in
    record {
      distinct = Distinct-push_back self w.registered v.distinct new;
      known = λ a d k i. ground (
        arith,
        contains-push_back a self w.registered,
        contains-push_back d self w.registered,
        v.known a d,
      );
      blank = λ x k. ground (arith, contains-push_back x self w.registered, v.blank x);
      linked = λ u l k. ground (arith, contains-push_back u self w.registered, v.linked u l);
    }
Wired-IsWired (listens {w} self source before here there) =
    let v = Wired-IsWired before in
    record {
      distinct = v.distinct;
      known = λ a d k i. ground (arith, link_to-child w.nodes source self a d, v.known a d);
      blank = λ x k. link_to-rank w.nodes source self x ∙ v.blank x k;
      linked = λ u l k. ground (
        arith,
        link_to-child w.nodes source self u l,
        contains-push_back l self (w.listeners source),
        v.linked u l,
        v.linked source l,
      );
    }
Wired-IsWired (childs {w} self source before here there) =
    let v = Wired-IsWired before in
    record {
      distinct = v.distinct;
      known = λ a d k i. ground (arith, link_to-child w.nodes source self a d, v.known a d);
      blank = λ x k. link_to-rank w.nodes source self x ∙ v.blank x k;
      linked = λ u l k. ground (arith, link_to-child w.nodes source self u l, v.linked u l);
    }

-- The nodes after set_cluster_id.
abbrev pub reclustered : (ℕ → ℕ) → Store → Store
reclustered clusters h p = record (h p) { cluster_id = clusters p }

-- What a transaction sees of the values.
abbrev pub network_of : Store → (ℕ → List ℕ) → Network
network_of h listeners = record {
  cluster_of = λ p. (h p).cluster_id;
  rank = λ p. (h p).in_cluster_rank.value;
  listeners = listeners;
}

-- After any calls of the constructor, listen and child_to, and whatever clusters the nodes are then
-- given, generate_in_cluster_ranks returns, if the dependencies inside the clusters form no cycle;
-- and where the addresses lie below `n`, every listener of a value has a higher rank than the value
-- wherever both are in one cluster.
pub generate_in_cluster_ranks-Rising :
    (w : Wiring) (clusters level : ℕ → ℕ) (n cluster : ℕ)
    → Wired w
    → NodesAcyclic (reclustered clusters w.nodes) w.registered level
    → ((x : ℕ) → contains x w.registered ≡ true → x < n)
    → (h' : Store) × (generate_in_cluster_ranks (reclustered clusters w.nodes) w.registered
        ≡ some h')
      × Rising (network_of h' w.listeners) cluster n
generate_in_cluster_ranks-Rising w clusters level n cluster wired acyclic low =
    let v = Wired-IsWired wired in
    let h = reclustered clusters w.nodes in
    let (h', done, rises, kept) =
      generate_in_cluster_ranks_lem h w.registered level v.distinct (λ a d k i. v.known a d k i)
        (λ x k. v.blank x k) acyclic in
    (
      h',
      done,
      record {
        higher = λ u l k at_u at_l.
            let both = v.linked u l k in
            rises u l (ground (arith, both)) (ground (arith, both))
              (sym (kept u).0 ∙ at_u ∙ sym at_l ∙ (kept l).0);
        below = λ u l k.
            let both = v.linked u l k in
            low l (v.known u l (ground (arith, both)) (ground (arith, both)));
      },
    )

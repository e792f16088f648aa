-- ===== src/Cluster.antt =====
-- src/prf/cluster.hpp and src/prf/cluster.cpp: the counters of ClusterManager and the objects of the
-- class Cluster, whose lifetimes delimit the clusters of a program. The objects are numbered in the
-- order of their construction, and `N` is the type of cluster names. `none` is the exit of a second
-- close, or the use of an object that does not exist.
pub mod Lifetimes
use prf.Base.{
  ℕ, ◌+◌, ◌-◌, Bool, Option, none, some, List, [], ◌∷◌, ◌++◌, ltb, ◌>>=◌, get_elem?, set, assign,
  wrap, u64_mod,
}

pub record ClusterManager : Type 0 where
  pub global_current_id : ℕ
  pub current_clusters : ℕ

-- The initial values of the static members.
unfoldable pub new_cluster_manager : ClusterManager
new_cluster_manager = record { global_current_id = 1; current_clusters = 1 }

-- ClusterManager::next_id
unfoldable pub next_id : ClusterManager → ClusterManager
next_id m = record m { global_current_id = wrap (m.global_current_id + 1) }

unfoldable pub is_in_cluster : ClusterManager → Bool
is_in_cluster m = ltb 0 m.current_clusters

unfoldable pub enter_cluster : ClusterManager → ClusterManager
unfolding next_id
enter_cluster m = record (next_id m) { current_clusters = wrap (m.current_clusters + 1) }

unfoldable pub exit_cluster : ClusterManager → ClusterManager
unfolding next_id
exit_cluster m = record (next_id m) { current_clusters = wrap (m.current_clusters + u64_mod - 1) }

-- A Cluster object: its member `closed` is false, is true, or the object is destroyed.
pub data Cluster : Type 0 where
  running closed destroyed : Cluster

-- What a program does with Cluster objects.
pub data Event (N : Type 0) : Type 0 where
  construct : N → Event N
  close destroy : ℕ → Event N

pub record Program (N : Type 0) : Type 0 where
  pub manager : ClusterManager
  pub clusters : List Cluster
  pub cluster_names : List (ℕ × N)

module _ {N : Type 0} where
  unfoldable pub new_program : Program N
  new_program = record { manager = new_cluster_manager; clusters = []; cluster_names = [] }

  -- Cluster::Cluster(std::string), with NodeManager::register_cluster_name.
  unfoldable pub construct_cluster : Program N → N → Program N
  unfolding enter_cluster
  construct_cluster p name =
      let m = enter_cluster p.manager in
      record {
        manager = m;
        clusters = p.clusters ++ running ∷ [];
        cluster_names = assign m.global_current_id name p.cluster_names;
      }

  -- Cluster::close
  unfoldable pub close_cluster : Program N → ℕ → Cluster → Option (Program N)
  unfolding exit_cluster
  close_cluster p i running =
      some (record p { manager = exit_cluster p.manager; clusters = set p.clusters i closed })
  close_cluster p i closed = none
  close_cluster p i destroyed = none

  -- Cluster::~Cluster
  unfoldable pub destroy_cluster : Program N → ℕ → Cluster → Option (Program N)
  unfolding exit_cluster
  destroy_cluster p i running =
      some (record p { manager = exit_cluster p.manager; clusters = set p.clusters i destroyed })
  destroy_cluster p i closed = some (record p { clusters = set p.clusters i destroyed })
  destroy_cluster p i destroyed = none

  unfoldable pub step : Program N → Event N → Option (Program N)
  unfolding construct_cluster close_cluster destroy_cluster
  step p (construct name) = some (construct_cluster p name)
  step p (close i) = do c ← get_elem? p.clusters i; close_cluster p i c
  step p (destroy i) = do c ← get_elem? p.clusters i; destroy_cluster p i c

  unfoldable pub run : Program N → List (Event N) → Option (Program N)
  unfolding step
  run p [] = some p
  run p (e ∷ es) = do p' ← step p e; run p' es

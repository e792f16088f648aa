-- ===== src/Wiring.antt =====
-- src/prf/time_invariant_values.cpp: how time-invariant values are made and come to listen to each
-- other. A TimeInvariantValues* is given by the address of the node that it makes and keeps.
pub mod Ranked
use prf.Base.{ℕ, Option, none, some, List, [], ◌∷◌, ◌==◌, if◌then◌else◌, ◌>>=◌}
use prf.Node.{Node, Store, update, push_back, new_node, link_to, loop_child_to}

-- The nodes, those registered with the NodeManager, and the listeners of each value.
pub record Wiring : Type 0 where
  pub nodes : Store
  pub registered : List ℕ
  pub listeners : ℕ → List ℕ

abbrev pub add_listener : (ℕ → List ℕ) → ℕ → ℕ → ℕ → List ℕ
add_listener ls source listener p = if p == source then push_back (ls source) listener else ls p

-- TimeInvariantValues::TimeInvariantValues, for a node at a new address, and register_node.
unfoldable pub construct : Wiring → ℕ → ℕ → ℕ → Wiring
unfolding new_node
construct w self cluster_id node_id = record {
  nodes = update w.nodes self (new_node cluster_id node_id);
  registered = push_back w.registered self;
  listeners = λ p. if p == self then [] else w.listeners p;
}

-- self->listen(source)
unfoldable pub listen : Wiring → ℕ → ℕ → Wiring
unfolding link_to
listen w self source = record w {
  nodes = link_to w.nodes source self;
  listeners = add_listener w.listeners source self;
}

-- self->listen_over_loop(source); `none` is the exit on a loop across clusters.
unfoldable pub listen_over_loop : Wiring → ℕ → ℕ → Option Wiring
unfolding loop_child_to
listen_over_loop w self source = do
  nodes ← loop_child_to w.nodes source self
  some (record w { nodes = nodes; listeners = add_listener w.listeners source self })

-- self->child_to(source)
unfoldable pub child_to : Wiring → ℕ → ℕ → Wiring
unfolding link_to
child_to w self source = record w { nodes = link_to w.nodes source self }

-- self->global_listen(source)
unfoldable pub global_listen : Wiring → ℕ → ℕ → Wiring
global_listen w self source = record w { listeners = add_listener w.listeners source self }

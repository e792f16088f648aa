-- ===== src/Executor/Handlers.antt =====
-- Repeated messages: the planner may send a message again before it learns of the effect of the first.
use prf.Base.{
  ℕ, ◌≡◌, List, [], ◌∷◌, arith, insert, contains-insert, contains-erase, assign, find-assign,
}
use prf.Transaction.{set_at}
use prf.Executor.{System, handle_start_update, handle_finalize}

assign_twice :
    (k : ℕ) (v w : List ℕ) (m : List (ℕ × List ℕ)) → assign k v (assign k w m) ≡ assign k v m
assign_twice k v w [] = ground arith
assign_twice k v w ((j, x) ∷ m) = ground (arith, assign_twice k v w m)

module _ {H : Type 0} where
  -- A StartUpdateClusterMessage that is handled a second time changes nothing, whether or not its
  -- transaction is registered and its cluster was started before.
  pub handle_start_update_twice :
      (s : System H) (id cluster : ℕ)
      → handle_start_update (handle_start_update s id cluster) id cluster
        ≡ handle_start_update s id cluster
  unfolding handle_start_update
  handle_start_update_twice s id cluster =
      let ups = s.executor.transaction_updatings in
      let cs = set_at id ups in
      ground (
        arith,
        assign_twice id cs cs ups,
        assign_twice id (insert cluster cs) (insert cluster cs) ups,
        find-assign id id cs ups,
        find-assign id id (insert cluster cs) ups,
        contains-insert cluster cluster cs,
      )

  -- A FinalizeTransactionMessage that is handled a second time changes nothing, and so does a
  -- StartUpdateClusterMessage for a transaction that has been finalized.
  pub handle_finalize_twice :
      (s : System H) (id cluster : ℕ)
      → (handle_finalize (handle_finalize s id) id ≡ handle_finalize s id)
        × (handle_start_update (handle_finalize s id) id cluster ≡ handle_finalize s id)
  unfolding handle_finalize handle_start_update
  handle_finalize_twice s id cluster = (
    ground (arith, contains-erase id id s.executor.transactions),
    ground (arith, contains-erase id id s.executor.transactions),
  )

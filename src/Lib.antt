-- ===== src/Lib.antt =====
-- prf, a library for functional reactive programming in C++ (src/prf). A program builds a graph of
-- streams and cells, whose nodes are grouped into clusters; a transaction sets values of some of
-- them, and what depends on these is updated cluster by cluster, for several transactions at once.
--
-- The parts, and how they work together:
-- * Building the graph (src/prf/node.cpp, src/prf/union_find.cpp, src/prf/rank.cpp). NodeManager
--   gives every cluster a rank above those of the clusters that it depends on. `Node` models the
--   nodes, link_to, loop_child_to and generate_cluster_ranks, `Node.Split`
--   split_cluster_by_associates, `Node.InCluster` generate_in_cluster_ranks and `Node.Numbering`
--   numbering and transpose of src/prf/utils.hpp; `UnionFind` models the union-find by which nodes
--   that must share a cluster are joined; `Rank` a rank and ensure_after. `Cluster` models the
--   objects of src/prf/cluster.cpp whose lifetimes say which cluster a new node belongs to. `Wiring`
--   models the calls of src/prf/time_invariant_values.cpp by which values come to listen to others.
-- * Planning (src/prf/planner.cpp). The planner keeps a deque of the running transactions, with the
--   clusters that each will update (future), that each updates now (now), and how many there are of
--   each rank (target_ranks). `Planner` models handleStartMessage, handleUpdateMessage,
--   handleFinishMessage and handleMessage, `Planner.Simple` and `Planner.RankBased` the functions
--   simple_planner and rank_based_planner, which choose the clusters to start.
-- * Updating (src/prf/transaction.cpp, src/prf/time_invariant_values.cpp). For each started cluster
--   the executor makes a sub-transaction, which updates the values of that cluster in the order of
--   their ranks and collects the targets in other clusters; these come back to the parent by
--   register_execution_result and to the planner by a message. `Transaction` models both.
-- * The threads together (src/prf/executor.cpp). The executor takes messages of clients and planner,
--   asks a thread pool for a task for each cluster to update, and sends what happened to the planner.
--   `Executor` models the branches of start_loop and the parts of a task; `Runtime` is a step relation
--   with clients that make transactions, the executor, its tasks, the planner and both queues.
-- * Values (src/prf/cell.hpp, src/prf/stream.hpp). A cell and a stream hold their values by
--   transaction ID. `Values` models their maps, and the updaters that the combinators install:
--   `Values.Updaters`, `Values.Snapshot` and `Values.Lift`. `Values.Runs` puts a value and its two
--   sources through many transactions that set, update and refresh them.
-- `Messages` holds the messages between planner and executor, `Base` the library names and helpers
-- (Booleans, lists, and the sets and maps of the C++ library as ascending lists), and `Tests` runs
-- the code on concrete data.
--
-- The correspondence. A record stands for a class and a function for a method, under the method's
-- name; the state goes in and comes out. A pointer is an address, a natural number; a std::set is an
-- ascending list, a std::map an association list with ascending keys, a std::deque a list with the
-- front first, a std::priority_queue an ascending list. `none` is a fault: a call of failure_log, a
-- read out of range, or fuel that does not suffice. u64 arithmetic wraps around at 2 ^ 64. A node in
-- Transaction is given by its cluster, its rank and its listeners (`Network`), and the computation of
-- a value by a parameter, `updater`.
--
-- Fuel. The loop of handleStartMessage gets as many rounds as the message's ID, and each round adds
-- one to the last ID. The chain of parents in a union-find gets one step for each element, which a
-- forest never exceeds. The ranking loop gets one round for each cluster, and a cluster is taken
-- off the stack at most once; in a cluster it gets one for each node. The loop
-- of execute gets one round for each value, since a value is updated at most once where ranks rise
-- along listeners. In `Runtime` a task's execution gets the rounds that the step names.
--
-- Not modelled: the threads, locks and condition variables (src/prf/thread.cpp,
-- src/prf/thread_pool.cpp, src/prf/concurrent_queue.hpp); the start and end of the executor's and
-- the planner's loops; transactions that are constructed inside of others; the names of clusters
-- and the guards of NodeManager::build, listeners from outside, GlobalCellLoop, the guards and
-- links that the combinators of cells and streams make besides their updaters, start-up and
-- logging.
pub mod Base
pub mod Cluster
pub mod Executor
pub mod Messages
pub mod Node
pub mod Planner
pub mod Rank
pub mod Runtime
pub mod Tests
pub mod Transaction
pub mod UnionFind
pub mod Values
pub mod Wiring

-- ===== src/Values.antt =====
-- src/prf/cell.hpp and src/prf/stream.hpp: the values that a cell and a stream hold by transaction
-- ID, and the updaters that their combinators install. A map of values is an association list with
-- ascending IDs. The functions that a user passes are parameters.
pub mod Cell
pub mod Stream
pub mod Updaters
pub mod Snapshot
pub mod Lift
pub mod Combinators
pub mod Runs

-- ===== src/Store.antt =====
-- remy-cc/src/state.rs: `StateStore`. A statement of SQL is an operation on the rows of a table; a
-- method is a program of the monad `M`, and `transaction` undoes one that fails.
pub mod Monad
pub mod Load
pub mod Valid
pub mod Runs
pub mod Rollback
pub mod Transition
pub mod Submit
pub mod Claim
pub mod Complete
pub mod Recover
pub mod Listing

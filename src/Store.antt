-- ===== src/Store.antt =====
-- internal/coordinator/store/store.go: the database, with a row for each record of its tables. A
-- list column holds what `SplitCSV` reads of what `JoinCSV` wrote. A call may fail at any time: the
-- outcomes of the coming calls are part of the state.
pub mod Exec
pub mod Rows
pub mod Calls
pub mod Keeps
pub mod Outcomes

-- ===== src/Server.antt =====
-- cluster-api/cluster-server.c and ClusterServer.h: the server hands the tasks of an array out to
-- the clients that connect to it, and collects what they compute.
pub mod Tests
pub mod Types
pub mod Tasks
pub mod Invariant
pub mod Connections
pub mod Transfer
pub mod Discovery
pub mod Stable
pub mod Ledger
pub mod Eventloop
pub mod Setup

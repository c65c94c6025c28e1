-- ===== src/Client.antt =====
-- The client: cluster-api/cluster-client.c and cluster-api/ClusterClient.h.
pub mod Types
pub mod Tasks
pub mod Transfer
pub mod Connections
pub mod Discovery
pub mod Eventloop
pub mod Setup
pub mod Invariant
pub mod Entries
pub mod Workers
pub mod Results
pub mod Requests
pub mod Tests

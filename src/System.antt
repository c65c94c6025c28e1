-- ===== src/System.antt =====
-- The operating system under both programs, as cluster-api/cluster-server.c and cluster-client.c
-- see it: the calls that they make, the kernel that answers them, and the statements of C over it.
pub mod Outcome
pub mod Kernel
pub mod Action
pub mod Rules
pub mod Traced
pub mod Ends
pub mod Packs
pub mod Pieces

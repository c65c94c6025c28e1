-- ===== src/Integral.antt =====
-- The programs of integral-computation: a server that cuts the integral of x * x into tasks and adds
-- up their results, and a client that computes a task.
pub mod Words
pub mod Double
pub mod ComputationServer
pub mod ComputationClient
pub mod Trapezoid
pub mod Tasks
pub mod Results
pub mod Answers
pub mod Exchange
mod Tests

-- ===== src/Operators.antt =====
-- The operators of controllers/: what they do with the Kubernetes API.
pub mod Api
pub mod Written
pub mod Ring
pub mod Comb
pub mod Simple
pub mod Changer
pub mod Traces
pub mod Example
mod Tests

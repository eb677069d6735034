-- ===== src/Programs.antt =====
-- The user programs of the repository.
pub mod ProducerConsumer
pub mod Ulib

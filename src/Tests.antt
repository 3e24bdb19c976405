-- ===== src/Tests.antt =====
-- Concrete stores, principals, logs, keys and requests, and the theorems applied to them.
mod Samples
mod Access
mod Anchoring
mod Erasure
mod Logs
mod Keeping
mod Sending
mod Querying
mod Retiring
mod Chunks
mod Changing
mod Finding

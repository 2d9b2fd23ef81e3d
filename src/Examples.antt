-- ===== src/Examples.antt =====
-- Concrete operations on which the theorems about the store, the coordinator and the gate apply.
mod Data
mod Coordinator
mod Recovery
mod Store
mod Gate
mod Boundary
mod Locks
mod Poller
mod Redaction
mod Keys
mod Journal
mod Delivery

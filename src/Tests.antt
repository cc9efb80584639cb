-- ===== src/Tests.antt =====
-- Concrete instances and runs of the theorems.
mod Toy
mod Stores
mod Tokens
mod Detections
mod Engines
mod Slots
mod Batches
mod Registered
mod Streams
mod Masks
mod Walks
mod Brokers

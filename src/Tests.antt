-- ===== src/Tests.antt =====
-- Runs of the model on small inputs, and the theorems applied to them.
mod Scenario
mod Driver
mod Lists
mod Files
mod Names
mod Sectors
mod Pools
mod Sd
mod Reading
mod Mapped
mod Streams

-- ===== src/Tests.antt =====
-- Concrete runs of the models, and the theorems at concrete inputs.
mod Runtime
mod Mir
mod Behaviour
mod Copies
mod Wrappers
mod Link
mod Scanner
mod Driver
mod Helper
mod Paths
mod Alloca
mod Collector
mod Tables

-- ===== src/Tests.antt =====
-- Runs of the model on small tables, and the instances of the theorems at them.
mod Demo
mod Samples
mod Runs
mod Instances
mod Serving
mod Patterns
mod Calls
mod Flow
mod Symbols

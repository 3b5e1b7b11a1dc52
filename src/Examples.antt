-- ===== src/Examples.antt =====
-- Concrete inputs: the theorems applied where their hypotheses hold, and tests of the definitions.
mod Tables
mod Retries
mod Jobs
mod Routes
mod Limits
mod Work
mod Redis
mod Keys
mod Points
mod Samples
mod Payloads

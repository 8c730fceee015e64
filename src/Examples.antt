-- ===== src/Examples.antt =====
-- Runs of the models at concrete inputs.
mod Data
mod Engines
mod Rules
mod Notices
mod Workers
mod Accounts
mod Operator
mod Detectors
mod Pipelines
mod Routes
mod Login

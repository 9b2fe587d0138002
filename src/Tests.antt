-- ===== src/Tests.antt =====
-- Runs of the model on a small database, and the theorems at these inputs.
mod Data
mod Stores
mod Tokens
mod Flows
mod Changes
mod Requests
mod Forever
mod Tables
mod Surface
mod Runs

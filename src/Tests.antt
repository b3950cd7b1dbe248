-- ===== src/Tests.antt =====
-- The theorems applied to concrete machines, nodes, rows and an environment that always answers.
mod Fixtures
mod Machines
mod Database
mod Host
mod Metadata
mod Start

-- ===== src/Tests.antt =====
-- The properties at concrete inputs.
mod Samples
mod Stores
mod Gates
mod Edits
mod Views
mod Cycles
mod Kills
mod Submissions
mod Fetches
mod Queries
mod Marks
mod Losses

-- ===== src/Tests.antt =====
-- Runs at concrete inputs, one file for a part of the program.
mod Counters
mod Limits
mod Access
mod Ranges
mod Lists
mod Walk
mod Conditions
mod Guards
mod Documents

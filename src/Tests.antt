-- ===== src/Tests.antt =====
-- Tests, and each theorem with hypotheses or arguments at a concrete input.
mod TagRules
mod Retention
mod Tokens
mod Access
mod Pages
mod Quota
mod Throttle
mod SignUps
mod Limits
mod TeamSeats
mod ScanQueue
mod Compared
mod Attached
mod Hooks
mod TagMoves
mod Schedules
mod Names

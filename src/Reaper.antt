-- ===== src/Reaper.antt =====
-- internal/controller/reaper.go: scaling idle workspaces to zero.
-- `Reap` takes the time and the map of last passes, and returns the map and the first error.
pub mod Predicate
pub mod Pass

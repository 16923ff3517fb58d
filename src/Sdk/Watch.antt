-- ===== src/Sdk/Watch.antt =====
-- `vfobs-watch`: sdk/python/vfobs_sdk/watch.py.
pub mod State
pub mod Rules
pub mod Verdicts
pub mod Latest
pub mod History
pub mod Loop
pub mod Main
pub mod Unseen

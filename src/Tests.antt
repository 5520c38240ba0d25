-- ===== src/Tests.antt =====
-- Concrete runs: the libraries that the model takes as parameters, instantiated, and each theorem
-- at an input that meets its conditions.
mod Structlogs
mod Samples
mod Stored
mod Crashed
mod Hooks
mod Cached
mod Mapped
mod Bodies
mod Listed
mod Events
mod Overlapping
mod Replayed
mod Running
mod Described
mod Secrets
mod Written

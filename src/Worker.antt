-- ===== src/Worker.antt =====
-- benchmarker/worker: the worker that takes load tests from a queue and reports their scores.
pub mod Cloud
pub mod Lock
pub mod Queue
pub mod Orders
pub mod Poll
pub mod Runner
pub mod Score
pub mod Settings
pub mod Unused

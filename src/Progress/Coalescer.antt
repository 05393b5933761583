-- ===== src/Progress/Coalescer.antt =====
-- legacy_progress.go: the coalescer of one site's playback reports.
pub mod Entry
pub mod Leaving
pub mod Calls
pub mod Completion
pub mod Queue
pub mod Shorter
pub mod Soundness
pub mod Consistency
pub mod Admission
pub mod Departure
pub mod Answers
pub mod Draining
pub mod History
pub mod Promises
pub mod Termination
pub mod Delivery
pub mod Handler

-- ===== src/Progress.antt =====
-- legacy_progress.go: the coalescing of playback progress reports: the limits that all sites
-- share, the coalescer of a site, and the writer that captures an upstream's response.
pub mod Global
pub mod Capture
pub mod Coalescer

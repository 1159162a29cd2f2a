-- ===== src/Background.antt =====
-- runtime/internal/background_runner.go: runs in the background, and the stream that a reader of
-- a session gets. `Iters` has the iterators; `Runs` the runner's map of active runs and its
-- goroutines; `Reads` what `ReadSession` yields.
pub mod Iters
pub mod Runs
pub mod Exclusive
pub mod Reads
pub mod Feed

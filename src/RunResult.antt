-- ===== src/RunResult.antt =====
-- runtime/internal/run_result.go: the text of an event stream. A `Pull` is one round of the loop
-- over the stream: what the iterator yields, and what `ctx.Err()` returns in that round.
pub mod Defs
pub mod Answer
pub mod Streaming

-- ===== src/Summarize.antt =====
-- runtime/internal/summarize: summarizer.go, texts cut to a number of bytes, and llm_summarizer.go,
-- titles by a model.
pub mod Truncating
pub mod Cut
pub mod Llm
pub mod Titles

-- ===== src/Summarize/Titles.antt =====
-- What title the summarizer gives.
use sonalmod.Base.{◌≡◌, false, List, Text, is_empty, trim_space, ◌⊎◌, inr}
use sonalmod.Providers.Defs.{ProviderConfig}
use sonalmod.Summarize.Truncating.{Bytes}
use sonalmod.Summarize.Llm.{
  Round, SummarizeError, LlmSummarizer, first_summarization_model, prompt_of, collect,
}

module _ {X : Type 0} (deps : LlmSummarizer X) where
  -- The title of a model: what it generated for the prompt without an error, trimmed and not empty.
  abbrev pub IsGenerated : Text → Text → Type 0
  IsGenerated s title =
      (providers : List ProviderConfig) × (llm : Bytes → List (Round X)) × (raw : Text) × (deps.list
        ≡ inr providers)
      × (deps.resolve_model (first_summarization_model providers) ≡ inr llm)
      × (collect (llm (prompt_of s)) ≡ inr raw)
      × (title ≡ trim_space raw)
      × (is_empty title ≡ false)

  abbrev IsTitled : Text → Text → SummarizeError X ⊎ Text → Type 0
  IsTitled s fallback out =
      (title : Text) × (out ≡ inr title) × ((title ≡ fallback) ⊎ IsGenerated s title)

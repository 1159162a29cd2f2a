-- ===== src/Summarize/Llm.antt =====
-- llm_summarizer.go: titles by a model, with another summarizer to fall back on. `X` is an error of
-- the providers, of the model or of the fallback. A text is its code points here, and its bytes
-- where it is cut.
use sonalmod.Base.{
  ℕ, ◌+◌, ◌/◌, ◌%◌, Option, none, some, List, [], ◌∷◌, ◌++◌, Text, text, is_empty, trim_space, ltb,
  ◌⊎◌, inl, inr, if◌then◌else◌,
}
use sonalmod.Providers.Defs.{ModelConfig, ProviderConfig}
use sonalmod.Summarize.Truncating.{Bytes, pos, TruncatingSummarizer, summarize}

-- The bytes of a code point in UTF-8.
unfoldable pub utf8_char : ℕ → Bytes
utf8_char c =
    if ltb c 128
    then c ∷ []
    else if ltb c 2048
    then (192 + c / 64) ∷ (128 + c % 64) ∷ []
    else if ltb c 65536
    then (224 + c / 4096) ∷ (128 + c / 64 % 64) ∷ (128 + c % 64) ∷ []
    else (240 + c / 262144) ∷ (128 + c / 4096 % 64) ∷ (128 + c / 64 % 64) ∷ (128 + c % 64) ∷ []

unfoldable pub utf8 : Text → Bytes
unfolding utf8_char
utf8 [] = []
utf8 (c ∷ s) = utf8_char c ++ utf8 s

-- One round of `GenerateContent`: an error, no content, or the texts of the parts, of which one may
-- be nil.
pub data Round (X : Type 0) : Type 0 where
  failed : X → Round X
  no_content : Round X
  content : List (Option Text) → Round X

pub data SummarizeError (X : Type 0) : Type 0 where
  fallback_failed : X → SummarizeError X
  after_list after_resolve after_llm after_empty : X → SummarizeError X

-- `LLMSummarizer`, by what its parts answer.
pub record LlmSummarizer (X : Type 0) : Type 0 where
  pub list : X ⊎ List ProviderConfig
  pub resolve_model : Text → X ⊎ (Bytes → List (Round X))
  pub fallback : Text → X ⊎ Text

unfoldable pub first_of_models : Text → List ModelConfig → Text
first_of_models provider [] = []
first_of_models provider (m ∷ l) =
    let rest = first_of_models provider l in
    if m.summarization then provider ++ (text "/" ++ m.name) else rest

abbrev pub or_else : Text → Text → Text
or_else [] other = other
or_else (c ∷ s) other = c ∷ s

-- `firstSummarizationModelFQFromConfigs`; a name that is found holds a slash.
unfoldable pub first_summarization_model : List ProviderConfig → Text
unfolding first_of_models
first_summarization_model [] = []
first_summarization_model (p ∷ l) =
    or_else (first_of_models p.name p.models) (first_summarization_model l)

unfoldable pub join_parts : List (Option Text) → Text
join_parts [] = []
join_parts (none ∷ l) = join_parts l
join_parts (some s ∷ l) = s ++ join_parts l

-- `summarizerPromptSnippetMaxBytes`
abbrev pub prompt_snippet : TruncatingSummarizer
prompt_snippet = record { max_len = pos 200 }

unfoldable pub prompt_of : Text → Bytes
unfolding utf8 summarize
prompt_of s =
    text
      "Generate a concise title (max 8 words, max 50 characters) for a conversation that starts with: "
    ++ summarize prompt_snippet (utf8 s)

module _ {X : Type 0} where
  abbrev pub put_before : Text → X ⊎ Text → X ⊎ Text
  put_before s (inl x) = inl x
  put_before s (inr t) = inr (s ++ t)

  -- The loop of `collectLLMText`, up to its first error.
  unfoldable pub collect : List (Round X) → X ⊎ Text
  unfolding join_parts
  collect [] = inr []
  collect (failed x ∷ l) = inl x
  collect (no_content ∷ l) = collect l
  collect (content parts ∷ l) = put_before (join_parts parts) (collect l)

  abbrev pub trimmed : X ⊎ Text → X ⊎ Text
  trimmed (inl x) = inl x
  trimmed (inr s) = inr (trim_space s)

  -- `collectLLMText`
  unfoldable pub collect_llm_text : List (Round X) → X ⊎ Text
  unfolding collect
  collect_llm_text rounds = trimmed (collect rounds)

  -- What the fallback gives, with the error that wraps its own.
  abbrev pub fall_back : (X → SummarizeError X) → X ⊎ Text → SummarizeError X ⊎ Text
  fall_back wrap (inl x) = inl (wrap x)
  fall_back wrap (inr s) = inr s

  module _ (deps : LlmSummarizer X) where
    abbrev pub finish : Text → X ⊎ Text → SummarizeError X ⊎ Text
    finish s (inl x) = fall_back after_llm (deps.fallback s)
    finish s (inr title) =
        if is_empty (trim_space title)
        then fall_back after_empty (deps.fallback s)
        else inr (trim_space title)

    abbrev pub generate : Text → X ⊎ (Bytes → List (Round X)) → SummarizeError X ⊎ Text
    generate s (inl x) = fall_back after_resolve (deps.fallback s)
    generate s (inr llm) = finish s (collect_llm_text (llm (prompt_of s)))

    abbrev pub with_model : Text → X ⊎ List ProviderConfig → SummarizeError X ⊎ Text
    with_model s (inl x) = fall_back after_list (deps.fallback s)
    with_model s (inr providers) =
        if is_empty (first_summarization_model providers)
        then fall_back fallback_failed (deps.fallback s)
        else generate s (deps.resolve_model (first_summarization_model providers))

    -- `LLMSummarizer.Summarize`
    unfoldable pub summarize_llm : Text → SummarizeError X ⊎ Text
    unfolding first_summarization_model collect_llm_text prompt_of
    summarize_llm s = with_model s deps.list

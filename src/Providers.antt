-- ===== src/Providers.antt =====
-- LLM providers: runtime/internal/llmproviders/providers_config.go and the service of
-- file_providers_config_service.go, which keeps one YAML file for each provider, and the
-- `ModelsLocator` of runtime/internal/models_locator.go.
pub mod Defs
pub mod Files
pub mod Kept
pub mod Deleted
pub mod Locator
pub mod Cached
pub mod Listed

-- ===== src/Providers/Locator.antt =====
-- `ModelsLocator` of runtime/internal/models_locator.go. `G` is a genkit instance, `X` an error.
-- The service of the providers is read by `get` and `list`; each call holds the lock.
use sonalmod.Base.{
  ℕ, Option, none, some, List, [], ◌∷◌, ◌++◌, Text, text_eq, Dict, lookup, insert, nat_beq, ◌⊎◌,
  inl, inr, if◌then◌else◌,
}
use sonalmod.Providers.Defs.{ModelConfig, ProviderConfig}

-- `ModelInfo`
pub record ModelInfo : Type 0 where
  pub provider : Text
  pub name : Text
  pub display_name : Text

-- `cachedGenkitInstance`
pub record CachedInstance (G : Type 0) : Type 0 where
  pub instance_ : G
  pub updated_at : ℕ

-- `cache`
abbrev pub Cache : Type 0 → Type 0
Cache G = Dict Text (CachedInstance G)

pub data LocatorError (X : Type 0) : Type 0 where
  invalid_model_name : Text → LocatorError X
  get_provider init_genkit : Text → X → LocatorError X
  list_providers : X → LocatorError X

pub data Result (X A : Type 0) : Type 0 where
  ok : A → Result X A
  err : LocatorError X → Result X A

-- `strings.Cut` at a slash.
unfoldable pub cut_slash : Text → Option (Text × Text)
cut_slash [] = none
cut_slash (c ∷ s) =
    let rest = cut_slash s in
    if nat_beq c 47 then some ([], s) else elim rest [ none ↦ none | some p ↦ some (c ∷ p.0, p.1) ]

-- The models of one provider.
unfoldable pub models_of : Text → List ModelConfig → List ModelInfo
models_of provider [] = []
models_of provider (m ∷ l) =
    (record { provider = provider; name = m.name; display_name = m.display_name })
    ∷ models_of provider l

unfoldable pub models_of_all : List ProviderConfig → List ModelInfo
unfolding models_of
models_of_all [] = []
models_of_all (p ∷ l) = models_of p.name p.models ++ models_of_all l

-- The name under which a model resolves.
abbrev pub qualified : ModelInfo → Text
qualified m = m.provider ++ 47 ∷ m.name

module _ {X : Type 0} where
  -- `parseModelName`
  unfoldable pub parse_model_name : Text → Result X (Text × Text)
  unfolding cut_slash
  parse_model_name name = elim (cut_slash name) [
    | none ↦ err (invalid_model_name name)
    | some p ↦ ok p
  ]

  -- `ListModels`
  unfoldable pub list_models : X ⊎ List ProviderConfig → Result X (List ModelInfo)
  unfolding models_of_all
  list_models (inl x) = err (list_providers x)
  list_models (inr providers) = ok (models_of_all providers)

module _ {G X : Type 0} where
  module _ (init : ProviderConfig → X ⊎ G) where
    abbrev pub initialized : X ⊎ G → Text → ProviderConfig → Cache G → Result X G × Cache G
    initialized (inl x) name cfg cache = (err (init_genkit name x), cache)
    initialized (inr g) name cfg cache =
        (ok g, insert name (record { instance_ = g; updated_at = cfg.updated_at }) cache)

    abbrev pub from_cache :
        Option (CachedInstance G) → Text → ProviderConfig → Cache G → Result X G × Cache G
    from_cache none name cfg cache = initialized (init cfg) name cfg cache
    from_cache (some c) name cfg cache =
        if nat_beq c.updated_at cfg.updated_at
        then (ok c.instance_, cache)
        else initialized (init cfg) name cfg cache

    -- `resolveGenkitInstance`
    unfoldable pub resolve_genkit_instance : Text → ProviderConfig → Cache G → Result X G × Cache G
    resolve_genkit_instance name cfg cache = from_cache (lookup name cache) name cfg cache

    -- The adapter that `ResolveModel` returns: an instance and the name of the model.
    abbrev pub with_name : Text → Result X G × Cache G → Result X (G × Text) × Cache G
    with_name name (err e, cache) = (err e, cache)
    with_name name (ok g, cache) = (ok (g, name), cache)

    -- What `ResolveModel` returns if the call initialises an instance.
    abbrev pub initialized_now : X ⊎ G → Text → Text → Result X (G × Text)
    initialized_now (inl x) name provider = err (init_genkit provider x)
    initialized_now (inr g) name provider = ok (g, name)

    module _ (get : Text → X ⊎ ProviderConfig) where
      abbrev pub resolve_with :
          Text → Text → X ⊎ ProviderConfig → Cache G → Result X (G × Text) × Cache G
      resolve_with name provider (inl x) cache = (err (get_provider provider x), cache)
      resolve_with name provider (inr cfg) cache =
          with_name name (resolve_genkit_instance provider cfg cache)

      abbrev pub resolve_parsed :
          Text → Result X (Text × Text) → Cache G → Result X (G × Text) × Cache G
      resolve_parsed name (err e) cache = (err e, cache)
      resolve_parsed name (ok p) cache = resolve_with name p.0 (get p.0) cache

      -- `ResolveModel`
      unfoldable pub resolve_model : Text → Cache G → Result X (G × Text) × Cache G
      unfolding parse_model_name resolve_genkit_instance
      resolve_model name cache = resolve_parsed name (parse_model_name name) cache

      abbrev pub fresh_with : Text → Text → X ⊎ ProviderConfig → Result X (G × Text)
      fresh_with name provider (inl x) = err (get_provider provider x)
      fresh_with name provider (inr cfg) = initialized_now (init cfg) name provider

      abbrev pub fresh_parsed : Text → Result X (Text × Text) → Result X (G × Text)
      fresh_parsed name (err e) = err e
      fresh_parsed name (ok p) = fresh_with name p.0 (get p.0)

      unfoldable pub resolve_fresh : Text → Result X (G × Text)
      unfolding parse_model_name
      resolve_fresh name = fresh_parsed name (parse_model_name name)

    -- Calls in order, each with the providers as they are then, from a cache.
    unfoldable pub resolve_all :
        List ((Text → X ⊎ ProviderConfig) × Text) → Cache G → List (Result X (G × Text))
    unfolding resolve_model
    resolve_all [] cache = []
    resolve_all (call ∷ calls) cache =
        let r = resolve_model call.0 call.1 cache in r.0 ∷ resolve_all calls r.1

    unfoldable pub resolve_all_fresh :
        List ((Text → X ⊎ ProviderConfig) × Text) → List (Result X (G × Text))
    unfolding resolve_fresh
    resolve_all_fresh [] = []
    resolve_all_fresh (call ∷ calls) = resolve_fresh call.0 call.1 ∷ resolve_all_fresh calls

-- ===== src/Providers/Defs.antt =====
-- The types of providers_config.go and the forms that are stored.
use sonalmod.Base.{
  ℕ, Bool, Option, none, some, List, [], ◌∷◌, Text, text, map, is_empty, ltb, if◌then◌else◌,
}

pub record ModelConfig : Type 0 where
  pub name : Text
  pub display_name : Text
  pub summarization : Bool

pub record ProviderConfig : Type 0 where
  pub name : Text
  pub type : Text
  pub display_name : Text
  pub base_url : Text
  pub api_key : Text
  pub models : List ModelConfig
  pub created_at : ℕ
  pub updated_at : ℕ

-- `Models` of the parameters may be nil.
pub record CreateProviderConfigParams : Type 0 where
  pub name : Text
  pub type : Text
  pub display_name : Text
  pub base_url : Text
  pub api_key : Text
  pub models : Option (List ModelConfig)

pub record UpdateProviderConfigParams : Type 0 where
  pub display_name : Text
  pub base_url : Text
  pub api_key : Text
  pub models : Option (List ModelConfig)

-- `ProviderTypeOpenAICompatible`
abbrev pub openai_compatible : Text
openai_compatible = text "openai-compatible"

-- `modelFileStorage`
pub record ModelFileStorage : Type 0 where
  pub name : Text
  pub display_name : Text
  pub summarization : Bool

-- `providerFileStorage`
pub record ProviderFileStorage : Type 0 where
  pub name : Text
  pub type : Text
  pub display_name : Text
  pub base_url : Text
  pub api_key : Text
  pub models : List ModelFileStorage
  pub created_at : ℕ
  pub updated_at : ℕ

abbrev pub model_to_file : ModelConfig → ModelFileStorage
model_to_file m = record {
  name = m.name;
  display_name = m.display_name;
  summarization = m.summarization;
}

abbrev pub model_from_file : ModelFileStorage → ModelConfig
model_from_file m = record {
  name = m.name;
  display_name = m.display_name;
  summarization = m.summarization;
}

-- `modelsToFileStorage`
unfoldable pub models_to_file_storage : List ModelConfig → List ModelFileStorage
models_to_file_storage models = map model_to_file models

-- `modelsFromFileStorage`
unfoldable pub models_from_file_storage : List ModelFileStorage → List ModelConfig
models_from_file_storage stored = map model_from_file stored

-- What `writeProviderFile` encodes.
unfoldable pub to_file_storage : ProviderConfig → ProviderFileStorage
unfolding models_to_file_storage
to_file_storage c = record {
  name = c.name;
  type = c.type;
  display_name = c.display_name;
  base_url = c.base_url;
  api_key = c.api_key;
  models = models_to_file_storage c.models;
  created_at = c.created_at;
  updated_at = c.updated_at;
}

-- What `readProviderFile` makes of what it decodes.
unfoldable pub from_file_storage : ProviderFileStorage → ProviderConfig
unfolding models_from_file_storage
from_file_storage c = record {
  name = c.name;
  type = c.type;
  display_name = c.display_name;
  base_url = c.base_url;
  api_key = c.api_key;
  models = models_from_file_storage c.models;
  created_at = c.created_at;
  updated_at = c.updated_at;
}

abbrev pub models_or_empty : Option (List ModelConfig) → List ModelConfig
models_or_empty none = []
models_or_empty (some l) = l

-- The configuration that `Create` writes at a time.
abbrev pub created : ℕ → CreateProviderConfigParams → ProviderConfig
created now params = record {
  name = params.name;
  type = params.type;
  display_name = params.display_name;
  base_url = params.base_url;
  api_key = params.api_key;
  models = models_or_empty params.models;
  created_at = now;
  updated_at = now;
}

-- The configuration with the parameters of an update at a time.
unfoldable pub changed : ℕ → ProviderConfig → UpdateProviderConfigParams → ProviderConfig
changed now c params = record c {
  display_name = params.display_name;
  base_url = params.base_url;
  api_key = if is_empty params.api_key then c.api_key else params.api_key;
  models = models_or_empty params.models;
  updated_at = now;
}

-- The configurations of `List`, in order of creation.
unfoldable pub insert_ordered : ProviderConfig → List ProviderConfig → List ProviderConfig
insert_ordered p [] = p ∷ []
insert_ordered p (q ∷ l) =
    let rest = insert_ordered p l in if ltb q.created_at p.created_at then q ∷ rest else p ∷ q ∷ l

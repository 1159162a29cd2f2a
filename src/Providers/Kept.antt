-- ===== src/Providers/Kept.antt =====
-- What `Get` returns after `Create`, `Update` and `Delete`.
use sonalmod.Base.{
  ℕ, ◌≡◌, refl, sym, ◌∙◌, ap, Option, none, some, List, [], ◌∷◌, Text, text_eq, text_beq_iff,
  lookup, insert, lookup-insert, ◌⊎◌, inl, inr, arith, is_empty, if◌then◌else◌,
}
use mathlib.Core.Path.{subst}
use sonalmod.ProfileFiles.Service.{Written, fine, refused, torn}
use sonalmod.Providers.Defs.{
  ModelConfig, ProviderConfig, CreateProviderConfigParams, UpdateProviderConfigParams,
  ProviderFileStorage, models_to_file_storage, models_from_file_storage, to_file_storage,
  from_file_storage, created, changed, models_or_empty,
}
use sonalmod.Providers.Files.{
  ProviderError, Result, ok, err, contents, Directory, Extension, yaml_file, yml_file,
  resolve_provider_read_path, file_at, read_provider_file, get, write_encoded, write_provider_file,
  create, finish_create, update, finish_update,
}

models_from_file_storage-models_to_file_storage :
    (l : List ModelConfig) → models_from_file_storage (models_to_file_storage l) ≡ l
unfolding models_from_file_storage models_to_file_storage
models_from_file_storage-models_to_file_storage [] = refl
models_from_file_storage-models_to_file_storage (m ∷ l) =
    ap (λ k. m ∷ k) (models_from_file_storage-models_to_file_storage l)

from_file_storage-to_file_storage : (c : ProviderConfig) → from_file_storage (to_file_storage c) ≡ c
unfolding from_file_storage to_file_storage
from_file_storage-to_file_storage c =
    ap (λ l. record c { models = l }) (models_from_file_storage-models_to_file_storage c.models)

Result-cases :
    {X A : Type 0} (r : Result X A) → ((a : A) × (r ≡ ok a)) ⊎ ((e : ProviderError X) × (r ≡ err e))
Result-cases (ok a) = inl (a, refl)
Result-cases (err e) = inr (e, refl)

-- The key of an update: the old one, where none is given.
abbrev key_of : Text → Text → Text
key_of [] old = old
key_of (c ∷ given) old = c ∷ given

abbrev models_of : Option (List ModelConfig) → List ModelConfig
models_of none = []
models_of (some l) = l

-- What an update at a time makes of a configuration.
pub record IsUpdated (now : ℕ) (old : ProviderConfig) (params : UpdateProviderConfigParams)
    (c : ProviderConfig) : Type 0 where
  pub name : c.name ≡ old.name
  pub type : c.type ≡ old.type
  pub created_at : c.created_at ≡ old.created_at
  pub display_name : c.display_name ≡ params.display_name
  pub base_url : c.base_url ≡ params.base_url
  pub api_key : c.api_key ≡ key_of params.api_key old.api_key
  pub models : c.models ≡ models_of params.models
  pub updated_at : c.updated_at ≡ now

-- What a creation at a time makes of its parameters.
pub record IsCreated (now : ℕ) (params : CreateProviderConfigParams) (c : ProviderConfig)
    : Type 0 where
  pub name : c.name ≡ params.name
  pub type : c.type ≡ params.type
  pub display_name : c.display_name ≡ params.display_name
  pub base_url : c.base_url ≡ params.base_url
  pub api_key : c.api_key ≡ params.api_key
  pub models : c.models ≡ models_of params.models
  pub created_at : c.created_at ≡ now
  pub updated_at : c.updated_at ≡ now

models_or_empty_lem : (m : Option (List ModelConfig)) → models_or_empty m ≡ models_of m
models_or_empty_lem none = refl
models_or_empty_lem (some l) = refl

created-IsCreated :
    (now : ℕ) (params : CreateProviderConfigParams) → IsCreated now params (created now params)
created-IsCreated now params = record {
  name = refl;
  type = refl;
  display_name = refl;
  base_url = refl;
  api_key = refl;
  models = models_or_empty_lem params.models;
  created_at = refl;
  updated_at = refl;
}

changed-IsUpdated :
    (now : ℕ) (old : ProviderConfig) (params : UpdateProviderConfigParams)
    → IsUpdated now old params (changed now old params)
unfolding changed
changed-IsUpdated now old params = record {
  name = refl;
  type = refl;
  created_at = refl;
  display_name = refl;
  base_url = refl;
  api_key = keyed params.api_key;
  models = models_or_empty_lem params.models;
  updated_at = refl;
}
  where
    keyed : (k : Text) → (if is_empty k then old.api_key else k) ≡ key_of k old.api_key
    keyed [] = refl
    keyed (c ∷ k) = refl

module _ {X : Type 0} (encode : ProviderFileStorage → X ⊎ Text)
    (decode : Text → X ⊎ ProviderFileStorage)
    (law : (c : ProviderFileStorage) (s : Text) → encode c ≡ inr s → decode s ≡ inr c) where
  -- A directory with the text of a configuration in the file `.yaml` of its name.
  get_stored :
      (name : Text) (c : ProviderConfig) (s : Text) (dir : Directory X)
      → encode (to_file_storage c) ≡ inr s
      → lookup name dir.yaml ≡ some (contents s)
      → get encode decode name dir ≡ ok c
  unfolding get resolve_provider_read_path read_provider_file
  get_stored name c s dir e there =
      let same = from_file_storage-to_file_storage c in ground (arith, law (to_file_storage c) s e)

  module _ (now : ℕ) (answer : Written X) where
    -- The file that a write leaves if it succeeds.
    write_encoded_lem :
        (name : Text) (e : X ⊎ Text) (answer : Written X) (dir d : Directory X)
        → write_encoded encode decode now answer e name dir ≡ (none, d)
        → (s : Text) × (e ≡ inr s) × (lookup name d.yaml ≡ some (contents s))
    write_encoded_lem name (inl x) answer dir d h = cc
    write_encoded_lem name (inr s) fine dir d h =
        let same : record dir { yaml = insert name (contents s) dir.yaml } ≡ d = ap (λ r. r.1) h in
        let there = lookup-insert name name (contents s) dir.yaml in
        (
          s,
          refl,
          ap (λ z. lookup name z.yaml) (sym same) ∙ ground (arith, (text_beq_iff name name).1 refl),
        )
    write_encoded_lem name (inr s) (refused x) dir d h = cc
    write_encoded_lem name (inr s) (torn x left) dir d h = cc

    -- `Get` in a directory whose files `.yaml` are those of a write that succeeded.
    get-write_provider_file :
        (name : Text) (c : ProviderConfig) (dir d k : Directory X)
        → write_provider_file encode decode now answer name c dir ≡ (none, d)
        → d.yaml ≡ k.yaml
        → get encode decode name k ≡ ok c
    unfolding write_provider_file
    get-write_provider_file name c dir d k h same =
        let (s, e, there) = write_encoded_lem name (encode (to_file_storage c)) answer dir d h in
        get_stored name c s k e (ap (lookup name) (sym same) ∙ there)

    finish_create_lem :
        (c p : ProviderConfig) (w : Option (ProviderError X) × Directory X) (d : Directory X)
        → finish_create encode decode now answer p w ≡ (ok c, d)
        → (c ≡ p) × (w ≡ (none, d))
    finish_create_lem c p (some e, dir) d h = cc
    finish_create_lem c p (none, dir) d h = (cc, ap (λ r. (none, r.1)) h)

    -- A `Create` that succeeds returns the configuration of its parameters, with each field of them
    -- (no models, where none are given), created and updated at the time of the call, and `Get`
    -- then returns it. This holds where decoding what the encoder
    -- of YAML wrote gives back what was encoded.
    pub get-created :
        (params : CreateProviderConfigParams) (c : ProviderConfig) (dir d : Directory X)
        → create encode decode now answer params dir ≡ (ok c, d)
        → (c ≡ created now params)
          × IsCreated now params c
          × (get encode decode params.name d ≡ ok c)
    unfolding create
    get-created params c dir d h =
        let p = created now params in
        let w = write_provider_file encode decode now answer params.name p dir in
        let passed : finish_create encode decode now answer p w ≡ (ok c, d) = ground arith in
        let (same, wrote) = finish_create_lem c p w d passed in
        (
          same,
          subst (IsCreated now params) (sym same) (created-IsCreated now params),
          get-write_provider_file params.name p dir d d wrote refl ∙ ap ok (sym same),
        )

    finish_update_lem :
        (fault : Option X) (ext : Extension) (name : Text) (c p : ProviderConfig)
        (w : Option (ProviderError X) × Directory X) (d : Directory X)
        → finish_update encode decode now answer fault ext name p w ≡ (ok c, d)
        → (c ≡ p) × ((k : Directory X) × (w ≡ (none, k)) × (k.yaml ≡ d.yaml))
    finish_update_lem fault ext name c p (some e, k) d h = cc
    finish_update_lem fault yaml_file name c p (none, k) d h = (cc, (k, refl, cc))
    finish_update_lem none yml_file name c p (none, k) d h = (cc, (k, refl, ap (λ r. (r.1).yaml) h))
    finish_update_lem (some x) yml_file name c p (none, k) d h = cc

    -- An `Update` that succeeds returns what `Get` returned before with the new display name, base
    -- URL and models (none, where none are given), the new key or, where that is empty, the old
    -- one, the time of the call as time of update, and the same name, type and time of creation;
    -- and `Get` then returns it, also where the file had the extension `.yml`. This holds where
    -- decoding what the encoder of YAML wrote gives back what was encoded.
    pub get-update :
        (fault : Option X) (name : Text) (params : UpdateProviderConfigParams)
        (old c : ProviderConfig) (dir d : Directory X)
        → get encode decode name dir ≡ ok old
        → update encode decode now answer fault name params dir ≡ (ok c, d)
        → IsUpdated now old params c × (get encode decode name d ≡ ok c)
    unfolding update get
    get-update fault name params old c dir d was h =
        elim (Result-cases (resolve_provider_read_path name dir)) [
          | inr (e, bad) ↦ absurd (ground arith)
          | inl (ext, good) ↦
              let read : read_provider_file encode decode name (file_at ext name dir) ≡ ok old =
                ground arith in
              let p = changed now old params in
              let w = write_provider_file encode decode now answer name p dir in
              let passed : finish_update encode decode now answer fault ext name p w ≡ (ok c, d) =
                ground arith in
              let (same, (k, wrote, kept)) = finish_update_lem fault ext name c p w d passed in
              (
                subst (IsUpdated now old params) (sym same) (changed-IsUpdated now old params),
                get-write_provider_file name p dir k d wrote kept ∙ ap ok (sym same),
              )
        ]

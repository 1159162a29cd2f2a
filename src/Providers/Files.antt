-- ===== src/Providers/Files.antt =====
-- The operations of `FileProvidersConfigService`. A directory holds the files `<name>.yaml` and
-- `<name>.yml` by name. `X` is an error of the system or of the YAML library, whose encoder and
-- decoder are parameters.
use sonalmod.Base.{
  ℕ, Bool, true, false, not, Option, none, some, List, [], ◌∷◌, Text, text_eq, ◌==◌, Dict, lookup,
  insert, erase, ◌⊎◌, inl, inr, if◌then◌else◌,
}
use sonalmod.Profiles.Defs.{matches_name_pattern}
use sonalmod.ProfileFiles.Service.{Written, fine, refused, torn}
use sonalmod.Providers.Defs.{
  ProviderConfig, CreateProviderConfigParams, UpdateProviderConfigParams, ProviderFileStorage,
  openai_compatible, to_file_storage, created, changed, insert_ordered, from_file_storage,
}

pub data Stage : Type 0 where
  stat read parse marshal write remove : Stage

pub data ProviderError (X : Type 0) : Type 0 where
  not_found name_conflict : Text → ProviderError X
  invalid_name unsupported_type : Text → ProviderError X
  system : Stage → X → ProviderError X

pub data Result (X A : Type 0) : Type 0 where
  ok : A → Result X A
  err : ProviderError X → Result X A

-- A file: its text, or the error of `os.ReadFile` or already of `os.Stat`.
pub data File (X : Type 0) : Type 0 where
  contents : Text → File X
  unreadable no_stat : X → File X

pub record Directory (X : Type 0) : Type 0 where
  pub yaml : Dict Text (File X)
  pub yml : Dict Text (File X)

pub data Extension : Type 0 where
  yaml_file yml_file : Extension

module _ {X : Type 0} where
  abbrev pub resolve_yml : Text → Option (File X) → Result X Extension
  resolve_yml name none = err (not_found name)
  resolve_yml name (some (no_stat x)) = err (system stat x)
  resolve_yml name (some (contents _)) = ok yml_file
  resolve_yml name (some (unreadable _)) = ok yml_file

  abbrev pub resolve_yaml : Text → Option (File X) → Option (File X) → Result X Extension
  resolve_yaml name none other = resolve_yml name other
  resolve_yaml name (some (no_stat x)) other = err (system stat x)
  resolve_yaml name (some (contents _)) other = ok yaml_file
  resolve_yaml name (some (unreadable _)) other = ok yaml_file

  -- `resolveProviderReadPath`
  unfoldable pub resolve_provider_read_path : Text → Directory X → Result X Extension
  resolve_provider_read_path name dir =
      resolve_yaml name (lookup name dir.yaml) (lookup name dir.yml)

  abbrev pub file_at : Extension → Text → Directory X → Option (File X)
  file_at yaml_file name dir = lookup name dir.yaml
  file_at yml_file name dir = lookup name dir.yml

  abbrev pub remove_at : Extension → Text → Directory X → Directory X
  remove_at yaml_file name dir = record dir { yaml = erase name dir.yaml }
  remove_at yml_file name dir = record dir { yml = erase name dir.yml }

  -- Whether `os.Stat` finds a file.
  abbrev pub found : Option (File X) → Bool
  found none = false
  found (some (no_stat _)) = false
  found (some (contents _)) = true
  found (some (unreadable _)) = true

  -- `Delete`; `fault` is an error of the removal.
  abbrev pub delete_at :
      Option X → Text → Result X Extension → Directory X → Option (ProviderError X) × Directory X
  delete_at fault name (err e) dir = (some e, dir)
  delete_at none name (ok ext) dir = (none, remove_at ext name dir)
  delete_at (some x) name (ok ext) dir = (some (system remove x), dir)

  unfoldable pub delete : Option X → Text → Directory X → Option (ProviderError X) × Directory X
  unfolding resolve_provider_read_path
  delete fault name dir = delete_at fault name (resolve_provider_read_path name dir) dir

module _ {X : Type 0} (encode : ProviderFileStorage → X ⊎ Text)
    (decode : Text → X ⊎ ProviderFileStorage) where
  abbrev pub parsed : X ⊎ ProviderFileStorage → Result X ProviderConfig
  parsed (inl x) = err (system parse x)
  parsed (inr c) = ok (from_file_storage c)

  -- `readProviderFile`
  unfoldable pub read_provider_file : Text → Option (File X) → Result X ProviderConfig
  unfolding from_file_storage
  read_provider_file name none = err (not_found name)
  read_provider_file name (some (contents s)) = parsed (decode s)
  read_provider_file name (some (unreadable x)) = err (system read x)
  read_provider_file name (some (no_stat x)) = err (system read x)

  abbrev pub read_resolved : Text → Result X Extension → Directory X → Result X ProviderConfig
  read_resolved name (err e) dir = err e
  read_resolved name (ok ext) dir = read_provider_file name (file_at ext name dir)

  -- `Get`
  unfoldable pub get : Text → Directory X → Result X ProviderConfig
  unfolding resolve_provider_read_path read_provider_file
  get name dir = read_resolved name (resolve_provider_read_path name dir) dir

  abbrev pub add_config :
      Result X ProviderConfig → Result X (List ProviderConfig) → Result X (List ProviderConfig)
  add_config (err e) rest = err e
  add_config (ok p) (err e) = err e
  add_config (ok p) (ok l) = ok (insert_ordered p l)

  abbrev pub absent : Option (File X) → Bool
  absent none = true
  absent (some _) = false

  unfoldable pub list_yml : Dict Text (File X) → Dict Text (File X) → Result X (List ProviderConfig)
  unfolding read_provider_file
  list_yml yaml [] = ok []
  list_yml yaml ((name, f) ∷ files) =
      let rest = list_yml yaml files in
      if absent (lookup name yaml) then add_config (read_provider_file name (some f)) rest else rest

  unfoldable pub list_yaml :
      Dict Text (File X) → Result X (List ProviderConfig) → Result X (List ProviderConfig)
  unfolding read_provider_file
  list_yaml [] others = others
  list_yaml ((name, f) ∷ files) others =
      add_config (read_provider_file name (some f)) (list_yaml files others)

  -- `List`: the files `.yaml`, and the files `.yml` of other names. The source goes through them in
  -- no order; here it is that of the maps, which decides the first error and the order of times that
  -- are equal.
  unfoldable pub list : Directory X → Result X (List ProviderConfig)
  unfolding list_yml list_yaml
  list dir = list_yaml dir.yaml (list_yml dir.yaml dir.yml)

  module _ (now : ℕ) (answer : Written X) where
    abbrev pub write_text :
        Written X → Text → Text → Directory X → Option (ProviderError X) × Directory X
    write_text fine name s dir = (none, record dir { yaml = insert name (contents s) dir.yaml })
    write_text (refused x) name s dir = (some (system write x), dir)
    write_text (torn x left) name s dir =
        (some (system write x), record dir { yaml = insert name (contents left) dir.yaml })

    abbrev pub write_encoded :
        X ⊎ Text → Text → Directory X → Option (ProviderError X) × Directory X
    write_encoded (inl x) name dir = (some (system marshal x), dir)
    write_encoded (inr s) name dir = write_text answer name s dir

    -- `writeProviderFile`, at the path of a name.
    unfoldable pub write_provider_file :
        Text → ProviderConfig → Directory X → Option (ProviderError X) × Directory X
    unfolding to_file_storage
    write_provider_file name c dir = write_encoded (encode (to_file_storage c)) name dir

    abbrev pub finish_create :
        ProviderConfig
        → Option (ProviderError X) × Directory X
        → Result X ProviderConfig × Directory X
    finish_create c (some e, dir) = (err e, dir)
    finish_create c (none, dir) = (ok c, dir)

    -- `Create`
    unfoldable pub create :
        CreateProviderConfigParams → Directory X → Result X ProviderConfig × Directory X
    unfolding matches_name_pattern write_provider_file
    create params dir =
        if not (matches_name_pattern params.name)
        then (err (invalid_name params.name), dir)
        else if not (params.type == openai_compatible)
        then (err (unsupported_type params.type), dir)
        else if found (lookup params.name dir.yaml)
        then (err (name_conflict params.name), dir)
        else if found (lookup params.name dir.yml)
        then (err (name_conflict params.name), dir)
        else finish_create (created now params)
            (write_provider_file params.name (created now params) dir)

    -- The end of `Update`, which moves a file `.yml` to `.yaml`; `fault` is an error of its removal.
    abbrev pub finish_update :
        Option X
        → Extension
        → Text
        → ProviderConfig
        → Option (ProviderError X) × Directory X
        → Result X ProviderConfig × Directory X
    finish_update fault ext name c (some e, dir) = (err e, dir)
    finish_update fault yaml_file name c (none, dir) = (ok c, dir)
    finish_update none yml_file name c (none, dir) = (ok c, remove_at yml_file name dir)
    finish_update (some x) yml_file name c (none, dir) = (err (system remove x), dir)

    abbrev pub update_read :
        Option X
        → Extension
        → Text
        → UpdateProviderConfigParams
        → Result X ProviderConfig
        → Directory X
        → Result X ProviderConfig × Directory X
    update_read fault ext name params (err e) dir = (err e, dir)
    update_read fault ext name params (ok c) dir =
        finish_update fault ext name (changed now c params)
          (write_provider_file name (changed now c params) dir)

    abbrev pub update_resolved :
        Option X
        → Text
        → UpdateProviderConfigParams
        → Result X Extension
        → Directory X
        → Result X ProviderConfig × Directory X
    update_resolved fault name params (err e) dir = (err e, dir)
    update_resolved fault name params (ok ext) dir =
        update_read fault ext name params (read_provider_file name (file_at ext name dir)) dir

    -- `Update`
    unfoldable pub update :
        Option X
        → Text
        → UpdateProviderConfigParams
        → Directory X
        → Result X ProviderConfig × Directory X
    unfolding resolve_provider_read_path read_provider_file write_provider_file changed
    update fault name params dir =
        update_resolved fault name params (resolve_provider_read_path name dir) dir

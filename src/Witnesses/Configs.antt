-- ===== src/Witnesses/Configs.antt =====
-- Saved profiles, providers and users at concrete inputs.
use sonalmod.Base.{
  ℕ, ◌≡◌, refl, ap, ◌∙◌, ◌⊎◌, inl, inr, Bool, true, false, none, some, List, [], ◌∷◌, ◌++◌, Text,
  text, Option, lookup, text_eq, Dict, ◌==◌, if◌then◌else◌, sym, arith, Bool-cases, text_beq_iff,
}
use mathlib.Core.Path.{subst}
use sonalmod.Profiles.Defs.{CreateParams, AgentProfile}
use sonalmod.ProfileFiles.Markdown.{Frontmatter, ok, untimed}
use sonalmod.ProfileFiles.Service.{Directory, fine, create, read_profile_file}
use sonalmod.ProfileFiles.Created.{created, read_profile_file-create}
use sonalmod.Providers.Defs.{
  ModelConfig, ProviderConfig, CreateProviderConfigParams, UpdateProviderConfigParams,
  ProviderFileStorage, ModelFileStorage, openai_compatible,
}
use sonalmod.Providers.Defs
use sonalmod.Providers.Files
use sonalmod.Providers.Kept.{IsCreated, IsUpdated, get-created, get-update}
use sonalmod.Providers.Deleted.{get-deleted, left_over}
use sonalmod.Providers.Locator
use sonalmod.Providers.Cached.{resolve_all_lem}
use sonalmod.Providers.Listed.{AreParsed, list_models-AreParsed}
use sonalmod.Auth.UserStore.{User, CreateUserParams, Users, new_user, read_user, get_by_username}
use sonalmod.Auth.UserStore
use sonalmod.Auth.Distinct.{IsSound, all_read}
use sonalmod.Auth.Usernames.{make, change_password, calls, calls-IsSound, get_by_username-create}

abbrev helper : CreateParams
helper = record {
  name = text "helper";
  display_name = text "Helper";
  role = text "Helps";
  instructions = text "Help.";
  tool_refs = [];
  execution_settings = record {
    mode = [];
    default_model = text "openai/gpt";
    agent_command = record { command = []; args = [] };
    cwd = [];
  };
}

abbrev name_only : Frontmatter → ℕ ⊎ Text
name_only f = inr f.name

abbrev of_name : Text → ℕ ⊎ Frontmatter
of_name s = inr (record {
  name = s;
  display_name = text "Helper";
  role = text "Helps";
  description = [];
  model = text "openai/gpt";
  tools = [];
  execution_settings = none;
})

abbrev no_profiles : Directory ℕ
no_profiles = []

read_profile_file-create_example :
    ((create name_only of_name 7 true fine helper no_profiles).0
      ≡ ok (created name_only of_name 7 true helper))
    × (read_profile_file name_only of_name
          (text "helper")
          (create name_only of_name 7 true fine helper no_profiles).1
        ≡ ok (created name_only of_name 7 true helper))
unfolding sonalmod.Profiles.Defs.normalize_create_params sonalmod.Base.trim_space
    sonalmod.Base.is_space sonalmod.Base.text_beq lookup
    sonalmod.ProfileFiles.Markdown.frontmatter_of sonalmod.ProfileFiles.Markdown.cut_close
read_profile_file-create_example =
    read_profile_file-create name_only of_name 7 true helper helper (text "helper") no_profiles refl
      refl refl refl (refl, (refl, (refl, (refl, (refl, (refl, tt)))))) (inr refl)

-- A codec for the providers of which little is filled in.
abbrev encode_parts : Text → Text → Text → Text → Text → List ModelFileStorage → ℕ → ℕ → ℕ ⊎ Text
encode_parts name type [] [] [] [] at changed =
    if type == openai_compatible then inr (at ∷ changed ∷ name) else inl 0
encode_parts name type (x ∷ display) base key models at changed = inl 0
encode_parts name type [] (x ∷ base) key models at changed = inl 0
encode_parts name type [] [] (x ∷ key) models at changed = inl 0
encode_parts name type [] [] [] (m ∷ models) at changed = inl 0

abbrev bare : Text → ℕ → ℕ → ProviderFileStorage
bare name at changed = record {
  name = name;
  type = openai_compatible;
  display_name = [];
  base_url = [];
  api_key = [];
  models = [];
  created_at = at;
  updated_at = changed;
}

abbrev encode : ProviderFileStorage → ℕ ⊎ Text
encode c =
    encode_parts c.name c.type c.display_name c.base_url c.api_key c.models c.created_at
      c.updated_at

abbrev decode : Text → ℕ ⊎ ProviderFileStorage
decode [] = inl 0
decode (at ∷ []) = inl 0
decode (at ∷ changed ∷ name) = inr (bare name at changed)

decode-encode_parts :
    (name type display base key : Text) (models : List ModelFileStorage) (at changed : ℕ) (s : Text)
    → encode_parts name type display base key models at changed ≡ inr s
    → decode s
      ≡ inr (record {
        name = name;
        type = type;
        display_name = display;
        base_url = base;
        api_key = key;
        models = models;
        created_at = at;
        updated_at = changed;
      })
decode-encode_parts name type [] [] [] [] at changed s h =
    elim (Bool-cases (type == openai_compatible)) [
      | inl same ↦
          let written : at ∷ changed ∷ name ≡ s = ground arith in
          ap decode (sym written)
          ∙ ap (λ k. inr (record (bare name at changed) { type = k }))
              (sym ((text_beq_iff type openai_compatible).0 same))
      | inr other ↦ absurd (ground arith)
    ]
decode-encode_parts name type (x ∷ display) base key models at changed s h = cc
decode-encode_parts name type [] (x ∷ base) key models at changed s h = cc
decode-encode_parts name type [] [] (x ∷ key) models at changed s h = cc
decode-encode_parts name type [] [] [] (m ∷ models) at changed s h = cc

decode-encode : (c : ProviderFileStorage) (s : Text) → encode c ≡ inr s → decode s ≡ inr c
decode-encode c s h =
    decode-encode_parts c.name c.type c.display_name c.base_url c.api_key c.models c.created_at
      c.updated_at s h

abbrev openai : CreateProviderConfigParams
openai = record {
  name = text "openai";
  type = openai_compatible;
  display_name = [];
  base_url = [];
  api_key = [];
  models = none;
}

abbrev no_files : Files.Directory ℕ
no_files = record { yaml = []; yml = [] }

abbrev with_openai : Files.Directory ℕ
with_openai = (Files.create encode decode 4 fine openai no_files).1

get-created_example :
    (Defs.created 4 openai ≡ Defs.created 4 openai)
    × IsCreated 4 openai (Defs.created 4 openai)
    × (Files.get encode decode (text "openai") with_openai ≡ Files.ok (Defs.created 4 openai))
unfolding Files.create sonalmod.Base.text_beq lookup
get-created_example =
    get-created encode decode decode-encode 4 fine openai (Defs.created 4 openai) no_files
      with_openai refl

abbrev moved : Files.Directory ℕ
moved = record { yaml = []; yml = with_openai.yaml }

abbrev blank : UpdateProviderConfigParams
blank = record { display_name = []; base_url = []; api_key = []; models = none }

get-update_example :
    let old = Defs.created 4 openai in
    IsUpdated 9 old blank (Defs.changed 9 old blank)
    × (Files.get encode decode
          (text "openai")
          (Files.update encode decode 9 fine none (text "openai") blank moved).1
        ≡ Files.ok (Defs.changed 9 old blank))
unfolding Files.get lookup Files.create sonalmod.Base.text_beq sonalmod.Base.insert Files.update
get-update_example =
    get-update encode decode decode-encode 9 fine none (text "openai") blank (Defs.created 4 openai)
      (Defs.changed 9 (Defs.created 4 openai) blank) moved
      (Files.update encode decode 9 fine none (text "openai") blank moved).1 refl refl

abbrev both_files : Files.Directory ℕ
both_files = record { yaml = with_openai.yaml; yml = with_openai.yaml }

get-deleted_example :
    Files.get encode decode (text "openai") (Files.delete none (text "openai") both_files).1
    ≡ left_over encode decode (text "openai") (lookup (text "openai") both_files.yaml) both_files
unfolding Files.delete lookup Files.create sonalmod.Base.text_beq sonalmod.Base.insert
get-deleted_example =
    get-deleted encode decode none (text "openai") (text "openai") both_files
      (Files.delete none (text "openai") both_files).1 refl

abbrev version : Text → ℕ → ProviderConfig
version name at = record (Defs.created 4 openai) { name = name; updated_at = at }

abbrev providers_at : ℕ → Text → ℕ ⊎ ProviderConfig
providers_at at name = inr (version name at)

providers_at-versioned :
    (at : ℕ) (name : Text) (cfg : ProviderConfig)
    → providers_at at name ≡ inr cfg
    → cfg ≡ version name cfg.updated_at
providers_at-versioned at name cfg h =
    let same : version name at ≡ cfg = cc in subst (λ c. c ≡ version name c.updated_at) same refl

abbrev init : ProviderConfig → ℕ ⊎ ℕ
init cfg = inr cfg.updated_at

resolve_all_lem_example :
    Locator.resolve_all init ((providers_at 3, text "a/m") ∷ (providers_at 5, text "a/m") ∷ []) []
    ≡ Locator.resolve_all_fresh init
        ((providers_at 3, text "a/m") ∷ (providers_at 5, text "a/m") ∷ [])
resolve_all_lem_example =
    resolve_all_lem init version ((providers_at 3, text "a/m") ∷ (providers_at 5, text "a/m") ∷ [])
      (providers_at-versioned 3, (providers_at-versioned 5, tt))

abbrev two_models : ProviderConfig
two_models = record (Defs.created 4 openai) {
  models =
      (record { name = text "a/b"; display_name = []; summarization = true })
      ∷ (record { name = text "c"; display_name = []; summarization = false })
      ∷ [];
}

list_models-AreParsed_example :
    (models : List Locator.ModelInfo) × (Locator.list_models {X = ℕ} (inr (two_models ∷ []))
      ≡ Locator.ok models)
    × AreParsed ℕ models
unfolding sonalmod.Profiles.Defs.matches_name_pattern
list_models-AreParsed_example = list_models-AreParsed ℕ (two_models ∷ []) refl

abbrev ann : CreateUserParams
ann = record { username = text "ann"; password_hash = text "hash" }

calls-IsSound_example : IsSound {X = ℕ} (
    calls
      (make none all_read none (text "1") 5 ann
        ∷ make none all_read none (text "2") 6 ann
        ∷ change_password none none (text "1") (text "new") 7
        ∷ [])
      [])
calls-IsSound_example =
    calls-IsSound
      (make none all_read none (text "1") 5 ann
        ∷ make none all_read none (text "2") 6 ann
        ∷ change_password none none (text "1") (text "new") 7
        ∷ [])
      (λ i. refl, (λ i. refl, tt))

abbrev nobody : Users ℕ
nobody = []

get_by_username-create_example :
    (new_user (text "1") 5 ann ≡ new_user (text "1") 5 ann)
    × (read_user none (text "1") (UserStore.create none all_read none (text "1") 5 ann nobody).1
        ≡ UserStore.ok (new_user (text "1") 5 ann))
    × (get_by_username none all_read
          (text "ann")
          (UserStore.create none all_read none (text "1") 5 ann nobody).1
        ≡ UserStore.ok (new_user (text "1") 5 ann))
unfolding UserStore.create
get_by_username-create_example =
    get_by_username-create none all_read none (text "1") 5 ann (new_user (text "1") 5 ann) nobody
      (UserStore.create none all_read none (text "1") 5 ann nobody).1 (λ i. refl) refl

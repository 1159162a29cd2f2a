-- ===== src/Providers/Listed.antt =====
-- The models that `ListModels` lists have names that `ResolveModel` takes apart.
use sonalmod.Base.{
  ℕ, ◌≡◌, refl, Bool, true, false, ◌&&◌, some, List, [], ◌∷◌, ◌++◌, Text, nat_beq, all, inr, arith,
}
use sonalmod.Profiles.Defs.{matches_name_pattern, is_name_char, is_lower}
use sonalmod.Providers.Defs.{ModelConfig, ProviderConfig}
use sonalmod.Providers.Locator.{
  ModelInfo, ok, cut_slash, parse_model_name, qualified, models_of, models_of_all, list_models,
}

no_slash : (c : ℕ) → is_name_char c ≡ true → nat_beq c 47 ≡ false
unfolding is_name_char is_lower
no_slash c h = ground arith

lower-name_char : (c : ℕ) → is_lower c ≡ true → is_name_char c ≡ true
unfolding is_name_char
lower-name_char c h = ground arith

cut_slash-chars : (p s : Text) → all is_name_char p ≡ true → cut_slash (p ++ 47 ∷ s) ≡ some (p, s)
unfolding cut_slash
cut_slash-chars [] s h = refl
cut_slash-chars (c ∷ p) s h =
    let here : is_name_char c ≡ true = ground arith in
    let rest : all is_name_char p ≡ true = ground arith in
    ground (arith, no_slash c here, cut_slash-chars p s rest)

cut_slash-name :
    (p s : Text) → matches_name_pattern p ≡ true → cut_slash (p ++ 47 ∷ s) ≡ some (p, s)
unfolding matches_name_pattern
cut_slash-name [] s h = cc
cut_slash-name (c ∷ p) s h =
    let first : is_lower c ≡ true = ground arith in
    cut_slash-chars (c ∷ p) s (ground (arith, lower-name_char c first))

abbrev pub all_named : List ProviderConfig → Bool
all_named [] = true
all_named (p ∷ l) = matches_name_pattern p.name && all_named l

module _ (X : Type 0) where
  -- The qualified name of each model parses to its provider and its name.
  abbrev pub AreParsed : List ModelInfo → Type 0
  AreParsed [] = Unit
  AreParsed (m ∷ l) =
      (parse_model_name {X = X} (qualified m) ≡ ok (m.provider, m.name)) × AreParsed l

  parse_model_name_ok :
      (name : Text) (p : Text × Text)
      → cut_slash name ≡ some p
      → parse_model_name {X = X} name ≡ ok p
  unfolding parse_model_name
  parse_model_name_ok name p h = ground arith

  AreParsed-append : (l k : List ModelInfo) → AreParsed l → AreParsed k → AreParsed (l ++ k)
  AreParsed-append [] k p q = q
  AreParsed-append (m ∷ l) k p q = (p.0, AreParsed-append l k p.1 q)

  models_of-AreParsed :
      (provider : Text) (l : List ModelConfig)
      → matches_name_pattern provider ≡ true
      → AreParsed (models_of provider l)
  unfolding models_of
  models_of-AreParsed provider [] h = tt
  models_of-AreParsed provider (m ∷ l) h = (
    parse_model_name_ok (provider ++ 47 ∷ m.name) (provider, m.name)
        (cut_slash-name provider m.name h),
    models_of-AreParsed provider l h,
  )

  models_of_all-AreParsed :
      (l : List ProviderConfig) → all_named l ≡ true → AreParsed (models_of_all l)
  unfolding models_of_all
  models_of_all-AreParsed [] h = tt
  models_of_all-AreParsed (p ∷ l) h =
      let first : matches_name_pattern p.name ≡ true = ground arith in
      let rest : all_named l ≡ true = ground arith in
      AreParsed-append (models_of p.name p.models) (models_of_all l)
        (models_of-AreParsed p.name p.models first) (models_of_all-AreParsed l rest)

  -- `ListModels` succeeds on providers whose names have the pattern that `Create` requires, and the
  -- qualified name of each model that it lists, `provider/model`, parses to that provider and model.
  pub list_models-AreParsed :
      (l : List ProviderConfig)
      → all_named l ≡ true
      → (models : List ModelInfo) × (list_models {X = X} (inr l) ≡ ok models) × AreParsed models
  unfolding list_models
  list_models-AreParsed l h = (models_of_all l, refl, models_of_all-AreParsed l h)

-- ===== src/Providers/Cached.antt =====
-- The cache of the locator cannot be seen in what it returns.
use sonalmod.Base.{
  ℕ, ◌≡◌, refl, sym, ◌∙◌, ap, Option, none, some, List, [], ◌∷◌, Text, text_eq, ◌==◌, text_beq_iff,
  nat_beq, nat_beq_iff, lookup, insert, lookup-insert, ◌⊎◌, inl, inr, arith, Bool-cases, if_true,
  if_false,
}
use mathlib.Core.Path.{subst}
use sonalmod.Providers.Defs.{ProviderConfig}
use sonalmod.Providers.Locator.{
  CachedInstance, Cache, Result, ok, err, parse_model_name, initialized, from_cache,
  resolve_genkit_instance, with_name, resolve_with, resolve_parsed, resolve_model, initialized_now,
  fresh_with, fresh_parsed, resolve_fresh, resolve_all, resolve_all_fresh,
}

module _ {G X : Type 0} (init : ProviderConfig → X ⊎ G) (version : Text → ℕ → ProviderConfig) where
  -- Each instance was made from the version of the provider that has its time.
  abbrev pub IsCoherent : Cache G → Type 0
  IsCoherent cache =
      (name : Text) (c : CachedInstance G)
      → lookup name cache ≡ some c
      → init (version name c.updated_at) ≡ inr c.instance_

  -- The time of a configuration tells its version.
  abbrev pub IsVersioned : (Text → X ⊎ ProviderConfig) → Type 0
  IsVersioned get =
      (name : Text) (cfg : ProviderConfig) → get name ≡ inr cfg → cfg ≡ version name cfg.updated_at

  abbrev pub AreVersioned : List ((Text → X ⊎ ProviderConfig) × Text) → Type 0
  AreVersioned [] = Unit
  AreVersioned (call ∷ calls) = IsVersioned call.0 × AreVersioned calls

  IsCoherent-insert :
      (name : Text) (cfg : ProviderConfig) (g : G) (cache : Cache G)
      → init cfg ≡ inr g
      → cfg ≡ version name cfg.updated_at
      → IsCoherent cache
      → IsCoherent (insert name (record { instance_ = g; updated_at = cfg.updated_at }) cache)
  IsCoherent-insert name cfg g cache made current coherent j c h =
      let there =
        lookup-insert j name (record { instance_ = g; updated_at = cfg.updated_at }) cache in
      elim (Bool-cases (name == j)) [
        | inl same ↦
            let stored : record { instance_ = g; updated_at = cfg.updated_at } ≡ c = ground arith in
            subst (λ k. init (version k c.updated_at) ≡ inr c.instance_)
              ((text_beq_iff name j).0 same)
              (subst (λ k. init (version name k.updated_at) ≡ inr k.instance_) stored
                (ap init (sym current) ∙ made))
        | inr other ↦ coherent j c (ground arith)
      ]

  -- An answer is the one of a new instance, and the cache behind it is coherent.
  abbrev IsFaithful : Result X (G × Text) → Result X (G × Text) × Cache G → Type 0
  IsFaithful fresh r = (r.0 ≡ fresh) × IsCoherent r.1

  initialized-IsFaithful :
      (name provider : Text) (cfg : ProviderConfig) (e : X ⊎ G) (cache : Cache G)
      → init cfg ≡ e
      → cfg ≡ version provider cfg.updated_at
      → IsCoherent cache
      → IsFaithful
          (initialized_now init e name provider)
          (with_name init name (initialized init e provider cfg cache))
  initialized-IsFaithful name provider cfg (inl x) cache made current coherent = (refl, coherent)
  initialized-IsFaithful name provider cfg (inr g) cache made current coherent =
      (refl, IsCoherent-insert provider cfg g cache made current coherent)

  from_cache-IsFaithful :
      (name provider : Text) (cfg : ProviderConfig) (hit : Option (CachedInstance G))
      (cache : Cache G)
      → lookup provider cache ≡ hit
      → cfg ≡ version provider cfg.updated_at
      → IsCoherent cache
      → IsFaithful
          (initialized_now init (init cfg) name provider)
          (with_name init name (from_cache init hit provider cfg cache))
  from_cache-IsFaithful name provider cfg none cache h current coherent =
      initialized-IsFaithful name provider cfg (init cfg) cache refl current coherent
  from_cache-IsFaithful name provider cfg (some c) cache h current coherent =
      elim (Bool-cases (nat_beq c.updated_at cfg.updated_at)) [
        | inl same ↦
            let made : init cfg ≡ inr c.instance_ =
              ap init current
              ∙ ap (λ u. init (version provider u))
                  (sym ((nat_beq_iff c.updated_at cfg.updated_at).0 same))
              ∙ coherent provider c h in
            subst (IsFaithful (initialized_now init (init cfg) name provider))
              (ap (with_name init name) (
                sym (
                  if_true _ (ok c.instance_, cache) (initialized init (init cfg) provider cfg cache)
                    same)))
              (sym (ap (λ e. initialized_now init e name provider) made), coherent)
        | inr other ↦
            subst (IsFaithful (initialized_now init (init cfg) name provider))
              (ap (with_name init name) (
                sym (
                  if_false _ (ok c.instance_, cache)
                    (initialized init (init cfg) provider cfg cache) other)))
              (initialized-IsFaithful name provider cfg (init cfg) cache refl current coherent)
      ]

  resolve_with-IsFaithful :
      (get : Text → X ⊎ ProviderConfig) (name provider : Text) (found : X ⊎ ProviderConfig)
      (cache : Cache G)
      → get provider ≡ found
      → IsVersioned get
      → IsCoherent cache
      → IsFaithful
          (fresh_with init get name provider found)
          (resolve_with init get name provider found cache)
  unfolding resolve_genkit_instance
  resolve_with-IsFaithful get name provider (inl x) cache h v coherent = (refl, coherent)
  resolve_with-IsFaithful get name provider (inr cfg) cache h v coherent =
      from_cache-IsFaithful name provider cfg (lookup provider cache) cache refl (v provider cfg h)
        coherent

  resolve_parsed-IsFaithful :
      (get : Text → X ⊎ ProviderConfig) (name : Text) (p : Result X (Text × Text)) (cache : Cache G)
      → IsVersioned get
      → IsCoherent cache
      → IsFaithful (fresh_parsed init get name p) (resolve_parsed init get name p cache)
  resolve_parsed-IsFaithful get name (err e) cache v coherent = (refl, coherent)
  resolve_parsed-IsFaithful get name (ok p) cache v coherent =
      resolve_with-IsFaithful get name p.0 (get p.0) cache refl v coherent

  resolve_all-IsCoherent :
      (calls : List ((Text → X ⊎ ProviderConfig) × Text)) (cache : Cache G)
      → AreVersioned calls
      → IsCoherent cache
      → resolve_all init calls cache ≡ resolve_all_fresh init calls
  unfolding resolve_all resolve_all_fresh resolve_model resolve_fresh
  resolve_all-IsCoherent [] cache v coherent = refl
  resolve_all-IsCoherent (call ∷ calls) cache v coherent =
      let (same, next) =
        resolve_parsed-IsFaithful call.0 call.1 (parse_model_name call.1) cache v.0 coherent in
      ap (λ r. r ∷ resolve_all init calls (resolve_model init call.0 call.1 cache).1) same
      ∙ ap (λ l. resolve_fresh init call.0 call.1 ∷ l) (resolve_all-IsCoherent calls _ v.1 next)

  -- From an empty cache, a sequence of calls of `ResolveModel` returns what it would return if each
  -- call initialised a new instance, also where providers change in between and where calls fail.
  -- This holds where two configurations of a provider with the same time of update are the same.
  pub resolve_all_lem :
      (calls : List ((Text → X ⊎ ProviderConfig) × Text))
      → AreVersioned calls
      → resolve_all init calls [] ≡ resolve_all_fresh init calls
  unfolding lookup
  resolve_all_lem calls v = resolve_all-IsCoherent calls [] v (λ name c h. absurd (cc h))

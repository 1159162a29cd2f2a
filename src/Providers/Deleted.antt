-- ===== src/Providers/Deleted.antt =====
-- What `Get` returns after `Delete`.
use sonalmod.Base.{
  ◌≡◌, refl, sym, ◌∙◌, ap, false, Option, none, some, [], Text, text_eq, ◌==◌, text_beq_iff, Dict,
  lookup, erase, lookup-erase, ◌⊎◌, inl, inr, if◌then◌else◌, if_true, if_false, Bool-cases,
}
use sonalmod.Providers.Defs.{ProviderConfig, ProviderFileStorage}
use sonalmod.Providers.Files.{
  not_found, system, stat, Result, ok, err, File, contents, unreadable, no_stat, Directory,
  Extension, yaml_file, yml_file, resolve_provider_read_path, read, read_provider_file, get, delete,
  delete_at, remove_at, read_resolved, resolve_yaml, resolve_yml, parsed,
}

module _ {X : Type 0} where
  resolve_yml_ok :
      (name : Text) (f : Option (File X)) (ext : Extension)
      → resolve_yml name f ≡ ok ext
      → ext ≡ yml_file
  resolve_yml_ok name none ext h = cc
  resolve_yml_ok name (some (contents s)) ext h = cc
  resolve_yml_ok name (some (unreadable x)) ext h = cc
  resolve_yml_ok name (some (no_stat x)) ext h = cc

  -- A file `.yaml` comes first.
  resolve_yaml_ok :
      (name : Text) (f other : Option (File X)) (ext : Extension)
      → resolve_yaml name f other ≡ ok ext
      → ((ext ≡ yaml_file) × ((g : File X) × (f ≡ some g))) ⊎ ((ext ≡ yml_file) × (f ≡ none))
  resolve_yaml_ok name none other ext h = inr (resolve_yml_ok name other ext h, refl)
  resolve_yaml_ok name (some (contents s)) other ext h = inl (cc, (contents s, refl))
  resolve_yaml_ok name (some (unreadable x)) other ext h = inl (cc, (unreadable x, refl))
  resolve_yaml_ok name (some (no_stat x)) other ext h = cc

  delete_at_ok :
      (fault : Option X) (name : Text) (r : Result X Extension) (dir d : Directory X)
      → delete_at fault name r dir ≡ (none, d)
      → (ext : Extension) × (r ≡ ok ext) × (remove_at ext name dir ≡ d)
  delete_at_ok fault name (err e) dir d h = cc
  delete_at_ok none name (ok ext) dir d h = (ext, refl, ap (λ r. r.1) h)
  delete_at_ok (some x) name (ok ext) dir d h = cc

module _ {X : Type 0} (encode : ProviderFileStorage → X ⊎ Text)
    (decode : Text → X ⊎ ProviderFileStorage) where
  -- `Get` by the two files of its name.
  abbrev seen : Text → Option (File X) → Option (File X) → Result X ProviderConfig
  seen name none none = err (not_found name)
  seen name none (some (contents s)) = parsed encode decode (decode s)
  seen name none (some (unreadable x)) = err (system read x)
  seen name none (some (no_stat x)) = err (system stat x)
  seen name (some (contents s)) other = parsed encode decode (decode s)
  seen name (some (unreadable x)) other = err (system read x)
  seen name (some (no_stat x)) other = err (system stat x)

  read_resolved_lem :
      (name : Text) (f g : Option (File X)) (dir : Directory X)
      → lookup name dir.yaml ≡ f
      → lookup name dir.yml ≡ g
      → read_resolved encode decode name (resolve_yaml name f g) dir ≡ seen name f g
  unfolding read_provider_file
  read_resolved_lem name none none dir h k = refl
  read_resolved_lem name none (some (contents s)) dir h k =
      ap (read_provider_file encode decode name) k
  read_resolved_lem name none (some (unreadable x)) dir h k =
      ap (read_provider_file encode decode name) k
  read_resolved_lem name none (some (no_stat x)) dir h k = refl
  read_resolved_lem name (some (contents s)) g dir h k =
      ap (read_provider_file encode decode name) h
  read_resolved_lem name (some (unreadable x)) g dir h k =
      ap (read_provider_file encode decode name) h
  read_resolved_lem name (some (no_stat x)) g dir h k = refl

  get_seen :
      (name : Text) (dir : Directory X)
      → get encode decode name dir ≡ seen name (lookup name dir.yaml) (lookup name dir.yml)
  unfolding get resolve_provider_read_path
  get_seen name dir = read_resolved_lem name _ _ dir refl refl

  -- What is left to read under the name of a provider that was deleted.
  abbrev pub left_over : Text → Option (File X) → Directory X → Result X ProviderConfig
  left_over name none dir = err (not_found name)
  left_over name (some _) dir = get encode decode name (record dir { yaml = [] })

  erased_same : {V : Type 0} (name : Text) (l : Dict Text V) → lookup name (erase name l) ≡ none
  erased_same name l =
      lookup-erase name name l ∙ if_true (name == name) none _ ((text_beq_iff name name).1 refl)

  erased_other :
      {V : Type 0} (name j : Text) (l : Dict Text V)
      → (name == j) ≡ false
      → lookup j (erase name l) ≡ lookup j l
  erased_other name j l h = lookup-erase j name l ∙ if_false (name == j) none _ h

  get-remove_at_other :
      (ext : Extension) (name j : Text) (dir : Directory X)
      → (name == j) ≡ false
      → get encode decode j (remove_at ext name dir) ≡ get encode decode j dir
  get-remove_at_other yaml_file name j dir h =
      get_seen j _
      ∙ ap (λ f. seen j f (lookup j dir.yml)) (erased_other name j dir.yaml h)
      ∙ sym (get_seen j dir)
  get-remove_at_other yml_file name j dir h =
      get_seen j _
      ∙ ap (seen j (lookup j dir.yaml)) (erased_other name j dir.yml h)
      ∙ sym (get_seen j dir)

  get-remove_at_same :
      (ext : Extension) (name : Text) (dir : Directory X) (f : Option (File X))
      → ((ext ≡ yaml_file) × ((g : File X) × (f ≡ some g))) ⊎ ((ext ≡ yml_file) × (f ≡ none))
      → lookup name dir.yaml ≡ f
      → get encode decode name (remove_at ext name dir) ≡ left_over name f dir
  unfolding lookup
  get-remove_at_same ext name dir f (inl (e, (g, there))) h =
      ap (λ x. get encode decode name (remove_at x name dir)) e
      ∙ get_seen name _
      ∙ ap (λ k. seen name k (lookup name dir.yml)) (erased_same name dir.yaml)
      ∙ sym (get_seen name (record dir { yaml = [] }))
      ∙ ap (λ k. left_over name k dir) (sym there)
  get-remove_at_same ext name dir f (inr (e, missing)) h =
      ap (λ x. get encode decode name (remove_at x name dir)) e
      ∙ get_seen name _
      ∙ ap (λ k. seen name k (lookup name (erase name dir.yml))) (h ∙ missing)
      ∙ ap (seen name none) (erased_same name dir.yml)
      ∙ ap (λ k. left_over name k dir) (sym missing)

  -- After a `Delete` that succeeds, `Get` finds nothing under the name, unless it had files of both
  -- extensions: then `Get` returns what the file `.yml` alone has. For other names it returns what
  -- it did before.
  pub get-deleted :
      (fault : Option X) (name j : Text) (dir d : Directory X)
      → delete fault name dir ≡ (none, d)
      → get encode decode j d
        ≡ (if name == j then left_over name (lookup name dir.yaml) dir else get encode decode j dir)
  unfolding delete resolve_provider_read_path
  get-deleted fault name j dir d h =
      let files = lookup name dir.yaml in
      let (ext, found, removed) = delete_at_ok fault name _ dir d h in
      let first = resolve_yaml_ok name files (lookup name dir.yml) ext found in
      ap (get encode decode j) (sym removed) ∙ elim (Bool-cases (name == j)) [
        | inl same ↦
            ap (λ k. get encode decode k (remove_at ext name dir))
              (sym ((text_beq_iff name j).0 same))
            ∙ get-remove_at_same ext name dir files first refl
            ∙ sym (if_true (name == j) (left_over name files dir) (get encode decode j dir) same)
        | inr other ↦
            get-remove_at_other ext name j dir other
            ∙ sym (if_false (name == j) (left_over name files dir) (get encode decode j dir) other)
      ]

-- ===== src/AgentRun/Dispatch.antt =====
-- Where `Run` may lead, and what it leaves behind.
use sonalmod.Base.{
  ◌≡◌, refl, ◌⊎◌, inl, inr, Bool, true, false, Option, none, some, List, [], ◌∷◌, if◌then◌else◌,
  Text, text_eq, ◌==◌, is_empty, trim_space,
}
use sonalmod.Profiles.Defs.{AgentProfile, mode_regular, mode_acp_stdio, mode_or_default}
use sonalmod.AgentRun.Defs.{
  RunError, create_failed, acp_failed, RunParams, Fragment, Launch, wired, child, acp, Services,
  AgentRunner, RunOutcome, launched, refused, start, created, unless, ensure_found, acp_with,
  run_with_model, model_required, session_id_required, unsupported, acp_result, run_loaded,
  exec_error, Found, present, missing, broken, ensure_session, run_with_llm_runner,
  new_agent_runner, profile_fragments, run_built_in, load_profile, run_acp, run_profile, run,
}

-- A launch that fits its request: the wired runner only without a profile, a child only with a
-- model, the ACP executor only for a profile of that mode.
abbrev pub Fits : {M : Type 0} → AgentRunner → RunParams M → Launch M → Type 0
Fits a p (wired q) = (q ≡ p) × (a.is_wired ≡ true) × (is_empty (trim_space p.profile_name) ≡ true)
Fits a p (child name fragments model q) = (q ≡ p) × (is_empty model ≡ false)
Fits a p (acp prof model q) =
    (q ≡ p)
    × (model ≡ trim_space p.model)
    × ((mode_or_default prof.execution_settings == mode_acp_stdio) ≡ true)
    × (is_empty (trim_space p.profile_name) ≡ false)

-- The session storage is as before, or a session could not be created, or the ACP executor, which
-- has the storage, failed.
abbrev pub IsUntouched : {S X : Type 0} → S → S → RunError X → Type 0
IsUntouched s s' (create_failed _ _) = Unit
IsUntouched s s' (acp_failed _) = Unit
IsUntouched s s' _ = s' ≡ s

abbrev KeepsStore : {S X : Type 0} → S → S × Option (RunError X) → Type 0
KeepsStore s (s', none) = Unit
KeepsStore s (s', some e) = IsUntouched s s' e

IsUntouched-refl : {S X : Type 0} (s : S) (e : RunError X) → IsUntouched s s e
IsUntouched-refl s (create_failed _ _) = tt
IsUntouched-refl s (acp_failed _) = tt
IsUntouched-refl s _ = refl

module _ {M S X : Type 0} where
  -- What `Run` owes for its outcome.
  abbrev pub Accounts : AgentRunner → RunParams M → S → S × RunOutcome M X → Type 0
  Accounts a p s (s', launched l) = Fits a p l × (is_empty p.session_id ≡ false)
  Accounts a p s (s', refused e) = IsUntouched s s' e

module _ {M S X : Type 0} (v : Services M S X) (a : AgentRunner) (p : RunParams M) (s : S) where
  created_keeps : (sid : Text) (r : S × Option X) → KeepsStore s (created v sid r)
  unfolding created
  created_keeps sid (s', none) = tt
  created_keeps sid (s', some x) = tt

  ensure_found_keeps : (user sid : Text) (f : Found X) → KeepsStore s (ensure_found v s user sid f)
  unfolding ensure_found
  ensure_found_keeps user sid present = tt
  ensure_found_keeps user sid missing = created_keeps sid (v.create_session s user sid)
  ensure_found_keeps user sid (broken x) = refl

  ensure_session_keeps : (user sid : Text) → KeepsStore s (ensure_session v s user sid)
  unfolding ensure_session
  ensure_session_keeps user [] = refl
  ensure_session_keeps user (c ∷ sid) =
      ensure_found_keeps user (c ∷ sid) (v.get_session s user (c ∷ sid))

  start-Accounts :
      (l : Launch M) (r : S × Option (RunError X))
      → Fits a p l
      → is_empty p.session_id ≡ false
      → KeepsStore s r
      → Accounts a p s (start v l r)
  unfolding start
  start-Accounts l (s', none) f n k = (f, n)
  start-Accounts l (s', some e) f n k = k

  Accounts-if :
      (b : Bool) (x y : S × RunOutcome M X)
      → (b ≡ true → Accounts a p s x)
      → (b ≡ false → Accounts a p s y)
      → Accounts a p s (if b then x else y)
  Accounts-if true x y f g = f refl
  Accounts-if false x y f g = g refl

  unless-Accounts :
      (r : Option (RunError X)) (next : S × RunOutcome M X)
      → Accounts a p s next
      → Accounts a p s (unless v r s next)
  unfolding unless
  unless-Accounts none next h = h
  unless-Accounts (some e) next h = IsUntouched-refl s e

  built_in-Accounts :
      (fragments : List Fragment) (name model instructions : Text)
      → is_empty model ≡ false
      → is_empty p.session_id ≡ false
      → Accounts a p s (run_built_in v s fragments p name model instructions)
  unfolding run_built_in
  built_in-Accounts fragments name model instructions m n =
      unless-Accounts (new_agent_runner v name (profile_fragments v fragments instructions) model)
        (start v (child name (profile_fragments v fragments instructions) model p)
          (ensure_session v s p.user_id p.session_id))
        (start-Accounts (child name (profile_fragments v fragments instructions) model p)
          (ensure_session v s p.user_id p.session_id) (refl, m) n
          (ensure_session_keeps p.user_id p.session_id))

  with_model-Accounts :
      (fragments : List Fragment) (name model instructions : Text)
      → is_empty p.session_id ≡ false
      → Accounts a p s (run_with_model v s fragments p name model instructions)
  unfolding run_with_model
  with_model-Accounts fragments name model instructions n =
      Accounts-if (is_empty model) (s, refused model_required)
        (run_built_in v s fragments p name model instructions) (λ _. refl)
        (λ m. built_in-Accounts fragments name model instructions m n)

  acp_result-Accounts :
      (l : Launch M) (r : S × Option X)
      → Fits a p l
      → is_empty p.session_id ≡ false
      → Accounts a p s (acp_result v l r)
  unfolding acp_result
  acp_result-Accounts l (s', none) f n = (f, n)
  acp_result-Accounts l (s', some x) f n = tt

  acp-Accounts :
      (prof : AgentProfile) (e : Option (S → AgentProfile → Text → RunParams M → S × Option X))
      → Fits a p (acp prof (trim_space p.model) p)
      → is_empty p.session_id ≡ false
      → Accounts a p s (acp_with v s p prof (trim_space p.model) e)
  unfolding acp_with
  acp-Accounts prof none f n = refl
  acp-Accounts prof (some execute) f n =
      acp_result-Accounts (acp prof (trim_space p.model) p) (execute s prof (trim_space p.model) p)
        f n

  profile-Accounts :
      (prof : AgentProfile)
      → is_empty (trim_space p.profile_name) ≡ false
      → is_empty p.session_id ≡ false
      → Accounts a p s (run_profile v s a p (trim_space p.model) prof)
  unfolding run_profile run_acp
  profile-Accounts prof named n =
      let mode = mode_or_default prof.execution_settings in
      let model : Text = trim_space p.model in
      let resolved : Text =
        if is_empty model then trim_space prof.execution_settings.default_model else model in
      let as_acp = acp_with v s p prof model v.acp_executor in
      Accounts-if (mode == mode_regular)
        (run_with_model v s a.fragments p prof.name resolved prof.instructions)
        (if mode == mode_acp_stdio then as_acp else (s, refused (exec_error unsupported)))
        (λ _. with_model-Accounts a.fragments prof.name resolved prof.instructions n)
        (λ _.
          Accounts-if (mode == mode_acp_stdio) as_acp (s, refused (exec_error unsupported))
            (λ e. acp-Accounts prof v.acp_executor (refl, refl, e, named) n) (λ _. refl))

  loaded-Accounts :
      (r : AgentProfile ⊎ RunError X)
      → is_empty (trim_space p.profile_name) ≡ false
      → is_empty p.session_id ≡ false
      → Accounts a p s (run_loaded v s a p (trim_space p.model) r)
  unfolding run_loaded
  loaded-Accounts (inl prof) named n = profile-Accounts prof named n
  loaded-Accounts (inr e) named n = IsUntouched-refl s e

  -- Whatever the services answer: a run that is handed on has a session id and fits its request
  -- (the wired runner only without a profile name, a child runner only with a model, the ACP
  -- executor only for a profile of that mode, each with the request's own parameters), and a
  -- refused run leaves the session storage as it was, unless creating the session is what failed,
  -- or the ACP executor.
  pub run-Accounts : Accounts a p s (run v s a p)
  unfolding run run_with_llm_runner
  run-Accounts =
      let name = trim_space p.profile_name in
      let model = trim_space p.model in
      let by_wire = run_with_llm_runner v s p in
      let by_model = run_with_model v s a.fragments p a.default_agent_name model [] in
      let by_profile = run_loaded v s a p model (load_profile v name) in
      let direct = if a.is_wired then by_wire else by_model in
      Accounts-if (is_empty p.session_id) (s, refused session_id_required)
        (if is_empty name then direct else by_profile) (λ _. refl)
        λ n.
          Accounts-if (is_empty name) direct by_profile
            (λ unnamed.
              Accounts-if a.is_wired by_wire by_model
                (λ w.
                  start-Accounts (wired p) (ensure_session v s p.user_id p.session_id)
                    (refl, w, unnamed) n (ensure_session_keeps p.user_id p.session_id))
                (λ _. with_model-Accounts a.fragments a.default_agent_name model [] n))
            (λ named. loaded-Accounts (load_profile v name) named n)

-- ===== src/Sessions/StateDelta.antt =====
-- `extractStateDeltas` and `mergeStates` of file.go. The three key prefixes are constants of the
-- ADK session package, which is not in the repository; they are parameters here. `V` is `any`.
-- A range over a map visits its keys in some order: the results are stated of `lookup`.
pub mod Merge
use sonalmod.Base.{
  ◌≡◌, refl, sym, ◌∙◌, ap, ◌↔◌, Bool, true, false, Option, none, some, List, [], ◌∷◌, ◌++◌, Text,
  text_eq, ◌==◌, text_beq_iff, Dict, lookup, insert, lookup-insert, cut_prefix, has_prefix,
  text_beq, Bool-cases, Option-cases, if_false, if_true, inl, inr, if◌then◌else◌, arith,
  nat_beq_iff,
}

pub record Deltas (V : Type 0) : Type 0 where
  pub app : Dict Text V
  pub user : Dict Text V
  pub session : Dict Text V

module _ {V : Type 0} where
  -- `for key, value := range src { dst[prefix+key] = value }`
  unfoldable pub copy_under : Text → Dict Text V → Dict Text V → Dict Text V
  copy_under prefix [] dst = dst
  copy_under prefix ((k, v) ∷ src) dst = insert (prefix ++ k) v (copy_under prefix src dst)

  -- One round of the loop of `extractStateDeltas`, by the two results of `CutPrefix` and the
  -- test for the temporary prefix.
  unfoldable pub place : Option Text → Option Text → Bool → Text → V → Deltas V → Deltas V
  place (some stripped) u t key v d = record d { app = insert stripped v d.app }
  place none (some stripped) t key v d = record d { user = insert stripped v d.user }
  place none none true key v d = d
  place none none false key v d = record d { session = insert key v d.session }

module _ {V : Type 0} (app_prefix user_prefix temp_prefix : Text) where
  -- `extractStateDeltas`
  unfoldable pub extract_state_deltas : Dict Text V → Deltas V
  unfolding place
  extract_state_deltas [] = record { app = []; user = []; session = [] }
  extract_state_deltas ((key, value) ∷ delta) =
      place (cut_prefix app_prefix key) (cut_prefix user_prefix key) (has_prefix temp_prefix key)
        key value (extract_state_deltas delta)

  -- `mergeStates`
  unfoldable pub merge_states : Dict Text V → Dict Text V → Dict Text V → Dict Text V
  unfolding copy_under
  merge_states app user session = copy_under user_prefix user (copy_under app_prefix app session)

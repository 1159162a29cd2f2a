-- ===== src/RunResult/Answer.antt =====
-- What `ConsumeEventsAsString` answers, against a description over the whole stream.
use sonalmod.Base.{
  ◌≡◌, ◌≢◌, ◌⊎◌, inl, inr, Option, join, arith, refl, sym, ◌∙◌, ap, Bool, true, false, none, some,
  List, [], ◌∷◌, ◌++◌, Text, if◌then◌else◌, append-nil, append_assoc,
}
use mathlib.Core.Path.{ap₂}
use sonalmod.RunResult.Defs.{
  ConsumeOptions, ResultSelection, concatenate_all, ConsumeError, failed, Pull, Acc, empty_acc,
  check_pull, or_fail-none, or_fail-some, chunks_of, partial_of, collect, select, pick_all,
  consume_from, consume_events_as_string, has_error, EmptyResultBehavior, return_error,
  return_empty, Consumed, answer, stream_error, event_error, ctx_error, no_answer, newline,
  empty_result,
}
use sonalmod.Background.Iters.{event, failure}
use sonalmod.SessionEvent.{SessionEvent}

-- Texts as the lines of one text.
abbrev pub lines_of : List Text → Text
lines_of [] = []
lines_of (c ∷ []) = c
lines_of (c ∷ d ∷ l) = c ++ 10 ∷ lines_of (d ∷ l)

join-lines_of : (l : List Text) → join newline l ≡ lines_of l
unfolding join
join-lines_of [] = refl
join-lines_of (c ∷ []) = refl
join-lines_of (c ∷ d ∷ l) = ap (λ (t : Text). c ++ 10 ∷ t) (join-lines_of (d ∷ l))

-- The answer to final and partial texts: the partial ones count only where there is no final one.
abbrev pub answer_of : {X : Type 0} → EmptyResultBehavior → List Text → List Text → Consumed X
answer_of b (c ∷ l) partials = answer (lines_of (c ∷ l))
answer_of b [] (c ∷ l) = answer (lines_of (c ∷ l))
answer_of return_empty [] [] = answer []
answer_of return_error [] [] = failed no_answer

module _ {X : Type 0} where
  pick_all-answer_of :
      (b : EmptyResultBehavior) (finals partials : List Text)
      → pick_all {X = X} b finals partials ≡ answer_of b finals partials
  unfolding pick_all empty_result
  pick_all-answer_of b (c ∷ l) partials = ap answer (join-lines_of (c ∷ l))
  pick_all-answer_of b [] (c ∷ l) = ap answer (join-lines_of (c ∷ l))
  pick_all-answer_of return_empty [] [] = refl
  pick_all-answer_of return_error [] [] = refl

module _ {J : Type 0} where
  abbrev pub IsQuiet : Option (SessionEvent J) → Type 0
  IsQuiet none = Unit
  IsQuiet (some ev) = (ev.error_code ≡ []) × (ev.error_message ≡ [])

  has_error-IsQuiet : (o : Option (SessionEvent J)) → IsQuiet o → has_error o ≡ false
  has_error-IsQuiet none h = refl
  has_error-IsQuiet (some ev) h = ground arith

  has_error-named :
      (ev : SessionEvent J)
      → (ev.error_code ≢ []) ⊎ (ev.error_message ≢ [])
      → has_error (some ev) ≡ true
  has_error-named ev (inl h) = ground arith
  has_error-named ev (inr h) = ground arith

module _ {J X : Type 0} where
  -- A round that gives an event, or none, without an error in it, before the context is done.
  abbrev pub IsHealthy : Pull J X → Type 0
  IsHealthy p = (o : Option (SessionEvent J)) × (p.item ≡ event o) × IsQuiet o × (p.ctx_err ≡ none)

  -- An error of the stream.
  abbrev pub HasStreamError : Text → Pull J X → ConsumeError X → Type 0
  HasStreamError name p e = (x : X) × (p.item ≡ failure x) × (e ≡ stream_error name x)

  -- An event with an error code or an error message.
  abbrev pub HasEventError : Text → Pull J X → ConsumeError X → Type 0
  HasEventError name p e =
      (ev : SessionEvent J) × (p.item ≡ event (some ev))
      × ((ev.error_code ≢ []) ⊎ (ev.error_message ≢ []))
      × (e ≡ event_error name ev.error_code ev.error_message)

  -- An event without an error, when the context is done.
  abbrev pub HasContextError : Pull J X → ConsumeError X → Type 0
  HasContextError p e =
      (o : Option (SessionEvent J)) × (x : X) × (p.item ≡ event o)
      × IsQuiet o
      × (p.ctx_err ≡ some x)
      × (e ≡ ctx_error x)

  abbrev pub HasError : Text → Pull J X → ConsumeError X → Type 0
  HasError name p e = HasStreamError name p e ⊎ HasEventError name p e ⊎ HasContextError p e

  pub check_pull-healthy :
      (name : Text) (p : Pull J X) → IsHealthy p → check_pull name p.item p.ctx_err ≡ none
  unfolding check_pull
  check_pull-healthy name p (o, i, q, c) = let h = has_error-IsQuiet o q in rw i (rw c (rw h refl))

  check_pull-error :
      (name : Text) (p : Pull J X) (e : ConsumeError X)
      → HasError name p e
      → check_pull name p.item p.ctx_err ≡ some e
  unfolding check_pull
  check_pull-error name p e (inl (x, i, h)) = rw i (rw h refl)
  check_pull-error name p e (inr (inl (ev, i, n, h))) =
      let b = has_error-named ev n in rw i (rw h (rw b refl))
  check_pull-error name p e (inr (inr (o, x, i, q, c, h))) =
      let b = has_error-IsQuiet o q in rw i (rw c (rw h (rw b refl)))

  -- No round of the stream has an error.
  abbrev pub IsClean : List (Pull J X) → Type 0
  IsClean [] = Unit
  IsClean (p ∷ l) = IsHealthy p × IsClean l

  -- The chunks of all rounds of one kind.
  abbrev pub texts_of : Bool → List (Pull J X) → List Text
  texts_of true [] = []
  texts_of true (p ∷ l) = (if partial_of p.item then chunks_of p.item else []) ++ texts_of true l
  texts_of false [] = []
  texts_of false (p ∷ l) = (if partial_of p.item then [] else chunks_of p.item) ++ texts_of false l

collect_lists :
    (partial : Bool) (chunks : List Text) (a : Acc)
    → ((collect partial chunks a).final_chunks ≡ a.final_chunks ++ (if partial then [] else chunks))
      × ((collect partial chunks a).partial_chunks
          ≡ a.partial_chunks ++ (if partial then chunks else []))
unfolding collect
collect_lists true [] a = (sym (append-nil _), sym (append-nil _))
collect_lists false [] a = (sym (append-nil _), sym (append-nil _))
collect_lists true (c ∷ l) a = (sym (append-nil _), refl)
collect_lists false (c ∷ l) a = (refl, sym (append-nil _))

module _ {J X : Type 0} where
  consume_clean :
      (o : ConsumeOptions) (l : List (Pull J X)) (a : Acc)
      → o.result_selection ≡ concatenate_all
      → IsClean l
      → consume_from o l a
        ≡ pick_all o.empty_result_behavior
            (a.final_chunks ++ texts_of false l)
            (a.partial_chunks ++ texts_of true l)
  unfolding consume_from
  consume_clean o [] a all clean =
      ap (λ (q : ResultSelection). select q o.empty_result_behavior a) all
      ∙ unfold select in
        ap₂ (pick_all o.empty_result_behavior) (sym (append-nil _)) (sym (append-nil _))
  consume_clean o (p ∷ l) a all clean =
      let kind = partial_of p.item in
      let chunks = chunks_of p.item in
      let lists = collect_lists kind chunks a in
      or_fail-none _ _ (check_pull-healthy o.agent_name _ clean.0)
      ∙ consume_clean o l (collect kind chunks a) all clean.1
      ∙ ap₂ (pick_all o.empty_result_behavior)
          (ap (λ (m : List Text). m ++ texts_of false l) lists.0
            ∙ append_assoc a.final_chunks (if kind then [] else chunks) (texts_of false l))
          (ap (λ (m : List Text). m ++ texts_of true l) lists.1
            ∙ append_assoc a.partial_chunks (if kind then chunks else []) (texts_of true l))

  -- On a stream without errors, with the default selection: the chunks of all final events,
  -- joined by newlines; where these have no text, those of all partial events, joined likewise;
  -- where neither have any, the empty answer or the error of a missing answer, as the options say.
  pub consume_concatenates :
      (o : ConsumeOptions) (l : List (Pull J X))
      → o.result_selection ≡ concatenate_all
      → IsClean l
      → consume_events_as_string o l
        ≡ answer_of o.empty_result_behavior (texts_of false l) (texts_of true l)
  unfolding consume_events_as_string
  consume_concatenates o l all clean =
      consume_clean o l empty_acc all clean
      ∙ pick_all-answer_of o.empty_result_behavior (texts_of false l) (texts_of true l)

  consume_stops :
      (o : ConsumeOptions) (l rest : List (Pull J X)) (p : Pull J X) (e : ConsumeError X) (a : Acc)
      → IsClean l
      → check_pull o.agent_name p.item p.ctx_err ≡ some e
      → consume_from o (l ++ p ∷ rest) a ≡ failed e
  unfolding consume_from
  consume_stops o [] rest p e a clean bad = or_fail-some _ e _ bad
  consume_stops o (q ∷ l) rest p e a clean bad =
      or_fail-none _ _ (check_pull-healthy o.agent_name _ clean.0)
      ∙ consume_stops o l rest p e (collect (partial_of q.item) (chunks_of q.item) a) clean.1 bad

  -- Behind rounds that give events without an error, with a context that is not done, the first
  -- round with an error decides the result, whatever follows it and for every choice of options:
  -- an error of the stream; an event with an error code or message, with both; or, with an event
  -- that has neither, the error of the context.
  pub consume_first_error :
      (o : ConsumeOptions) (l rest : List (Pull J X)) (p : Pull J X) (e : ConsumeError X)
      → IsClean l
      → HasError o.agent_name p e
      → consume_events_as_string o (l ++ p ∷ rest) ≡ failed e
  unfolding consume_events_as_string
  consume_first_error o l rest p e clean bad =
      consume_stops o l rest p e empty_acc clean (check_pull-error o.agent_name p e bad)

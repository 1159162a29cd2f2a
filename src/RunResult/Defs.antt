-- ===== src/RunResult/Defs.antt =====
-- The consumers of an event stream.
use sonalmod.Base.{
  ◌≡◌, refl, Bool, true, false, ◌&&◌, ◌||◌, not, Option, none, some, List, [], ◌∷◌, ◌++◌, Text,
  is_empty, join, if◌then◌else◌, map,
}
use sonalmod.Background.Iters.{Item, event, failure}
use sonalmod.SessionEvent.{SessionEvent, event_text_parts}

-- `ResultSelection`
pub data ResultSelection : Type 0 where
  concatenate_all last_only : ResultSelection

-- `EmptyResultBehavior`
pub data EmptyResultBehavior : Type 0 where
  return_error return_empty : EmptyResultBehavior

-- `consumeOptions`
pub record ConsumeOptions : Type 0 where
  pub result_selection : ResultSelection
  pub empty_result_behavior : EmptyResultBehavior
  pub agent_name : Text

-- The defaults of `applyConsumeOptions`.
abbrev pub default_options : ConsumeOptions
default_options = record {
  result_selection = concatenate_all;
  empty_result_behavior = return_error;
  agent_name = [];
}

-- The errors: of the stream, of an event with its code and message (both with the agent's name,
-- which may be empty), of the context, and the missing answer.
pub data ConsumeError (X : Type 0) : Type 0 where
  stream_error : Text → X → ConsumeError X
  event_error : Text → Text → Text → ConsumeError X
  ctx_error : X → ConsumeError X
  no_answer : ConsumeError X

pub data Consumed (X : Type 0) : Type 0 where
  answer : Text → Consumed X
  failed : ConsumeError X → Consumed X

abbrev pub newline : Text
newline = 10 ∷ []

pub record Pull (J X : Type 0) : Type 0 where
  pub item : Item (Option (SessionEvent J)) X
  pub ctx_err : Option X

-- The variables of the loop of `consumeEventsAsStringImpl`.
pub record Acc : Type 0 where
  pub final_chunks : List Text
  pub partial_chunks : List Text
  pub last_final_text : Text
  pub last_partial_text : Text

abbrev pub empty_acc : Acc
empty_acc = record {
  final_chunks = [];
  partial_chunks = [];
  last_final_text = [];
  last_partial_text = [];
}

module _ {J : Type 0} where
  -- `event != nil && (event.ErrorCode != "" || event.ErrorMessage != "")`
  abbrev pub has_error : Option (SessionEvent J) → Bool
  has_error none = false
  has_error (some ev) = not (is_empty ev.error_code) || not (is_empty ev.error_message)

  abbrev pub is_partial : Option (SessionEvent J) → Bool
  is_partial none = false
  is_partial (some ev) = ev.partial

unfoldable pub collect : Bool → List Text → Acc → Acc
collect partial [] a = a
collect true (c ∷ l) a = record a {
  partial_chunks = a.partial_chunks ++ c ∷ l;
  last_partial_text = join newline (c ∷ l);
}
collect false (c ∷ l) a = record a {
  final_chunks = a.final_chunks ++ c ∷ l;
  last_final_text = join newline (c ∷ l);
}

module _ {X : Type 0} where
  -- `emptyResultErr`
  unfoldable pub empty_result : EmptyResultBehavior → Consumed X
  empty_result return_empty = answer []
  empty_result return_error = failed no_answer

  unfoldable pub pick_last : EmptyResultBehavior → Acc → Consumed X
  unfolding empty_result
  pick_last b a =
      if not (is_empty a.last_final_text)
      then answer a.last_final_text
      else if not (is_empty a.last_partial_text)
      then answer a.last_partial_text
      else empty_result b

  unfoldable pub pick_all : EmptyResultBehavior → List Text → List Text → Consumed X
  unfolding empty_result
  pick_all b (c ∷ l) partials = answer (join newline (c ∷ l))
  pick_all b [] (c ∷ l) = answer (join newline (c ∷ l))
  pick_all b [] [] = empty_result b

  -- What follows the loop.
  unfoldable pub select : ResultSelection → EmptyResultBehavior → Acc → Consumed X
  unfolding pick_last pick_all
  select last_only b a = pick_last b a
  select concatenate_all b a = pick_all b a.final_chunks a.partial_chunks

-- A round that fails ends the consumer.
module _ {X : Type 0} where
  unfoldable pub or_fail : Option (ConsumeError X) → Consumed X → Consumed X
  or_fail (some e) rest = failed e
  or_fail none rest = rest

  unfoldable pub or_stop :
      Option (ConsumeError X)
      → List (Item Text (ConsumeError X))
      → List (Item Text (ConsumeError X))
  or_stop (some e) rest = failure e ∷ []
  or_stop none rest = rest

module _ {X : Type 0} where
  pub or_fail-none :
      (r : Option (ConsumeError X)) (rest : Consumed X) → r ≡ none → or_fail r rest ≡ rest
  unfolding or_fail
  or_fail-none none rest h = refl
  or_fail-none (some e) rest h = cc

  pub or_fail-some :
      (r : Option (ConsumeError X)) (e : ConsumeError X) (rest : Consumed X)
      → r ≡ some e
      → or_fail r rest ≡ failed e
  unfolding or_fail
  or_fail-some none e rest h = cc
  or_fail-some (some d) e rest h = cc

  pub or_stop-none :
      (r : Option (ConsumeError X)) (rest : List (Item Text (ConsumeError X)))
      → r ≡ none
      → or_stop r rest ≡ rest
  unfolding or_stop
  or_stop-none none rest h = refl
  or_stop-none (some e) rest h = cc

-- `sawPartialWithText` after a round.
abbrev pub saw_next : Bool → Bool → List Text → Bool
saw_next saw partial [] = saw
saw_next saw partial (_ ∷ _) = partial || saw

-- The chunks of a round that are yielded: none of a final event after a partial text, by
-- `shouldSkipStreamingEvent`.
abbrev pub emitted : Bool → Bool → List Text → List Text
emitted saw partial chunks = if not partial && saw then [] else chunks

module _ {J X : Type 0} where
  -- `formatEventError`
  abbrev pub event_failure : Text → Option (SessionEvent J) → ConsumeError X
  event_failure name none = event_error name [] []
  event_failure name (some ev) = event_error name ev.error_code ev.error_message

  -- The first three tests of a round: an error of the stream, of the event, of the context.
  unfoldable pub check_pull :
      Text → Item (Option (SessionEvent J)) X → Option X → Option (ConsumeError X)
  check_pull name (failure x) ctx = some (stream_error name x)
  check_pull name (event ev) ctx =
      if has_error ev
      then some (event_failure name ev)
      else elim ctx [ none ↦ none | some x ↦ some (ctx_error x) ]

  -- The chunks of a round without an error.
  abbrev pub chunks_of : Item (Option (SessionEvent J)) X → List Text
  chunks_of (failure x) = []
  chunks_of (event ev) = event_text_parts ev

  abbrev pub partial_of : Item (Option (SessionEvent J)) X → Bool
  partial_of (failure x) = false
  partial_of (event ev) = is_partial ev

  -- `consumeEventsAsStringImpl`
  unfoldable pub consume_from : ConsumeOptions → List (Pull J X) → Acc → Consumed X
  consume_from o [] a = select o.result_selection o.empty_result_behavior a
  consume_from o (p ∷ l) a =
      let rest = consume_from o l (collect (partial_of p.item) (chunks_of p.item) a) in
      or_fail (check_pull o.agent_name p.item p.ctx_err) rest

  unfoldable pub consume_events_as_string : ConsumeOptions → List (Pull J X) → Consumed X
  unfolding consume_from
  consume_events_as_string o l = consume_from o l empty_acc

  -- `processStreamingEvent` and the loop of `ConsumeEventsAsStringSeq`: what a consumer that does
  -- not stop the stream is yielded. `saw` is `sawPartialWithText`.
  unfoldable pub stream_from : Bool → List (Pull J X) → List (Item Text (ConsumeError X))
  stream_from saw [] = []
  stream_from saw (p ∷ l) =
      let rest = stream_from (saw_next saw (partial_of p.item) (chunks_of p.item)) l in
      or_stop (check_pull [] p.item p.ctx_err)
        (map event (emitted saw (partial_of p.item) (chunks_of p.item)) ++ rest)

  -- `ConsumeEventsAsStringSeq`
  unfoldable pub consume_events_as_string_seq : List (Pull J X) → List (Item Text (ConsumeError X))
  unfolding stream_from
  consume_events_as_string_seq l = stream_from false l

-- ===== src/RunResult/Streaming.antt =====
-- What `ConsumeEventsAsStringSeq` yields, against a description over the whole stream.
use sonalmod.Base.{
  ◌≡◌, refl, sym, ◌∙◌, ap, Bool, true, false, none, List, [], ◌∷◌, ◌++◌, Text, map, if◌then◌else◌,
  append_assoc,
}
use mathlib.Core.List.{map-append}
use sonalmod.Background.Iters.{event}
use sonalmod.RunResult.Defs.{
  Pull, or_stop-none, emitted, saw_next, check_pull, chunks_of, partial_of, stream_from,
  consume_events_as_string_seq,
}
use sonalmod.RunResult.Answer.{IsClean, texts_of, check_pull-healthy}

abbrev pub leading_round : Bool → List Text → List Text → List Text
leading_round partial [] rest = rest
leading_round true (c ∷ r) rest = []
leading_round false (c ∷ r) rest = (c ∷ r) ++ rest

module _ {J X : Type 0} where
  -- The final chunks before the first partial event with text.
  abbrev pub leading_finals : List (Pull J X) → List Text
  leading_finals [] = []
  leading_finals (p ∷ l) = leading_round (partial_of p.item) (chunks_of p.item) (leading_finals l)

  stream_step :
      (saw : Bool) (p : Pull J X) (l : List (Pull J X))
      → check_pull [] p.item p.ctx_err ≡ none
      → stream_from saw (p ∷ l)
        ≡ map event (emitted saw (partial_of p.item) (chunks_of p.item))
          ++ stream_from (saw_next saw (partial_of p.item) (chunks_of p.item)) l
  unfolding stream_from
  stream_step saw p l clean = or_stop-none _ _ clean

  seen_round :
      (l : List (Pull J X)) (partial : Bool) (chunks : List Text)
      → stream_from true l ≡ map event (texts_of true l)
      → map event (emitted true partial chunks) ++ stream_from (saw_next true partial chunks) l
        ≡ map event ((if partial then chunks else []) ++ texts_of true l)
  seen_round l true [] h = h
  seen_round l false [] h = h
  seen_round l true (c ∷ r) h =
      ap (λ m. map event (c ∷ r) ++ m) h ∙ sym (map-append event (c ∷ r) (texts_of true l))
  seen_round l false (c ∷ r) h = h

  stream_seen : (l : List (Pull J X)) → IsClean l → stream_from true l ≡ map event (texts_of true l)
  unfolding stream_from
  stream_seen [] clean = refl
  stream_seen (p ∷ l) clean =
      stream_step true p l (check_pull-healthy [] p clean.0)
      ∙ seen_round l (partial_of p.item) (chunks_of p.item) (stream_seen l clean.1)

  unseen_round :
      (l : List (Pull J X)) (partial : Bool) (chunks : List Text)
      → stream_from true l ≡ map event (texts_of true l)
      → stream_from false l ≡ map event (leading_finals l ++ texts_of true l)
      → map event (emitted false partial chunks) ++ stream_from (saw_next false partial chunks) l
        ≡ map event (
            leading_round partial chunks (leading_finals l)
            ++ ((if partial then chunks else []) ++ texts_of true l))
  unseen_round l true [] h k = k
  unseen_round l false [] h k = k
  unseen_round l true (c ∷ r) h k =
      ap (λ m. map event (c ∷ r) ++ m) h ∙ sym (map-append event (c ∷ r) (texts_of true l))
  unseen_round l false (c ∷ r) h k =
      ap (λ m. map event (c ∷ r) ++ m) k
      ∙ sym (map-append event (c ∷ r) (leading_finals l ++ texts_of true l))
      ∙ ap (map event) (sym (append_assoc (c ∷ r) (leading_finals l) (texts_of true l)))

  -- A stream without errors yields the chunks of the final events that come before the first
  -- partial event with text, and then the chunks of all partial events: once partial text was
  -- seen, no final event repeats it.
  pub stream_once :
      (l : List (Pull J X))
      → IsClean l
      → consume_events_as_string_seq l ≡ map event (leading_finals l ++ texts_of true l)
  unfolding consume_events_as_string_seq
  stream_once [] clean = refl
  stream_once (p ∷ l) clean =
      stream_step false p l (check_pull-healthy [] p clean.0)
      ∙ unseen_round l (partial_of p.item) (chunks_of p.item) (stream_seen l clean.1)
          (stream_once l clean.1)

-- ===== src/Background/Feed.antt =====
-- What `runBackground` leaves in its bus.
use sonalmod.Base.{
  ◌≡◌, ◌∙◌, ap, false, true, Option, none, some, List, [], ◌∷◌, ◌++◌, append-nil, append_assoc,
  arith,
}
use sonalmod.EventBus.{done, ◌>>=◌, Bus, publish, close}
use sonalmod.Background.Iters.{Item, event, failure}
use sonalmod.Background.Runs.{Fallible, ok, err, feed, run_background}

module _ {E X : Type 0} where
  -- The events of a stream before its first error, and that error.
  abbrev pub events_of : List (Item E X) → List E
  events_of [] = []
  events_of (failure x ∷ l) = []
  events_of (event e ∷ l) = e ∷ events_of l

  abbrev pub failure_of : List (Item E X) → Option X
  failure_of [] = none
  failure_of (failure x ∷ l) = some x
  failure_of (event e ∷ l) = failure_of l

  abbrev pub result_events : Fallible X (List (Item E X)) → List E
  result_events (ok l) = events_of l
  result_events (err x) = []

  abbrev pub result_failure : Fallible X (List (Item E X)) → Option X
  result_failure (ok l) = failure_of l
  result_failure (err x) = some x

  abbrev pub ended_bus : Bus E X → List E → Option X → Bus E X
  ended_bus b events final = record b {
    buffer = b.buffer ++ events;
    closed = true;
    done_closed = true;
    final_err = final;
  }

  close_unread :
      (x : Option X) (b : Bus E X)
      → b.subscribers ≡ []
      → b.closed ≡ false
      → b.done_closed ≡ false
      → close x b ≡ done (ended_bus b [] x)
  unfolding close
  close_unread x b unread opened fresh = ground (arith, append-nil b.buffer)

  publish_unread :
      (e : E) (b : Bus E X)
      → b.subscribers ≡ []
      → b.closed ≡ false
      → publish e b ≡ done (record b { buffer = b.buffer ++ e ∷ [] })
  unfolding publish
  publish_unread e b unread opened = ground arith

  feed_unread :
      (l : List (Item E X)) (b : Bus E X)
      → b.subscribers ≡ []
      → b.closed ≡ false
      → b.done_closed ≡ false
      → feed l b ≡ done (ended_bus b (events_of l) (failure_of l))
  unfolding feed
  feed_unread [] b unread opened fresh = close_unread none b unread opened fresh
  feed_unread (failure x ∷ l) b unread opened fresh = close_unread (some x) b unread opened fresh
  feed_unread (event e ∷ l) b unread opened fresh =
      let b' : Bus E X = record b { buffer = b.buffer ++ e ∷ [] } in
      ap (λ r. r >>= feed l) (publish_unread e b unread opened)
      ∙ feed_unread l b' unread opened fresh
      ∙ ap (λ (m : List E). done (record (ended_bus b [] (failure_of l)) { buffer = m }))
          (append_assoc b.buffer (e ∷ []) (events_of l))

  -- On an open bus whose caller has unsubscribed, the background run goes through without
  -- blocking: it leaves every event of the underlying run before its first error in the replay
  -- buffer, in order, and the bus closed with that error, or with the error of a run that could
  -- not start, or with none.
  pub run_background_unread :
      (result : Fallible X (List (Item E X))) (b : Bus E X)
      → b.subscribers ≡ []
      → b.closed ≡ false
      → b.done_closed ≡ false
      → run_background result b ≡ done (ended_bus b (result_events result) (result_failure result))
  unfolding run_background
  run_background_unread (ok l) b unread opened fresh = feed_unread l b unread opened fresh
  run_background_unread (err x) b unread opened fresh = close_unread (some x) b unread opened fresh

-- ===== src/Background/Reads.antt =====
-- `ReadSession`, `ReplayAndSubscribe` and the two iterators that read a channel. A reader is
-- followed to the end of its stream: `received` is what came through its channel, and `ending` is
-- the error that it reads from the bus once the channel is closed.
use sonalmod.Base.{
  ℕ, ◌≡◌, sym, ◌∙◌, ap, Bool, true, false, Option, none, some, List, [], ◌∷◌, ◌++◌, append-nil,
  append_assoc, length, take-append, Text, text_eq, lookup,
}
use sonalmod.EventBus.{done, Bus, ReplaySnapshotResult, replay_snapshot}
use sonalmod.EventBus.System.{Sys, Action, free, replay_, initial, run}
use sonalmod.EventBus.Replay.{replay-IsSeamless}
use sonalmod.Background.Iters.{
  Item, slice_to_iter, materialize_prefix, chain_iters, final_items, materialize_prefix-slice,
  up_to_failure-slice, up_to_failure-final, slice-append,
}
use sonalmod.Background.Runs.{ActiveRun, Runner, Fallible, ok, err}

-- What `ReadSession` returns: whether a run is active, and the stream.
pub record ReadSessionResult (E X : Type 0) : Type 0 where
  pub is_active : Bool
  pub events : List (Item E X)

module _ {E X : Type 0} where
  -- `yieldLive` and `busSubscriberIterator`, to the end of a closed channel.
  abbrev pub live_items : List E → Option X → List (Item E X)
  live_items received ending = slice_to_iter received ++ final_items ending

  -- `ReplayAndSubscribe`
  unfoldable pub replay_and_subscribe :
      ReplaySnapshotResult E X → List E → Option X → List (Item E X)
  replay_and_subscribe r received ending =
      slice_to_iter r.snapshot
      ++ elim r.live_ch [ none ↦ final_items r.closed_err | some _ ↦ live_items received ending ]

  -- `BackgroundRunner.ReadSession`: `history` is what the underlying runner reads, `received` and
  -- `ending` are what the live channel brings.
  unfoldable pub read_session :
      Text
      → Fallible X (List (Item E X))
      → Runner E X
      → List E
      → Option X
      → Fallible X (ReadSessionResult E X)
  unfolding replay_and_subscribe
  read_session sid history r received ending = elim (lookup sid r.active_runs) [
    | none ↦ elim history [ ok l ↦ ok (record { is_active = false; events = l }) | err x ↦ err x ]
    | some ar ↦ elim history [
      | err x ↦ err x
      | ok l ↦ ok (record {
        is_active = true;
        events =
            chain_iters (slice_to_iter (materialize_prefix l ar.pre_run_event_count))
              (replay_and_subscribe (replay_snapshot (r.buses ar.event_bus)).1 received ending);
      })
    ]
  ]

  -- The splice of a stored history, cut to the count, with a run's stream.
  splice :
      (pre stored stream : List E) (n : ℕ) (ending : Option X)
      → n ≡ length pre
      → chain_iters
          (slice_to_iter (materialize_prefix (slice_to_iter {X = X} (pre ++ stored)) n))
          (slice_to_iter stream ++ final_items ending)
        ≡ slice_to_iter (pre ++ stream) ++ final_items ending
  unfolding chain_iters
  splice pre stored stream n ending counted = rw (
    counted,
    materialize_prefix-slice X (pre ++ stored) (length pre),
    take-append pre stored,
    up_to_failure-final stream ending,
    up_to_failure-slice pre (slice_to_iter stream ++ final_items ending),
    slice-append X pre stream,
    append_assoc,
  )

  stream_of_snapshot :
      (q : ReplaySnapshotResult E X) (i : ℕ) (received : List E) (ending : Option X)
      → q.live_ch ≡ some i
      → replay_and_subscribe q received ending
        ≡ slice_to_iter (q.snapshot ++ received) ++ final_items ending
  unfolding replay_and_subscribe
  stream_of_snapshot q i received ending live =
      simp (live, slice-append X q.snapshot received, append_assoc)

  abbrev active_result : List (Item E X) → Fallible X (ReadSessionResult E X)
  active_result l = ok (record { is_active = true; events = l })

  read_active :
      (sid : Text) (r : Runner E X) (ar : ActiveRun) (l : List (Item E X)) (got : List E)
      (ending : Option X)
      → lookup sid r.active_runs ≡ some ar
      → read_session sid (ok l) r got ending
        ≡ active_result (
            chain_iters
              (slice_to_iter (materialize_prefix l ar.pre_run_event_count))
              (replay_and_subscribe (replay_snapshot (r.buses ar.event_bus)).1 got ending))
  unfolding read_session
  read_active sid r ar l got ending entry = rw (entry, read_session)

  -- A session with an active run, whose bus any interleaving has reached; its stored history is
  -- what it was before the run followed by any events stored since, and the run's count is the
  -- length of the former. A reader joins while the bus is open and reads until its channel is
  -- closed and empty. It gets the earlier history, then every event that the run published, each
  -- once and in order, then the run's error if there is one: nothing of what was stored during
  -- the run is repeated.
  pub read_session_complete :
      (sid : Text) (r : Runner E X) (ar : ActiveRun) (pre stored : List E)
      (before after : List (Action E X)) (s s' : Sys E X) (i : ℕ)
      → lookup sid r.active_runs ≡ some ar
      → ar.pre_run_event_count ≡ length pre
      → run before initial ≡ done s
      → r.buses ar.event_bus ≡ s.bus
      → s.lock ≡ free
      → (replay_snapshot s.bus).1.live_ch ≡ some i
      → run (replay_ ∷ after) s ≡ done s'
      → (s'.bus.chans i).closed ≡ true
      → (s'.bus.chans i).queue ≡ []
      → read_session sid
          (ok (slice_to_iter (pre ++ stored)))
          r
          (s'.readers i).received
          s'.bus.final_err
        ≡ ok (record {
          is_active = true;
          events = slice_to_iter (pre ++ s'.bus.buffer) ++ final_items s'.bus.final_err;
        })
  read_session_complete sid r ar pre stored before after s s' i entry counted reached own unlocked
        live later shut drained =
      let q : ReplaySnapshotResult E X = (replay_snapshot s.bus).1 in
      let got : List E = (s'.readers i).received in
      let seamless = replay-IsSeamless before after s s' i reached unlocked live later in
      let whole : q.snapshot ++ got ≡ s'.bus.buffer =
        ap (λ l. q.snapshot ++ l) (sym (append-nil got) ∙ ap (λ l. got ++ l) (sym drained))
        ∙ seamless.ended shut in
      let past : List (Item E X) =
        slice_to_iter (materialize_prefix (slice_to_iter (pre ++ stored)) ar.pre_run_event_count) in
      read_active sid r ar (slice_to_iter (pre ++ stored)) got s'.bus.final_err entry
      ∙ ap active_result (
          ap
            (λ (b : Bus E X).
              chain_iters past (replay_and_subscribe (replay_snapshot b).1 got s'.bus.final_err))
            own
          ∙ ap (chain_iters past) (stream_of_snapshot q i got s'.bus.final_err live)
          ∙ splice pre stored (q.snapshot ++ got) ar.pre_run_event_count s'.bus.final_err counted
          ∙ ap (λ (l : List E). slice_to_iter (pre ++ l) ++ final_items s'.bus.final_err) whole)

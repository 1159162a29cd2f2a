-- ===== src/EventBus/Replay.antt =====
-- What readers of a bus see over every run: no gap, no repetition, and the whole stream at the end.
use sonalmod.Base.{
  ℕ, ◌≤◌, ◌<◌, ◌≡◌, ◌≢◌, true, false, some, List, [], ◌∷◌, ◌++◌, arith, nat_eq, sym, ◌∙◌, ap,
}
use sonalmod.EventBus.Channels.{
  Outcome, done, blocks, panics, ◌>>=◌, bind-done, send, close, contains, subscribe, unsubscribe,
  replay_snapshot, register,
}
use sonalmod.EventBus.System.{
  free, Sys, Action, start_publish, deliver, end_publish, subscribe_, replay_, unsubscribe_, close_,
  receive, initial, deliver_to, release, receive_from, step, run, attach,
}
use sonalmod.EventBus.Invariant.{IsStart, in_flight, Inv, initial-Inv}
use sonalmod.EventBus.Preservation.{registered}
use mathlib.Core.Path.{subst, subst₂}
use sonalmod.EventBus.Closing.{IsFine, step-IsFine}

module _ {E X : Type 0} where
  pub done_injective : {s t : Sys E X} → done s ≡ done t → s ≡ t
  done_injective e = cc

  bind-IsFine :
      (k : Sys E X → Outcome (Sys E X)) (r : Outcome (Sys E X))
      → ((s : Sys E X) → Inv s → IsFine (k s))
      → IsFine r
      → IsFine (r >>= k)
  bind-IsFine k (done s) h f = h s f
  bind-IsFine k blocks h f = tt
  bind-IsFine k panics h f = f

  pub run-IsFine : (l : List (Action E X)) (s : Sys E X) → Inv s → IsFine (run l s)
  unfolding run
  run-IsFine [] s v = v
  run-IsFine (a ∷ l) s v = bind-IsFine (run l) (step a s) (run-IsFine l) (step-IsFine s v a)

  IsFine-done : (r : Outcome (Sys E X)) (s : Sys E X) → IsFine r → r ≡ done s → Inv s
  IsFine-done (done t) s f e = subst Inv (done_injective e) f
  IsFine-done blocks s f e = cc
  IsFine-done panics s f e = cc

  -- The invariant at the end of a run that is done.
  pub run-Inv : (l : List (Action E X)) (s s' : Sys E X) → Inv s → run l s ≡ done s' → Inv s'
  run-Inv l s s' v e = IsFine-done (run l s) s' (run-IsFine l s v) e

  IsFine-ne-panics : (r : Outcome (Sys E X)) → IsFine r → r ≢ panics
  IsFine-ne-panics (done t) f e = cc
  IsFine-ne-panics blocks f e = cc
  IsFine-ne-panics panics f e = f

  -- Whatever goroutines publish, subscribe, unsubscribe, close and receive, in any order, from a
  -- new bus on: no send on a closed channel and no second close ever happens.
  pub run-ne-panics : (l : List (Action E X)) → run l initial ≢ panics
  run-ne-panics l = IsFine-ne-panics (run l initial) (run-IsFine l initial initial-Inv)

  -- After an action: ids are not reused, and what a reader started from stays.
  record IsKept (s s' : Sys E X) (i : ℕ) : Type 0 where
    ids_grow : s.bus.next_id ≤ s'.bus.next_id
    before_kept : i < s.bus.next_id → (s'.readers i).before ≡ (s.readers i).before

  step-IsKept : (a : Action E X) (s s' : Sys E X) (i : ℕ) → step a s ≡ done s' → IsKept s s' i
  unfolding step deliver_to release receive_from send subscribe unsubscribe replay_snapshot close
  step-IsKept (start_publish e) s s' i h = ground arith
  step-IsKept (deliver j) s s' i h = ground arith
  step-IsKept end_publish s s' i h = ground arith
  step-IsKept subscribe_ s s' i h = ground arith
  step-IsKept replay_ s s' i h = ground arith
  step-IsKept (unsubscribe_ j) s s' i h = ground arith
  step-IsKept (close_ err) s s' i h = ground arith
  step-IsKept (receive j) s s' i h = ground arith

  run-IsKept : (l : List (Action E X)) (s s' : Sys E X) (i : ℕ) → run l s ≡ done s' → IsKept s s' i
  unfolding run
  run-IsKept [] s s' i e = ground arith
  run-IsKept (a ∷ l) s s' i e =
      let m = bind-done (step a s) (run l) s' e in
      let first = step-IsKept a s m.0 i m.1 in let later = run-IsKept l m.0 s' i m.2 in ground arith

  -- What a reader that registered when `seen` had been published knows at a later state: its
  -- share is a start of the stream, all of it but a send in progress while it is registered, and
  -- all of it once its channel is closed.
  pub record IsSeamless (seen : List E) (i : ℕ) (s : Sys E X) : Type 0 where
    pub start : IsStart (seen ++ ((s.readers i).received ++ (s.bus.chans i).queue)) s.bus.buffer
    pub live :
        contains i s.bus.subscribers ≡ true
        → (seen ++ ((s.readers i).received ++ (s.bus.chans i).queue)) ++ in_flight s.lock i
          ≡ s.bus.buffer
    pub ended :
        (s.bus.chans i).closed ≡ true
        → seen ++ ((s.readers i).received ++ (s.bus.chans i).queue) ≡ s.bus.buffer

  registered-IsSeamless :
      (l : List (Action E X)) (s s' : Sys E X)
      → Inv s
      → s.lock ≡ free
      → run l (attach s (register s.bus)) ≡ done s'
      → IsSeamless s.bus.buffer s.bus.next_id s'
  registered-IsSeamless l s s' v unlocked e =
      let i = s.bus.next_id in
      let t : Sys E X = attach s (register s.bus) in
      let kept = run-IsKept l t s' i e in
      let w = (run-Inv l t s' (registered s v unlocked) e).served i in
      let same : (s'.readers i).before ≡ s.bus.buffer = ground arith in
      let old = w.gone (ground arith) in
      record {
        start = (old.0, ground (arith, old.1));
        live = λ h. ground arith;
        ended = λ h. ground arith;
      }

  replay_opens :
      (s : Sys E X) (i : ℕ)
      → (replay_snapshot s.bus).1.live_ch ≡ some i
      → (s.bus.closed ≡ false)
        × (s.bus.next_id ≡ i)
        × (s.bus.buffer ≡ (replay_snapshot s.bus).1.snapshot)
  unfolding replay_snapshot
  replay_opens s i live = ground arith

  step-replay :
      (s : Sys E X)
      → s.lock ≡ free
      → s.bus.closed ≡ false
      → step replay_ s ≡ done (attach s (register s.bus))
  unfolding step replay_snapshot
  step-replay s unlocked opened = ground arith

  -- A bus that any run has reached, with its mutex free. A replaying subscriber gets a snapshot
  -- and a channel; after any further run the snapshot followed by what came through the channel
  -- is a start of everything published, is all of it but a send in progress while the subscriber
  -- is registered, and is all of it once the channel is closed.
  pub replay-IsSeamless :
      (before after : List (Action E X)) (s s' : Sys E X) (i : ℕ)
      → run before initial ≡ done s
      → s.lock ≡ free
      → (replay_snapshot s.bus).1.live_ch ≡ some i
      → run (replay_ ∷ after) s ≡ done s'
      → IsSeamless (replay_snapshot s.bus).1.snapshot i s'
  unfolding run
  replay-IsSeamless before after s s' i reached unlocked live e =
      let (opened, id_eq, snapshot_eq) = replay_opens s i live in
      let v = run-Inv before initial s initial-Inv reached in
      let rest : run after (attach s (register s.bus)) ≡ done s' =
        ap (λ r. r >>= run after) (sym (step-replay s unlocked opened)) ∙ e in
      subst₂ (λ seen j. IsSeamless seen j s') snapshot_eq id_eq
        (registered-IsSeamless after s s' v unlocked rest)

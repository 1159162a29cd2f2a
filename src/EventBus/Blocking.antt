-- ===== src/EventBus/Blocking.antt =====
-- `Publish` sends while it holds the mutex: how it does not end.
use sonalmod.Base.{
  ℕ, ◌≤◌, ◌≡◌, refl, Bool, true, false, Option, List, [], ◌∷◌, arith, ◌==◌, nat_eq, length,
}
use sonalmod.EventBus.Channels.{done, blocks, bind-done, send, subscriber_chan_buf, contains}
use sonalmod.EventBus.System.{
  Lock, free, publishing, Sys, Action, start_publish, deliver, end_publish, subscribe_, replay_,
  unsubscribe_, close_, receive, deliver_to, release, receive_from, step, run,
}
use mathlib.Core.Path.{subst}
use sonalmod.EventBus.Replay.{done_injective}
use sonalmod.EventBus.Invariant.{contains-remove, owes}

module _ {E X : Type 0} where
  -- A publisher that waits for the full queue of a reader.
  pub record IsWaitingFor (i : ℕ) (s : Sys E X) : Type 0 where
    pub owed : owes s.lock i ≡ true
    pub full : subscriber_chan_buf ≤ length (s.bus.chans i).queue
    pub opened : (s.bus.chans i).closed ≡ false

  abbrev pub receives_from : ℕ → Action E X → Bool
  receives_from i (receive j) = j == i
  receives_from i _ = false

  waiting_deliver :
      (i j : ℕ) (k : Lock E) (s s' : Sys E X)
      → s.lock ≡ k
      → IsWaitingFor i s
      → deliver_to j k s ≡ done s'
      → IsWaitingFor i s'
  unfolding deliver_to send
  waiting_deliver i j free s s' held w h = cc
  waiting_deliver i j (publishing e pending) s s' held w h =
      ground (arith, contains-remove j i pending)

  waiting_release :
      (i : ℕ) (k : Lock E) (s s' : Sys E X)
      → s.lock ≡ k
      → IsWaitingFor i s
      → release k s ≡ done s'
      → IsWaitingFor i s'
  unfolding release contains
  waiting_release i (publishing e []) s s' held w h = absurd (ground arith)
  waiting_release i (publishing e (j ∷ l)) s s' held w h = cc
  waiting_release i free s s' held w h = cc

  waiting_receive :
      (i j : ℕ) (q : List E) (s s' : Sys E X)
      → IsWaitingFor i s
      → (j == i) ≡ false
      → receive_from j q s ≡ done s'
      → IsWaitingFor i s'
  unfolding receive_from
  waiting_receive i j [] s s' w n h = ground arith
  waiting_receive i j (e ∷ q) s s' w n h = ground arith

  waiting_step :
      (i : ℕ) (a : Action E X) (s s' : Sys E X)
      → IsWaitingFor i s
      → receives_from i a ≡ false
      → step a s ≡ done s'
      → IsWaitingFor i s'
  unfolding step deliver_to release receive_from send
  waiting_step i (start_publish e) s s' w n h = ground arith
  waiting_step i (deliver j) s s' w n h = waiting_deliver i j s.lock s s' refl w h
  waiting_step i end_publish s s' w n h = waiting_release i s.lock s s' refl w h
  waiting_step i subscribe_ s s' w n h = ground arith
  waiting_step i replay_ s s' w n h = ground arith
  waiting_step i (unsubscribe_ j) s s' w n h = ground arith
  waiting_step i (close_ err) s s' w n h = ground arith
  waiting_step i (receive j) s s' w n h = waiting_receive i j (s.bus.chans j).queue s s' w n h

  -- No action of the list receives from the channel.
  abbrev pub IsUnread : ℕ → List (Action E X) → Type 0
  IsUnread i [] = Unit
  IsUnread i (a ∷ l) = (receives_from i a ≡ false) × IsUnread i l

  waiting_run :
      (i : ℕ) (l : List (Action E X)) (s s' : Sys E X)
      → IsWaitingFor i s
      → IsUnread i l
      → run l s ≡ done s'
      → IsWaitingFor i s'
  unfolding run
  waiting_run i [] s s' w n e = subst (IsWaitingFor i) (done_injective e) w
  waiting_run i (a ∷ l) s s' w n e =
      let m = bind-done (step a s) (run l) s' e in
      waiting_run i l m.0 s' (waiting_step i a s m.0 w n.0 m.1) n.1 m.2

  waiting-blocks :
      (i j : ℕ) (err : Option X) (k : Lock E) (s : Sys E X)
      → s.lock ≡ k
      → owes k i ≡ true
      → (step (unsubscribe_ j) s ≡ blocks)
        × (step (close_ err) s ≡ blocks)
        × (step replay_ s ≡ blocks)
        × (step subscribe_ s ≡ blocks)
  unfolding step
  waiting-blocks i j err free s held owed = cc
  waiting-blocks i j err (publishing e l) s held owed = ground arith

  -- A publisher waits for the full queue of a reader that does not receive any more. Whatever
  -- other goroutines do afterwards, the reader's own `Unsubscribe` blocks, and so do every other
  -- `Unsubscribe`, `Close`, `Subscribe` and replay.
  pub abandoned_reader_blocks :
      (i j : ℕ) (err : Option X) (l : List (Action E X)) (s s' : Sys E X)
      → IsWaitingFor i s
      → IsUnread i l
      → run l s ≡ done s'
      → (step (unsubscribe_ j) s' ≡ blocks)
        × (step (close_ err) s' ≡ blocks)
        × (step replay_ s' ≡ blocks)
        × (step subscribe_ s' ≡ blocks)
  abandoned_reader_blocks i j err l s s' w n e =
      let stuck = waiting_run i l s s' w n e in waiting-blocks i j err s'.lock s' refl stuck.owed

-- ===== src/EventBus/System.antt =====
-- Goroutines around one bus. The mutex is held by a publisher from its append to the end of its
-- sends, so between two sends other goroutines receive but do not enter the bus. Every other
-- method is one critical section.
use sonalmod.Base.{ℕ, Option, none, some, List, [], ◌∷◌, ◌++◌, ◌==◌, nat_eq, if◌then◌else◌}
use sonalmod.EventBus.Channels.{
  Outcome, done, blocks, ◌>>=◌, send, update, contains, remove, Bus, new_event_bus,
  ReplaySnapshotResult, subscribe, unsubscribe, replay_snapshot, close,
}

-- The mutex `mu`: free, or held by a `Publish` that still has to send to the ids of the list.
pub data Lock (E : Type 0) : Type 0 where
  free : Lock E
  publishing : E → List ℕ → Lock E

-- The goroutine that reads a channel: what had been published when its channel was registered,
-- and what it has received since.
pub record Reader (E : Type 0) : Type 0 where
  pub before : List E
  pub received : List E

pub record Sys (E X : Type 0) : Type 0 where
  pub bus : Bus E X
  pub lock : Lock E
  pub readers : ℕ → Reader E

pub data Action (E X : Type 0) : Type 0 where
  -- `Publish` takes the mutex and appends, or returns at once on a closed bus
  start_publish : E → Action E X
  -- one send of the publisher's loop; the order of a Go map is not fixed
  deliver : ℕ → Action E X
  -- the publisher's loop is over and the mutex is released
  end_publish : Action E X
  subscribe_ : Action E X
  replay_ : Action E X
  unsubscribe_ : ℕ → Action E X
  close_ : Option X → Action E X
  -- a reader takes the next event of its channel
  receive : ℕ → Action E X

module _ {E : Type 0} where
  abbrev pub new_reader : List E → Reader E
  new_reader before = record { before = before; received = [] }

  abbrev pub set_reader : (ℕ → Reader E) → ℕ → Reader E → ℕ → Reader E
  set_reader m i r j = if i == j then r else m j

module _ {E X : Type 0} where
  abbrev pub initial : Sys E X
  initial = record { bus = new_event_bus; lock = free; readers = λ _. new_reader [] }

  -- A method that needs the mutex waits while it is held.
  abbrev pub locked : Lock E → Outcome (Sys E X) → Outcome (Sys E X)
  locked free r = r
  locked (publishing _ _) r = blocks

  -- The reader that a registration creates.
  abbrev pub attach : Sys E X → Bus E X → Sys E X
  attach s b = record s {
    bus = b;
    readers = set_reader s.readers s.bus.next_id (new_reader s.bus.buffer);
  }

  abbrev pub attach_live : Sys E X → Bus E X × ReplaySnapshotResult E X → Outcome (Sys E X)
  attach_live s (b, r) = elim r.live_ch [
    | none ↦ done (record s { bus = b })
    | some i ↦ done (attach s b)
  ]

  unfoldable pub deliver_to : ℕ → Lock E → Sys E X → Outcome (Sys E X)
  deliver_to i free s = blocks
  deliver_to i (publishing e pending) s =
      if contains i pending
      then (send e (s.bus.chans i) >>= λ c. done (record s {
        bus = record s.bus { chans = update s.bus.chans i c };
        lock = publishing e (remove i pending);
      }))
      else blocks

  unfoldable pub release : Lock E → Sys E X → Outcome (Sys E X)
  release (publishing e []) s = done (record s { lock = free })
  release (publishing e (i ∷ l)) s = blocks
  release free s = blocks

  -- A receive from an empty channel waits; on a closed and empty one it yields no event.
  unfoldable pub receive_from : ℕ → List E → Sys E X → Outcome (Sys E X)
  receive_from i [] s = if (s.bus.chans i).closed then done s else blocks
  receive_from i (e ∷ rest) s = done (record s {
    bus = record s.bus { chans = update s.bus.chans i (record (s.bus.chans i) { queue = rest }) };
    readers =
        set_reader s.readers i
          (record (s.readers i) { received = (s.readers i).received ++ e ∷ [] });
  })

  unfoldable pub step : Action E X → Sys E X → Outcome (Sys E X)
  unfolding deliver_to release receive_from subscribe unsubscribe replay_snapshot
  step (start_publish e) s = locked s.lock (
      if s.bus.closed
      then done s
      else done (record s {
        bus = record s.bus { buffer = s.bus.buffer ++ e ∷ [] };
        lock = publishing e s.bus.subscribers;
      }))
  step (deliver i) s = deliver_to i s.lock s
  step end_publish s = release s.lock s
  step subscribe_ s = locked s.lock (done (attach s (subscribe s.bus).0))
  step replay_ s = locked s.lock (attach_live s (replay_snapshot s.bus))
  step (unsubscribe_ i) s = locked s.lock (done (record s { bus = unsubscribe i s.bus }))
  step (close_ err) s = locked s.lock (close err s.bus >>= λ b. done (record s { bus = b }))
  step (receive i) s = receive_from i (s.bus.chans i).queue s

  unfoldable pub run : List (Action E X) → Sys E X → Outcome (Sys E X)
  run [] s = done s
  run (a ∷ l) s = step a s >>= run l

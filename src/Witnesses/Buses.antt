-- ===== src/Witnesses/Buses.antt =====
-- The bus at concrete runs, on numbered events.
use sonalmod.Base.{arith, true, ◌⊎◌, ℕ, zero, suc, ◌≡◌, ◌≢◌, refl, false, none, some, List, [], ◌∷◌}
use sonalmod.EventBus.{
  Outcome, done, blocks, panics, Bus, new_event_bus, subscribe, replay_snapshot, publish, send,
  send_all, close, contains, remove, close_chan,
}
use sonalmod.EventBus.System.{
  Sys, Action, start_publish, deliver, end_publish, subscribe_, replay_, unsubscribe_, close_,
  receive, publishing, initial, run, step,
}
use sonalmod.EventBus.Replay.{run-Inv, run-ne-panics, replay-IsSeamless, IsSeamless}
use sonalmod.EventBus.Blocking.{abandoned_reader_blocks, IsWaitingFor}
use sonalmod.EventBus.Publishing.{IsPublished, publish_lem}
use sonalmod.EventBus.Invariant.{initial-Inv}

-- The state that a run leaves.
abbrev state : Outcome (Sys ℕ ℕ) → Sys ℕ ℕ
state (done s) = s
state blocks = initial
state panics = initial

-- Two publishers, a plain subscriber and the end of the bus.
abbrev traffic : List (Action ℕ ℕ)
traffic =
    subscribe_
    ∷ start_publish 1
    ∷ deliver 0
    ∷ end_publish
    ∷ receive 0
    ∷ start_publish 2
    ∷ deliver 0
    ∷ end_publish
    ∷ close_ (some 9)
    ∷ close_ none
    ∷ unsubscribe_ 0
    ∷ start_publish 3
    ∷ []

run-ne-panics_example : run traffic initial ≢ panics
run-ne-panics_example = run-ne-panics traffic

abbrev earlier : List (Action ℕ ℕ)
earlier = start_publish 1 ∷ end_publish ∷ start_publish 2 ∷ end_publish ∷ []

abbrev later : List (Action ℕ ℕ)
later = start_publish 3 ∷ deliver 0 ∷ end_publish ∷ receive 0 ∷ close_ (some 9) ∷ []

abbrev joined : Sys ℕ ℕ
joined = state (run earlier initial)

abbrev ended : Sys ℕ ℕ
ended = state (run (replay_ ∷ later) joined)

replay-IsSeamless_example : IsSeamless (replay_snapshot joined.bus).1.snapshot 0 ended
unfolding run step replay_snapshot contains send remove close close_chan
replay-IsSeamless_example = replay-IsSeamless earlier later joined ended 0 refl refl refl refl

-- A queue of the size of a subscriber's channel.
abbrev backlog : ℕ → List ℕ
backlog zero = []
backlog (suc n) = 0 ∷ backlog n

-- A publisher that has to send to subscriber 0, whose queue is full.
abbrev stuck : Sys ℕ ℕ
stuck = record (state (run (subscribe_ ∷ []) initial)) {
  bus = record new_event_bus {
    buffer = backlog 257;
    subscribers = 0 ∷ [];
    chans = λ _. record { queue = backlog 256; closed = false };
    next_id = 1;
  };
  lock = publishing 0 (0 ∷ []);
}

-- The reader has left without a receive.
stuck-IsWaitingFor : IsWaitingFor 0 stuck
unfolding contains
stuck-IsWaitingFor = record { owed = refl; full = omega arith; opened = refl }

abandoned_reader_blocks_example :
    (step (unsubscribe_ 0) stuck ≡ blocks)
    × (step (close_ (some 9)) stuck ≡ blocks)
    × (step replay_ stuck ≡ blocks)
    × (step subscribe_ stuck ≡ blocks)
unfolding run
abandoned_reader_blocks_example =
    abandoned_reader_blocks 0 0 (some 9) [] stuck stuck stuck-IsWaitingFor tt refl

abbrev watched : Sys ℕ ℕ
watched = state (run (subscribe_ ∷ subscribe_ ∷ []) initial)

abbrev published : Outcome (Bus ℕ ℕ) → Bus ℕ ℕ
published (done b) = b
published blocks = new_event_bus
published panics = new_event_bus

publish_lem_example :
    ((watched.bus.closed ≡ true) × (published (publish 5 watched.bus) ≡ watched.bus))
    ⊎ ((watched.bus.closed ≡ false) × IsPublished 5 1 watched (published (publish 5 watched.bus)))
unfolding run step subscribe publish send_all send
publish_lem_example =
    publish_lem 5 watched (published (publish 5 watched.bus)) 1
      (run-Inv (subscribe_ ∷ subscribe_ ∷ []) initial watched initial-Inv refl) refl refl

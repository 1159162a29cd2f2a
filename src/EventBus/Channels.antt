-- ===== src/EventBus/Channels.antt =====
-- Buffered Go channels, the set of subscriber ids, and the methods of `EventBus` as they run under
-- its mutex.
use sonalmod.Base.{
  ℕ, ◌+◌, ◌≡◌, refl, Bool, true, false, ◌||◌, Option, none, some, List, [], ◌∷◌, ◌++◌, ◌==◌, nat_eq,
  leb, length, if◌then◌else◌,
}

-- The outcome of code that works on channels: `blocks` waits for another goroutine, `panics` is a
-- send on a closed channel or a second close.
pub data Outcome {ℓ} (A : Type ℓ) : Type ℓ where
  done : A → Outcome A
  blocks : Outcome A
  panics : Outcome A

infixl 5 ◌>>=◌
abbrev pub ◌>>=◌ {ℓ κ} : {A : Type ℓ} {B : Type κ} → Outcome A → (A → Outcome B) → Outcome B
done a >>= f = f a
blocks >>= f = blocks
panics >>= f = panics

-- Inversion of code that is done.
pub bind-done {ℓ κ} :
    {A : Type ℓ} {B : Type κ} (r : Outcome A) (f : A → Outcome B) (b : B)
    → (r >>= f) ≡ done b
    → (a : A) × (r ≡ done a) × (f a ≡ done b)
bind-done (done a) f b e = (a, refl, e)
bind-done blocks f b e = cc
bind-done panics f b e = cc

-- `subscriberChanBuf`
abbrev pub subscriber_chan_buf : ℕ
subscriber_chan_buf = 256

pub record Chan (E : Type 0) : Type 0 where
  pub queue : List E
  pub closed : Bool

module _ {E : Type 0} where
  -- `make(chan *SessionEvent, subscriberChanBuf)`
  abbrev pub make_chan : Chan E
  make_chan = record { queue = []; closed = false }

  -- `ch <- event`
  unfoldable pub send : E → Chan E → Outcome (Chan E)
  send e c =
      if c.closed
      then panics
      else if leb subscriber_chan_buf (length c.queue)
      then blocks
      else done (record c { queue = c.queue ++ e ∷ [] })

  -- `close(ch)`
  unfoldable pub close_chan : Chan E → Outcome (Chan E)
  close_chan c = if c.closed then panics else done (record c { closed = true })

  -- `m[i] = c`
  abbrev pub update : (ℕ → Chan E) → ℕ → Chan E → ℕ → Chan E
  update m i c j = if i == j then c else m j

  -- `for _, ch := range b.subscribers { ch <- event }`, when nobody receives meanwhile.
  unfoldable pub send_all : E → List ℕ → (ℕ → Chan E) → Outcome (ℕ → Chan E)
  send_all e [] m = done m
  send_all e (i ∷ l) m = send e (m i) >>= λ c. send_all e l (update m i c)

  -- `for _, ch := range b.subscribers { close(ch) }`
  unfoldable pub close_all : List ℕ → (ℕ → Chan E) → Outcome (ℕ → Chan E)
  close_all [] m = done m
  close_all (i ∷ l) m = close_chan (m i) >>= λ c. close_all l (update m i c)

unfoldable pub contains : ℕ → List ℕ → Bool
contains i [] = false
contains i (j ∷ l) = i == j || contains i l

-- `delete(b.subscribers, id)`
unfoldable pub remove : ℕ → List ℕ → List ℕ
remove i [] = []
remove i (j ∷ l) = let rest = remove i l in if i == j then rest else j ∷ rest

pub record Bus (E X : Type 0) : Type 0 where
  pub buffer : List E
  pub subscribers : List ℕ
  pub chans : ℕ → Chan E
  pub next_id : ℕ
  pub closed : Bool
  pub done_closed : Bool
  pub final_err : Option X

-- `replaySnapshotResult`; `live_ch` is nil when the bus was already closed.
pub record ReplaySnapshotResult (E X : Type 0) : Type 0 where
  pub snapshot : List E
  pub live_ch : Option ℕ
  pub closed_err : Option X

module _ {E X : Type 0} where
  -- `NewEventBus`
  abbrev pub new_event_bus : Bus E X
  new_event_bus = record {
    buffer = [];
    subscribers = [];
    chans = λ _. make_chan;
    next_id = 0;
    closed = false;
    done_closed = false;
    final_err = none;
  }

  -- A new id with a new channel, registered.
  abbrev pub register : Bus E X → Bus E X
  register b = record b {
    subscribers = b.next_id ∷ b.subscribers;
    chans = update b.chans b.next_id make_chan;
    next_id = b.next_id + 1;
  }

  -- `Subscribe`: the id, which also names the channel.
  unfoldable pub subscribe : Bus E X → Bus E X × ℕ
  subscribe b = (register b, b.next_id)

  -- `Unsubscribe`
  unfoldable pub unsubscribe : ℕ → Bus E X → Bus E X
  unsubscribe i b = record b { subscribers = remove i b.subscribers }

  -- `removeSubscriber`
  unfoldable pub remove_subscriber : ℕ → Bus E X → Bus E X
  remove_subscriber i b = record b { subscribers = remove i b.subscribers }

  -- `replaySnapshot`
  unfoldable pub replay_snapshot : Bus E X → Bus E X × ReplaySnapshotResult E X
  replay_snapshot b =
      if b.closed
      then (b, record { snapshot = b.buffer; live_ch = none; closed_err = b.final_err })
      else (register b, record { snapshot = b.buffer; live_ch = some b.next_id; closed_err = none })

  -- `Publish`, when nobody receives meanwhile.
  unfoldable pub publish : E → Bus E X → Outcome (Bus E X)
  unfolding send_all
  publish e b =
      if b.closed
      then done b
      else (send_all e b.subscribers b.chans >>= λ m.
          done (record b { buffer = b.buffer ++ e ∷ []; chans = m }))

  -- `close(b.done)`
  unfoldable pub close_done : Bus E X → Outcome (Bus E X)
  close_done b = if b.done_closed then panics else done (record b { done_closed = true })

  -- `Close`
  unfoldable pub close : Option X → Bus E X → Outcome (Bus E X)
  unfolding close_all close_done
  close err b =
      if b.closed
      then done b
      else (close_all b.subscribers b.chans >>= λ m.
          close_done (record b { closed = true; final_err = err; chans = m; subscribers = [] }))

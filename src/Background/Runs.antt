-- ===== src/Background/Runs.antt =====
-- `BackgroundRunner.Run` and its goroutines. Each admitted run has a bus of its own, named by the
-- order of admission; `goroutines` says which session the goroutine that feeds a bus works for,
-- until it has removed the session's entry.
use sonalmod.Base.{
  ℕ, ◌+◌, Bool, true, false, Option, none, some, List, [], ◌∷◌, Text, text_eq, nat_eq, ◌==◌, Dict,
  lookup, insert, erase, if◌then◌else◌,
}
use sonalmod.EventBus.{Outcome, ◌>>=◌, Bus, new_event_bus, publish, close, subscribe}
use sonalmod.Background.Iters.{Item, event, failure, count_events}

-- `activeRun`; `cancelled` says that its `cancel` was called.
pub record ActiveRun : Type 0 where
  pub event_bus : ℕ
  pub pre_run_event_count : ℕ
  pub cancelled : Bool

pub record Runner (E X : Type 0) : Type 0 where
  pub active_runs : Dict Text ActiveRun
  pub buses : ℕ → Bus E X
  pub next_bus : ℕ
  pub goroutines : ℕ → Option Text

-- What `ReadSession` of the underlying runner returns.
pub data Fallible (X : Type 0) (A : Type 0) : Type 0 where
  ok : A → Fallible X A
  err : X → Fallible X A

-- The result of `Run`: refused, or the bus with the id of the caller's subscription.
pub data Admission : Type 0 where
  busy : Admission
  started : ℕ → ℕ → Admission

-- `ar.cancel()` of every entry.
unfoldable pub cancel_all : Dict Text ActiveRun → Dict Text ActiveRun
cancel_all [] = []
cancel_all ((sid, run) ∷ d) = (sid, record run { cancelled = true }) ∷ cancel_all d

module _ {E X : Type 0} where
  abbrev pub set_bus : (ℕ → Bus E X) → ℕ → Bus E X → ℕ → Bus E X
  set_bus m k b j = if k == j then b else m j

  abbrev pub new_background_runner : Runner E X
  new_background_runner = record {
    active_runs = [];
    buses = λ _. new_event_bus;
    next_bus = 0;
    goroutines = λ _. none;
  }

  -- `preRunEventCount`: 0 where the history cannot be read.
  unfoldable pub pre_run_count : Fallible X (List (Item E X)) → ℕ
  pre_run_count (ok history) = count_events history
  pre_run_count (err _) = 0

  -- `Run` from its lock on: the test, the entry, the caller's subscription, the goroutine.
  unfoldable pub admit : Text → ℕ → Runner E X → Runner E X × Admission
  unfolding subscribe
  admit sid count r = elim (lookup sid r.active_runs) [
    | some _ ↦ (r, busy)
    | none ↦
        let (bus, sub) = subscribe new_event_bus in
        (
          record r {
            active_runs =
                insert sid
                  (record {
                    event_bus = r.next_bus;
                    pre_run_event_count = count;
                    cancelled = false;
                  })
                  r.active_runs;
            buses = set_bus r.buses r.next_bus bus;
            next_bus = r.next_bus + 1;
            goroutines = λ j. if r.next_bus == j then some sid else r.goroutines j;
          },
          started r.next_bus sub,
        )
  ]

  -- `Run`, when no other goroutine moves between its read of the history and its lock.
  unfoldable pub run : Text → Fallible X (List (Item E X)) → Runner E X → Runner E X × Admission
  unfolding admit pre_run_count
  run sid history r = admit sid (pre_run_count history) r

  -- `removeActiveRun`
  unfoldable pub remove_active_run : Text → Runner E X → Runner E X
  remove_active_run sid r = record r { active_runs = erase sid r.active_runs }

  -- `Shutdown`
  unfoldable pub shutdown : Runner E X → Runner E X
  unfolding cancel_all
  shutdown r = record r { active_runs = cancel_all r.active_runs }

  -- The loop of `runBackground` over the underlying events, then `Close`.
  unfoldable pub feed : List (Item E X) → Bus E X → Outcome (Bus E X)
  feed [] b = close none b
  feed (failure x ∷ l) b = close (some x) b
  feed (event e ∷ l) b = publish e b >>= feed l

  -- `runBackground` without its last step, `removeActiveRun`.
  unfoldable pub run_background : Fallible X (List (Item E X)) → Bus E X → Outcome (Bus E X)
  unfolding feed
  run_background (err x) b = close (some x) b
  run_background (ok events) b = feed events b

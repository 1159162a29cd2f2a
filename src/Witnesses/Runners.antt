-- ===== src/Witnesses/Runners.antt =====
-- The background runner and the consumers of its streams at concrete inputs.
use sonalmod.Base.{
  ℕ, ◌≡◌, refl, Bool, true, false, some, List, [], ◌∷◌, ◌++◌, Text, text, Option, lookup, length,
  map, text_eq,
}
use sonalmod.EventBus.{
  Outcome, done, blocks, panics, new_event_bus, publish, send, close, close_chan, contains, remove,
}
use sonalmod.EventBus.System.{
  Sys, start_publish, deliver, end_publish, subscribe_, replay_, receive, initial,
}
use sonalmod.EventBus.System as Sys_
use sonalmod.Background.Iters.{event, failure, slice_to_iter, final_items}
use sonalmod.Background.Runs.{
  ActiveRun, Runner, ok, busy, admit, new_background_runner, run_background,
}
use sonalmod.Background.Exclusive.{
  Action, admit_, publish_, remove_, run_all, step, bus_of, one_run_per_session,
}
use sonalmod.Background.Reads.{read_session, read_session_complete}
use sonalmod.Background.Feed.{run_background_unread, ended_bus}

abbrev session : Text
session = text "s1"

abbrev runner_of : Outcome (Runner ℕ ℕ) → Runner ℕ ℕ
runner_of (done r) = r
runner_of blocks = new_background_runner
runner_of panics = new_background_runner

-- A run of a session, a second that is refused, another session's, and an event.
abbrev calls : List (Action ℕ ℕ)
calls = admit_ session 0 ∷ admit_ session 4 ∷ admit_ (text "s2") 1 ∷ publish_ 0 7 ∷ []

abbrev busy_runner : Runner ℕ ℕ
busy_runner = runner_of (run_all calls new_background_runner)

one_run_per_session_example :
    (◌≡◌ {A = ℕ} 0 0)
    × (bus_of (lookup session busy_runner.active_runs) ≡ some 0)
    × (admit session 5 busy_runner ≡ (busy_runner, busy))
unfolding run_all step admit publish lookup sonalmod.Base.insert sonalmod.Base.text_beq send
one_run_per_session_example = one_run_per_session calls busy_runner 0 0 5 session refl refl refl

abbrev freed_runner : Runner ℕ ℕ
freed_runner = runner_of (step (remove_ 0) busy_runner)

-- The run's bus after one event and its own subscription, before a reader joins.
abbrev early : List (Sys_.Action ℕ ℕ)
early = subscribe_ ∷ start_publish 1 ∷ deliver 0 ∷ end_publish ∷ []

abbrev late : List (Sys_.Action ℕ ℕ)
late = start_publish 2 ∷ deliver 0 ∷ deliver 1 ∷ end_publish ∷ receive 1 ∷ Sys_.close_ (some 9) ∷ []

abbrev sys_of : Outcome (Sys ℕ ℕ) → Sys ℕ ℕ
sys_of (done s) = s
sys_of blocks = initial
sys_of panics = initial

abbrev joined : Sys ℕ ℕ
joined = sys_of (Sys_.run early initial)

abbrev ended : Sys ℕ ℕ
ended = sys_of (Sys_.run (replay_ ∷ late) joined)

abbrev active : ActiveRun
active = record { event_bus = 0; pre_run_event_count = 2; cancelled = false }

abbrev runner : Runner ℕ ℕ
runner = record {
  active_runs = (session, active) ∷ [];
  buses = λ _. joined.bus;
  next_bus = 1;
  goroutines = λ _. some session;
}

read_session_complete_example :
    read_session session
      (ok (slice_to_iter (10 ∷ 11 ∷ 1 ∷ [])))
      runner
      (ended.readers 1).received
      ended.bus.final_err
    ≡ ok (record {
      is_active = true;
      events = slice_to_iter (10 ∷ 11 ∷ 1 ∷ 2 ∷ []) ++ final_items (some 9);
    })
unfolding Sys_.run Sys_.step lookup sonalmod.Base.text_beq contains send remove close close_chan
read_session_complete_example =
    read_session_complete session runner active (10 ∷ 11 ∷ []) (1 ∷ []) early late joined ended 1
      refl refl refl refl refl refl refl refl refl

run_background_unread_example :
    run_background
      (ok (event 1 ∷ event 2 ∷ failure 9 ∷ event 3 ∷ []))
      (new_event_bus {E = ℕ} {X = ℕ})
    ≡ done (ended_bus new_event_bus (1 ∷ 2 ∷ []) (some 9))
run_background_unread_example =
    run_background_unread (ok (event 1 ∷ event 2 ∷ failure 9 ∷ event 3 ∷ [])) new_event_bus refl
      refl refl

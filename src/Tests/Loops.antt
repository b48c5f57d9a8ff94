-- ===== src/Tests/Loops.antt =====
-- The event loop on concrete data.
use optilog_artifacts.Prelude.{ℕ, refl, true, false, Option, some, none, [], ◌∷◌, arith}
use optilog_artifacts.EventLoop.Queue.Window.{window}
use optilog_artifacts.EventLoop.Guarded.{
  Event, message, Guarded, register_handler, unregister_handler,
}
use optilog_artifacts.EventLoop.Guarded.Handlers.{Restores, unregister-register}
use optilog_artifacts.EventLoop.Loop.{EventLoop, push_event, tick}
use optilog_artifacts.EventLoop.Loop.Specification.{Agenda, enter, advance}
use optilog_artifacts.EventLoop.Loop.Refinement.{Refines, Answers, enter-Refines}
use optilog_artifacts.EventLoop.Loop.Ticks.{tick-Answers}

abbrev guarded : Guarded ℕ ℕ
guarded = record {
  waiting_events = (2, message 1 30 ∷ []) ∷ [];
  handlers = (2, record { callback = some 5; run_in_add_event = false; priority = true } ∷ []) ∷ [];
  tickers = [];
  ticker_id = 0;
  running = [];
  world = 0;
}

abbrev loop : EventLoop ℕ ℕ
loop = record {
  event_q = record { entries = some (message 1 20) ∷ none ∷ []; head = some 0; tail = some 0 };
  guarded = guarded;
}

abbrev agenda : Agenda ℕ ℕ
agenda = record { capacity = 2; pending = message 1 20 ∷ []; plan = guarded }

-- A callback that adds an event of another type.
abbrev act : ℕ → Event ℕ → EventLoop ℕ ℕ → Option (EventLoop ℕ ℕ)
act c e el = push_event (message 7 c) el

loop-Refines : Refines loop agenda
unfolding window
loop-Refines = record {
  positive = omega arith;
  sized = refl;
  valid = (omega arith, omega arith);
  holds = refl;
  same = refl;
}

tick-Answers_example : Answers (tick act loop).1 (advance (λ c e s. enter (message 7 c) s) agenda)
tick-Answers_example =
    tick-Answers act (λ c e s. enter (message 7 c) s)
      (λ c e el s r. enter-Refines (message 7 c) el s r) loop agenda loop-Refines

unregister-register_example : Restores 2 false guarded (
    unregister_handler
      (register_handler guarded 2 false false 8).1
      2
      (register_handler guarded 2 false false 8).0)
unregister-register_example = unregister-register guarded 2 false false 8 2 false

-- ===== src/EventLoop/Loop.antt =====
-- overhead/eventloop/eventloop.go: the event loop.
--
-- What a callback does, calls of the event loop included, is the parameter `act`; `make_event` is
-- what the callbacks of tickers return. `none` is a panic: a push to a queue of capacity 0. A tick
-- of the clock of a ticker is a call of `fire`. Run repeats `tick` until its context is done, and
-- then calls `drain`.
pub mod Specification
pub mod Collected
pub mod Refinement
pub mod Ticks
use optilog_artifacts.Prelude.{
  ℕ, suc, zero, ◌+◌, Bool, true, false, Option, none, some, List, [], ◌∷◌, ◌==◌, if◌then◌else◌,
}
use optilog_artifacts.Prelude.Dict.{Dict, lookup}
use optilog_artifacts.EventLoop.Queue.{Queue, push, pop, len, new_queue}
use optilog_artifacts.EventLoop.Guarded.{
  Event, message, start_ticker_event, type_of, Guarded, listed, collect, take_waiting, start_ticker,
  new_ticker,
}

pub record EventLoop (V W : Type 0) : Type 0 where
  pub event_q : Queue (Event V)
  pub guarded : Guarded V W

module _ {V W : Type 0} where
  unfoldable pub new : ℕ → W → EventLoop V W
  unfolding new_queue
  new buffer_size world = record {
    event_q = new_queue buffer_size;
    guarded = record {
      waiting_events = [];
      handlers = [];
      tickers = [];
      ticker_id = 0;
      running = [];
      world = world;
    };
  }

  abbrev pub set_queue : EventLoop V W → Option (Queue (Event V)) → Option (EventLoop V W)
  set_queue el none = none
  set_queue el (some q) = some (record el { event_q = q })

  unfoldable pub push_event : Event V → EventLoop V W → Option (EventLoop V W)
  push_event event el = set_queue el (push event el.event_q)

  abbrev pub and_then :
      (EventLoop V W → Option (EventLoop V W)) → Option (EventLoop V W) → Option (EventLoop V W)
  and_then f none = none
  and_then f (some el) = f el

  unfoldable pub add_ticker : ℕ → ℕ → EventLoop V W → ℕ × Option (EventLoop V W)
  unfolding push_event new_ticker
  add_ticker interval callback el =
      let id = el.guarded.ticker_id in
      (
        id,
        push_event (start_ticker_event id)
            (record el { guarded = new_ticker el.guarded interval callback }),
      )

  module _ (act : ℕ → Event V → EventLoop V W → Option (EventLoop V W)) where
    unfoldable pub run_callbacks : List ℕ → Event V → EventLoop V W → Option (EventLoop V W)
    run_callbacks [] event el = some el
    run_callbacks (c ∷ cs) event el = and_then (run_callbacks cs event) (act c event el)

    unfoldable pub run_handlers : Event V → Bool → EventLoop V W → Option (EventLoop V W)
    unfolding run_callbacks collect
    run_handlers event adding el =
        let (first, others) =
          collect adding (listed (lookup (type_of event) el.guarded.handlers)) ([], []) in
        and_then (run_callbacks others event) (run_callbacks first event el)

    unfoldable pub add_event : Option (Event V) → EventLoop V W → Option (EventLoop V W)
    unfolding run_handlers push_event
    add_event none el = some el
    add_event (some event) el = and_then (push_event event) (run_handlers event true el)

    unfoldable pub add_all : List (Event V) → EventLoop V W → Option (EventLoop V W)
    unfolding add_event
    add_all [] el = some el
    add_all (e ∷ es) el = and_then (add_all es) (add_event (some e) el)

    unfoldable pub dispatch_delayed_events : ℕ → EventLoop V W → Option (EventLoop V W)
    unfolding add_all take_waiting
    dispatch_delayed_events kind el =
        let (events, g) = take_waiting el.guarded kind in add_all events (record el { guarded = g })

    unfoldable pub process_event : Event V → EventLoop V W → Option (EventLoop V W)
    unfolding run_handlers dispatch_delayed_events
    process_event event el =
        and_then (dispatch_delayed_events (type_of event)) (run_handlers event false el)

    unfoldable pub handle : Event V → EventLoop V W → Option (EventLoop V W)
    unfolding process_event start_ticker
    handle (message kind v) el = process_event (message kind v) el
    handle (start_ticker_event id) el = some (record el { guarded = start_ticker el.guarded id })

    -- A nil event has no handlers.
    abbrev pub popped_tick :
        Option (Option (Event V)) → EventLoop V W → Bool × Option (EventLoop V W)
    unfolding handle
    popped_tick none el = (false, some el)
    popped_tick (some none) el = (true, some el)
    popped_tick (some (some event)) el = (true, handle event el)

    unfoldable pub tick : EventLoop V W → Bool × Option (EventLoop V W)
    unfolding popped_tick
    tick el = let (popped, q) = pop el.event_q in popped_tick popped (record el { event_q = q })

    abbrev pub process_popped : Option (Option (Event V)) → EventLoop V W → Option (EventLoop V W)
    unfolding process_event
    process_popped none el = some el
    process_popped (some none) el = some el
    process_popped (some (some event)) el = process_event event el

    -- What Run still handles when its context is done: as many events as were in the queue.
    unfoldable pub drain_by : ℕ → EventLoop V W → Option (EventLoop V W)
    unfolding process_popped
    drain_by zero el = some el
    drain_by (suc l) el =
        let (popped, q) = pop el.event_q in
        and_then (drain_by l) (process_popped popped (record el { event_q = q }))

    unfoldable pub drain : EventLoop V W → Option (EventLoop V W)
    unfolding drain_by
    drain el = drain_by (len el.event_q) el

    -- A tick of the clock of a ticker's goroutine.
    abbrev pub is_running : ℕ → List ℕ → Bool
    is_running id [] = false
    is_running id (x ∷ xs) = if x == id then true else is_running id xs

    unfoldable pub fire :
        (ℕ → ℕ → Option (Event V)) → ℕ → ℕ → EventLoop V W → Option (EventLoop V W)
    unfolding add_event
    fire make_event id now el = elim (lookup id el.guarded.tickers) [
      | none ↦ some el
      | some t ↦
          if is_running id el.guarded.running
          then add_event (make_event t.ticker_callback now) el
          else some el
    ]

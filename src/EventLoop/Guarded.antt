-- ===== src/EventLoop/Guarded.antt =====
-- overhead/eventloop/eventloop.go: what the mutex of the event loop protects.
--
-- The type of an event is a number, that of the ticker events 0; a callback is a number too. The
-- goroutine of a ticker is its ID in `running`; to cancel its context is to take it out of there.
-- `world` is the state of the other modules. `none` is a panic: an index out of range.
pub mod Handlers
use mathlib.Core.Bool.{beq}
use optilog_artifacts.Prelude.{
  ℕ, suc, zero, ◌+◌, Bool, true, false, Option, none, some, List, [], ◌∷◌, ◌++◌, ◌==◌,
  if◌then◌else◌, length, set,
}
use optilog_artifacts.Prelude.Dict.{Dict, lookup, insert, delete}

pub data Event (V : Type 0) : Type 0 where
  message : ℕ → V → Event V
  start_ticker_event : ℕ → Event V

abbrev pub type_of : {V : Type 0} → Event V → ℕ
type_of (message kind v) = suc kind
type_of (start_ticker_event id) = 0

pub record Handler : Type 0 where
  pub callback : Option ℕ
  pub run_in_add_event : Bool
  pub priority : Bool

pub record Ticker : Type 0 where
  pub interval : ℕ
  pub ticker_callback : ℕ

-- What the mutex protects, and the other modules.
pub record Guarded (V W : Type 0) : Type 0 where
  pub waiting_events : Dict (List (Event V))
  pub handlers : Dict (List Handler)
  pub tickers : Dict Ticker
  pub ticker_id : ℕ
  pub running : List ℕ
  pub world : W

-- An entry of a map of lists, empty where there is none.
abbrev pub listed : {A : Type 0} → Option (List A) → List A
listed none = []
listed (some xs) = xs

unfoldable pub first_free : List Handler → ℕ
first_free [] = 0
first_free (h ∷ hs) = let rest = first_free hs in elim h.callback [ none ↦ 0 | some c ↦ suc rest ]

abbrev pub put_handler : List Handler → ℕ → Handler → List Handler
put_handler hs i h = if i == length hs then hs ++ h ∷ [] else set hs i h

abbrev pub clear_at : List Handler → ℕ → Option (List Handler)
clear_at [] id = none
clear_at (h ∷ hs) zero = some (record h { callback = none } ∷ hs)
clear_at (h ∷ hs) (suc id) = elim (clear_at hs id) [ none ↦ none | some rest ↦ some (h ∷ rest) ]

-- The two lists of callbacks that processEvent collects.
abbrev pub collect_one : Bool → Handler → Option ℕ → List ℕ × List ℕ → List ℕ × List ℕ
collect_one adding h none lists = lists
collect_one adding h (some c) (first, others) =
    if beq h.run_in_add_event adding
    then (if h.priority then (first ++ c ∷ [], others) else (first, others ++ c ∷ []))
    else (first, others)

unfoldable pub collect : Bool → List Handler → List ℕ × List ℕ → List ℕ × List ℕ
collect adding [] lists = lists
collect adding (h ∷ hs) lists = collect adding hs (collect_one adding h h.callback lists)

module _ {V W : Type 0} where
  -- The operations under the mutex.
  module _ (g : Guarded V W) where
    unfoldable pub register_handler : ℕ → Bool → Bool → ℕ → ℕ × Guarded V W
    unfolding first_free
    register_handler kind adding priority callback =
        let hs = listed (lookup kind g.handlers) in
        let h : Handler = record {
          callback = some callback;
          run_in_add_event = adding;
          priority = priority;
        } in
        let i = first_free hs in
        (i, record g { handlers = insert kind (put_handler hs i h) g.handlers })

    abbrev pub set_handlers : ℕ → Option (List Handler) → Option (Guarded V W)
    set_handlers kind none = none
    set_handlers kind (some hs) = some (record g { handlers = insert kind hs g.handlers })

    unfoldable pub unregister_handler : ℕ → ℕ → Option (Guarded V W)
    unregister_handler kind id = set_handlers kind (clear_at (listed (lookup kind g.handlers)) id)

    -- A nil type or event is `none`.
    unfoldable pub delay_until : Option ℕ → Option (Event V) → Guarded V W
    delay_until none event = g
    delay_until (some kind) none = g
    delay_until (some kind) (some event) = record g {
      waiting_events =
          insert kind (listed (lookup kind g.waiting_events) ++ event ∷ []) g.waiting_events;
    }

    -- The delayed events of a type, taken out.
    unfoldable pub take_waiting : ℕ → List (Event V) × Guarded V W
    take_waiting kind = (
      listed (lookup kind g.waiting_events),
      record g { waiting_events = delete kind g.waiting_events },
    )

    unfoldable pub start_ticker : ℕ → Guarded V W
    start_ticker id = elim (lookup id g.tickers) [
      | none ↦ g
      | some t ↦ record g { running = id ∷ g.running }
    ]

    unfoldable pub stop_running : ℕ → List ℕ → List ℕ
    stop_running id [] = []
    stop_running id (x ∷ xs) = let rest = stop_running id xs in if x == id then rest else x ∷ rest

    unfoldable pub remove_ticker : ℕ → Bool × Guarded V W
    unfolding stop_running
    remove_ticker id = elim (lookup id g.tickers) [
      | none ↦ (false, g)
      | some t ↦
          (true, record g { running = stop_running id g.running; tickers = delete id g.tickers })
    ]

    unfoldable pub new_ticker : ℕ → ℕ → Guarded V W
    new_ticker interval callback = record g {
      tickers =
          insert g.ticker_id (record { interval = interval; ticker_callback = callback }) g.tickers;
      ticker_id = g.ticker_id + 1;
    }

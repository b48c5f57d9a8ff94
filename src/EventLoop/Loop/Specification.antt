-- ===== src/EventLoop/Loop/Specification.antt =====
-- What overhead/eventloop/eventloop.go promises, on a list of pending events, oldest first.
use mathlib.Core.Bool.{beq}
use optilog_artifacts.Prelude.{
  ℕ, zero, suc, Bool, true, false, ◌&&◌, none, some, List, [], ◌∷◌, ◌++◌, keep,
}
use optilog_artifacts.Prelude.Dict.{lookup, delete}
use optilog_artifacts.EventLoop.Queue.Contents.{drop_oldest}
use optilog_artifacts.EventLoop.Guarded.{
  Event, message, start_ticker_event, type_of, Handler, Guarded, listed, start_ticker,
}

pub record Agenda (V W : Type 0) : Type 0 where
  pub capacity : ℕ
  pub pending : List (Event V)
  pub plan : Guarded V W

abbrev pub callbacks : List Handler → List ℕ
callbacks [] = []
callbacks (h ∷ hs) = elim h.callback [ none ↦ callbacks hs | some c ↦ c ∷ callbacks hs ]

-- The handlers that run during AddEvent or not, and with priority or not.
abbrev pub matching : Bool → Bool → Handler → Bool
matching adding first h = beq h.run_in_add_event adding && beq h.priority first

abbrev pub selected : Bool → Bool → List Handler → List ℕ
selected adding first hs = callbacks (keep (matching adding first) hs)

module _ {V W : Type 0} where
  -- A full agenda loses its oldest event.
  abbrev pub enter : Event V → Agenda V W → Agenda V W
  enter event s = record s { pending = drop_oldest s.capacity s.pending ++ event ∷ [] }

  module _ (act : ℕ → Event V → Agenda V W → Agenda V W) where
    abbrev pub call_all : List ℕ → Event V → Agenda V W → Agenda V W
    call_all [] event s = s
    call_all (c ∷ cs) event s = call_all cs event (act c event s)

    -- Those with priority are called first, each group in the order of its slots.
    abbrev pub call_handlers : Event V → Bool → Agenda V W → Agenda V W
    call_handlers event adding s =
        let hs = listed (lookup (type_of event) s.plan.handlers) in
        call_all (selected adding false hs) event (call_all (selected adding true hs) event s)

    abbrev pub announce : Event V → Agenda V W → Agenda V W
    announce event s = enter event (call_handlers event true s)

    abbrev pub announce_all : List (Event V) → Agenda V W → Agenda V W
    announce_all [] s = s
    announce_all (e ∷ es) s = announce_all es (announce e s)

    -- The events that wait for the type are announced once the handlers are done.
    abbrev pub release : ℕ → Agenda V W → Agenda V W
    release kind s =
        announce_all (listed (lookup kind s.plan.waiting_events))
          (record s { plan = record s.plan { waiting_events = delete kind s.plan.waiting_events } })

    abbrev pub dispose : Event V → Agenda V W → Agenda V W
    dispose event s = release (type_of event) (call_handlers event false s)

    unfoldable pub attend : Event V → Agenda V W → Agenda V W
    unfolding start_ticker
    attend (message kind v) s = dispose (message kind v) s
    attend (start_ticker_event id) s = record s { plan = start_ticker s.plan id }

    unfoldable pub next : List (Event V) → Agenda V W → Agenda V W
    unfolding attend
    next [] s = s
    next (e ∷ es) s = attend e (record s { pending = es })

    -- The oldest event is attended to.
    unfoldable pub advance : Agenda V W → Agenda V W
    unfolding next
    advance s = next s.pending s

    abbrev pub settle_next : List (Event V) → Agenda V W → Agenda V W
    settle_next [] s = s
    settle_next (e ∷ es) s = dispose e (record s { pending = es })

    -- As many as are asked for, as when the loop ends: events of tickers are handled like others.
    unfoldable pub settle : ℕ → Agenda V W → Agenda V W
    settle zero s = s
    settle (suc n) s = settle n (settle_next s.pending s)

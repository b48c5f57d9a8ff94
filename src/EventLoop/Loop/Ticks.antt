-- ===== src/EventLoop/Loop/Ticks.antt =====
-- The rounds of Run of overhead/eventloop/eventloop.go against the specification.
use optilog_artifacts.Prelude.{
  ℕ, zero, suc, ◌<◌, ◌≡◌, refl, sym, ap, ◌∙◌, subst, false, Option, none, some, List, [], ◌∷◌, map,
  arith, length, length-replicate,
}
use optilog_artifacts.Prelude.Dict.{lookup, delete}
use optilog_artifacts.EventLoop.Queue.{Queue, pop, new_queue, len}
use optilog_artifacts.EventLoop.Queue.Contents.{IsValid, len-contents}
use optilog_artifacts.EventLoop.Queue.Refinement.{popped, pop-contents}
use optilog_artifacts.EventLoop.Guarded.{
  Event, message, start_ticker_event, type_of, Guarded, listed, start_ticker, take_waiting,
}
use optilog_artifacts.EventLoop.Loop.{
  EventLoop, new, run_handlers, dispatch_delayed_events, process_event, handle, popped_tick, tick,
  process_popped, drain_by, drain,
}
use optilog_artifacts.EventLoop.Loop.Specification.{
  Agenda, call_handlers, release, dispose, attend, next, advance, settle, settle_next,
}
use optilog_artifacts.EventLoop.Loop.Refinement.{
  Refines, Answers, and_then-Answers, handlers-Refines, all-Refines,
}

module _ {V W : Type 0} (act : ℕ → Event V → EventLoop V W → Option (EventLoop V W))
    (plan : ℕ → Event V → Agenda V W → Agenda V W)
    (follows : (c : ℕ) (e : Event V) (el : EventLoop V W) (s : Agenda V W)
      → Refines el s
      → Answers (act c e el) (plan c e s)) where
  release-Refines :
      (kind : ℕ) (el : EventLoop V W) (s : Agenda V W)
      → Refines el s
      → Answers (dispatch_delayed_events act kind el) (release plan kind s)
  unfolding dispatch_delayed_events take_waiting
  release-Refines kind el s r =
      subst
        (λ (g : Guarded V W).
          Answers (dispatch_delayed_events act kind (record el { guarded = g }))
            (release plan kind s))
        (sym r.same)
        (all-Refines act plan follows (listed (lookup kind s.plan.waiting_events))
          (record el {
            guarded = record s.plan { waiting_events = delete kind s.plan.waiting_events };
          })
          (record s { plan = record s.plan { waiting_events = delete kind s.plan.waiting_events } })
          (record {
            positive = r.positive;
            sized = r.sized;
            valid = r.valid;
            holds = r.holds;
            same = refl;
          }))

  dispose-Refines :
      (e : Event V) (el : EventLoop V W) (s : Agenda V W)
      → Refines el s
      → Answers (process_event act e el) (dispose plan e s)
  unfolding process_event
  dispose-Refines e el s r =
      and_then-Answers (dispatch_delayed_events act (type_of e)) (release plan (type_of e))
        (release-Refines (type_of e)) (run_handlers act e false el) (call_handlers plan e false s)
        (handlers-Refines act plan follows e false el s r)

  attend-Refines :
      (e : Event V) (el : EventLoop V W) (s : Agenda V W)
      → Refines el s
      → Answers (handle act e el) (attend plan e s)
  unfolding handle attend
  attend-Refines (message kind v) el s r = dispose-Refines (message kind v) el s r
  attend-Refines (start_ticker_event id) el s r = record {
    positive = r.positive;
    sized = r.sized;
    valid = r.valid;
    holds = r.holds;
    same = ap (λ (g : Guarded V W). start_ticker g id) r.same;
  }

  pop-sized : (q : Queue (Event V)) → length (pop q).1.entries ≡ length q.entries
  unfolding pop
  pop-sized q = go q.head q.tail
    where
      go :
          (h t : Option ℕ)
          → length (pop (record q { head = h; tail = t })).1.entries ≡ length q.entries
      go none t = refl
      go (some h) none = refl
      go (some h) (some t) = ground arith

  -- The loop after a pop against the agenda after its oldest event is taken.
  abbrev Matches :
      EventLoop V W
      → Agenda V W
      → List (Event V)
      → Option (Option (Event V)) × Queue (Event V)
      → Type 0
  Matches el s [] (none, q) = Refines (record el { event_q = q }) s
  Matches el s (e ∷ es) (some (some f), q) =
      (e ≡ f) × Refines (record el { event_q = q }) (record s { pending = es })
  Matches el s [] (some o, q) = ⊥
  Matches el s (e ∷ es) (none, q) = ⊥
  Matches el s (e ∷ es) (some none, q) = ⊥

  pop_empty : (q : Queue (Event V)) → (pop q).0 ≡ none → (pop q).1 ≡ q
  unfolding pop
  pop_empty q = go q.head
    where
      go :
          (h : Option ℕ)
          → (pop (record q { head = h })).0 ≡ none
          → (pop (record q { head = h })).1 ≡ record q { head = h }
      go none e = refl
      go (some h) e = absurd (ground arith)

  matched :
      (el : EventLoop V W) (s : Agenda V W) (r : Refines el s) (es : List (Event V))
      (p : Option (Option (Event V)) × Queue (Event V))
      → map (λ (e : Event V). some e) es ≡ popped p
      → es ≡ s.pending
      → IsValid p.1
      → length p.1.entries ≡ s.capacity
      → (p.0 ≡ none → p.1 ≡ el.event_q)
      → Matches el s es p
  matched el s r [] (none, q) h h' v l u =
      subst (λ q'. Refines (record el { event_q = q' }) s) (sym (u refl)) r
  matched el s r [] (some o, q) h h' v l u = absurd (ground arith)
  matched el s r (e ∷ es) (none, q) h h' v l u = absurd (ground arith)
  matched el s r (e ∷ es) (some none, q) h h' v l u = absurd (ground arith)
  matched el s r (e ∷ es) (some (some f), q) h h' v l u = (
    ground arith,
    record { positive = r.positive; sized = l; valid = v; holds = ground arith; same = r.same },
  )

  pop-Matches :
      (el : EventLoop V W) (s : Agenda V W) → Refines el s → Matches el s s.pending (pop el.event_q)
  pop-Matches el s r =
      let (v, h) = pop-contents el.event_q r.valid in
      matched el s r s.pending (pop el.event_q) (sym r.holds ∙ h) refl v
        (pop-sized el.event_q ∙ r.sized) (pop_empty el.event_q)

  ticked :
      (el : EventLoop V W) (s : Agenda V W) (es : List (Event V))
      (p : Option (Option (Event V)) × Queue (Event V))
      → Matches el s es p
      → Answers (popped_tick act p.0 (record el { event_q = p.1 })).1 (next plan es s)
  unfolding popped_tick next
  ticked el s [] (none, q) m = m
  ticked el s [] (some o, q) m = absurd m
  ticked el s (e ∷ es) (none, q) m = absurd m
  ticked el s (e ∷ es) (some none, q) m = absurd m
  ticked el s (e ∷ es) (some (some f), q) (t, r) =
      subst
        (λ x.
          Answers (handle act x (record el { event_q = q }))
            (attend plan e (record s { pending = es })))
        t (attend-Refines e (record el { event_q = q }) (record s { pending = es }) r)

  -- Tick refines the agenda that takes its oldest event, calls the handlers of its type with
  -- priority and then the others, and then announces the events that waited for the type, if the
  -- callbacks, which may call the event loop, refine their counterparts on the agenda.
  pub tick-Answers :
      (el : EventLoop V W) (s : Agenda V W)
      → Refines el s
      → Answers (tick act el).1 (advance plan s)
  unfolding tick advance
  tick-Answers el s r = ticked el s s.pending (pop el.event_q) (pop-Matches el s r)

  settled :
      (n : ℕ) (el : EventLoop V W) (s : Agenda V W)
      → Refines el s
      → Answers (drain_by act n el) (settle plan n s)
  unfolding drain_by settle
  settled zero el s r = r
  settled (suc n) el s r =
      and_then-Answers (drain_by act n) (settle plan n) (settled n)
        (process_popped act (pop el.event_q).0 (record el { event_q = (pop el.event_q).1 }))
        (settle_next plan s.pending s) (one s.pending (pop el.event_q) (pop-Matches el s r))
    where
      one :
          (es : List (Event V)) (p : Option (Option (Event V)) × Queue (Event V))
          → Matches el s es p
          → Answers (process_popped act p.0 (record el { event_q = p.1 })) (settle_next plan es s)
      one [] (none, q) m = m
      one [] (some o, q) m = absurd m
      one (e ∷ es) (none, q) m = absurd m
      one (e ∷ es) (some none, q) m = absurd m
      one (e ∷ es) (some (some f), q) (t, r) =
          subst
            (λ x.
              Answers (process_event act x (record el { event_q = q }))
                (dispose plan e (record s { pending = es })))
            t (dispose-Refines e (record el { event_q = q }) (record s { pending = es }) r)

  length-pending :
      (el : EventLoop V W) (s : Agenda V W) → Refines el s → len el.event_q ≡ length s.pending
  length-pending el s r =
      len-contents el.event_q r.valid ∙ (ap length r.holds ∙ length-map s.pending)
    where
      length-map : (ys : List (Event V)) → length (map (λ (e : Event V). some e) ys) ≡ length ys
      length-map [] = refl
      length-map (y ∷ ys) = ap suc (length-map ys)

  -- What Run does once its context is done refines the agenda on which as many events as are
  -- pending are disposed of, those of tickers like all others.
  pub drain-Answers :
      (el : EventLoop V W) (s : Agenda V W)
      → Refines el s
      → Answers (drain act el) (settle plan (length s.pending) s)
  unfolding drain
  drain-Answers el s r =
      subst (λ n. Answers (drain_by act (len el.event_q) el) (settle plan n s))
        (length-pending el s r) (settled (len el.event_q) el s r)

-- A new event loop with a queue of positive capacity has nothing pending.
pub new-Refines :
    {V W : Type 0} (capacity : ℕ) (world : W)
    → 0 < capacity
    → Refines
        (new {V = V} capacity world)
        (record { capacity = capacity; pending = []; plan = (new {V = V} capacity world).guarded })
unfolding new new_queue
new-Refines capacity world h = record {
  positive = h;
  sized = length-replicate capacity none;
  valid = tt;
  holds = refl;
  same = refl;
}

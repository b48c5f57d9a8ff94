-- ===== src/EventLoop/Loop/Refinement.antt =====
-- overhead/eventloop/eventloop.go against its specification.
use optilog_artifacts.Prelude.{
  ℕ, suc, ◌<◌, ◌≡◌, refl, sym, ap, ◌∙◌, subst, Bool, true, false, Option, none, some, List, [], ◌∷◌,
  ◌++◌, map, ◌==◌, arith, length, length-set, Bool-cases, inl, inr,
}
use optilog_artifacts.Prelude.Dict.{lookup}
use optilog_artifacts.EventLoop.Queue.{Queue, push, next_pos}
use optilog_artifacts.EventLoop.Queue.Contents.{IsValid, contents, drop_oldest}
use optilog_artifacts.EventLoop.Queue.Refinement.{Pushed, push-contents}
use optilog_artifacts.EventLoop.Guarded.{Event, type_of, Guarded, listed}
use optilog_artifacts.EventLoop.Loop.{
  EventLoop, set_queue, push_event, and_then, run_callbacks, run_handlers, add_event, add_all,
}
use optilog_artifacts.EventLoop.Loop.Collected.{collect-selected}
use optilog_artifacts.EventLoop.Loop.Specification.{
  Agenda, selected, enter, call_all, call_handlers, announce, announce_all,
}

-- The event loop holds what the agenda does.
pub record Refines {V W : Type 0} (el : EventLoop V W) (s : Agenda V W) : Type 0 where
  pub positive : 0 < s.capacity
  pub sized : length el.event_q.entries ≡ s.capacity
  pub valid : IsValid el.event_q
  pub holds : contents el.event_q ≡ map (λ (e : Event V). some e) s.pending
  pub same : el.guarded ≡ s.plan

module _ {V : Type 0} where
  -- A push keeps the size of the ring.
  abbrev Keeps : ℕ → Option (Queue (Event V)) → Type 0
  Keeps n none = Unit {0}
  Keeps n (some q) = length q.entries ≡ n

  push-Keeps : (e : Event V) (q : Queue (Event V)) → Keeps (length q.entries) (push e q)
  unfolding push
  push-Keeps e q = elim (Bool-cases (length q.entries == 0)) [
    | inl z ↦ rw (z, push) tt
    | inr z ↦ rw (z, push) (length-set q.entries (next_pos (length q.entries) q.tail) (some e))
  ]

  drop_oldest-map :
      (size : ℕ) (xs : List (Event V))
      → drop_oldest size (map (λ (e : Event V). some e) xs)
        ≡ map (λ (e : Event V). some e) (drop_oldest size xs)
  drop_oldest-map size [] = refl
  drop_oldest-map size (x ∷ xs) = ground (arith, length-map xs)
    where
      length-map : (ys : List (Event V)) → length (map (λ (e : Event V). some e) ys) ≡ length ys
      length-map [] = refl
      length-map (y ∷ ys) = ap suc (length-map ys)

  map-snoc :
      (xs : List (Event V)) (e : Event V)
      → map (λ (e : Event V). some e) (xs ++ e ∷ [])
        ≡ map (λ (e : Event V). some e) xs ++ some e ∷ []
  map-snoc [] e = refl
  map-snoc (x ∷ xs) e = ap (λ ys. some x ∷ ys) (map-snoc xs e)

module _ {V W : Type 0} where
  abbrev pub Answers : Option (EventLoop V W) → Agenda V W → Type 0
  Answers none s = ⊥
  Answers (some el) s = Refines el s

  pub and_then-Answers :
      (f : EventLoop V W → Option (EventLoop V W)) (g : Agenda V W → Agenda V W)
      → ((el : EventLoop V W) (s : Agenda V W) → Refines el s → Answers (f el) (g s))
      → (o : Option (EventLoop V W)) (s : Agenda V W) → Answers o s
      → Answers (and_then f o) (g s)
  and_then-Answers f g h none s a = a
  and_then-Answers f g h (some el) s a = h el s a

  pub enter-Refines :
      (e : Event V) (el : EventLoop V W) (s : Agenda V W)
      → Refines el s
      → Answers (push_event e el) (enter e s)
  unfolding push_event
  enter-Refines e el s r =
      go (push e el.event_q) (push-Keeps e el.event_q) (push-contents e el.event_q r.valid)
    where
      go :
          (o : Option (Queue (Event V)))
          → Keeps (length el.event_q.entries) o
          → Pushed (length el.event_q.entries) (contents el.event_q) e o
          → Answers (set_queue el o) (enter e s)
      go none k p = ground (arith, r.positive, r.sized)
      go (some q) k (v, h) = record {
        positive = r.positive;
        sized = k ∙ r.sized;
        valid = v;
        holds =
            h
            ∙ (ap (λ xs. drop_oldest (length el.event_q.entries) xs ++ some e ∷ []) r.holds
                ∙ (ap (λ n. drop_oldest n (map (λ (x : Event V). some x) s.pending) ++ some e ∷ [])
                      r.sized
                    ∙ (ap (λ xs. xs ++ some e ∷ []) (drop_oldest-map s.capacity s.pending)
                        ∙ sym (map-snoc (drop_oldest s.capacity s.pending) e))));
        same = r.same;
      }

  module _ (act : ℕ → Event V → EventLoop V W → Option (EventLoop V W))
      (plan : ℕ → Event V → Agenda V W → Agenda V W)
      (follows : (c : ℕ) (e : Event V) (el : EventLoop V W) (s : Agenda V W)
        → Refines el s
        → Answers (act c e el) (plan c e s)) where
    callbacks-Refines :
        (cs : List ℕ) (e : Event V) (el : EventLoop V W) (s : Agenda V W)
        → Refines el s
        → Answers (run_callbacks act cs e el) (call_all plan cs e s)
    unfolding run_callbacks
    callbacks-Refines [] e el s r = r
    callbacks-Refines (c ∷ cs) e el s r =
        and_then-Answers (run_callbacks act cs e) (call_all plan cs e) (callbacks-Refines cs e)
          (act c e el) (plan c e s) (follows c e el s r)

    pub handlers-Refines :
        (e : Event V) (adding : Bool) (el : EventLoop V W) (s : Agenda V W)
        → Refines el s
        → Answers (run_handlers act e adding el) (call_handlers plan e adding s)
    unfolding run_handlers
    handlers-Refines e adding el s r =
        let hs = listed (lookup (type_of e) el.guarded.handlers) in
        let ks = listed (lookup (type_of e) s.plan.handlers) in
        let same : hs ≡ ks =
          ap (λ (g : Guarded V W). listed (lookup (type_of e) g.handlers)) r.same in
        rw (collect-selected adding hs [] []) (
          subst
            (λ js.
              Answers
                (and_then (run_callbacks act (selected adding false js) e)
                  (run_callbacks act (selected adding true js) e el))
                (call_handlers plan e adding s))
            (sym same)
            (and_then-Answers (run_callbacks act (selected adding false ks) e)
              (call_all plan (selected adding false ks) e)
              (callbacks-Refines (selected adding false ks) e)
              (run_callbacks act (selected adding true ks) e el)
              (call_all plan (selected adding true ks) e s)
              (callbacks-Refines (selected adding true ks) e el s r)))

    pub add-Refines :
        (e : Event V) (el : EventLoop V W) (s : Agenda V W)
        → Refines el s
        → Answers (add_event act (some e) el) (announce plan e s)
    unfolding add_event
    add-Refines e el s r =
        and_then-Answers (push_event e) (enter e) (enter-Refines e) (run_handlers act e true el)
          (call_handlers plan e true s) (handlers-Refines e true el s r)

    pub all-Refines :
        (es : List (Event V)) (el : EventLoop V W) (s : Agenda V W)
        → Refines el s
        → Answers (add_all act es el) (announce_all plan es s)
    unfolding add_all
    all-Refines [] el s r = r
    all-Refines (e ∷ es) el s r =
        and_then-Answers (add_all act es) (announce_all plan es) (all-Refines es)
          (add_event act (some e) el) (announce plan e s) (add-Refines e el s r)

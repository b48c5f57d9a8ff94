-- ===== src/EventLoop/Queue/Refinement.antt =====
-- The ring of overhead/eventloop/queue.go against a list that holds the events, oldest first.
use optilog_artifacts.Prelude.{
  ℕ, suc, ◌<◌, ◌≡◌, ◌≢◌, refl, ap, false, Option, none, some, List, [], ◌∷◌, ◌++◌, ◌==◌, arith,
  length, get_or, set, length-set, Bool-cases, inl, inr,
}
use optilog_artifacts.EventLoop.Queue.{Queue, wrap, push, pop_at, pop, len_of}
use optilog_artifacts.EventLoop.Queue.Window.{window}
use optilog_artifacts.EventLoop.Queue.Contents.{
  AreIndices, drop_oldest, IsValid, contents, push-window_room, push-window_full,
}

module _ {A : Type 0} where
  -- The answer of a pop, and what is left.
  abbrev pub popped : Option (Option A) × Queue A → List (Option A)
  popped (none, q) = []
  popped (some x, q) = x ∷ contents q

  -- A push onto the events `xs`: it answers with the ring that holds them and `e`, or panics.
  abbrev pub Pushed : ℕ → List (Option A) → A → Option (Queue A) → Type 0
  Pushed size xs e none = size ≡ 0
  Pushed size xs e (some q) = IsValid q × (contents q ≡ drop_oldest size xs ++ (some e ∷ []))

  module _ (e : A) where
    push_first :
        (b : List (Option A))
        → Pushed (length b) [] e (push e (record { entries = b; head = none; tail = none }))
    unfolding push window
    push_first [] = refl
    push_first (x ∷ b) = rw answer ((omega arith, omega arith), refl)
      where
        answer :
            push e (record { entries = x ∷ b; head = none; tail = none })
            ≡ some (record { entries = some e ∷ b; head = some 0; tail = some 0 })
        answer = ground arith

  module _ (e : A) (b : List (Option A)) (h t : ℕ) (hs : h < length b) (ts : t < length b) where
    push_room :
        (wrap (length b) t == h) ≡ false
        → Pushed
            (length b)
            (contents (record { entries = b; head = some h; tail = some t }))
            e
            (push e (record { entries = b; head = some h; tail = some t }))
    unfolding push
    push_room ne = rw answer (
        rw (length-set b (wrap (length b) t) (some e))
          ((hs, ground arith), push-window_room b e h t hs ts (ground arith)))
      where
        answer :
            push e (record { entries = b; head = some h; tail = some t })
            ≡ some (record {
              entries = set b (wrap (length b) t) (some e);
              head = some h;
              tail = some (wrap (length b) t);
            })
        answer = ground arith

    push_full :
        (m : ℕ)
        → length b ≡ suc m
        → wrap (length b) t ≡ h
        → Pushed
            (length b)
            (contents (record { entries = b; head = some h; tail = some t }))
            e
            (push e (record { entries = b; head = some h; tail = some t }))
    unfolding push
    push_full m sm eq =
        rw answer (
          rw (length-set b h (some e)) ((ground arith, hs), push-window_full b e h t hs ts m sm eq))
      where
        answer :
            push e (record { entries = b; head = some h; tail = some t })
            ≡ some (record {
              entries = set b h (some e);
              head = some (wrap (length b) h);
              tail = some h;
            })
        answer = ground arith

  -- A push onto a valid ring panics only if the capacity is 0, and otherwise leaves a valid ring
  -- that holds the events of before and then the new one, less the oldest if the ring was full.
  pub push-contents :
      (e : A) (q : Queue A) → IsValid q → Pushed (length q.entries) (contents q) e (push e q)
  push-contents e q v = go q.entries q.head q.tail v
    where
      in_ring :
          (b : List (Option A)) (h t m : ℕ)
          → (h < length b) × (t < length b)
          → length b ≡ suc m
          → Pushed
              (length b)
              (contents (record { entries = b; head = some h; tail = some t }))
              e
              (push e (record { entries = b; head = some h; tail = some t }))
      in_ring b h t m (hs, ts) sm = elim (Bool-cases (wrap (length b) t == h)) [
        | inl full ↦ push_full e b h t hs ts m sm (ground arith)
        | inr room ↦ push_room e b h t hs ts room
      ]

      go :
          (b : List (Option A)) (h t : Option ℕ)
          → AreIndices (length b) h t
          → Pushed
              (length b)
              (contents (record { entries = b; head = h; tail = t }))
              e
              (push e (record { entries = b; head = h; tail = t }))
      go b none none w = push_first e b
      go b none (some t) w = absurd w
      go b (some h) none w = absurd w
      go [] (some h) (some t) w = ground arith
      go (x ∷ b) (some h) (some t) w = in_ring (x ∷ b) h t (length b) w refl

  module _ (b : List (Option A)) (h t : ℕ) (hs : h < length b) (ts : t < length b) where
    abbrev Taken : Queue A → Type 0
    Taken q =
        IsValid q
        × (contents (record { entries = b; head = some h; tail = some t })
            ≡ get_or b h none ∷ contents q)

    pop_last : h ≡ t → Taken (record { entries = b; head = none; tail = none })
    unfolding window
    pop_last e = (tt, rw (one) refl)
      where
        one : len_of (length b) (some h) (some t) ≡ 1
        one = ground arith

    pop_more :
        h ≢ t → Taken (record { entries = b; head = some (wrap (length b) h); tail = some t })
    unfolding window
    pop_more ne = ((ground arith, ts), ap (window none (length b) b h) fewer)
      where
        fewer :
            len_of (length b) (some h) (some t)
            ≡ suc (len_of (length b) (some (wrap (length b) h)) (some t))
        fewer = ground arith

  -- `pop` gives the oldest event and leaves the rest.
  pop_in :
      (b : List (Option A)) (h t : ℕ)
      → h < length b
      → t < length b
      → IsValid (pop_at h (some t) (record { entries = b; head = some h; tail = some t }))
        × (contents (record { entries = b; head = some h; tail = some t })
            ≡ get_or b h none
              ∷ contents (pop_at h (some t) (record { entries = b; head = some h; tail = some t })))
  pop_in b h t hs ts = elim (Bool-cases (h == t)) [
    | inl e ↦ rw (last (ground arith)) (pop_last b h t hs ts (ground arith))
    | inr ne ↦ rw (more (ground arith)) (pop_more b h t hs ts (ground arith))
  ]
    where
      last :
          h ≡ t
          → pop_at h (some t) (record { entries = b; head = some h; tail = some t })
            ≡ record { entries = b; head = none; tail = none }
      last e = ground arith

      more :
          h ≢ t
          → pop_at h (some t) (record { entries = b; head = some h; tail = some t })
            ≡ record { entries = b; head = some (wrap (length b) h); tail = some t }
      more e = ground arith

  -- A pop from a valid ring leaves a valid ring and answers with the oldest event, the others
  -- being left in their order, or with none if the ring holds no event.
  pub pop-contents : (q : Queue A) → IsValid q → IsValid (pop q).1 × (contents q ≡ popped (pop q))
  unfolding pop
  pop-contents q v = go q.entries q.head q.tail v
    where
      go :
          (b : List (Option A)) (h t : Option ℕ)
          → AreIndices (length b) h t
          → IsValid (pop (record { entries = b; head = h; tail = t })).1
            × (contents (record { entries = b; head = h; tail = t })
                ≡ popped (pop (record { entries = b; head = h; tail = t })))
      go b none none w = (tt, refl)
      go b none (some t) w = absurd w
      go b (some h) none w = absurd w
      go b (some h) (some t) (hs, ts) = pop_in b h t hs ts

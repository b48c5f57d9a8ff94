-- ===== src/EventLoop/Guarded/Handlers.antt =====
-- The slots of the handlers in overhead/eventloop/eventloop.go.
use mathlib.Core.Bool.{beq}
use optilog_artifacts.Prelude.{
  ℕ, suc, ◌≡◌, refl, sym, ap, ap₂, ◌∙◌, subst, Bool, true, false, Option, none, some, List, [], ◌∷◌,
  ◌==◌, arith, Bool-cases, Option-cases, ◌&&◌, inl, inr, ==_refl, ==_iff,
}
use optilog_artifacts.Prelude.Dict.{lookup, insert, lookup-insert}
use optilog_artifacts.EventLoop.Guarded.{
  Handler, Guarded, listed, first_free, put_handler, clear_at, collect, register_handler,
  set_handlers, unregister_handler,
}
use optilog_artifacts.EventLoop.Loop.Specification.{matching, selected}
use optilog_artifacts.EventLoop.Loop.Collected.{collect-selected}

-- A handler without its callback.
abbrev blank : Handler → Handler
blank h = record h { callback = none }

-- The slots once the first free one has been taken and given back.
abbrev given_back : Handler → List Handler → List Handler
given_back h [] = blank h ∷ []
given_back h (x ∷ hs) = elim x.callback [ none ↦ blank h ∷ hs | some c ↦ x ∷ given_back h hs ]

put_next :
    (x : Handler) (hs : List Handler) (i : ℕ) (h : Handler)
    → put_handler (x ∷ hs) (suc i) h ≡ x ∷ put_handler hs i h
put_next x hs i h = ground arith

put_first : (x : Handler) (hs : List Handler) (h : Handler) → put_handler (x ∷ hs) 0 h ≡ h ∷ hs
put_first x hs h = ground arith

abbrev before : Handler → Option (List Handler) → Option (List Handler)
before x none = none
before x (some hs) = some (x ∷ hs)

clear_suc :
    (x : Handler) (hs : List Handler) (i : ℕ) → clear_at (x ∷ hs) (suc i) ≡ before x (clear_at hs i)
clear_suc x hs i = elim (Option-cases (clear_at hs i)) [
  | inl e ↦ rw e refl
  | inr (ys, e) ↦ rw e refl
]

clear_put :
    (h : Handler) (hs : List Handler)
    → clear_at (put_handler hs (first_free hs) h) (first_free hs) ≡ some (given_back h hs)
unfolding first_free
clear_put h [] = refl
clear_put h (x ∷ hs) = go x.callback (clear_put h hs)
  where
    go :
        (c : Option ℕ)
        → clear_at (put_handler hs (first_free hs) h) (first_free hs) ≡ some (given_back h hs)
        → clear_at
            (put_handler
              (record x { callback = c } ∷ hs)
              (first_free (record x { callback = c } ∷ hs))
              h)
            (first_free (record x { callback = c } ∷ hs))
          ≡ some (given_back h (record x { callback = c } ∷ hs))
    go none e = ap (λ ys. clear_at ys 0) (put_first (record x { callback = none }) hs h)
    go (some c) e =
        ap (λ ys. clear_at ys (suc (first_free hs)))
          (put_next (record x { callback = some c }) hs (first_free hs) h)
        ∙ (clear_suc (record x { callback = some c }) (put_handler hs (first_free hs) h)
              (first_free hs)
            ∙ ap (before (record x { callback = some c })) e)

-- An empty slot is not collected.
module _ (adding first : Bool) where
  kept :
      (x : Handler) (hs js : List Handler)
      → selected adding first hs ≡ selected adding first js
      → selected adding first (x ∷ hs) ≡ selected adding first (x ∷ js)
  kept x hs js e = elim (Bool-cases (matching adding first x)) [
    | inl m ↦ ground (arith, m, e)
    | inr m ↦ ground (arith, m, e)
  ]

  blank-selected :
      (r p : Bool) (hs : List Handler)
      → selected adding first (record { callback = none; run_in_add_event = r; priority = p } ∷ hs)
        ≡ selected adding first hs
  blank-selected r p hs = elim (Bool-cases (beq r adding && beq p first)) [
    | inl m ↦ ground (arith, m)
    | inr m ↦ ground (arith, m)
  ]

  selected-given_back :
      (h : Handler) (hs : List Handler)
      → selected adding first (given_back h hs) ≡ selected adding first hs
  selected-given_back h [] = blank-selected h.run_in_add_event h.priority []
  selected-given_back h (x ∷ hs) = go x.callback (selected-given_back h hs)
    where
      go :
          (c : Option ℕ)
          → selected adding first (given_back h hs) ≡ selected adding first hs
          → selected adding first (given_back h (record x { callback = c } ∷ hs))
            ≡ selected adding first (record x { callback = c } ∷ hs)
      go none e =
          blank-selected h.run_in_add_event h.priority hs
          ∙ sym (blank-selected x.run_in_add_event x.priority hs)
      go (some c) e = kept (record x { callback = some c }) (given_back h hs) hs e

same_found :
    (at : Bool) (hs js : List Handler)
    → selected at true hs ≡ selected at true js
    → selected at false hs ≡ selected at false js
    → collect at hs ([], []) ≡ collect at js ([], [])
same_found at hs js e f =
    collect-selected at hs [] []
    ∙ (ap₂ (λ (xs ys : List ℕ). (xs, ys)) e f ∙ sym (collect-selected at js [] []))

module _ {V W : Type 0} where
  -- The callbacks for the events of a type, those with priority and the others.
  abbrev pub found : ℕ → Bool → Guarded V W → List ℕ × List ℕ
  found kind adding g = collect adding (listed (lookup kind g.handlers)) ([], [])

  abbrev pub Restores : ℕ → Bool → Guarded V W → Option (Guarded V W) → Type 0
  Restores asked at g none = ⊥
  Restores asked at g (some g') = found asked at g' ≡ found asked at g

  -- After a handler is registered and unregistered by the id that it was given, every type of
  -- events has the handlers that it had before, in the same order.
  pub unregister-register :
      (g : Guarded V W) (kind : ℕ) (adding priority : Bool) (callback asked : ℕ) (at : Bool)
      → Restores asked at g (
          unregister_handler
            (register_handler g kind adding priority callback).1
            kind
            (register_handler g kind adding priority callback).0)
  unfolding register_handler unregister_handler
  unregister-register g kind adding priority callback asked at =
      rw (lookup-insert kind kind (put_handler hs (first_free hs) h) g.handlers, ==_refl kind)
        (subst
          (λ o. Restores asked at g (
            set_handlers
              (record g { handlers = insert kind (put_handler hs (first_free hs) h) g.handlers })
              kind o))
          (sym (clear_put h hs))
          (elim (Bool-cases (kind == asked)) [
            | inl e ↦
                ap (λ o. collect at (listed o) ([], [])) (here e)
                ∙ (same_found at (given_back h hs) hs (selected-given_back at true h hs)
                      (selected-given_back at false h hs)
                    ∙ ap (λ k. found k at g) ((==_iff kind asked).0 e))
            | inr e ↦ ap (λ o. collect at (listed o) ([], [])) (there e)
          ]))
    where
      hs : List Handler
      hs = listed (lookup kind g.handlers)

      h : Handler
      h = record { callback = some callback; run_in_add_event = adding; priority = priority }

      here :
          (kind == asked) ≡ true
          → lookup asked (
              insert kind
                (given_back h hs)
                (insert kind (put_handler hs (first_free hs) h) g.handlers))
            ≡ some (given_back h hs)
      here e = ground (
        arith,
        lookup-insert kind asked (given_back h hs)
            (insert kind (put_handler hs (first_free hs) h) g.handlers),
      )

      there :
          (kind == asked) ≡ false
          → lookup asked (
              insert kind
                (given_back h hs)
                (insert kind (put_handler hs (first_free hs) h) g.handlers))
            ≡ lookup asked g.handlers
      there e = ground (
        arith,
        lookup-insert kind asked (given_back h hs)
            (insert kind (put_handler hs (first_free hs) h) g.handlers),
        lookup-insert kind asked (put_handler hs (first_free hs) h) g.handlers,
      )

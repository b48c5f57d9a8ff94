-- ===== src/EventLoop/Loop/Collected.antt =====
-- The callbacks that processEvent of overhead/eventloop/eventloop.go collects.
use optilog_artifacts.Prelude.{
  ℕ, ◌≡◌, sym, ap, ◌∙◌, Bool, true, false, Option, none, some, List, [], ◌∷◌, ◌++◌, append_assoc,
  append-nil,
}
use optilog_artifacts.EventLoop.Guarded.{Handler, collect, collect_one}
use optilog_artifacts.EventLoop.Loop.Specification.{selected}

module _ (hs : List Handler) where
  -- The list that the rest of the handlers leaves.
  abbrev Collected : Bool → Handler → Type 0
  Collected adding h =
      (first others : List ℕ)
      → collect adding hs (collect_one adding h h.callback (first, others))
        ≡ (first ++ selected adding true (h ∷ hs), others ++ selected adding false (h ∷ hs))

  abbrev Follows : Bool → Type 0
  Follows adding =
      (first others : List ℕ)
      → collect adding hs (first, others)
        ≡ (first ++ selected adding true hs, others ++ selected adding false hs)

  to_first :
      (adding : Bool) (c : ℕ) (first others : List ℕ)
      → Follows adding
      → collect adding hs (first ++ c ∷ [], others)
        ≡ (first ++ c ∷ selected adding true hs, others ++ selected adding false hs)
  to_first adding c first others f =
      f (first ++ c ∷ []) others
      ∙ ap (λ (xs : List ℕ). (xs, others ++ selected adding false hs))
          (append_assoc first (c ∷ []) (selected adding true hs))

  to_others :
      (adding : Bool) (c : ℕ) (first others : List ℕ)
      → Follows adding
      → collect adding hs (first, others ++ c ∷ [])
        ≡ (first ++ selected adding true hs, others ++ c ∷ selected adding false hs)
  to_others adding c first others f =
      f first (others ++ c ∷ [])
      ∙ ap (λ (xs : List ℕ). (first ++ selected adding true hs, xs))
          (append_assoc others (c ∷ []) (selected adding false hs))

  collected :
      (adding r p : Bool) (c : Option ℕ)
      → Follows adding
      → Collected adding (record { callback = c; run_in_add_event = r; priority = p })
  collected true true true none f = f
  collected true true true (some c) f = λ first others. to_first true c first others f
  collected true true false none f = f
  collected true true false (some c) f = λ first others. to_others true c first others f
  collected true false true none f = f
  collected true false true (some c) f = f
  collected true false false none f = f
  collected true false false (some c) f = f
  collected false true true none f = f
  collected false true true (some c) f = f
  collected false true false none f = f
  collected false true false (some c) f = f
  collected false false true none f = f
  collected false false true (some c) f = λ first others. to_first false c first others f
  collected false false false none f = f
  collected false false false (some c) f = λ first others. to_others false c first others f

pub collect-selected :
    (adding : Bool) (hs : List Handler) (first others : List ℕ)
    → collect adding hs (first, others)
      ≡ (first ++ selected adding true hs, others ++ selected adding false hs)
unfolding collect
collect-selected adding [] first others = sym (
    ap (λ (xs : List ℕ). (xs, others ++ [])) (append-nil first)
    ∙ ap (λ (xs : List ℕ). (first, xs)) (append-nil others))
collect-selected adding (h ∷ hs) first others =
    collected hs adding h.run_in_add_event h.priority h.callback (collect-selected adding hs) first
      others

-- ===== src/EventLoop/Queue/Contents.antt =====
-- The events that the ring of overhead/eventloop/queue.go holds, and how a write changes them.
use optilog_artifacts.Prelude.{
  ℕ, suc, ◌<◌, ◌≡◌, ◌≢◌, refl, sym, ap, ap₂, ◌∙◌, Option, none, some, List, [], ◌∷◌, ◌++◌, ◌==◌,
  if◌then◌else◌, arith, length, get_or, set, get_or-set_self,
}
use optilog_artifacts.EventLoop.Queue.{Queue, wrap, len_of, len}
use optilog_artifacts.EventLoop.Queue.Window.{
  window, index, index-wrap, window-snoc, window-set_ne, length-window,
}

-- Both indices are in the ring, or neither is set.
abbrev pub AreIndices : ℕ → Option ℕ → Option ℕ → Type 0
AreIndices size none none = Unit {0}
AreIndices size none (some t) = ⊥
AreIndices size (some h) none = ⊥
AreIndices size (some h) (some t) = (h < size) × (t < size)

-- A list that keeps at most `size` events: the oldest goes when it is full.
abbrev pub drop_oldest {ℓ} : {X : Type ℓ} → ℕ → List X → List X
drop_oldest size [] = []
drop_oldest size (x ∷ xs) = if length (x ∷ xs) == size then xs else x ∷ xs

module _ {A : Type 0} where
  abbrev pub IsValid : Queue A → Type 0
  IsValid q = AreIndices (length q.entries) q.head q.tail

  abbrev pub contents_of : List (Option A) → Option ℕ → ℕ → List (Option A)
  contents_of entries none n = []
  contents_of entries (some h) n = window none (length entries) entries h n

  -- The events that the ring holds, oldest first.
  abbrev pub contents : Queue A → List (Option A)
  contents q = contents_of q.entries q.head (len_of (length q.entries) q.head q.tail)

  -- `len` counts the events held.
  pub len-contents : (q : Queue A) → IsValid q → len q ≡ length (contents q)
  unfolding len
  len-contents q v = go q.head q.tail v
    where
      go :
          (h t : Option ℕ)
          → AreIndices (length q.entries) h t
          → len_of (length q.entries) h t
            ≡ length (contents_of q.entries h (len_of (length q.entries) h t))
      go none none v = refl
      go none (some t) v = absurd v
      go (some h) none v = absurd v
      go (some h) (some t) v = sym (length-window none (length q.entries) q.entries h _)

  module _ (buf : List (Option A)) (v : Option A) (h : ℕ) where
    -- A write behind the last of fewer than `size` entries adds it at the end.
    window-push :
        (n pos : ℕ)
        → h < length buf
        → n < length buf
        → pos ≡ index (length buf) h n
        → window none (length buf) (set buf pos v) h (suc n)
          ≡ window none (length buf) buf h n ++ (v ∷ [])
    window-push n pos p q e =
        window-snoc none (length buf) (set buf pos v) h n p q
        ∙ ap₂ (λ xs x. xs ++ (x ∷ []))
            (window-set_ne none (length buf) buf h n pos v p (omega arith) (λ k lt. far k lt))
            (ap (λ k. get_or (set buf pos v) k none) (sym e)
              ∙ get_or-set_self buf pos v none (ground arith))
      where
        far : (k : ℕ) → k < n → index (length buf) h k ≢ pos
        far k lt w = ground arith

    -- A write over the oldest of `size` entries drops that and adds the new one at the end.
    window_over :
        (m : ℕ)
        → h < length buf
        → length buf ≡ suc m
        → window none (length buf) (set buf h v) (wrap (length buf) h) (length buf)
          ≡ window none (length buf) buf (wrap (length buf) h) m ++ (v ∷ [])
    window_over m p e =
        ap (window none (length buf) (set buf h v) (wrap (length buf) h)) e
        ∙ (window-snoc none (length buf) (set buf h v) (wrap (length buf) h) m (ground arith)
              (omega arith)
            ∙ ap₂ (λ xs x. xs ++ (x ∷ []))
                (window-set_ne none (length buf) buf (wrap (length buf) h) m h v (ground arith)
                  (omega arith) (λ k lt. far k lt))
                (ap (λ k. get_or (set buf h v) k none) back ∙ get_or-set_self buf h v none p))
      where
        back : index (length buf) (wrap (length buf) h) m ≡ h
        back = ground (arith, index-wrap (length buf) h m)

        far : (k : ℕ) → k < m → index (length buf) (wrap (length buf) h) k ≢ h
        far k lt w = ground (arith, index-wrap (length buf) h k)

  -- What a push does to a ring that holds the entries from `h` to `t`.
  module _ (buf : List (Option A)) (e : A) (h t : ℕ) (hs : h < length buf)
      (ts : t < length buf) where
    drop-full : (xs : List (Option A)) → length xs < length buf → drop_oldest (length buf) xs ≡ xs
    drop-full [] p = refl
    drop-full (x ∷ xs) p = ground arith

    -- The ring has room.
    pub push-window_room :
        wrap (length buf) t ≢ h
        → window none
            (length buf)
            (set buf (wrap (length buf) t) (some e))
            h
            (len_of (length buf) (some h) (some (wrap (length buf) t)))
          ≡ drop_oldest
              (length buf)
              (window none (length buf) buf h (len_of (length buf) (some h) (some t)))
            ++ (some e ∷ [])
    push-window_room ne =
        ap (window none (length buf) (set buf (wrap (length buf) t) (some e)) h) grows
        ∙ (window-push buf (some e) h (len_of (length buf) (some h) (some t)) (wrap (length buf) t)
              hs (ground arith) (ground arith)
            ∙ ap (λ xs. xs ++ (some e ∷ []))
                (sym (
                  drop-full _ (
                    ground (
                      arith,
                      length-window none (length buf) buf h (len_of (length buf) (some h) (some t)),
                    )))))
      where
        grows :
            len_of (length buf) (some h) (some (wrap (length buf) t))
            ≡ suc (len_of (length buf) (some h) (some t))
        grows = ground arith

    -- The ring is full.
    pub push-window_full :
        (m : ℕ)
        → length buf ≡ suc m
        → wrap (length buf) t ≡ h
        → window none
            (length buf)
            (set buf h (some e))
            (wrap (length buf) h)
            (len_of (length buf) (some (wrap (length buf) h)) (some h))
          ≡ drop_oldest
              (length buf)
              (window none (length buf) buf h (len_of (length buf) (some h) (some t)))
            ++ (some e ∷ [])
    unfolding window
    push-window_full m sm eq =
        ap (window none (length buf) (set buf h (some e)) (wrap (length buf) h)) all_new
        ∙ (window_over buf (some e) h m hs sm ∙ ap (λ xs. xs ++ (some e ∷ [])) (sym oldest))
      where
        all_new : len_of (length buf) (some (wrap (length buf) h)) (some h) ≡ length buf
        all_new = ground arith

        all_old : len_of (length buf) (some h) (some t) ≡ suc m
        all_old = ground arith

        oldest :
            drop_oldest
              (length buf)
              (window none (length buf) buf h (len_of (length buf) (some h) (some t)))
            ≡ window none (length buf) buf (wrap (length buf) h) m
        oldest =
            ap (λ n. drop_oldest (length buf) (window none (length buf) buf h n)) all_old
            ∙ ground (arith, length-window none (length buf) buf (wrap (length buf) h) m)

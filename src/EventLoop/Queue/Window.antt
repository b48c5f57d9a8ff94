-- ===== src/EventLoop/Queue/Window.antt =====
-- The entries of a ring from an index on, and how a write changes them.
use optilog_artifacts.Prelude.{
  ℕ, zero, suc, ◌+◌, ◌-◌, ◌≤◌, ◌<◌, ◌≡◌, ◌≢◌, refl, ap, ◌∙◌, List, [], ◌∷◌, ◌++◌, ltb,
  if◌then◌else◌, arith, length, get_or, set, get_or-set_ne, ap₂,
}
use optilog_artifacts.EventLoop.Queue.{wrap}

-- The index after `n` steps, for `n` up to the capacity.
abbrev pub index : ℕ → ℕ → ℕ → ℕ
index size h n = if ltb (h + n) size then h + n else h + n - size

pub index-wrap :
    (size h n : ℕ) → h < size → n < size → index size (wrap size h) n ≡ index size h (suc n)
index-wrap size h n p q = ground arith

module _ {X : Type 0} (d : X) (size : ℕ) where
  -- `n` entries from index `h` on, going round at the capacity.
  unfoldable pub window : List X → ℕ → ℕ → List X
  window buf h zero = []
  window buf h (suc n) = get_or buf h d ∷ window buf (wrap size h) n

  pub window-snoc :
      (buf : List X) (h n : ℕ)
      → h < size
      → n < size
      → window buf h (suc n) ≡ window buf h n ++ (get_or buf (index size h n) d ∷ [])
  unfolding window
  window-snoc buf h zero p q = ground arith
  window-snoc buf h (suc n) p q = ap (◌∷◌ (get_or buf h d)) (
      window-snoc buf (wrap size h) n (ground arith) (omega arith)
      ∙ ap (λ k. window buf (wrap size h) n ++ (get_or buf k d ∷ []))
          (index-wrap size h n p (omega arith)))

  -- A write outside the window is not seen in it.
  pub window-set_ne :
      (buf : List X) (h n i : ℕ) (v : X)
      → h < size
      → n ≤ size
      → ((k : ℕ) → k < n → index size h k ≢ i)
      → window (set buf i v) h n ≡ window buf h n
  unfolding window
  window-set_ne buf h zero i v p q far = refl
  window-set_ne buf h (suc n) i v p q far =
      ap₂ ◌∷◌ (get_or-set_ne buf v d (λ e. far 0 (omega arith) (ground arith))) (
        window-set_ne buf (wrap size h) n i v (ground arith) (omega arith)
          (λ k lt e. far (suc k) (omega arith) (ground (arith, index-wrap size h k))))

  pub length-window : (buf : List X) (h n : ℕ) → length (window buf h n) ≡ n
  unfolding window
  length-window buf h zero = refl
  length-window buf h (suc n) = ap suc (length-window buf (wrap size h) n)

-- ===== src/EventLoop/Queue.antt =====
-- overhead/eventloop/queue.go: a bounded ring of events, which drops its oldest entry when a push
-- finds it full. The index -1 is `none`, and so is the nil that fills a fresh ring. (The signal on
-- readyChan, which wakes a waiting reader, is not modelled.)
pub mod Window
pub mod Contents
pub mod Refinement
use optilog_artifacts.Prelude.{
  ℕ, ◌+◌, ◌-◌, Bool, true, false, Option, none, some, List, [], ◌∷◌, ◌==◌, leb, if◌then◌else◌,
  length, get_or, set, replicate,
}

pub record Queue (A : Type 0) : Type 0 where
  pub entries : List (Option A)
  pub head : Option ℕ
  pub tail : Option ℕ

-- `i + 1`, and 0 at the end of the ring.
abbrev pub wrap : ℕ → ℕ → ℕ
wrap size i = if i + 1 == size then 0 else i + 1

abbrev pub next_pos : ℕ → Option ℕ → ℕ
next_pos size none = 0
next_pos size (some t) = wrap size t

-- The head after the entry at the head was dropped, if the write position has come to it.
abbrev pub drop_head : ℕ → ℕ → Option ℕ → Option ℕ
drop_head size pos none = none
drop_head size pos (some h) = if pos == h then some (wrap size h) else some h

abbrev pub or_pos : ℕ → Option ℕ → Option ℕ
or_pos pos none = some pos
or_pos pos (some h) = some h

abbrev pub len_of : ℕ → Option ℕ → Option ℕ → ℕ
len_of size none t = 0
len_of size (some h) none = size - h
len_of size (some h) (some t) = if leb h t then t - h + 1 else size - h + t + 1

module _ {A : Type 0} where
  unfoldable pub new_queue : ℕ → Queue A
  new_queue capacity = record { entries = replicate capacity none; head = none; tail = none }

  -- A push to a ring of capacity 0 panics.
  unfoldable pub push : A → Queue A → Option (Queue A)
  push entry q =
      let size = length q.entries in
      let pos = next_pos size q.tail in
      if size == 0
      then none
      else some (record {
        entries = set q.entries pos (some entry);
        head = or_pos pos (drop_head size pos q.head);
        tail = some pos;
      })

  abbrev pub pop_at : ℕ → Option ℕ → Queue A → Queue A
  pop_at h none q = record q { head = some (wrap (length q.entries) h) }
  pop_at h (some t) q =
      if h == t
      then record q { head = none; tail = none }
      else record q { head = some (wrap (length q.entries) h) }

  -- `none` for the answer false; the entry is nil only in a ring that was not built by `push`.
  unfoldable pub pop : Queue A → Option (Option A) × Queue A
  pop q = elim q.head [
    | none ↦ (none, q)
    | some h ↦ (some (get_or q.entries h none), pop_at h q.tail q)
  ]

  unfoldable pub len : Queue A → ℕ
  len q = len_of (length q.entries) q.head q.tail

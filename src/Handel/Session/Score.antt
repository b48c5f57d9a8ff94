-- ===== src/Handel/Session/Score.antt =====
-- The score of a contribution in overhead/handel/session.go.
use optilog_artifacts.Prelude.{
  ℕ, ◌+◌, ◌-◌, ◌*◌, Bool, true, false, not, Option, none, some, List, [], ◌∷◌, ◌==◌, leb,
  if◌then◌else◌, length,
}
use optilog_artifacts.Prelude.Integers.{ℤ, pos, diff}
use optilog_artifacts.Prelude.Dict.{Dict, lookup}
use optilog_artifacts.Types.{QuorumSignature}
use optilog_artifacts.Types.IdSet.{IdSet, contains, add, len, new_id_set}
use optilog_artifacts.Handel.Session.{
  Contribution, Config, Session, level_at, size_of, valid_level, can_merge,
}

unfoldable pub add_all : List ℕ → IdSet → IdSet
add_all [] s = s
add_all (id ∷ ids) s = add_all ids (add id s)

-- The senders of the individual signatures are added, those that are new counted.
unfoldable pub add_senders : Dict QuorumSignature → IdSet × ℕ → IdSet × ℕ
add_senders [] r = r
add_senders ((id, sig) ∷ m) (s, added) =
    add_senders m (if contains id s then (s, added) else (add id s, added + 1))

abbrev pub participants_of : Option QuorumSignature → List ℕ
participants_of none = []
participants_of (some sig) = sig.participants

-- The participants at hand with the contribution: its own, the individual ones, and the best
-- signature's where the two can be merged.
unfoldable pub total_of : QuorumSignature → Option QuorumSignature → IdSet → ℕ
unfolding add_all
total_of sig best final =
    if can_merge sig best then len (add_all (participants_of best) final) else len final

abbrev pub has_entry : Option QuorumSignature → Bool
has_entry none = false
has_entry (some sig) = true

-- What each signature adds is `total - best`, which is compared before it is subtracted.
unfoldable pub score_of : (level need total best indiv_added : ℕ) → (have_indiv : Bool) → ℤ
score_of level need total best indiv_added have_indiv =
    if leb total best
    then pos (if have_indiv then 0 else 1)
    else if total == need
    then diff 1000000 (level * 10 + indiv_added)
    else diff (100000 + (total - best) * 10) (level * 100 + indiv_added)

abbrev pub is_complete : Option QuorumSignature → ℕ → Bool
is_complete none need = false
is_complete (some sig) need = leb need (length sig.participants)

module _ (config : Config) where
  -- At the highest level the need is the quorum at the view of the number of a quorum.
  unfoldable pub need_of : ℕ → Session → ℕ
  need_of level s =
      if level == config.max_level
      then config.quorum (config.quorum config.view)
      else size_of level s

  unfoldable pub score : Contribution → Session → ℤ
  unfolding need_of total_of score_of add_senders add_all
  score c s =
      let level = level_at c.level s in
      let need = need_of c.level s in
      let (final, indiv_added) =
        add_senders level.individual (add_all c.signature.participants new_id_set, 0) in
      let total = total_of c.signature level.incoming final in
      if not (valid_level config c.level)
      then pos 0
      else if is_complete level.incoming need
      then pos 0
      else score_of c.level need total (length (participants_of level.incoming)) indiv_added
          (has_entry (lookup c.sender level.individual))

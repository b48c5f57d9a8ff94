-- ===== src/Handel/Session/Outgoing.antt =====
-- The outgoing signatures of overhead/handel/session.go, and to whom they are sent.
use optilog_artifacts.Prelude.{
  ℕ, zero, suc, ◌+◌, ◌-◌, min, Bool, true, ◌&&◌, Option, none, some, List, [], ◌∷◌, ltb, leb,
  if◌then◌else◌, length,
}
use optilog_artifacts.Prelude.Dict.{lookup, insert}
use optilog_artifacts.Types.{QuorumSignature}
use optilog_artifacts.Types.IdSet.{contains}
use optilog_artifacts.Handel.Session.{
  Level, Config, Session, contribute, new_view, session_done, panic, emit, level_at, put_level,
  partition_of, size_of, or_zero,
}
use optilog_artifacts.Handel.Session.Score.{participants_of}

-- All IDs of the partition take part in the best signature of the level.
unfoldable pub are_in : List ℕ → List ℕ → Bool
unfolding contains
are_in [] ids = true
are_in (id ∷ part) ids = contains id ids && are_in part ids

unfoldable pub is_level_complete : ℕ → Session → Bool
unfolding are_in
is_level_complete i s = are_in (partition_of i s) (participants_of (level_at i s).incoming)

-- The ID of the least contribution priority, from a first one on.
unfoldable pub least_from : Level → ℕ → ℕ → List ℕ → ℕ
least_from level id best [] = id
least_from level id best (i ∷ is) =
    let cp = or_zero (lookup i level.cp) in
    if ltb cp best then least_from level i cp is else least_from level id best is

module _ (config : Config) where
  unfoldable pub advance_level : Session → Session
  advance_level s =
      if ltb config.max_level (s.active_level_index + 1)
      then s
      else record s { active_level_index = s.active_level_index + 1 }

  abbrev pub send_to : ℕ → ℕ → QuorumSignature → Session → Session
  send_to id i sig s =
      if config.has_node id then emit (contribute id i sig (level_at 0 s).incoming) s else s

  -- The next time another node is chosen.
  abbrev pub delay : ℕ → ℕ → Session → Session
  delay id i s =
      let level = level_at i s in
      put_level i
        (record level {
          cp = insert id (or_zero (lookup id level.cp) + length s.part.ids) level.cp;
        })
        s

  unfoldable pub send_part : ℕ → QuorumSignature → List ℕ → Session → Session
  unfolding least_from
  send_part i sig [] s = emit panic s
  send_part i sig (id ∷ ids) s =
      let level = level_at i s in
      let to = least_from level id (or_zero (lookup id level.cp)) (id ∷ ids) in
      delay to i (send_to to i sig s)

  abbrev pub send_outgoing : ℕ → Option QuorumSignature → Session → Session
  send_outgoing i none s = s
  send_outgoing i (some sig) s = send_part i sig (partition_of i s) s

  unfoldable pub send_contribution_to_level : ℕ → Session → Session
  unfolding send_part
  send_contribution_to_level i s = send_outgoing i (level_at i s).outgoing s

  -- The levels from i on, n of them.
  unfoldable pub send_from : ℕ → ℕ → Session → Session
  unfolding send_contribution_to_level
  send_from zero i s = s
  send_from (suc n) i s =
      send_from n (i + 1) (if (level_at i s).done then s else send_contribution_to_level i s)

  unfoldable pub send_contributions : Session → Session
  unfolding send_from
  send_contributions s = send_from s.active_level_index 1 s

  unfoldable pub send_times : ℕ → ℕ → Session → Session
  unfolding send_contribution_to_level
  send_times zero i s = s
  send_times (suc n) i s = send_times n i (send_contribution_to_level i s)

  unfoldable pub send_fast_path : ℕ → Session → Session
  unfolding send_times
  send_fast_path i s = send_times (min 10 (size_of i s)) i s

  -- What the level below passes on: nothing to change where its signatures do not combine.
  unfoldable pub passed_on :
      Option QuorumSignature → Option QuorumSignature → Option (Option QuorumSignature)
  passed_on incoming none = some incoming
  passed_on none (some out) = some (some out)
  passed_on (some inc) (some out) = elim (config.base.combine (inc ∷ out ∷ [])) [
    | none ↦ none
    | some sig ↦ some (some sig)
  ]

  -- Above the highest level: a certificate, if a quorum takes part.
  unfoldable pub finish : Option QuorumSignature → Session → Session
  finish none s = emit panic s
  finish (some sig) s =
      if leb (config.quorum config.view) (length sig.participants)
      then emit (session_done s.hash) (
          emit
            (new_view (record {
              signature = some sig;
              view = config.view;
              hash = s.hash;
              latency_vector = [];
            }))
            s)
      else s

  abbrev pub with_outgoing : ℕ → Option QuorumSignature → Session → Session
  with_outgoing i sig s = put_level i (record (level_at i s) { outgoing = sig }) s

  -- The levels from j + 1 to the highest one, n of them, and then the end. The log message of each
  -- level counts the participants, which panics where there is no signature.
  unfoldable pub bubble : ℕ → ℕ → Session → Session
  unfolding passed_on finish
  bubble zero j s = elim (passed_on (level_at j s).incoming (level_at j s).outgoing) [
    | none ↦ s
    | some sig ↦ finish sig s
  ]
  bubble (suc n) j s = elim (passed_on (level_at j s).incoming (level_at j s).outgoing) [
    | none ↦ s
    | some none ↦ emit panic (with_outgoing (j + 1) none s)
    | some (some sig) ↦ bubble n (j + 1) (with_outgoing (j + 1) (some sig) s)
  ]

  unfoldable pub update_outgoing : ℕ → Session → Session
  unfolding bubble
  update_outgoing zero s = emit panic s
  update_outgoing (suc j) s = bubble (config.max_level - j) j s

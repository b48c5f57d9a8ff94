-- ===== src/Handel/Session/Calls.antt =====
-- A session of overhead/handel/session.go: its start, and the calls of its handlers.
use optilog_artifacts.Prelude.{
  ℕ, zero, suc, ◌+◌, Bool, true, false, Option, none, some, List, [], ◌∷◌, leb, if◌then◌else◌,
  length,
}
use optilog_artifacts.Prelude.Dict.{lookup, insert}
use optilog_artifacts.Types.{QuorumSignature}
use optilog_artifacts.Chain.{Chain}
use optilog_artifacts.Handel.Partitioner.{new_partitioner}
use optilog_artifacts.Handel.Session.{
  Contribution, Level, Config, Session, Window, new_level, level_at, put_level,
}
use optilog_artifacts.Handel.Session.Score.{has_entry}
use optilog_artifacts.Handel.Session.Pending.{insert_pending}
use optilog_artifacts.Handel.Session.Outgoing.{
  is_level_complete, advance_level, send_fast_path, send_contributions, update_outgoing,
}
use optilog_artifacts.Handel.Session.Verify.{verify_next}

-- The individual signature is taken from the signature of the contribution.
unfoldable pub add_individual : Contribution → Level → Level
add_individual c level =
    if has_entry (lookup c.sender level.individual)
    then level
    else record level { individual = insert c.sender c.signature level.individual }

-- The best signature of the level has as many participants, or more.
abbrev pub is_no_better : QuorumSignature → Option QuorumSignature → Bool
is_no_better sig none = false
is_no_better sig (some best) = leb (length sig.participants) (length best.participants)

module _ (config : Config) where
  unfoldable pub complete : ℕ → Session → Session
  unfolding advance_level send_fast_path
  complete i s =
      let advanced = advance_level config (put_level i (record (level_at i s) { done = true }) s) in
      if leb (i + 1) config.max_level then send_fast_path config (i + 1) advanced else advanced

  unfoldable pub improve : Contribution → Session → Session
  unfolding complete is_level_complete update_outgoing
  improve c s =
      let s' = put_level c.level (record (level_at c.level s) { incoming = some c.signature }) s in
      update_outgoing config (c.level + 1)
        (if is_level_complete c.level s' then complete c.level s' else s')

  unfoldable pub update_incoming : Contribution → Session → Session
  unfolding add_individual improve
  update_incoming c s =
      let s' = put_level c.level (add_individual c (level_at c.level s)) s in
      if is_no_better c.signature (level_at c.level s').incoming then s' else improve c s'

  unfoldable pub handle_contribution : Contribution → Session → Session
  unfolding update_incoming insert_pending
  handle_contribution c s = if c.verified then update_incoming c s else insert_pending config c s

  abbrev pub first_window : Window
  first_window = record {
    window = config.replicas;
    max = config.replicas;
    min = 2;
    increase_factor = 2;
    decrease_factor = 4;
  }

  module _ (shuffled : ℕ → List ℕ) where
    unfoldable pub levels_from : List ℕ → ℕ → ℕ → List Level
    unfolding new_level
    levels_from ids zero i = []
    levels_from ids (suc n) i = new_level shuffled ids config.id i ∷ levels_from ids n (i + 1)

    -- `ids` are the shuffled IDs of all replicas.
    unfoldable pub new_session : List ℕ → ℕ → QuorumSignature → Session
    unfolding levels_from update_outgoing new_partitioner
    new_session ids hash own =
        let s : Session = record {
          hash = hash;
          part = new_partitioner config.id ids;
          levels = levels_from ids (config.max_level + 1) 0;
          active_level_index = 0;
          window = first_window;
          out = [];
        } in
        let first = level_at 0 s in
        update_outgoing config 1 (
          put_level 0
            (record first {
              individual = insert config.id own first.individual;
              incoming = some own;
            })
            s)

  -- A contribution from the network or the event loop, a round of the verification, and the ticks.
  pub data Call : Type 0 where
    contributes : Contribution → Call
    verifies disseminates activates : Call

  unfoldable pub call : Call → Session × Chain → Session × Chain
  unfolding handle_contribution verify_next send_contributions advance_level
  call (contributes c) (s, chain) = (handle_contribution c s, chain)
  call verifies (s, chain) = verify_next config (s, chain)
  call disseminates (s, chain) = (send_contributions config s, chain)
  call activates (s, chain) = (advance_level config s, chain)

  unfoldable pub run : List Call → Session × Chain → Session × Chain
  unfolding call
  run [] r = r
  run (c ∷ calls) r = run calls (call c r)

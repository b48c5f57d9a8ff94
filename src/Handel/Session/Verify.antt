-- ===== src/Handel/Session/Verify.antt =====
-- The verification of contributions in overhead/handel/session.go.
use optilog_artifacts.Prelude.{
  Bool, true, false, not, ◌&&◌, ◌||◌, Option, none, some, [], ◌∷◌, if◌then◌else◌,
}
use optilog_artifacts.Prelude.Integers.{pos}
use optilog_artifacts.Prelude.Dict.{Dict}
use optilog_artifacts.Types.{Block, QuorumSignature, block_bytes}
use optilog_artifacts.Chain.{Chain, get}
use optilog_artifacts.Handel.Session.{
  Contribution, Config, Session, add_contribution, emit, level_at, can_merge, increase, decrease,
}
use optilog_artifacts.Handel.Session.Choose.{choose_contribution}

module _ (config : Config) where
  -- Joined with another signature, if the two can be merged and combined.
  abbrev pub or_combined : QuorumSignature → Option QuorumSignature → QuorumSignature
  or_combined sig none = sig
  or_combined sig (some joined) = joined

  unfoldable pub merge : QuorumSignature → Option QuorumSignature → QuorumSignature
  merge sig none = sig
  merge sig (some other) =
      if can_merge sig (some other)
      then or_combined sig (config.base.combine (sig ∷ other ∷ []))
      else sig

  unfoldable pub merge_all : QuorumSignature → Dict QuorumSignature → QuorumSignature
  unfolding merge
  merge_all sig [] = sig
  merge_all sig ((id, indiv) ∷ m) = merge_all (merge sig (some indiv)) m

  unfoldable pub improve_signature : Contribution → Session → QuorumSignature
  unfolding merge_all
  improve_signature c s =
      let level = level_at c.level s in
      merge_all (merge c.signature level.incoming) level.individual

  -- On whether the aggregate is valid, and the individual signature or it need not be.
  unfoldable pub conclude : Contribution → QuorumSignature → Bool → Session → Session
  unfolding increase decrease
  conclude c sig true s =
      let added =
        emit
          (add_contribution (record c {
            hash = s.hash;
            signature = sig;
            verified = true;
            deferred = false;
            score = pos 0;
          }))
          s in
      record added { window = increase s.window }
  conclude c sig false s = record s { window = decrease s.window }

  abbrev pub is_valid : QuorumSignature → Block → Bool
  is_valid sig b = config.base.verify sig (block_bytes b)

  unfoldable pub verify_contribution :
      Contribution → QuorumSignature → Bool → Session × Chain → Session × Chain
  unfolding conclude
  verify_contribution c sig verify_indiv (s, chain) =
      let (block, chain') = get config.fetch s.hash chain in
      elim block [
        | none ↦ (s, chain')
        | some b ↦ (
          conclude c sig
              (((verify_indiv && is_valid c.individual b) || not verify_indiv) && is_valid sig b) s,
          chain',
        )
      ]

  -- A round of verifyContributions.
  unfoldable pub verify_next : Session × Chain → Session × Chain
  unfolding choose_contribution improve_signature verify_contribution
  verify_next (s, chain) =
      let (choice, s') = choose_contribution config s in
      elim choice [
        | none ↦ (s', chain)
        | some (c, verify_indiv) ↦
            verify_contribution c (improve_signature c s') verify_indiv (s', chain)
      ]

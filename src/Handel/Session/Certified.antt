-- ===== src/Handel/Session/Certified.antt =====
-- The certificates that a session of overhead/handel/session.go gives the event loop.
use optilog_artifacts.Prelude.{
  ℕ, zero, suc, ◌+◌, ◌-◌, ◌≡◌, subst, true, Option, none, some, [], ◌∷◌, leb, length, Bool-cases,
  Option-cases, inl, inr, arith,
}
use optilog_artifacts.Prelude.Dict.{lookup}
use optilog_artifacts.Types.{QuorumSignature}
use optilog_artifacts.Chain.Known.{Universe}
use optilog_artifacts.Handel.Session.{
  Contribution, Level, Config, Session, session_done, panic, level_at, put_level,
}
use optilog_artifacts.Handel.Session.Score.{has_entry}
use optilog_artifacts.Handel.Session.Outgoing.{
  advance_level, passed_on, finish, bubble, update_outgoing, with_outgoing, is_level_complete,
}
use optilog_artifacts.Handel.Session.Calls.{
  add_individual, is_no_better, complete, improve, update_incoming,
}
use optilog_artifacts.Handel.Session.Sound.{
  IsAggregate, joined, IsJoined, IsSigned, IsVerified, IsSound, level_at-IsVerified,
  put_level-IsSound, emit-IsSound, if-IsSound, advance_level-IsSound, send_fast_path-IsSound,
}

module _ (config : Config) (u : Universe) (h : ℕ) where
  abbrev pub S : Session → Type 0
  S = IsSound config u h

  passed_on-IsJoined :
      (inc out sig : Option QuorumSignature)
      → IsJoined config u h inc
      → IsJoined config u h out
      → passed_on config inc out ≡ some sig
      → IsJoined config u h sig
  unfolding passed_on
  passed_on-IsJoined inc none sig p q e =
      subst (IsJoined config u h) {x = inc} {y = sig} (ground arith) p
  passed_on-IsJoined none (some out) sig p q e =
      subst (IsJoined config u h) {x = some out} {y = sig} (ground arith) q
  passed_on-IsJoined (some inc) (some out) sig p q e =
      elim (Option-cases (config.base.combine (inc ∷ out ∷ []))) [
        | inl w ↦ absurd (ground arith)
        | inr (r, w) ↦ subst (IsJoined config u h) {x = some r} {y = sig} (ground arith) (the r w)
      ]
    where
      the :
          (r : QuorumSignature)
          → config.base.combine (inc ∷ out ∷ []) ≡ some r
          → IsJoined config u h (some r)
      the r w = joined p q w

  finish-IsSound :
      (o : Option QuorumSignature) (s : Session)
      → IsJoined config u h o
      → S s
      → S (finish config o s)
  unfolding finish
  finish-IsSound none s p a = emit-IsSound config u h panic s tt a
  finish-IsSound (some sig) s p a =
      elim (Bool-cases (leb (config.quorum config.view) (length sig.participants))) [
        | inl e ↦ rw e (
            emit-IsSound config u h (session_done s.hash) _ tt
              (emit-IsSound config u h _ s (a.same_hash, ground arith, p) a))
        | inr e ↦ rw e a
      ]

  with_outgoing-IsSound :
      (i : ℕ) (o : Option QuorumSignature) (s : Session)
      → IsJoined config u h o
      → S s
      → S (with_outgoing config i o s)
  with_outgoing-IsSound i o s p a =
      put_level-IsSound config u h i _ s
        (record { incoming = (level_at-IsVerified config u h i s a).incoming; outgoing = p })
        (λ q. q) a

  next :
      (j : ℕ) (s : Session) (sig : Option QuorumSignature)
      → S s
      → passed_on config (level_at j s).incoming (level_at j s).outgoing ≡ some sig
      → IsJoined config u h sig
  next j s sig a e =
      let v = level_at-IsVerified config u h j s a in
      passed_on-IsJoined (level_at j s).incoming (level_at j s).outgoing sig v.incoming v.outgoing e

  bubble-IsSound : (n j : ℕ) (s : Session) → S s → S (bubble config n j s)
  unfolding bubble
  bubble-IsSound zero j s a =
      elim (Option-cases (passed_on config (level_at j s).incoming (level_at j s).outgoing)) [
        | inl e ↦ rw (e, bubble) a
        | inr (sig, e) ↦ rw (e, bubble) (finish-IsSound sig s (next j s sig a e) a)
      ]
  bubble-IsSound (suc n) j s a =
      elim (Option-cases (passed_on config (level_at j s).incoming (level_at j s).outgoing)) [
        | inl e ↦ rw (e, bubble) a
        | inr (none, e) ↦
            rw (e, bubble)
              (emit-IsSound config u h panic _ tt (with_outgoing-IsSound (j + 1) none s tt a))
        | inr (some sig, e) ↦
            rw (e, bubble)
              (bubble-IsSound n (j + 1) _
                (with_outgoing-IsSound (j + 1) (some sig) s (next j s (some sig) a e) a))
      ]

  pub update_outgoing-IsSound : (i : ℕ) (s : Session) → S s → S (update_outgoing config i s)
  unfolding update_outgoing
  update_outgoing-IsSound zero s a = emit-IsSound config u h panic s tt a
  update_outgoing-IsSound (suc j) s a = bubble-IsSound (config.max_level - j) j s a

  complete-IsSound : (i : ℕ) (s : Session) → S s → S (complete config i s)
  unfolding complete
  complete-IsSound i s a =
      if-IsSound config u h (leb (i + 1) config.max_level) _ _
        (send_fast_path-IsSound config u h (i + 1) _ advanced) advanced
    where
      advanced : S (advance_level config (put_level i (record (level_at i s) { done = true }) s))
      advanced =
          let v = level_at-IsVerified config u h i s a in
          advance_level-IsSound config u h _ (
            put_level-IsSound config u h i _ s
              (record { incoming = v.incoming; outgoing = v.outgoing }) (λ q. q) a)

  improve-IsSound :
      (c : Contribution) (s : Session)
      → IsAggregate config u h c.signature
      → S s
      → S (improve config c s)
  unfolding improve
  improve-IsSound c s g a = update_outgoing-IsSound (c.level + 1) _ (
      if-IsSound config u h (is_level_complete c.level s') _ s' (complete-IsSound c.level s' better)
        better)
    where
      s' : Session
      s' = put_level c.level (record (level_at c.level s) { incoming = some c.signature }) s

      better : S s'
      better =
          put_level-IsSound config u h c.level _ s
            (record {
              incoming = g;
              outgoing = (level_at-IsVerified config u h c.level s a).outgoing;
            })
            (λ q. g) a

  add_individual-IsVerified :
      (c : Contribution) (level : Level)
      → IsVerified config u h level
      → IsVerified config u h (add_individual c level)
  unfolding add_individual
  add_individual-IsVerified c level v =
      elim (Bool-cases (has_entry (lookup c.sender level.individual))) [
        | inl e ↦ rw e v
        | inr e ↦ rw e (record { incoming = v.incoming; outgoing = v.outgoing })
      ]

  add_individual-IsSigned :
      (c : Contribution) (level : Level)
      → IsSigned config u h level.incoming
      → IsSigned config u h (add_individual c level).incoming
  unfolding add_individual
  add_individual-IsSigned c level p =
      elim (Bool-cases (has_entry (lookup c.sender level.individual))) [
        | inl e ↦ rw e p
        | inr e ↦ rw e p
      ]

  pub update_incoming-IsSound :
      (c : Contribution) (s : Session)
      → IsAggregate config u h c.signature
      → S s
      → S (update_incoming config c s)
  unfolding update_incoming
  update_incoming-IsSound c s g a =
      let added =
        put_level-IsSound config u h c.level (add_individual c (level_at c.level s)) s
          (add_individual-IsVerified c (level_at c.level s)
            (level_at-IsVerified config u h c.level s a))
          (add_individual-IsSigned c (level_at c.level s)) a in
      if-IsSound config u h (is_no_better c.signature _) _ _ added (improve-IsSound c _ g added)

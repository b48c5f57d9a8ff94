-- ===== src/Handel/Session/Histories.antt =====
-- Histories of a session of overhead/handel/session.go: verified contributions come from itself.
use optilog_artifacts.Prelude.{
  ℕ, zero, suc, ◌+◌, ◌≡◌, refl, sym, subst, Bool, true, false, not, ◌&&◌, ◌||◌, Option, none, some,
  List, [], ◌∷◌, All, get_or, set, if◌then◌else◌, Option-cases, inl, inr, ◌⊎◌, In, arith,
}
use optilog_artifacts.Prelude.Integers.{pos}
use optilog_artifacts.Types.{Block, QuorumSignature, block_bytes}
use optilog_artifacts.Chain.{Chain, get}
use optilog_artifacts.Chain.Known.{Universe, IsHashed, IsFaithful, IsKnown, get-Answers}
use optilog_artifacts.Handel.Session.{
  Contribution, Level, Config, Session, Effect, add_contribution, new_level, blank,
}
use optilog_artifacts.Handel.Session.Pending.{insert_pending}
use optilog_artifacts.Handel.Session.Choose.{choose_contribution}
use optilog_artifacts.Handel.Session.Verify.{
  conclude, verify_contribution, verify_next, improve_signature, is_valid,
}
use optilog_artifacts.Handel.Session.Calls.{
  update_incoming, handle_contribution, Call, contributes, verifies, disseminates, activates, call,
  run, levels_from, new_session,
}
use optilog_artifacts.Handel.Session.Sound.{
  IsAggregate, checked, IsSigned, IsVerified, IsSound, All-set, All-get_or, emit-IsSound,
  if-IsSound, insert_pending-IsSound, choose_contribution-IsSound, advance_level-IsSound,
  send_contributions-IsSound, IsHonest,
}
use optilog_artifacts.Handel.Session.Certified.{update_outgoing-IsSound, update_incoming-IsSound}

module _ (config : Config) (u : Universe) (h : ℕ) where
  abbrev S : Session → Type 0
  S = IsSound config u h

  -- A verified contribution is one that the session has given the event loop.
  abbrev pub IsGenuine : Contribution → Session → Type 0
  IsGenuine c s = (c.verified ≡ false) ⊎ In (add_contribution c) s.out

  In-IsHonest :
      (e : Effect) (es : List Effect)
      → In e es
      → All (IsHonest config u h) es
      → IsHonest config u h e
  In-IsHonest e [] i a = absurd i
  In-IsHonest e (x ∷ es) (inl q) a = subst (IsHonest config u h) (sym q) a.0
  In-IsHonest e (x ∷ es) (inr i) a = In-IsHonest e es i a.1

  handle_contribution-IsSound :
      (c : Contribution) (s : Session) → IsGenuine c s → S s → S (handle_contribution config c s)
  unfolding handle_contribution
  handle_contribution-IsSound c s (inl q) a =
      subst (λ b. S (if b then update_incoming config c s else insert_pending config c s)) (sym q)
        (insert_pending-IsSound config u h c s a)
  handle_contribution-IsSound c s (inr i) a =
      if-IsSound config u h c.verified _ _
        (update_incoming-IsSound config u h c s (In-IsHonest (add_contribution c) s.out i a.honest)
          a)
        (insert_pending-IsSound config u h c s a)

  conclude-IsSound :
      (c : Contribution) (sig : QuorumSignature) (ok : Bool) (s : Session)
      → (ok ≡ true → IsAggregate config u h sig)
      → S s
      → S (conclude config c sig ok s)
  unfolding conclude
  conclude-IsSound c sig true s g a =
      let b =
        emit-IsSound config u h
          (add_contribution (record c {
            hash = s.hash;
            signature = sig;
            verified = true;
            deferred = false;
            score = pos 0;
          }))
          s (g refl) a in
      record { same_hash = b.same_hash; levels = b.levels; own = b.own; honest = b.honest }
  conclude-IsSound c sig false s g a = record {
    same_hash = a.same_hash;
    levels = a.levels;
    own = a.own;
    honest = a.honest;
  }

  module _ (hashed : IsHashed u) (faithful : IsFaithful u config.fetch) where
    abbrev pub Both : Session × Chain → Type 0
    Both r = IsSound config u h r.0 × IsKnown u r.1

    verify_contribution-Both :
        (c : Contribution) (sig : QuorumSignature) (indiv : Bool) (s : Session) (chain : Chain)
        → Both (s, chain)
        → Both (verify_contribution config c sig indiv (s, chain))
    unfolding verify_contribution
    verify_contribution-Both c sig indiv s chain (a, known) =
        let answers = get-Answers u config.fetch s.hash chain hashed faithful known in
        elim (Option-cases (get config.fetch s.hash chain).0) [
          | inl e ↦ rw (e, verify_contribution) (a, answers.known)
          | inr (b, e) ↦
              rw (e, verify_contribution)
                (
                  conclude-IsSound c sig
                      (((indiv && is_valid config c.individual b) || not indiv)
                        && is_valid config sig b)
                      s
                      (λ ok.
                        checked b (subst (λ k. u k ≡ some b) a.same_hash (answers.found b e))
                          (ground arith))
                      a,
                  answers.known,
                )
        ]

    verify_next-Both : (r : Session × Chain) → Both r → Both (verify_next config r)
    unfolding verify_next
    verify_next-Both (s, chain) (a, known) =
        let b = choose_contribution-IsSound config u h s a in
        chosen (choose_contribution config s).0 b
      where
        chosen :
            (o : Option (Contribution × Bool))
            → S (choose_contribution config s).1
            → Both (elim o [
              | none ↦ ((choose_contribution config s).1, chain)
              | some (c, verify_indiv) ↦
                  verify_contribution config c
                    (improve_signature config c (choose_contribution config s).1)
                    verify_indiv
                    ((choose_contribution config s).1, chain)
            ])
        chosen none b = (b, known)
        chosen (some (c, indiv)) b =
            verify_contribution-Both c _ indiv (choose_contribution config s).1 chain (b, known)

    -- The contributions that are flagged as verified come from the session itself.
    abbrev pub IsGenuineCall : Call config → Session → Type 0
    IsGenuineCall (contributes c) s = IsGenuine c s
    IsGenuineCall _ s = Unit {0}

    call-Both :
        (x : Call config) (r : Session × Chain)
        → IsGenuineCall x r.0
        → Both r
        → Both (call config x r)
    unfolding call
    call-Both (contributes c) (s, chain) g (a, known) = (handle_contribution-IsSound c s g a, known)
    call-Both verifies (s, chain) g b = verify_next-Both (s, chain) b
    call-Both disseminates (s, chain) g (a, known) =
        (send_contributions-IsSound config u h s a, known)
    call-Both activates (s, chain) g (a, known) = (advance_level-IsSound config u h s a, known)

    abbrev pub AreGenuine : List (Call config) → Session × Chain → Type 0
    AreGenuine [] r = Unit {0}
    AreGenuine (x ∷ calls) r = IsGenuineCall x r.0 × AreGenuine calls (call config x r)

    -- Over any calls the levels and what is announced stay sound.
    run-IsSound :
        (calls : List (Call config)) (r : Session × Chain)
        → AreGenuine calls r
        → IsSound config u h r.0
        → IsKnown u r.1
        → IsSound config u h (run config calls r).0 × IsKnown u (run config calls r).1
    unfolding run
    run-IsSound [] r g a known = (a, known)
    run-IsSound (x ∷ calls) r g a known =
        let b = call-Both x r g.0 (a, known) in run-IsSound calls (call config x r) g.1 b.0 b.1

    levels_from-IsVerified :
        (shuffled : ℕ → List ℕ) (ids : List ℕ) (n i : ℕ)
        → All (IsVerified config u h) (levels_from config shuffled ids n i)
    unfolding levels_from new_level
    levels_from-IsVerified shuffled ids zero i = tt
    levels_from-IsVerified shuffled ids (suc n) i =
        (record { incoming = tt; outgoing = tt }, levels_from-IsVerified shuffled ids n (i + 1))

    -- There is a level 0, so it holds what it is given.
    own-IsSigned :
        (shuffled : ℕ → List ℕ) (ids : List ℕ) (n m : ℕ) (v : Level)
        → m ≡ n + 1
        → IsSigned config u h v.incoming
        → IsSigned config u h
            (get_or (set (levels_from config shuffled ids m 0) 0 v) 0 blank).incoming
    unfolding levels_from
    own-IsSigned shuffled ids n zero v e p = absurd (omega arith)
    own-IsSigned shuffled ids n (suc m) v e p = p

    new_session-IsSound :
        (shuffled : ℕ → List ℕ) (ids : List ℕ) (own : QuorumSignature)
        → IsAggregate config u h own
        → S (new_session config shuffled ids h own)
    unfolding new_session
    new_session-IsSound shuffled ids own g = update_outgoing-IsSound config u h 1 _ (record {
      same_hash = refl;
      levels =
          All-set config u h _ 0 _ empty
            (record { incoming = g; outgoing = (All-get_or config u h _ 0 empty).outgoing });
      own = own-IsSigned shuffled ids config.max_level (config.max_level + 1) _ refl g;
      honest = tt;
    })
      where
        empty :
            All (IsVerified config u h) (levels_from config shuffled ids (config.max_level + 1) 0)
        empty = levels_from-IsVerified shuffled ids (config.max_level + 1) 0

    -- Over any calls of a session of Handel that begins with a valid signature of an existing
    -- block, each certificate that it gives the event loop is for the hash of the session and has
    -- a quorum of participants and a signature that was verified for the block of the hash or
    -- combined of such signatures, and so are the best signatures of the levels and both
    -- signatures of each contribution that is sent, neither of which is missing, if verified
    -- contributions come only from the session itself and the network answers with the block asked
    -- for.
    pub session-IsSound :
        (shuffled : ℕ → List ℕ) (ids : List ℕ) (own : QuorumSignature) (b : Block) (chain : Chain)
        (calls : List (Call config))
        → u h ≡ some b
        → config.base.verify own (block_bytes b) ≡ true
        → IsKnown u chain
        → AreGenuine calls (new_session config shuffled ids h own, chain)
        → IsSound config u h (run config calls (new_session config shuffled ids h own, chain)).0
    session-IsSound shuffled ids own b chain calls exists valid known genuine =
        (run-IsSound calls _ genuine (new_session-IsSound shuffled ids own (checked b exists valid))
          known).0

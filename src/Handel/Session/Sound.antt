-- ===== src/Handel/Session/Sound.antt =====
-- What the signatures of a session of overhead/handel/session.go are made of, and what the choice of
-- a contribution and the sending leave as it is.
use optilog_artifacts.Prelude.{
  ℕ, zero, suc, ◌+◌, ◌≤◌, ◌≡◌, Bool, true, false, Option, none, some, List, [], ◌∷◌, ◌==◌, ltb, leb,
  min, All, length, get_or, set, if◌then◌else◌, map,
}
use optilog_artifacts.Prelude.Dict.{lookup}
use optilog_artifacts.Types.{Block, QuorumSignature, QuorumCert, block_bytes}
use optilog_artifacts.Chain.Known.{Universe}
use optilog_artifacts.Handel.Session.{
  Contribution, Level, Config, Session, Effect, contribute, add_contribution, new_view,
  session_done, panic, emit, level_at, put_level, blank, partition_of, size_of, valid_level,
  or_zero,
}
use optilog_artifacts.Handel.Session.Score.{score}
use optilog_artifacts.Handel.Session.Pending.{
  insert_sorted, insert_pending, is_from, is_negative, search, priority, sender_at,
}
use optilog_artifacts.Handel.Session.Choose.{
  choose_rated, choose_from_level, choices_from, put_back, put_back_others, pick,
  choose_contribution, rate, best_choice,
}
use optilog_artifacts.Handel.Session.Outgoing.{
  advance_level, delay, send_part, send_outgoing, send_contribution_to_level, send_from,
  send_contributions, send_times, send_fast_path, least_from,
}

module _ (config : Config) (u : Universe) (h : ℕ) where
  -- A signature that was verified for the block of the hash, or was combined of two such signatures.
  pub data IsAggregate : QuorumSignature → Type 0 where
    checked :
        {sig : QuorumSignature} (b : Block)
        → u h ≡ some b
        → config.base.verify sig (block_bytes b) ≡ true
        → IsAggregate sig
    joined :
        {s t r : QuorumSignature}
        → IsAggregate s
        → IsAggregate t
        → config.base.combine (s ∷ t ∷ []) ≡ some r
        → IsAggregate r

  abbrev pub IsJoined : Option QuorumSignature → Type 0
  IsJoined none = Unit {0}
  IsJoined (some sig) = IsAggregate sig

  -- There is a signature, and it is such a one.
  abbrev pub IsSigned : Option QuorumSignature → Type 0
  IsSigned none = ⊥
  IsSigned (some sig) = IsAggregate sig

  abbrev pub IsComplete : QuorumCert → Option QuorumSignature → Type 0
  IsComplete qc none = ⊥
  IsComplete qc (some sig) =
      (qc.hash ≡ h) × (config.quorum qc.view ≤ length sig.participants) × IsAggregate sig

  abbrev pub IsHonest : Effect → Type 0
  IsHonest (contribute to level sig indiv) = IsAggregate sig × IsSigned indiv
  IsHonest (add_contribution c) = IsAggregate c.signature
  IsHonest (new_view qc) = IsComplete qc qc.signature
  IsHonest (session_done hash) = Unit {0}
  IsHonest panic = Unit {0}

  pub record IsVerified (level : Level) : Type 0 where
    pub incoming : IsJoined level.incoming
    pub outgoing : IsJoined level.outgoing

  -- The best signatures of the levels and what they pass on, the own one at level 0, and what is sent
  -- and announced.
  pub record IsSound (s : Session) : Type 0 where
    pub same_hash : s.hash ≡ h
    pub levels : All IsVerified s.levels
    pub own : IsSigned (level_at 0 s).incoming
    pub honest : All IsHonest s.out

  pub All-set :
      (xs : List Level) (i : ℕ) (v : Level)
      → All IsVerified xs
      → IsVerified v
      → All IsVerified (set xs i v)
  All-set [] i v a p = a
  All-set (x ∷ xs) zero v a p = (p, a.1)
  All-set (x ∷ xs) (suc i) v a p = (a.0, All-set xs i v a.1 p)

  set-IsSigned :
      (xs : List Level) (i : ℕ) (v : Level)
      → IsSigned (get_or xs 0 blank).incoming
      → (IsSigned (get_or xs i blank).incoming → IsSigned v.incoming)
      → IsSigned (get_or (set xs i v) 0 blank).incoming
  set-IsSigned [] i v p f = p
  set-IsSigned (x ∷ xs) zero v p f = f p
  set-IsSigned (x ∷ xs) (suc i) v p f = p

  pub All-get_or : (xs : List Level) (i : ℕ) → All IsVerified xs → IsVerified (get_or xs i blank)
  All-get_or [] i a = record { incoming = tt; outgoing = tt }
  All-get_or (x ∷ xs) zero a = a.0
  All-get_or (x ∷ xs) (suc i) a = All-get_or xs i a.1

  pub level_at-IsVerified : (i : ℕ) (s : Session) → IsSound s → IsVerified (level_at i s)
  level_at-IsVerified i s a = All-get_or s.levels i a.levels

  pub put_level-IsSound :
      (i : ℕ) (level : Level) (s : Session)
      → IsVerified level
      → (IsSigned (level_at i s).incoming → IsSigned level.incoming)
      → IsSound s
      → IsSound (put_level i level s)
  put_level-IsSound i level s v f a = record {
    same_hash = a.same_hash;
    levels = All-set s.levels i level a.levels v;
    own = set-IsSigned s.levels i level a.own f;
    honest = a.honest;
  }

  pub emit-IsSound : (e : Effect) (s : Session) → IsHonest e → IsSound s → IsSound (emit e s)
  emit-IsSound e s p a = record {
    same_hash = a.same_hash;
    levels = a.levels;
    own = a.own;
    honest = (p, a.honest);
  }

  pub if-IsSound : (b : Bool) (x y : Session) → IsSound x → IsSound y → IsSound (if b then x else y)
  if-IsSound true x y p q = p
  if-IsSound false x y p q = q

  -- A level with other waiting contributions.
  same_level :
      (i : ℕ) (pending : List Contribution) (s : Session)
      → IsSound s
      → IsSound (put_level i (record (level_at i s) { pending = pending }) s)
  same_level i pending s a =
      let v = level_at-IsVerified i s a in
      put_level-IsSound i _ s (record { incoming = v.incoming; outgoing = v.outgoing }) (λ p. p) a

  insert_sorted-IsVerified :
      (c : Contribution) (level : Level) → IsVerified level → IsVerified (insert_sorted c level)
  unfolding insert_sorted
  insert_sorted-IsVerified c level v =
      either (is_from c.sender place level.pending) _ _
        (record { incoming = v.incoming; outgoing = v.outgoing })
        (record { incoming = v.incoming; outgoing = v.outgoing })
    where
      place : ℕ
      place =
          search (length level.pending)
            (λ i. leb (priority level.vp (sender_at level.pending i)) (priority level.vp c.sender))

      either :
          (b : Bool) (x y : Level) → IsVerified x → IsVerified y → IsVerified (if b then x else y)
      either true x y p q = p
      either false x y p q = q

  insert_sorted-IsSigned :
      (c : Contribution) (level : Level)
      → IsSigned level.incoming
      → IsSigned (insert_sorted c level).incoming
  unfolding insert_sorted
  insert_sorted-IsSigned c level p = either (is_from c.sender place level.pending) _ _ p p
    where
      place : ℕ
      place =
          search (length level.pending)
            (λ i. leb (priority level.vp (sender_at level.pending i)) (priority level.vp c.sender))

      either :
          (b : Bool) (x y : Level)
          → IsSigned x.incoming
          → IsSigned y.incoming
          → IsSigned (if b then x else y).incoming
      either true x y p q = p
      either false x y p q = q

  pub insert_pending-IsSound :
      (c : Contribution) (s : Session) → IsSound s → IsSound (insert_pending config c s)
  unfolding insert_pending
  insert_pending-IsSound c s a =
      if-IsSound (valid_level config c.level) _ s
        (if-IsSound (is_negative (score config c s)) s _ a (
          put_level-IsSound c.level _ s
            (insert_sorted-IsVerified c (level_at c.level s) (level_at-IsVerified c.level s a))
            (insert_sorted-IsSigned c (level_at c.level s)) a))
        a

  choose_rated-IsVerified :
      (level : Level) (window : ℕ) (cs : List Contribution)
      → IsVerified level
      → IsVerified (choose_rated config level window cs).1
  unfolding choose_rated
  choose_rated-IsVerified level window [] v = v
  choose_rated-IsVerified level window (c ∷ cs) v = record {
    incoming = v.incoming;
    outgoing = v.outgoing;
  }

  choose_rated-IsSigned :
      (level : Level) (window : ℕ) (cs : List Contribution)
      → IsSigned level.incoming
      → IsSigned (choose_rated config level window cs).1.incoming
  unfolding choose_rated
  choose_rated-IsSigned level window [] p = p
  choose_rated-IsSigned level window (c ∷ cs) p = p

  if-pair :
      {B : Type 0} (b : Bool) (x y : B × Session)
      → IsSound x.1
      → IsSound y.1
      → IsSound (if b then x else y).1
  if-pair true x y p q = p
  if-pair false x y p q = q

  choose_from_level-IsSound :
      (i : ℕ) (s : Session) → IsSound s → IsSound (choose_from_level config i s).1
  unfolding choose_from_level
  choose_from_level-IsSound i s a =
      if-pair (level_at i s).done (none, s) _ a
        (put_level-IsSound i _ s
          (choose_rated-IsVerified (level_at i s) s.window.window
            (map (rate config s) (level_at i s).pending) (level_at-IsVerified i s a))
          (choose_rated-IsSigned (level_at i s) s.window.window
            (map (rate config s) (level_at i s).pending))
          a)

  choices_from-IsSound :
      (n i : ℕ) (r : List Contribution × Session)
      → IsSound r.1
      → IsSound (choices_from config n i r).1
  unfolding choices_from
  choices_from-IsSound zero i r a = a
  choices_from-IsSound (suc n) i (cs, s) a =
      choices_from-IsSound n (i + 1) _
        (if-pair (level_at i s).done (cs, s) _ a (choose_from_level-IsSound i s a))

  put_back_others-IsSound :
      (best i : ℕ) (cs : List Contribution) (s : Session)
      → IsSound s
      → IsSound (put_back_others config best i cs s)
  unfolding put_back_others put_back
  put_back_others-IsSound best i [] s a = a
  put_back_others-IsSound best i (c ∷ cs) s a =
      put_back_others-IsSound best (i + 1) cs _ (if-IsSound (i == best) s _ a (same_level i _ s a))

  pick-IsSound : (cs : List Contribution) (s : Session) → IsSound s → IsSound (pick config cs s).1
  unfolding pick
  pick-IsSound [] s a = a
  pick-IsSound (c ∷ cs) s a =
      put_back_others-IsSound (best_choice config 1 (0, c) cs).0 0 (c ∷ cs) s a

  pub choose_contribution-IsSound :
      (s : Session) → IsSound s → IsSound (choose_contribution config s).1
  unfolding choose_contribution
  choose_contribution-IsSound s a =
      pick-IsSound (choices_from config s.active_level_index 1 ([], s)).0 _
        (choices_from-IsSound s.active_level_index 1 ([], s) a)

  pub advance_level-IsSound : (s : Session) → IsSound s → IsSound (advance_level config s)
  unfolding advance_level
  advance_level-IsSound s a =
      if-IsSound (ltb config.max_level (s.active_level_index + 1)) s _ a
        (record { same_hash = a.same_hash; levels = a.levels; own = a.own; honest = a.honest })

  delay-IsSound : (id i : ℕ) (s : Session) → IsSound s → IsSound (delay config id i s)
  delay-IsSound id i s a =
      let v = level_at-IsVerified i s a in
      put_level-IsSound i _ s (record { incoming = v.incoming; outgoing = v.outgoing }) (λ p. p) a

  send_part-IsSound :
      (i : ℕ) (sig : QuorumSignature) (ids : List ℕ) (s : Session)
      → IsAggregate sig
      → IsSound s
      → IsSound (send_part config i sig ids s)
  unfolding send_part
  send_part-IsSound i sig [] s g a = emit-IsSound panic s tt a
  send_part-IsSound i sig (id ∷ ids) s g a =
      let to = least_from (level_at i s) id (or_zero (lookup id (level_at i s).cp)) (id ∷ ids) in
      delay-IsSound to i _ (if-IsSound (config.has_node to) _ s (emit-IsSound _ s (g, a.own) a) a)

  send_outgoing-IsSound :
      (i : ℕ) (o : Option QuorumSignature) (s : Session)
      → IsJoined o
      → IsSound s
      → IsSound (send_outgoing config i o s)
  send_outgoing-IsSound i none s g a = a
  send_outgoing-IsSound i (some sig) s g a = send_part-IsSound i sig (partition_of i s) s g a

  send-IsSound : (i : ℕ) (s : Session) → IsSound s → IsSound (send_contribution_to_level config i s)
  unfolding send_contribution_to_level
  send-IsSound i s a =
      send_outgoing-IsSound i (level_at i s).outgoing s (level_at-IsVerified i s a).outgoing a

  send_from-IsSound : (n i : ℕ) (s : Session) → IsSound s → IsSound (send_from config n i s)
  unfolding send_from
  send_from-IsSound zero i s a = a
  send_from-IsSound (suc n) i s a =
      send_from-IsSound n (i + 1) _ (if-IsSound (level_at i s).done s _ a (send-IsSound i s a))

  send_times-IsSound : (n i : ℕ) (s : Session) → IsSound s → IsSound (send_times config n i s)
  unfolding send_times
  send_times-IsSound zero i s a = a
  send_times-IsSound (suc n) i s a = send_times-IsSound n i _ (send-IsSound i s a)

  pub send_contributions-IsSound : (s : Session) → IsSound s → IsSound (send_contributions config s)
  unfolding send_contributions
  send_contributions-IsSound s a = send_from-IsSound s.active_level_index 1 s a

  pub send_fast_path-IsSound :
      (i : ℕ) (s : Session) → IsSound s → IsSound (send_fast_path config i s)
  unfolding send_fast_path
  send_fast_path-IsSound i s a = send_times-IsSound (min 10 (size_of i s)) i s a

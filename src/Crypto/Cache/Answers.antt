-- ===== src/Crypto/Cache/Answers.antt =====
-- The answers of the cache of overhead/crypto/cache.go after any calls.
use optilog_artifacts.Prelude.{
  ℕ, ◌≡◌, subst, ◌<◌, ◌^◌, refl, Bool, true, false, Option, none, some, List, ◌⊎◌, arith,
  list_eq_refl, Bool-cases, inl, inr,
}
use optilog_artifacts.Prelude.Dict.{Dict}
use optilog_artifacts.Prelude.Keys.{Key, has_key}
use optilog_artifacts.Types.{QuorumSignature}
use optilog_artifacts.Crypto.{CryptoBase}
use optilog_artifacts.Crypto.Cache.{
  Cache, new_cache, move_to_front, evict, push_front, insert, check, returning, signature_key,
  batch_key, ask, verify, batch_verify,
}
use optilog_artifacts.Crypto.Cache.Valid.{Call, perform_all}
use optilog_artifacts.Crypto.Cache.Genuine.{
  Origin, Keeps, Stands, on_accepted, all-Keeps, Origin-Stands,
}

abbrev pub answer : Option (Bool × Cache) → Option Bool
answer none = none
answer (some (b, c)) = some b

module _ (base : CryptoBase) (sha256 : List ℕ → ℕ) where
  -- An answer of true is kept or the implementation's.
  ask_yes :
      (key : Key) (valid : Bool) (c d : Cache)
      → ask base sha256 key valid (check key c) ≡ some (true, d)
      → (has_key key c.entries ≡ true) ⊎ (valid ≡ true)
  unfolding ask check
  ask_yes key valid c d e = elim (Bool-cases (has_key key c.entries)) [
    | inl h ↦ inl h
    | inr h ↦ inr (by_answer valid (rw (h, ask, check) at e))
  ]
    where
      by_answer : (b : Bool) → ask base sha256 key b (false, c) ≡ some (true, d) → b ≡ true
      by_answer true e = refl
      by_answer false e = absurd (ground arith)

  -- After a true answer the key is kept.
  insert-kept : (key : Key) (c d : Cache) → insert key c ≡ some d → has_key key d.entries ≡ true
  unfolding insert move_to_front has_key
  insert-kept key c d e = elim (Bool-cases (has_key key c.entries)) [
    | inl h ↦ ground arith
    | inr h ↦ go (evict c) (rw (h, insert) at e)
  ]
    where
      go : (o : Option Cache) → push_front key o ≡ some d → has_key key d.entries ≡ true
      go none e = absurd (ground arith)
      go (some b) e = ground (arith, list_eq_refl key)

  ask-kept :
      (key : Key) (valid : Bool) (r : Bool × Cache) (d : Cache)
      → (r.0 ≡ true → has_key key r.1.entries ≡ true)
      → ask base sha256 key valid r ≡ some (true, d)
      → has_key key d.entries ≡ true
  unfolding ask
  ask-kept key valid (true, c) d h e = ground (arith, h refl)
  ask-kept key true (false, c) d h e = go (insert key c) (λ b. insert-kept key c b) e
    where
      go :
          (o : Option Cache)
          → ((b : Cache) → o ≡ some b → has_key key b.entries ≡ true)
          → returning true o ≡ some (true, d)
          → has_key key d.entries ≡ true
      go none f e = absurd (ground arith)
      go (some b) f e = ground (arith, f b refl)
  ask-kept key false (false, c) d h e = absurd (ground arith)

  hit :
      (key : Key) (valid : Bool) (d : Cache)
      → has_key key d.entries ≡ true
      → answer (ask base sha256 key valid (check key d)) ≡ some true
  unfolding ask check
  hit key valid d h = rw (h, check, ask) refl

  check-kept :
      (key : Key) (c : Cache) → (check key c).0 ≡ true → has_key key (check key c).1.entries ≡ true
  unfolding check move_to_front
  check-kept key c h = elim (Bool-cases (has_key key c.entries)) [
    | inl e ↦ rw (e, check) e
    | inr e ↦ absurd (ground arith)
  ]

  -- Once BatchVerify of the signature cache has answered true, it answers true for the same
  -- signature and any other batch.
  pub batch_verify_any :
      (sig : QuorumSignature) (batch other : Dict (List ℕ)) (c d : Cache)
      → batch_verify base sha256 sig batch c ≡ some (true, d)
      → answer (batch_verify base sha256 sig other d) ≡ some true
  unfolding batch_verify
  batch_verify_any sig batch other c d e =
      let key = batch_key base sha256 sig in
      hit key (base.batch_verify sig other) d
        (ask-kept key (base.batch_verify sig batch) (check key c) d (check-kept key c) e)

  -- After any calls of the signature cache, a true answer of Verify stands on a signature of the
  -- same bytes that the scheme has accepted or made for a message of the same hash, or, where the
  -- hash of the message is 0, has accepted for a batch, if hashes have 256 bits.
  pub verify-Stands :
      ((m : List ℕ) → sha256 m < 2 ^ 256)
      → (capacity : ℕ) (calls : List Call) (sig : QuorumSignature) (message : List ℕ) (c d : Cache)
      → perform_all base sha256 calls (new_cache capacity) ≡ some c
      → verify base sha256 sig message c ≡ some (true, d)
      → Stands base sha256 sig message
  unfolding verify new_cache has_key
  verify-Stands bounded capacity calls sig message c d e f =
      let key = signature_key base sha256 message sig in
      elim (ask_yes key (base.verify sig message) c d f) [
        | inl h ↦ Origin-Stands base sha256 sig message bounded (
            subst (Keeps (Origin base sha256)) e
              (all-Keeps base sha256 calls (new_cache capacity) (λ k h. absurd (ground arith))) key
              h)
        | inr h ↦ on_accepted message sig h refl refl
      ]

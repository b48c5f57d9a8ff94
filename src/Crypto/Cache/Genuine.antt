-- ===== src/Crypto/Cache/Genuine.antt =====
-- What the answers of the cache of overhead/crypto/cache.go stand on.
use optilog_artifacts.Prelude.{
  ℕ, ◌<◌, ◌^◌, ◌≡◌, refl, sym, subst, Bool, true, false, Option, none, some, List, [], ◌∷◌, ltb,
  arith, length, list_eq, list_eq_sound, Bool-cases, inl, inr,
}
use optilog_artifacts.Prelude.Dict.{Dict}
use optilog_artifacts.Prelude.Keys.{Key, has_key, split_last, has_key-remove_key}
use optilog_artifacts.Types.{QuorumSignature, hash_bytes}
use optilog_artifacts.Types.Bytes.{put_le-cancel}
use optilog_artifacts.Crypto.{CryptoBase}
use optilog_artifacts.Crypto.Cache.{
  Cache, move_to_front, drop_back, evict, push_front, insert, check, returning, signature_key,
  batch_key, sign, ask, verify, batch_verify, signed,
}
use optilog_artifacts.Crypto.Cache.Valid.{
  Call, signs, verifies, verifies_batch, perform, perform_all, and_then, after,
}

-- The keys of a cache are among those of a list of keys.
abbrev pub IsWithin : (Key → Type 0) → Cache → Type 0
IsWithin P c = (k : Key) → has_key k c.entries ≡ true → P k

abbrev pub Keeps : (Key → Type 0) → Option Cache → Type 0
Keeps P none = Unit {0}
Keeps P (some c) = IsWithin P c

module _ (P : Key → Type 0) (c : Cache) (w : IsWithin P c) where
  drop_back-Keeps : (order : List Key) → Keeps P (drop_back c order)
  drop_back-Keeps [] = tt
  drop_back-Keeps (x ∷ xs) =
      λ k h. w k (ground (arith, has_key-remove_key (split_last x xs).1 k c.entries))

  evict-Keeps : Keeps P (evict c)
  unfolding evict
  evict-Keeps = elim (Bool-cases (ltb (length c.entries) c.capacity)) [
    | inl e ↦ rw (e, evict) w
    | inr e ↦ rw (e, evict) (drop_back-Keeps c.access_order)
  ]

  pushed-Keeps : (key : Key) → P key → (o : Option Cache) → Keeps P o → Keeps P (push_front key o)
  unfolding has_key
  pushed-Keeps key p none k = tt
  pushed-Keeps key p (some d) u = λ k h. elim (Bool-cases (list_eq key k)) [
    | inl e ↦ subst P (list_eq_sound key k e) p
    | inr e ↦ u k (ground arith)
  ]

  insert-Keeps : (key : Key) → P key → Keeps P (insert key c)
  unfolding insert move_to_front
  insert-Keeps key p = elim (Bool-cases (has_key key c.entries)) [
    | inl e ↦ rw (e, insert) w
    | inr e ↦ rw (e, insert) (pushed-Keeps key p (evict c) evict-Keeps)
  ]

  check-IsWithin : (key : Key) → IsWithin P (check key c).1
  unfolding check move_to_front
  check-IsWithin key = elim (Bool-cases (has_key key c.entries)) [
    | inl e ↦ rw (e, check) w
    | inr e ↦ rw (e, check) w
  ]

module _ (base : CryptoBase) (sha256 : List ℕ → ℕ) where
  -- Where a key can come from.
  pub data Origin (key : Key) : Type 0 where
    made :
        (message : List ℕ) (sig : QuorumSignature)
        → base.sign message ≡ some sig
        → signature_key base sha256 message sig ≡ key
        → Origin key
    accepted :
        (message : List ℕ) (sig : QuorumSignature)
        → base.verify sig message ≡ true
        → signature_key base sha256 message sig ≡ key
        → Origin key
    accepted_batch :
        (batch : Dict (List ℕ)) (sig : QuorumSignature)
        → base.batch_verify sig batch ≡ true
        → batch_key base sha256 sig ≡ key
        → Origin key

  abbrev HasOrigin : Cache → Type 0
  HasOrigin c = IsWithin Origin c

  returned :
      {A : Type 0} (a : A) (o : Option Cache)
      → Keeps Origin o
      → Keeps Origin (after (returning a o))
  returned a none k = k
  returned a (some c) k = k

  ask-Keeps :
      (key : Key) (valid : Bool)
      → (valid ≡ true → Origin key)
      → (r : Bool × Cache) → IsWithin Origin r.1
      → Keeps Origin (after (ask base sha256 key valid r))
  unfolding ask
  ask-Keeps key valid p (true, c) w = w
  ask-Keeps key true p (false, c) w =
      returned true (insert key c) (insert-Keeps Origin c w key (p refl))
  ask-Keeps key false p (false, c) w = w

  signed-Keeps :
      (message : List ℕ) (o : Option QuorumSignature) (c : Cache)
      → base.sign message ≡ o
      → IsWithin Origin c
      → Keeps Origin (after (signed base sha256 message o c))
  signed-Keeps message none c e w = w
  signed-Keeps message (some sig) c e w =
      let key = signature_key base sha256 message sig in
      returned (some sig) (insert key c) (insert-Keeps Origin c w key (made message sig e refl))

  perform-Keeps :
      (x : Call) (c : Cache) → IsWithin Origin c → Keeps Origin (perform base sha256 x c)
  unfolding perform sign verify batch_verify
  perform-Keeps (signs message) c w = signed-Keeps message (base.sign message) c refl w
  perform-Keeps (verifies sig message) c w =
      let key = signature_key base sha256 message sig in
      ask-Keeps key (base.verify sig message) (λ e. accepted message sig e refl) (check key c)
        (check-IsWithin Origin c w key)
  perform-Keeps (verifies_batch sig batch) c w =
      let key = batch_key base sha256 sig in
      ask-Keeps key (base.batch_verify sig batch) (λ e. accepted_batch batch sig e refl)
        (check key c) (check-IsWithin Origin c w key)

  pub all-Keeps :
      (xs : List Call) (c : Cache) → IsWithin Origin c → Keeps Origin (perform_all base sha256 xs c)
  unfolding perform_all
  all-Keeps [] c w = w
  all-Keeps (x ∷ xs) c w = go (perform base sha256 x c) (perform-Keeps x c w) (all-Keeps xs)
    where
      go :
          (o : Option Cache)
          → Keeps Origin o
          → ((d : Cache) → IsWithin Origin d → Keeps Origin (perform_all base sha256 xs d))
          → Keeps Origin (and_then (perform_all base sha256 xs) o)
      go none k f = tt
      go (some d) k f = f d k

  -- What a true answer stands on.
  pub data Stands (sig : QuorumSignature) (message : List ℕ) : Type 0 where
    on_own :
        (m : List ℕ) (s : QuorumSignature)
        → base.sign m ≡ some s
        → sha256 m ≡ sha256 message
        → s.bytes ≡ sig.bytes
        → Stands sig message
    on_accepted :
        (m : List ℕ) (s : QuorumSignature)
        → base.verify s m ≡ true
        → sha256 m ≡ sha256 message
        → s.bytes ≡ sig.bytes
        → Stands sig message
    on_batch :
        (batch : Dict (List ℕ)) (s : QuorumSignature)
        → base.batch_verify s batch ≡ true
        → sha256 message ≡ 0
        → s.bytes ≡ sig.bytes
        → Stands sig message

  module _ (sig : QuorumSignature) (message : List ℕ) where
    module _ (bounded : (m : List ℕ) → sha256 m < 2 ^ 256) where
      keys_equal :
          (m : List ℕ) (s : QuorumSignature)
          → signature_key base sha256 m s ≡ signature_key base sha256 message sig
          → (sha256 m ≡ sha256 message) × (s.bytes ≡ sig.bytes)
      unfolding signature_key hash_bytes
      keys_equal m s e =
          put_le-cancel 32 (sha256 m) (sha256 message) s.bytes sig.bytes (omega (arith, bounded m))
            (omega (arith, bounded message)) e

      batch_equal :
          (s : QuorumSignature)
          → batch_key base sha256 s ≡ signature_key base sha256 message sig
          → (0 ≡ sha256 message) × (s.bytes ≡ sig.bytes)
      unfolding signature_key batch_key hash_bytes
      batch_equal s e =
          put_le-cancel 32 0 (sha256 message) s.bytes sig.bytes (omega arith)
            (omega (arith, bounded message)) e

      pub Origin-Stands : Origin (signature_key base sha256 message sig) → Stands sig message
      Origin-Stands (made m s h e) = let (x, y) = keys_equal m s e in on_own m s h x y
      Origin-Stands (accepted m s h e) = let (x, y) = keys_equal m s e in on_accepted m s h x y
      Origin-Stands (accepted_batch batch s h e) =
          let (x, y) = batch_equal s e in on_batch batch s h (sym x) y

-- ===== src/Crypto/Cache/Valid.antt =====
-- The size and the order of the cache of overhead/crypto/cache.go.
use optilog_artifacts.Prelude.{
  ℕ, suc, ◌+◌, ◌≤◌, ◌<◌, ◌≡◌, refl, sym, ap, ◌∙◌, subst, Bool, true, false, ◌||◌, Option, none,
  some, List, [], ◌∷◌, ltb, arith, length, list_eq, list_eq_refl, list_eq_sound, Bool-cases, inl,
  inr,
}
use optilog_artifacts.Prelude.Dict.{Dict}
use optilog_artifacts.Prelude.Keys.{
  Key, has_key, remove_key, split_last, AreDistinct, has_key-remove_key, length-remove_key,
  remove_key-AreDistinct, split_last-has_key, split_last-length, split_last-AreDistinct,
}
use optilog_artifacts.Types.{QuorumSignature}
use optilog_artifacts.Crypto.{CryptoBase}
use optilog_artifacts.Crypto.Cache.{
  Cache, new_cache, move_to_front, drop_back, evict, push_front, insert, check, returning,
  signature_key, batch_key, sign, ask, verify, batch_verify, signed,
}

-- The map and the access list hold the same keys, each once, and no more than fit.
pub record IsValid (c : Cache) : Type 0 where
  pub positive : 0 < c.capacity
  pub bounded : length c.entries ≤ c.capacity
  pub same_length : length c.access_order ≡ length c.entries
  pub distinct_entries : AreDistinct c.entries
  pub distinct_order : AreDistinct c.access_order
  pub same : (k : Key) → has_key k c.access_order ≡ has_key k c.entries

abbrev pub Succeeds : Option Cache → Type 0
Succeeds none = ⊥
Succeeds (some c) = IsValid c

-- There is room for one more.
record HasRoom (c : Cache) : Type 0 where
  valid : IsValid c
  room : length c.entries < c.capacity

abbrev MakesRoom : Key → Option Cache → Type 0
MakesRoom key none = ⊥
MakesRoom key (some c) = HasRoom c × (has_key key c.entries ≡ false)

module _ (c : Cache) (v : IsValid c) where
  move_to_front-IsValid : (key : Key) → has_key key c.entries ≡ true → IsValid (move_to_front key c)
  unfolding move_to_front has_key
  move_to_front-IsValid key h = record {
    positive = v.positive;
    bounded = v.bounded;
    same_length = omega (
      arith,
      length-remove_key key c.access_order v.distinct_order (v.same key ∙ h),
      v.same_length,
    );
    distinct_entries = v.distinct_entries;
    distinct_order = (
      ground (arith, has_key-remove_key key key c.access_order, list_eq_refl key),
      remove_key-AreDistinct key c.access_order v.distinct_order,
    );
    same = λ k.
        ground (
          arith,
          has_key-remove_key key k c.access_order,
          v.same k,
          v.same key,
          list_eq_sound key k,
        );
  }

  -- The back of the access list leaves both.
  module _ (x : Key) (xs : List Key) (e : c.access_order ≡ x ∷ xs) where
    distinct : AreDistinct (x ∷ xs)
    distinct = subst AreDistinct e v.distinct_order

    last-In : has_key (split_last x xs).1 c.entries ≡ true
    last-In =
        sym (v.same (split_last x xs).1)
        ∙ (ap (has_key (split_last x xs).1) e
            ∙ (split_last-has_key (split_last x xs).1 x xs
                ∙ ground (arith, list_eq_refl (split_last x xs).1)))

    dropped-HasRoom : HasRoom (record c {
      entries = remove_key (split_last x xs).1 c.entries;
      access_order = (split_last x xs).0;
    })
    dropped-HasRoom = record {
      valid = record {
        positive = v.positive;
        bounded = omega (arith, shrinks, v.bounded);
        same_length = omega (arith, shrinks, v.same_length, split_last-length x xs, ap length e);
        distinct_entries = remove_key-AreDistinct (split_last x xs).1 c.entries v.distinct_entries;
        distinct_order = (split_last-AreDistinct x xs distinct).0;
        same = λ k. ground (
          arith,
          has_key-remove_key (split_last x xs).1 k c.entries,
          v.same k,
          ap (has_key k) e,
          split_last-has_key k x xs,
          list_eq_sound (split_last x xs).1 k,
          (split_last-AreDistinct x xs distinct).1,
        );
      };
      room = omega (arith, shrinks, v.bounded);
    }
      where
        shrinks : length (remove_key (split_last x xs).1 c.entries) + 1 ≡ length c.entries
        shrinks = length-remove_key (split_last x xs).1 c.entries v.distinct_entries last-In

  evict-MakesRoom : (key : Key) → has_key key c.entries ≡ false → MakesRoom key (evict c)
  unfolding evict
  evict-MakesRoom key absent = elim (Bool-cases (ltb (length c.entries) c.capacity)) [
    | inl e ↦ rw (e, evict) ((record { valid = v; room = ground arith }, absent))
    | inr e ↦ rw (e, evict) (go c.access_order refl e)
  ]
    where
      go :
          (order : List Key)
          → c.access_order ≡ order
          → ltb (length c.entries) c.capacity ≡ false
          → MakesRoom key (drop_back c order)
      go [] e full = ground (arith, v.positive, v.same_length, ap length e)
      go (x ∷ xs) e full = (
        dropped-HasRoom x xs e,
        ground (arith, has_key-remove_key (split_last x xs).1 key c.entries),
      )

  pushed-Succeeds : (key : Key) (o : Option Cache) → MakesRoom key o → Succeeds (push_front key o)
  unfolding has_key
  pushed-Succeeds key none m = m
  pushed-Succeeds key (some d) (m, absent) = record {
    positive = m.valid.positive;
    bounded = omega (arith, m.room);
    same_length = ap suc m.valid.same_length;
    distinct_entries = (absent, m.valid.distinct_entries);
    distinct_order = (m.valid.same key ∙ absent, m.valid.distinct_order);
    same = λ k. ap (λ b. list_eq key k || b) (m.valid.same k);
  }

  insert-Succeeds : (key : Key) → Succeeds (insert key c)
  unfolding insert
  insert-Succeeds key = elim (Bool-cases (has_key key c.entries)) [
    | inl e ↦ rw (e, insert) (move_to_front-IsValid key e)
    | inr e ↦ rw (e, insert) (pushed-Succeeds key (evict c) (evict-MakesRoom key e))
  ]

  check-IsValid : (key : Key) → IsValid (check key c).1
  unfolding check
  check-IsValid key = elim (Bool-cases (has_key key c.entries)) [
    | inl e ↦ rw (e, check) (move_to_front-IsValid key e)
    | inr e ↦ rw (e, check) v
  ]

abbrev pub Ends : {A : Type 0} → Option (A × Cache) → Type 0
Ends none = ⊥
Ends (some (a, c)) = IsValid c

returning-Ends : {A : Type 0} (a : A) (o : Option Cache) → Succeeds o → Ends (returning a o)
returning-Ends a none s = s
returning-Ends a (some c) s = s

abbrev pub and_then : (Cache → Option Cache) → Option Cache → Option Cache
and_then f none = none
and_then f (some c) = f c

abbrev pub after : {A : Type 0} → Option (A × Cache) → Option Cache
after none = none
after (some (a, c)) = some c

-- What the program asks of the cache.
pub data Call : Type 0 where
  signs : List ℕ → Call
  verifies : QuorumSignature → List ℕ → Call
  verifies_batch : QuorumSignature → Dict (List ℕ) → Call

module _ (base : CryptoBase) (sha256 : List ℕ → ℕ) where
  ask-Ends :
      (key : Key) (valid : Bool) (r : Bool × Cache)
      → IsValid r.1
      → Ends (ask base sha256 key valid r)
  unfolding ask
  ask-Ends key valid (true, c) v = v
  ask-Ends key true (false, c) v = returning-Ends true (insert key c) (insert-Succeeds c v key)
  ask-Ends key false (false, c) v = v

  unfoldable pub perform : Call → Cache → Option Cache
  unfolding sign verify batch_verify
  perform (signs message) c = after (sign base sha256 message c)
  perform (verifies sig message) c = after (verify base sha256 sig message c)
  perform (verifies_batch sig batch) c = after (batch_verify base sha256 sig batch c)

  unfoldable pub perform_all : List Call → Cache → Option Cache
  unfolding perform
  perform_all [] c = some c
  perform_all (x ∷ xs) c = and_then (perform_all xs) (perform x c)

  ended : {A : Type 0} (r : Option (A × Cache)) → Ends r → Succeeds (after r)
  ended none e = e
  ended (some (a, c)) e = e

  signed-Ends :
      (message : List ℕ) (o : Option QuorumSignature) (c : Cache)
      → IsValid c
      → Ends (signed base sha256 message o c)
  signed-Ends message none c v = v
  signed-Ends message (some sig) c v =
      returning-Ends (some sig) (insert (signature_key base sha256 message sig) c)
        (insert-Succeeds c v (signature_key base sha256 message sig))

  perform-Succeeds : (x : Call) (c : Cache) → IsValid c → Succeeds (perform x c)
  unfolding perform sign verify batch_verify
  perform-Succeeds (signs message) c v =
      ended (sign base sha256 message c) (signed-Ends message (base.sign message) c v)
  perform-Succeeds (verifies sig message) c v = ended (verify base sha256 sig message c) (
      ask-Ends (signature_key base sha256 message sig) (base.verify sig message)
        (check (signature_key base sha256 message sig) c)
        (check-IsValid c v (signature_key base sha256 message sig)))
  perform-Succeeds (verifies_batch sig batch) c v = ended (batch_verify base sha256 sig batch c) (
      ask-Ends (batch_key base sha256 sig) (base.batch_verify sig batch)
        (check (batch_key base sha256 sig) c) (check-IsValid c v (batch_key base sha256 sig)))

  continues :
      (xs : List Call) (o : Option Cache)
      → Succeeds o
      → ((c : Cache) → IsValid c → Succeeds (perform_all xs c))
      → Succeeds (and_then (perform_all xs) o)
  continues xs none s f = s
  continues xs (some c) s f = f c s

  all_valid : (xs : List Call) (c : Cache) → IsValid c → Succeeds (perform_all xs c)
  unfolding perform_all
  all_valid [] c v = v
  all_valid (x ∷ xs) c v = continues xs (perform x c) (perform-Succeeds x c v) (all_valid xs)

new_cache-IsValid : (capacity : ℕ) → 0 < capacity → IsValid (new_cache capacity)
unfolding new_cache has_key
new_cache-IsValid capacity h = record {
  positive = h;
  bounded = ground arith;
  same_length = refl;
  distinct_entries = tt;
  distinct_order = tt;
  same = λ k. refl;
}

-- Any calls of a signature cache of positive capacity end without a panic and leave a cache whose
-- map and access list hold the same keys, each once, and no more than the capacity.
pub perform_all-IsValid :
    (base : CryptoBase) (sha256 : List ℕ → ℕ) (capacity : ℕ) (calls : List Call)
    → 0 < capacity
    → Succeeds (perform_all base sha256 calls (new_cache capacity))
perform_all-IsValid base sha256 capacity calls h =
    all_valid base sha256 calls (new_cache capacity) (new_cache-IsValid capacity h)

-- ===== src/LeaderRotation/Carousel/Elected.antt =====
-- Whom overhead/leaderrotation/carousel.go elects.
use native.Mathlib.Nat.{mod-lt}
use optilog_artifacts.Prelude.{
  ℕ, zero, suc, ◌+◌, ◌%◌, ◌≤◌, ◌<◌, ◌≡◌, refl, sym, ◌∙◌, subst, Bool, true, false, not, Option,
  none, some, List, [], ◌∷◌, ◌==◌, keep, get_or, length, arith, Bool-cases, inl, inr, ==_refl,
  ==_iff, ◌||◌,
}
use optilog_artifacts.Prelude.Sort.{insert_sorted, sort, length-sort}
use optilog_artifacts.Prelude.Words.{sub_u64, add_u64}
use optilog_artifacts.Types.{Block, QuorumSignature, num_faulty, quorum_size}
use optilog_artifacts.Types.IdSet.{
  IdSet, new_id_set, contains, add, len, AreDistinct, len-add, keep_outside,
}
use optilog_artifacts.Chain.{Chain, Network, get}
use optilog_artifacts.LeaderRotation.Carousel.{
  last_authors, candidates, pick, elect, elect_signed, carousel,
}

contains-insert_sorted :
    (k x : ℕ) (xs : List ℕ) → contains k (insert_sorted x xs) ≡ (x == k) || contains k xs
unfolding contains insert_sorted
contains-insert_sorted k x [] = refl
contains-insert_sorted k x (y ∷ ys) = ground (arith, contains-insert_sorted k x ys)

contains-sort : (k : ℕ) (xs : List ℕ) → contains k (sort xs) ≡ contains k xs
unfolding contains sort
contains-sort k [] = refl
contains-sort k (x ∷ xs) = ground (arith, contains-insert_sorted k x (sort xs), contains-sort k xs)

contains-get_or : (xs : List ℕ) (i d : ℕ) → i < length xs → contains (get_or xs i d) xs ≡ true
unfolding contains
contains-get_or [] i d h = absurd (omega arith)
contains-get_or (x ∷ xs) zero d h = ground (arith, ==_refl x)
contains-get_or (x ∷ xs) (suc i) d h = ground (arith, contains-get_or xs i d)

contains-kept :
    (p : ℕ → Bool) (k : ℕ) (xs : List ℕ)
    → contains k (keep p xs) ≡ true
    → (contains k xs ≡ true) × (p k ≡ true)
unfolding contains
contains-kept p k [] h = absurd (ground arith)
contains-kept p k (x ∷ xs) h = elim (Bool-cases (p x)) [
  | inl e ↦ elim (Bool-cases (x == k)) [
    | inl f ↦ (ground arith, subst (λ j. p j ≡ true) ((==_iff x k).0 f) e)
    | inr f ↦ let (a, b) = contains-kept p k xs (ground arith) in (ground arith, b)
  ]
  | inr e ↦ let (a, b) = contains-kept p k xs (ground arith) in (ground arith, b)
]

-- A leader that took part, and is none of the authors.
abbrev pub IsElected : QuorumSignature → IdSet → Option ℕ → Type 0
IsElected sig authors none = ⊥
IsElected sig authors (some leader) =
    (contains leader sig.participants ≡ true) × (contains leader authors ≡ false)

pick-IsElected :
    (sig : QuorumSignature) (authors : IdSet) (number : ℕ) (xs : List ℕ)
    → 0 < length xs
    → ((k : ℕ)
        → contains k xs ≡ true
        → (contains k sig.participants ≡ true) × (contains k authors ≡ false))
    → IsElected sig authors (pick number xs)
unfolding pick
pick-IsElected sig authors number [] h f = absurd (omega arith)
pick-IsElected sig authors number (x ∷ xs) h f =
    let i = number % length (x ∷ xs) in
    f (get_or (x ∷ xs) i x) (contains-get_or (x ∷ xs) i x (mod-lt number h))

negated : (b : Bool) → not b ≡ true → b ≡ false
negated b h = ground arith

candidate-kept :
    (participants : List ℕ) (authors : IdSet) (k : ℕ)
    → contains k (candidates participants authors) ≡ true
    → (contains k participants ≡ true) × (contains k authors ≡ false)
unfolding candidates
candidate-kept participants authors k h =
    let p = λ (id : ℕ). not (contains id authors) in
    let (a, b) = contains-kept p k participants (sym (contains-sort k (keep p participants)) ∙ h) in
    (a, negated (contains k authors) b)

module _ (fetch : Network) (genesis : ℕ) where
  length-last_authors :
      (i : ℕ) (block : Option Block) (authors : IdSet) (c : Chain)
      → len (last_authors fetch genesis i block authors c).0 ≤ len authors + i
  unfolding last_authors
  length-last_authors zero block authors c = omega arith
  length-last_authors (suc i) none authors c = omega arith
  length-last_authors (suc i) (some block) authors c = elim (Bool-cases (block.hash == genesis)) [
    | inl e ↦ rw (e, last_authors) (omega arith)
    | inr e ↦
        rw (e, last_authors)
          (omega (
            arith,
            length-last_authors i (get fetch block.parent c).0 (add block.proposer authors)
                (get fetch block.parent c).1,
            len-add block.proposer authors,
          ))
  ]

  module _ (n chain_length seed : ℕ) (random : ℕ → ℕ) (sig : QuorumSignature) where
    enough :
        (authors : IdSet)
        → 0 < n
        → AreDistinct sig.participants
        → quorum_size n ≤ length sig.participants
        → len authors ≤ num_faulty n
        → 0 < length (candidates sig.participants authors)
    unfolding candidates len quorum_size num_faulty
    enough authors h d q l =
        let p = λ (id : ℕ). not (contains id authors) in
        omega
          (arith, keep_outside authors sig.participants d, length-sort (keep p sig.participants))

    elect-IsElected :
        (head : Block) (round : ℕ) (c : Chain)
        → 0 < n
        → (head.view == sub_u64 round chain_length) ≡ true
        → AreDistinct sig.participants
        → quorum_size n ≤ length sig.participants
        → IsElected sig
            (last_authors fetch genesis (num_faulty n) (some head) new_id_set c).0
            (elect_signed fetch genesis n chain_length seed random head (some sig) round c).0
    unfolding elect_signed elect new_id_set len
    elect-IsElected head round c h v d q =
        let authors = (last_authors fetch genesis (num_faulty n) (some head) new_id_set c).0 in
        rw (v, elect_signed)
          (pick-IsElected sig authors (random (add_u64 seed round))
            (candidates sig.participants authors)
            (enough authors h d q
              (omega (arith, length-last_authors (num_faulty n) (some head) new_id_set c)))
            (candidate-kept sig.participants authors))

    -- Where the committed head is as many views behind as the chain is long and its certificate
    -- has the signatures of a quorum of different replicas, the carousel elects one of these that
    -- is none of the proposers of the last blocks.
    pub carousel-IsElected :
        (head : Block) (round : ℕ) (c : Chain)
        → 0 < n
        → head.cert.signature ≡ some sig
        → head.view ≡ sub_u64 round chain_length
        → AreDistinct sig.participants
        → quorum_size n ≤ length sig.participants
        → IsElected sig
            (last_authors fetch genesis (num_faulty n) (some head) new_id_set c).0
            (carousel fetch genesis n chain_length seed random head round c).0
    unfolding carousel
    carousel-IsElected head round c h e v d q =
        subst
          (λ o.
            IsElected sig (last_authors fetch genesis (num_faulty n) (some head) new_id_set c).0
              (elect_signed fetch genesis n chain_length seed random head o round c).0)
          (sym e)
          (elect-IsElected head round c h ((==_iff head.view (sub_u64 round chain_length)).1 v) d q)

-- ===== src/Agreement/Quorums.antt =====
-- NumFaulty and QuorumSize of overhead/types.go and overhead/helper.go: two quorums share a replica
-- that is not faulty.
use optilog_artifacts.Prelude.{
  ℕ, ◌+◌, ◌≤◌, ◌<◌, ◌≡◌, refl, sym, subst, Bool, true, false, not, ◌||◌, [], ◌∷◌, ◌++◌, ◌==◌, arith,
  length, length-append, keep, Bool-cases, inl, inr, ==_iff, ==_refl, ltb,
}
use optilog_artifacts.Types.{num_faulty, quorum_size}
use optilog_artifacts.Types.IdSet.{IdSet, contains, AreDistinct, keep_outside}

abbrev pub IsWithin : IdSet → IdSet → Type 0
IsWithin s ids = (k : ℕ) → contains k s ≡ true → contains k ids ≡ true

-- An entry that passes a test, if any does.
kept :
    (p : ℕ → Bool) (s : IdSet)
    → 0 < length (keep p s)
    → (k : ℕ) × (contains k s ≡ true) × (p k ≡ true)
unfolding contains
kept p [] h = absurd (omega arith)
kept p (x ∷ s) h = elim (Bool-cases (p x)) [
  | inl e ↦ (x, ground (arith, ==_refl x), e)
  | inr e ↦ let (k, m, t) = kept p s (ground arith) in (k, ground arith, t)
]

contains-keep :
    (p : ℕ → Bool) (k : ℕ) (s : IdSet)
    → contains k s ≡ true
    → p k ≡ true
    → contains k (keep p s) ≡ true
unfolding contains
contains-keep p k [] h t = h
contains-keep p k (x ∷ s) h t = elim (Bool-cases (x == k)) [
  | inl e ↦
      let here : p x ≡ true = subst (λ y. p y ≡ true) (sym ((==_iff x k).0 e)) t in
      ground (arith, here)
  | inr e ↦ ground (arith, contains-keep p k s)
]

contains-append : (k : ℕ) (s t : IdSet) → contains k (s ++ t) ≡ (contains k s || contains k t)
unfolding contains
contains-append k [] t = refl
contains-append k (x ∷ s) t = ground (arith, contains-append k s t)

length-keep :
    (p : ℕ → Bool) (s : IdSet) → length (keep p s) + length (keep (λ k. not (p k)) s) ≡ length s
length-keep p [] = refl
length-keep p (x ∷ s) = ground (arith, length-keep p s)

-- A set within another is not larger.
length-IsWithin : (s ids : IdSet) → AreDistinct s → IsWithin s ids → length s ≤ length ids
length-IsWithin s ids d w =
    elim (Bool-cases (ltb 0 (length (keep (λ k. not (contains k ids)) s)))) [
      | inl e ↦
          let (k, m, t) = kept (λ k. not (contains k ids)) s (ground arith) in
          absurd (ground (arith, w k m))
      | inr e ↦ ground (arith, keep_outside ids s d)
    ]

-- Two sets of replicas of the size of a quorum have a member in common that is not faulty, if the
-- faulty ones are at most as many as NumFaulty says, for any number of replicas above 0.
pub quorums_meet :
    (ids faulty s t : IdSet)
    → 0 < length ids
    → length faulty ≤ num_faulty (length ids)
    → AreDistinct s
    → AreDistinct t
    → IsWithin s ids
    → IsWithin t ids
    → quorum_size (length ids) ≤ length s
    → quorum_size (length ids) ≤ length t
    → (i : ℕ) × (contains i s ≡ true) × (contains i t ≡ true) × (contains i faulty ≡ false)
unfolding num_faulty quorum_size
quorums_meet ids faulty s t nonempty few ds dt ws wt ms mt =
    let (i, m, out) = kept (λ k. not (contains k left_out)) s meets in
    (
      i,
      m,
      elim (Bool-cases (contains i t)) [
        | inl e ↦ e
        | inr e ↦ absurd (
            ground (
              arith,
              contains-append i faulty rest,
              contains-keep (λ k. not (contains k t)) i ids (ws i m) (ground arith),
            ))
      ],
      ground (arith, contains-append i faulty rest),
    )
  where
    rest : IdSet
    rest = keep (λ k. not (contains k t)) ids

    left_out : IdSet
    left_out = faulty ++ rest

    inside : length t ≤ length (keep (λ k. contains k t) ids)
    inside =
        length-IsWithin t (keep (λ k. contains k t) ids) dt
          (λ k m. contains-keep (λ j. contains j t) k ids (wt k m) m)

    meets : 0 < length (keep (λ k. not (contains k left_out)) s)
    meets = omega (
      arith,
      keep_outside left_out s ds,
      length-append faulty rest,
      length-keep (λ k. contains k t) ids,
      inside,
    )

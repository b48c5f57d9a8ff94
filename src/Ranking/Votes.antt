-- ===== src/Ranking/Votes.antt =====
-- A complaint counts once in overhead/ranking/complaint.go.
use optilog_artifacts.Prelude.{
  ℕ, ◌≡◌, refl, sym, ap, ◌∙◌, subst, true, false, Option, none, some, List, [], ◌∷◌, ◌==◌, leb,
  arith, Bool-cases, inl, inr, ==_iff, ==_refl, if◌then◌else◌,
}
use optilog_artifacts.Prelude.Dict.{Dict, lookup, insert, lookup-insert}
use optilog_artifacts.Types.{
  Complaint, complaint_id, complainee, complainant, complaint_type, suspicion,
}
use optilog_artifacts.Ranking.{
  ComplaintCache, row, reached, is_old, mark, penalty_of, penalize, count, record_one, and_then,
  record_all, drop_pending, commit_complaints,
}

-- The serial number that a complainant has reached against a complainee.
abbrev voted : ℕ → ℕ → Dict (Dict ℕ) → Option ℕ
voted to by m = lookup by (row (lookup to m))

voted-mark :
    (to by a b n : ℕ) (m : Dict (Dict ℕ))
    → voted a b (insert to (insert by n (row (lookup to m))) m)
      ≡ (if to == a then (if by == b then some n else voted to b m) else voted a b m)
voted-mark to by a b n m = elim (Bool-cases (to == a)) [
  | inl e ↦
      ap (λ o. lookup b (row o)) (here e) ∙ (lookup-insert by b n (row (lookup to m)) ∙ rw e refl)
  | inr e ↦ ap (λ o. lookup b (row o)) (there e) ∙ rw e refl
]
  where
    here :
        (to == a) ≡ true
        → lookup a (insert to (insert by n (row (lookup to m))) m)
          ≡ some (insert by n (row (lookup to m)))
    here e = ground (arith, lookup-insert to a (insert by n (row (lookup to m))) m)

    there :
        (to == a) ≡ false → lookup a (insert to (insert by n (row (lookup to m))) m) ≡ lookup a m
    there e = ground (arith, lookup-insert to a (insert by n (row (lookup to m))) m)

-- The number that is reached only grows, and `count` leaves it.
abbrev Grown : ℕ → ℕ → ℕ → ComplaintCache → Type 0
Grown a b n cc = reached (voted a b cc.already_voted) n ≡ true

abbrev GrownIn : ℕ → ℕ → ℕ → Option ComplaintCache → Type 0
GrownIn a b n none = Unit {0}
GrownIn a b n (some cc) = Grown a b n cc

count-Grown :
    (c : Complaint) (a b n : ℕ) (cc : ComplaintCache) → Grown a b n cc → GrownIn a b n (count c cc)
unfolding count
count-Grown c a b n cc g = elim (Bool-cases (complaint_type c == suspicion)) [
  | inl e ↦ rw (e, count) g
  | inr e ↦ rw (e, count) (go (penalty_of (complaint_type c)))
]
  where
    go : (o : Option ℕ) → GrownIn a b n (penalize c o cc)
    go none = tt
    go (some p) = g

module _ (c : Complaint) (cc : ComplaintCache) where
  mark-Grown : (a b n : ℕ) → is_old c cc ≡ false → Grown a b n cc → Grown a b n (mark c cc)
  unfolding mark is_old
  mark-Grown a b n old g =
      let to = complainee c in
      let by = complainant c in
      ap (λ o. reached o n) (voted-mark to by a b (complaint_id c) cc.already_voted)
      ∙ (elim (Bool-cases (to == a)) [
        | inl e ↦ elim (Bool-cases (by == b)) [
          | inl f ↦
              rw (e, f)
                (above (voted a b cc.already_voted) g (
                  subst (λ i. reached (voted i b cc.already_voted) (complaint_id c) ≡ false)
                    ((==_iff to a).0 e)
                    (subst (λ i. reached (voted to i cc.already_voted) (complaint_id c) ≡ false)
                      ((==_iff by b).0 f) old)))
          | inr f ↦
              rw (e, f)
                (subst (λ i. reached (voted i b cc.already_voted) n ≡ true)
                  (sym ((==_iff to a).0 e)) g)
        ]
        | inr e ↦ rw e g
      ])
    where
      above :
          (o : Option ℕ)
          → reached o n ≡ true
          → reached o (complaint_id c) ≡ false
          → leb n (complaint_id c) ≡ true
      above none g h = absurd (ground arith)
      above (some v) g h = ground arith

  mark-old : is_old c (mark c cc) ≡ true
  unfolding mark is_old
  mark-old =
      ap (λ o. reached o (complaint_id c))
        (voted-mark (complainee c) (complainant c) (complainee c) (complainant c) (complaint_id c)
          cc.already_voted)
      ∙ rw (==_refl (complainee c), ==_refl (complainant c)) (ground arith)

  record_one-Grown : (a b n : ℕ) → Grown a b n cc → GrownIn a b n (record_one c cc)
  unfolding record_one
  record_one-Grown a b n g = elim (Bool-cases (is_old c cc)) [
    | inl e ↦ rw (e, record_one) g
    | inr e ↦ rw (e, record_one) (count-Grown c a b n (mark c cc) (mark-Grown a b n e g))
  ]

  record_one_old : GrownIn (complainee c) (complainant c) (complaint_id c) (record_one c cc)
  unfolding record_one is_old
  record_one_old = elim (Bool-cases (is_old c cc)) [
    | inl e ↦ rw (e, record_one) e
    | inr e ↦
        rw (e, record_one)
          (count-Grown c (complainee c) (complainant c) (complaint_id c) (mark c cc) mark-old)
  ]

after-Grown :
    (cs : List Complaint) (a b n : ℕ) (o : Option ComplaintCache)
    → GrownIn a b n o
    → GrownIn a b n (and_then (record_all cs) o)
unfolding record_all
after-Grown cs a b n none g = g
after-Grown [] a b n (some cc) g = g
after-Grown (c ∷ cs) a b n (some cc) g =
    after-Grown cs a b n (record_one c cc) (record_one-Grown c cc a b n g)

-- Every complaint of a list that was recorded has been reached.
AllOld : List Complaint → Option ComplaintCache → Type 0
AllOld [] o = Unit {0}
AllOld (c ∷ cs) o = GrownIn (complainee c) (complainant c) (complaint_id c) o × AllOld cs o

all_old : (cs : List Complaint) (o : Option ComplaintCache) → AllOld cs (and_then (record_all cs) o)
unfolding AllOld record_all
all_old [] o = tt
all_old (c ∷ cs) none = (tt, all_old cs none)
all_old (c ∷ cs) (some cc) = (
  after-Grown cs (complainee c) (complainant c) (complaint_id c) (record_one c cc)
      (record_one_old c cc),
  all_old cs (record_one c cc),
)

old_again :
    (cs : List Complaint) (cc : ComplaintCache) → AllOld cs (some cc) → record_all cs cc ≡ some cc
unfolding AllOld record_all record_one is_old
old_again [] cc a = refl
old_again (c ∷ cs) cc (o, a) = rw (o) (old_again cs cc a)

AllOld-cong :
    (cs : List Complaint) (cc d : ComplaintCache)
    → cc.already_voted ≡ d.already_voted
    → AllOld cs (some cc)
    → AllOld cs (some d)
unfolding AllOld
AllOld-cong [] cc d e a = tt
AllOld-cong (c ∷ cs) cc d e (o, a) = (
  subst (λ m. reached (voted (complainee c) (complainant c) m) (complaint_id c) ≡ true) e o,
  AllOld-cong cs cc d e a,
)

drop_votes :
    (cs : List Complaint) (cc : ComplaintCache)
    → cc.already_voted ≡ (drop_pending cs cc).already_voted
drop_votes [] cc = refl
drop_votes (c ∷ cs) cc = elim (Bool-cases (complainee c == cc.id)) [
  | inl e ↦ rw e refl
  | inr e ↦ rw e refl
]

-- Complaints that were committed change neither scores nor suspicions nor the list of faulty
-- replicas when the same list is committed again: only pending complaints are dropped.
pub commit_complaints_once :
    (cs : List Complaint) (cc done : ComplaintCache)
    → commit_complaints cs cc ≡ some done
    → commit_complaints cs done ≡ some (drop_pending cs done)
unfolding commit_complaints
commit_complaints_once cs cc done e = old_again cs (drop_pending cs done) (
    AllOld-cong cs done (drop_pending cs done) (drop_votes cs done)
      (subst (AllOld cs) e (all_old cs (some (drop_pending cs cc)))))

-- ===== src/Twins/Agreement.antt =====
-- Lists of executed blocks as checkCommits of overhead/twins/scenario.go reads them.
use optilog_artifacts.Prelude.{
  ℕ, zero, suc, ◌≤◌, ◌<◌, ◌≡◌, ◌≢◌, refl, sym, ◌∙◌, subst, true, false, none, some, List, [], ◌∷◌,
  ◌==◌, length, All, In, arith, Bool-cases, Option-cases, ==_iff, inl, inr,
}
use optilog_artifacts.Prelude.Dict.{Dict, lookup, insert}
use optilog_artifacts.Twins.{Node, get_elem?, executed_at, plus_one, commit_count}

-- Neither list departs from the other.
abbrev pub Agree : Node → Node → Type 0
Agree [] other = Unit {0}
Agree (h ∷ hs) [] = Unit {0}
Agree (h ∷ hs) (k ∷ ks) = (h ≡ k) × Agree hs ks

length-insert : (k v : ℕ) (m : Dict ℕ) → length m ≤ length (insert k v m)
unfolding insert
length-insert k v [] = ground arith
length-insert k v ((j, w) ∷ m) = ground (arith, length-insert k v m)

length-commit_count : (hs : List ℕ) (m : Dict ℕ) → length m ≤ length (commit_count hs m)
unfolding commit_count
length-commit_count [] m = omega arith
length-commit_count (h ∷ hs) m = omega (
  arith,
  length-insert h (plus_one (lookup h m)) m,
  length-commit_count hs (insert h (plus_one (lookup h m)) m),
)

-- The hashes after the first, with the first counted.
pub data Counted (h : ℕ) (hs : List ℕ) (n : ℕ) : Type 0 where
  alike : All (λ k. k ≡ h) hs → n ≡ 1 → Counted h hs n
  unlike : (k : ℕ) → In k hs → h ≢ k → 2 ≤ n → Counted h hs n

insert_same : (h c k v : ℕ) → (h == k) ≡ true → insert k v ((h, c) ∷ []) ≡ (h, v) ∷ []
unfolding insert
insert_same h c k v e = ground arith

insert_two : (h c k v : ℕ) → (h == k) ≡ false → insert k v ((h, c) ∷ []) ≡ (h, c) ∷ (k, v) ∷ []
unfolding insert
insert_two h c k v e = ground arith

more : (h k : ℕ) (hs : List ℕ) (n : ℕ) → h ≡ k → Counted h hs n → Counted h (k ∷ hs) n
more h k hs n e (alike a f) = alike (sym e, a) f
more h k hs n e (unlike j i d t) = unlike j (inr i) d t

pub counted : (h c : ℕ) (hs : List ℕ) → Counted h hs (length (commit_count hs ((h, c) ∷ [])))
unfolding commit_count
counted h c [] = alike tt refl
counted h c (k ∷ hs) = go (plus_one (lookup k ((h, c) ∷ []))) (λ v. counted h v hs)
  where
    go :
        (v : ℕ)
        → ((w : ℕ) → Counted h hs (length (commit_count hs ((h, w) ∷ []))))
        → Counted h (k ∷ hs) (length (commit_count hs (insert k v ((h, c) ∷ []))))
    go v f = elim (Bool-cases (h == k)) [
      | inl e ↦
          rw (insert_same h c k v e)
            (more h k hs (length (commit_count hs ((h, v) ∷ []))) ((==_iff h k).0 e) (f v))
      | inr e ↦
          rw (insert_two h c k v e) (
            unlike k (inl refl) (λ q. ground arith) (length-commit_count hs ((h, c) ∷ (k, v) ∷ [])))
    ]

-- The same place in two lists.
unfoldable pub Alike : ℕ → List Node → Type 0
Alike i nodes = (h : ℕ) (k : ℕ) → In h (executed_at i nodes) → In k (executed_at i nodes) → h ≡ k

In-executed_at :
    (i : ℕ) (nodes : List Node) (node : Node) (h : ℕ)
    → In node nodes
    → get_elem? node i ≡ some h
    → In h (executed_at i nodes)
unfolding executed_at
In-executed_at i [] node h m f = elim m [ ]
In-executed_at i (n ∷ nodes) node h (inl e) f = rw (sym e, f, executed_at) (inl refl)
In-executed_at i (n ∷ nodes) node h (inr e) f = elim (Option-cases (get_elem? n i)) [
  | inl q ↦ rw (q, executed_at) (In-executed_at i nodes node h e f)
  | inr (k, q) ↦ rw (q, executed_at) (inr (In-executed_at i nodes node h e f))
]

heads-Agree :
    (xs ys : Node)
    → ((i h k : ℕ) → get_elem? xs i ≡ some h → get_elem? ys i ≡ some k → h ≡ k)
    → Agree xs ys
heads-Agree [] ys f = tt
heads-Agree (x ∷ xs) [] f = tt
heads-Agree (x ∷ xs) (y ∷ ys) f = (f 0 x y refl refl, heads-Agree xs ys (λ i h k. f (suc i) h k))

All-from : {A : Type 0} (P : A → Type 0) (xs : List A) → ((x : A) → In x xs → P x) → All P xs
All-from P [] f = tt
All-from P (x ∷ xs) f = (f x (inl refl), All-from P xs (λ y i. f y (inr i)))

-- Where a list is long enough.
pub elem_below : (node : Node) (i h : ℕ) → get_elem? node i ≡ some h → i < length node
elem_below [] i h e = absurd (ground arith)
elem_below (x ∷ xs) zero h e = omega arith
elem_below (x ∷ xs) (suc i) h e = omega (arith, elem_below xs i h e)

elem_short : (node : Node) (i : ℕ) → get_elem? node i ≡ none → length node ≤ i
elem_short [] i e = omega arith
elem_short (x ∷ xs) zero e = absurd (ground arith)
elem_short (x ∷ xs) (suc i) e = omega (arith, elem_short xs i e)

pub all_short :
    (i : ℕ) (nodes : List Node) → executed_at i nodes ≡ [] → All (λ node. length node ≤ i) nodes
unfolding executed_at
all_short i [] e = tt
all_short i (n ∷ nodes) e = elim (Option-cases (get_elem? n i)) [
  | inl q ↦ (elem_short n i q, all_short i nodes (rw (q, executed_at) at e))
  | inr (k, q) ↦ absurd (none_left k (executed_at i nodes) (rw (q, executed_at) at e))
]
  where
    none_left : (k : ℕ) (xs : List ℕ) → (k ∷ xs) ≡ [] → ⊥
    none_left k xs e = ground arith

pub none_at :
    (i : ℕ) (nodes : List Node) → All (λ node. length node ≤ i) nodes → executed_at i nodes ≡ []
unfolding executed_at
none_at i [] a = refl
none_at i (n ∷ nodes) (l, a) = elim (Option-cases (get_elem? n i)) [
  | inl q ↦ rw (q, executed_at) (none_at i nodes a)
  | inr (k, q) ↦ absurd (omega (arith, elem_below n i k q))
]

-- The lists agree where no place shows a difference.
pub all-Agree :
    (i : ℕ) (nodes : List Node)
    → All (λ node. length node ≤ i) nodes
    → ((j : ℕ) → j < i → Alike j nodes)
    → All (λ node. All (Agree node) nodes) nodes
unfolding Alike
all-Agree i nodes short alike_at =
    All-from (λ node. All (Agree node) nodes) nodes
      (λ x x_in. All-from (Agree x) nodes (λ y y_in. heads-Agree x y (λ j h k e f.
        alike_at j (below x x_in j h e) h k (In-executed_at j nodes x h x_in e)
          (In-executed_at j nodes y k y_in f))))
  where
    bound : (ns : List Node) (x : Node) → All (λ node. length node ≤ i) ns → In x ns → length x ≤ i
    bound [] x a m = elim m [ ]
    bound (n ∷ ns) x (l, a) (inl e) = subst (λ z. length z ≤ i) (sym e) l
    bound (n ∷ ns) x (l, a) (inr m) = bound ns x a m

    below : (x : Node) → In x nodes → (j h : ℕ) → get_elem? x j ≡ some h → j < i
    below x m j h e = omega (arith, elem_below x j h e, bound nodes x short m)

pub alike_all :
    (h : ℕ) (hs : List ℕ) → All (λ k. k ≡ h) hs → (a b : ℕ) → In a (h ∷ hs) → In b (h ∷ hs) → a ≡ b
alike_all h hs alls a b p q = one a p ∙ sym (one b q)
  where
    inside : (xs : List ℕ) (a : ℕ) → All (λ k. k ≡ h) xs → In a xs → a ≡ h
    inside [] a l m = elim m [ ]
    inside (x ∷ xs) a (l, ls) (inl e) = e ∙ l
    inside (x ∷ xs) a (l, ls) (inr m) = inside xs a ls m

    one : (a : ℕ) → In a (h ∷ hs) → a ≡ h
    one a (inl e) = e
    one a (inr m) = inside hs a alls m

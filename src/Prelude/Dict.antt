-- ===== src/Prelude/Dict.antt =====
-- Go maps with integer keys, as association lists in which each key occurs once.
use optilog_artifacts.Prelude.{
  ℕ, ◌≡◌, refl, Option, none, some, List, [], ◌∷◌, arith, ◌==◌, if◌then◌else◌, All, Bool-cases, inl,
  inr,
}

abbrev pub Dict {ℓ} : Type ℓ → Type ℓ
Dict V = List (ℕ × V)

module _ {ℓ} {V : Type ℓ} where
  unfoldable pub lookup : ℕ → Dict V → Option V
  lookup key [] = none
  lookup key ((at, value) ∷ rest) =
      let found = lookup key rest in if at == key then some value else found

  -- The entry of a key is replaced, and that of a new key stands last.
  unfoldable pub insert : ℕ → V → Dict V → Dict V
  insert key value [] = (key, value) ∷ []
  insert key value ((at, old) ∷ rest) =
      let inserted = insert key value rest in
      if at == key then (key, value) ∷ rest else (at, old) ∷ inserted

  unfoldable pub delete : ℕ → Dict V → Dict V
  delete key [] = []
  delete key ((at, value) ∷ rest) =
      let deleted = delete key rest in if at == key then deleted else (at, value) ∷ deleted

  pub lookup-insert :
      (key asked : ℕ) (value : V) (entries : Dict V)
      → lookup asked (insert key value entries)
        ≡ (if key == asked then some value else lookup asked entries)
  unfolding lookup insert
  lookup-insert key asked value [] = refl
  lookup-insert key asked value ((at, old) ∷ rest) =
      ground (arith, lookup-insert key asked value rest)

  pub lookup-delete :
      (key asked : ℕ) (entries : Dict V)
      → lookup asked (delete key entries) ≡ (if key == asked then none else lookup asked entries)
  unfolding lookup delete
  lookup-delete key asked [] = ground arith
  lookup-delete key asked ((at, old) ∷ rest) = ground (arith, lookup-delete key asked rest)

  pub lookup_nil : (k : ℕ) → lookup k [] ≡ none
  unfolding lookup
  lookup_nil k = refl

-- A property of every entry.
module _ {ℓ κ} {V : Type ℓ} (P : ℕ → V → Type κ) where
  abbrev pub Entries : Dict V → Type κ
  Entries m = All (λ (e : ℕ × V). P e.0 e.1) m

  pub insert-Entries : (k : ℕ) (v : V) (m : Dict V) → P k v → Entries m → Entries (insert k v m)
  unfolding insert
  insert-Entries k v [] p h = (p, tt)
  insert-Entries k v ((j, w) ∷ m) p h = elim (Bool-cases (j == k)) [
    | inl e ↦ rw (e, insert) ((p, h.1))
    | inr e ↦ rw (e, insert) ((h.0, insert-Entries k v m p h.1))
  ]

  pub delete-Entries : (k : ℕ) (m : Dict V) → Entries m → Entries (delete k m)
  unfolding delete
  delete-Entries k [] h = tt
  delete-Entries k ((j, w) ∷ m) h = elim (Bool-cases (j == k)) [
    | inl e ↦ rw (e, delete) (delete-Entries k m h.1)
    | inr e ↦ rw (e, delete) ((h.0, delete-Entries k m h.1))
  ]

  pub lookup-Entries : (k : ℕ) (v : V) (m : Dict V) → lookup k m ≡ some v → Entries m → P k v
  unfolding lookup
  lookup-Entries k v [] e h = absurd (ground arith)
  lookup-Entries k v ((j, w) ∷ m) e h = elim (Bool-cases (j == k)) [
    | inl q ↦
        let same : v ≡ w = ground arith in
        let at_key : k ≡ j = ground arith in rw same (rw at_key h.0)
    | inr q ↦ lookup-Entries k v m (rw (q, lookup) at e) h.1
  ]

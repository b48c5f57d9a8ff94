-- ===== src/Types/Bytes.antt =====
-- The byte encodings of overhead/types.go, overhead/block.go and overhead/events.go.
use optilog_artifacts.Prelude.{
  ℕ, zero, suc, ◌+◌, ◌*◌, ◌/◌, ◌^◌, ◌<◌, ◌≡◌, refl, sym, ap, ◌∙◌, List, [], ◌∷◌, ◌++◌, append_assoc,
  arith,
}
use native.Mathlib.Nat.{pow-suc}
use optilog_artifacts.Types.{Block, put_le, view_bytes, block_bytes}

-- The number that bytes stand for, the least significant first.
pub read_le : ℕ → List ℕ → ℕ
read_le zero bs = 0
read_le (suc k) [] = 0
read_le (suc k) (b ∷ bs) = b + 256 * read_le k bs

drop_bytes : ℕ → List ℕ → List ℕ
drop_bytes zero bs = bs
drop_bytes (suc k) [] = []
drop_bytes (suc k) (b ∷ bs) = drop_bytes k bs

read-put_le : (k n : ℕ) (rest : List ℕ) → n < 256 ^ k → read_le k (put_le k n ++ rest) ≡ n
unfolding read_le put_le
read-put_le zero n rest h = omega arith
read-put_le (suc k) n rest h =
    let h' : n < 256 * 256 ^ k = omega (arith, pow-suc 256 k) in
    omega (arith, read-put_le k (n / 256) rest (omega arith))

drop-put_le : (k n : ℕ) (rest : List ℕ) → drop_bytes k (put_le k n ++ rest) ≡ rest
unfolding drop_bytes put_le
drop-put_le zero n rest = refl
drop-put_le (suc k) n rest = drop-put_le k (n / 256) rest

-- A field of `k` bytes ahead of other bytes is recovered, and so are the other bytes.
pub put_le-cancel :
    (k m n : ℕ) (xs ys : List ℕ)
    → m < 256 ^ k
    → n < 256 ^ k
    → put_le k m ++ xs ≡ put_le k n ++ ys
    → (m ≡ n) × (xs ≡ ys)
put_le-cancel k m n xs ys hm hn e = (
  sym (read-put_le k m xs hm) ∙ (ap (read_le k) e ∙ read-put_le k n ys hn),
  sym (drop-put_le k m xs) ∙ (ap (drop_bytes k) e ∙ drop-put_le k n ys),
)

-- The bytes of a view, which replicas sign when a view times out, can be read back: no two views
-- of 64 bits have the same bytes.
pub read-view_bytes : (v : ℕ) → v < 2 ^ 64 → read_le 8 (view_bytes v ++ []) ≡ v
unfolding view_bytes
read-view_bytes v h = read-put_le 8 v [] (omega arith)

abbrev pub InRange : Block → Type 0
InRange b = (b.parent < 2 ^ 256) × (b.proposer < 2 ^ 32) × (b.view < 2 ^ 64)

block_bytes-header :
    (b c : Block)
    → InRange b
    → InRange c
    → block_bytes b ≡ block_bytes c
    → (b.parent ≡ c.parent) × (b.proposer ≡ c.proposer) × (b.view ≡ c.view)
unfolding block_bytes
block_bytes-header b c hb hc e =
    let p = put_le-cancel 32 _ _ _ _ (omega arith) (omega arith) (simp append_assoc at e) in
    let q = put_le-cancel 4 _ _ _ _ (omega arith) (omega arith) p.1 in
    let r = put_le-cancel 8 _ _ _ _ (omega arith) (omega arith) q.1 in (p.0, q.0, r.0)

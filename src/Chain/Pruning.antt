-- ===== src/Chain/Pruning.antt =====
-- `PruneToHeight` of overhead/blockchain/blockchain.go: which heights it forgets, and which blocks
-- it reports as forked.
use optilog_artifacts.Prelude.{
  ℕ, zero, suc, ◌+◌, ◌-◌, ◌≤◌, ◌<◌, ◌≡◌, refl, ap, ◌∙◌, sym, Bool, true, false, Option, none, some,
  List, [], ◌∷◌, arith, ◌==◌, ltb, leb, if◌then◌else◌, Option-cases, Bool-cases, ◌↔◌, inl, inr, In,
  In-append, In-append_left, In-append_right, ◌&&◌, max,
}
use mathlib.Core.Bool.{false≢true}
use optilog_artifacts.Prelude.Dict.{Dict, lookup, delete, lookup-delete}
use optilog_artifacts.Types.{Block}
use optilog_artifacts.Chain.{
  Chain, next_view, committed_views, has_view, as_list, prune_loop, prune_to_height,
}
use optilog_artifacts.Chain.Known.{Universe, IsKnown, Descends}

-- The heights that the walk from height `h` along the stored parents comes by.
pub data IsOnBranch (c : Chain) : ℕ → ℕ → Type 0 where
  start : {h v : ℕ} → v ≡ h → IsOnBranch c h v
  up : {h v : ℕ} (k : ℕ) → next_view h c ≡ some k → IsOnBranch c k v → IsOnBranch c h v

-- A round goes from a stored block to its stored parent, both at or above the pruned height.
next_view-parent :
    (h k : ℕ) (c : Chain)
    → next_view h c ≡ some k
    → (block : Block) × (parent : Block) × (lookup h c.block_at_height ≡ some block)
      × (lookup block.parent c.blocks ≡ some parent)
      × (parent.view ≡ k)
      × (c.prune_height ≤ k)
      × (c.prune_height ≤ h)
unfolding next_view
next_view-parent h k c e = elim (Option-cases (lookup h c.block_at_height)) [
  | inl q ↦ ground arith
  | inr (b, q) ↦ elim (Option-cases (lookup b.parent c.blocks)) [
    | inl r ↦ ground arith
    | inr (p, r) ↦ (b, p, q, r, ground arith, ground arith, ground arith)
  ]
]

-- The walk ends, where views fall from block to parent.
committed_views-total :
    (u : Universe) (f h : ℕ) (c : Chain)
    → Descends u
    → IsKnown u c
    → h < f
    → (vs : List ℕ) × (committed_views f h c ≡ some vs)
unfolding committed_views
committed_views-total u zero h c falls known lt = absurd (omega arith)
committed_views-total u (suc f) h c falls known lt = elim (Option-cases (next_view h c)) [
  | inl e ↦ ([], rw (e, committed_views))
  | inr (k, e) ↦
      let (b, p, q, r, s, _, _) = next_view-parent h k c e in
      let at = known.at_view h b q in
      let lower : p.view < b.view = falls b p at.0 (known.by_hash b.parent p r) in
      let (vs, w) = committed_views-total u f k c falls known (omega arith) in
      (k ∷ vs, rw (e, committed_views, w))
]

-- What it collects, with the height that it starts at, are the heights that it comes by.
committed_views-IsOnBranch :
    (f h v : ℕ) (vs : List ℕ) (c : Chain)
    → committed_views f h c ≡ some vs
    → has_view v (h ∷ vs) ≡ true
    → IsOnBranch c h v
unfolding committed_views has_view
committed_views-IsOnBranch zero h v vs c e m = cc
committed_views-IsOnBranch (suc f) h v vs c e m = elim (Bool-cases (h == v)) [
  | inl here ↦ start (ground arith)
  | inr there ↦ elim (Option-cases (next_view h c)) [
    | inl q ↦ absurd (ground arith)
    | inr (k, q) ↦ elim (Option-cases (committed_views f k c)) [
      | inl w ↦ absurd (ground arith)
      | inr (ws, w) ↦ up k q (committed_views-IsOnBranch f k v ws c w (ground arith))
    ]
  ]
]

IsOnBranch-committed_views :
    (f h v : ℕ) (vs : List ℕ) (c : Chain)
    → IsOnBranch c h v
    → committed_views f h c ≡ some vs
    → has_view v (h ∷ vs) ≡ true
unfolding committed_views has_view
IsOnBranch-committed_views zero h v vs c b e = cc
IsOnBranch-committed_views (suc f) h v vs c (start q) e = ground arith
IsOnBranch-committed_views (suc f) h v vs c (up k q b) e =
    elim (Option-cases (committed_views f k c)) [
      | inl w ↦ absurd (ground arith)
      | inr (ws, w) ↦ ground (arith, IsOnBranch-committed_views f k v ws c b w)
    ]

-- `delete` at each height of the range, and nowhere else.
prune_loop-lookup :
    (n low v : ℕ) (committed : List ℕ) (m : Dict Block)
    → lookup v (prune_loop n low committed m).1
      ≡ (if ltb low v && leb v (low + n) then none else lookup v m)
unfolding prune_loop
prune_loop-lookup zero low v committed m = ground arith
prune_loop-lookup (suc n) low v committed m = ground (
  arith,
  prune_loop-lookup n low v committed (delete (low + suc n) m),
  lookup-delete (low + suc n) v m,
)

In-as_list :
    (t : Bool) (o : Option Block) (b : Block) → In b (as_list t o) ↔ ((t ≡ false) × (o ≡ some b))
In-as_list true o b = (λ h. absurd h, λ h. absurd (cc))
In-as_list false none b = (λ h. absurd h, λ h. absurd (cc))
In-as_list false (some a) b =
    (λ h. elim h [ inl e ↦ (refl, ap some (sym e)) | inr i ↦ absurd i ], λ h. inl (cc))

-- A block of a height above `low`, up to `low + n`, that the committed heights do not contain.
record IsForked (low n : ℕ) (committed : List ℕ) (m : Dict Block) (b : Block) (v : ℕ) : Type 0 where
  above_low : low < v
  within : v ≤ low + n
  stored : lookup v m ≡ some b
  not_committed : has_view v committed ≡ false

prune_loop-IsForked :
    (n low : ℕ) (committed : List ℕ) (m : Dict Block) (b : Block)
    → In b (prune_loop n low committed m).0
    → (v : ℕ) × IsForked low n committed m b v
unfolding prune_loop
prune_loop-IsForked zero low committed m b i = absurd i
prune_loop-IsForked (suc n) low committed m b i =
    elim (In-append b (as_list (has_view (low + suc n) committed) (lookup (low + suc n) m)) _ i) [
      | inl here ↦
          let q = (In-as_list _ _ b).0 here in
          (
            low + suc n,
            record {
              above_low = omega arith;
              within = omega arith;
              stored = q.1;
              not_committed = q.0;
            },
          )
      | inr there ↦
          let (v, w) = prune_loop-IsForked n low committed (delete (low + suc n) m) b there in
          (
            v,
            record {
              above_low = w.above_low;
              within = omega arith;
              stored = ground (arith, w.stored, w.within, lookup-delete (low + suc n) v m);
              not_committed = w.not_committed;
            },
          )
    ]

IsForked-prune_loop :
    (n low : ℕ) (committed : List ℕ) (m : Dict Block) (b : Block) (v : ℕ)
    → IsForked low n committed m b v
    → In b (prune_loop n low committed m).0
unfolding prune_loop
IsForked-prune_loop zero low committed m b v w = absurd (omega arith)
IsForked-prune_loop (suc n) low committed m b v w = elim (Bool-cases (low + suc n == v)) [
  | inl here ↦
      In-append_left b (as_list (has_view (low + suc n) committed) (lookup (low + suc n) m)) _ (
        (In-as_list (has_view (low + suc n) committed) (lookup (low + suc n) m) b).1
          (ground arith, ground arith))
  | inr there ↦
      In-append_right b (as_list (has_view (low + suc n) committed) (lookup (low + suc n) m)) _ (
        IsForked-prune_loop n low committed (delete (low + suc n) m) b v (record {
          above_low = w.above_low;
          within = ground arith;
          stored = ground (arith, lookup-delete (low + suc n) v m);
          not_committed = w.not_committed;
        }))
]

-- What a call does, for the maps and for the blocks that it returns.
module _ (committed : Block) (height : ℕ) (c c' : Chain) (forked : List Block)
    (run : prune_to_height committed height c ≡ some (forked, c')) where
  abbrev Collected : Type 0
  Collected =
      (views : List ℕ) × (committed_views (suc committed.view) committed.view c ≡ some views)
      × (forked
          ≡ (prune_loop (height - c.prune_height) c.prune_height (committed.view ∷ views)
              c.block_at_height).0)
      × (c' ≡ record c {
        block_at_height =
            (prune_loop (height - c.prune_height) c.prune_height (committed.view ∷ views)
              c.block_at_height).1;
        prune_height = height;
      })

  prune_to_height-Collected : Collected
  unfolding prune_to_height
  prune_to_height-Collected =
      elim (Option-cases (committed_views (suc committed.view) committed.view c)) [
        | inl e ↦ absurd (ground arith)
        | inr (views, e) ↦ (views, e, ground arith, ground arith)
      ]

  -- A block is reported by a call of PruneToHeight that ends exactly if it stands at a view above
  -- the pruned height and up to the new one that is not on the committed branch, as the maps show
  -- it.
  pub prune_to_height-forked :
      (b : Block)
      → In b forked ↔ (
          (v : ℕ) × (c.prune_height < v)
          × (v ≤ height)
          × (lookup v c.block_at_height ≡ some b)
          × (¬ IsOnBranch c committed.view v))
  prune_to_height-forked b =
      let (views, w, ef, _) = prune_to_height-Collected in
      let views' = committed.view ∷ views in
      (
        λ i.
            let (v, q) =
              prune_loop-IsForked (height - c.prune_height) c.prune_height views' c.block_at_height
                b (rw ef at i) in
            (
              v,
              q.above_low,
              omega (arith, q.within, q.above_low),
              q.stored,
              λ on. false≢true (
                  sym q.not_committed
                  ∙ IsOnBranch-committed_views (suc committed.view) committed.view v views c on w),
            ),
        λ (v, lo, hi, e, off). rw ef (
            IsForked-prune_loop (height - c.prune_height) c.prune_height views' c.block_at_height b
              v
              (record {
                above_low = lo;
                within = omega arith;
                stored = e;
                not_committed = elim (Bool-cases (has_view v views')) [
                  | inl t ↦ absurd (
                      off (
                        committed_views-IsOnBranch (suc committed.view) committed.view v views c w
                          t))
                  | inr f ↦ f
                ];
              })),
      )

  -- A call of PruneToHeight that ends drops exactly the entries by view above the pruned height
  -- and up to the new one, leaves the blocks by hash as they are, and sets the pruned height.
  pub prune_to_height-lookup :
      (v : ℕ)
      → (lookup v c'.block_at_height ≡ (
          if ltb c.prune_height v && leb v (max c.prune_height height)
          then none
          else lookup v c.block_at_height))
        × (c'.blocks ≡ c.blocks)
        × (c'.prune_height ≡ height)
  prune_to_height-lookup v =
      let (views, w, _, ec) = prune_to_height-Collected in
      let l =
        prune_loop-lookup (height - c.prune_height) c.prune_height v (committed.view ∷ views)
          c.block_at_height in
      (ground arith, ap (λ (d : Chain). d.blocks) ec, ap (λ (d : Chain). d.prune_height) ec)

-- PruneToHeight ends, with the fuel that the committed view gives, for a replica that holds only
-- existing blocks, if parents have lower views.
pub prune_to_height-total :
    (u : Universe) (committed : Block) (height : ℕ) (c : Chain)
    → Descends u
    → IsKnown u c
    → (r : List Block × Chain) × (prune_to_height committed height c ≡ some r)
unfolding prune_to_height
prune_to_height-total u committed height c falls known =
    let (vs, e) =
      committed_views-total u (suc committed.view) committed.view c falls known (omega arith) in
    elim (Option-cases (prune_to_height committed height c)) [
      | inl q ↦ absurd (ground arith)
      | inr r ↦ r
    ]

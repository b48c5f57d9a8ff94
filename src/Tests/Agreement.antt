-- ===== src/Tests/Agreement.antt =====
-- Four replicas under the simple rules, one of them faulty: the others vote for four blocks, and
-- commit the genesis block and the first of them.
use optilog_artifacts.Prelude.{
  ℕ, zero, suc, ◌≡◌, refl, sym, subst, Bool, true, false, not, ◌&&◌, none, some, List, [], ◌∷◌,
  arith, In, inl, inr, ◌⊎◌, list_eq, list_eq_refl, list_eq_sound, ◌==◌, Bool-cases,
}
use optilog_artifacts.Types.{
  Block, QuorumSignature, ProposeMsg, block_bytes, qc_bytes, view_bytes, hash_bytes, id_bytes,
  put_le, new_partial_cert, num_faulty, quorum_size,
}
use optilog_artifacts.Types.IdSet.{contains, AreDistinct}
use optilog_artifacts.Consensus.{Acceptor, Config, get_block, store_block, put_chain, chain_of}
use optilog_artifacts.Rules.Simple as Simple
use optilog_artifacts.Rules.Simple.{vote_rule, commit_rule, raise_lock}
use optilog_artifacts.Crypto.{verify_quorum_cert, verify_signed, create_partial_cert}
use optilog_artifacts.Chain.{
  store, get, fetch_block, after_fetch, prune_to_height, next_view, committed_views, prune_loop,
  has_view, store_all,
}
use optilog_artifacts.Prelude.Dict.{insert, lookup}
use optilog_artifacts.Consensus.Commit.{
  commit, commit_inner, after_parent, after_commit, prune, after_prune, handle_forks, execute,
}
use optilog_artifacts.Consensus.Propose.{
  on_propose, vote_steps, check_aggregate, report_complaints, check_cert, answer, check_vote,
  answer_vote, previous_proposed, mark_proposed, check_command, apply_commit_rule, commit_if,
  sign_block, deliver,
}
use optilog_artifacts.Consensus.Lead.{Call, receives, run, step}
use optilog_artifacts.Agreement.{simple_rules, Replica, votes_of}
use optilog_artifacts.Agreement.History.{Scheme}
use optilog_artifacts.Agreement.System.{IsGenuine, RestsOn}
use optilog_artifacts.Agreement.Agreed.{Honest, Commits, Honest-IsVoting, simple_agreement}
use optilog_artifacts.Agreement.Quorums.{IsWithin, quorums_meet}
use optilog_artifacts.Agreement.Contract.{IsVoting}
use optilog_artifacts.Tests.World.{
  world, world-IsHashed, network, network-IsFaithful, chain, chain-IsKnown, block_of, genesis, base,
  config,
}

abbrev signers : List ℕ
signers = 1 ∷ 2 ∷ 3 ∷ []

-- Three signers, and nobody signs the genesis block.
abbrev verify : QuorumSignature → List ℕ → Bool
verify sig m = list_eq sig.participants signers && not (list_eq m (block_bytes genesis))

abbrev config_of : ℕ → Config
config_of i = record config { id = i; has_handel = true; base = record base { verify = verify } }

abbrev scheme : Scheme
scheme = record { genesis = 10; quorum = λ v. 3; verify = verify }

abbrev acceptor : Acceptor
acceptor = record { State = Unit {0}; accept = λ bytes s. true; proposed = λ bytes s. s }

abbrev State : Type 0
State = Replica network acceptor ℕ

abbrev initial : State
initial = record {
  rules = record { locked = genesis; chain = chain };
  acceptor = tt;
  sync = 1;
  last_vote = 0;
  b_exec = genesis;
  out = [];
}

abbrev proposal : ℕ → ProposeMsg
proposal v = record { id = 1; block = block_of v; aggregate_qc = none; complaints = [] }

abbrev Event : ℕ → Type 0
Event i = Call (simple_rules network) acceptor ℕ (config_of i) (λ v. v) (λ si cs. cs)

abbrev calls :
    (i : ℕ) → List (Call (simple_rules network) acceptor ℕ (config_of i) (λ v. v) (λ si cs. cs))
calls i =
    receives (proposal 1)
    ∷ receives (proposal 2)
    ∷ receives (proposal 3)
    ∷ receives (proposal 4)
    ∷ []

abbrev voted : List Block
voted = block_of 4 ∷ block_of 3 ∷ block_of 2 ∷ block_of 1 ∷ []

abbrev next : (i v : ℕ) → State → State
next i v cs =
    step (simple_rules network) acceptor ℕ (config_of i) (λ v. v) (λ si cs. cs)
      (receives (proposal v)) cs

abbrev state_after : (i n : ℕ) → State
state_after i zero = initial
state_after i (suc n) = next i (suc n) (state_after i n)

abbrev votes_after : (i n : ℕ) → List Block
votes_after i n = votes_of (state_after i n).out

-- The votes, call by call.
cast :
    (i : ℕ)
    → (votes_after i 1 ≡ block_of 1 ∷ [])
      × (votes_after i 2 ≡ block_of 2 ∷ block_of 1 ∷ [])
      × (votes_after i 3 ≡ block_of 3 ∷ block_of 2 ∷ block_of 1 ∷ [])
      × (votes_after i 4 ≡ voted)
unfolding step on_propose vote_steps check_aggregate report_complaints check_cert answer
    verify_quorum_cert verify_signed get check_vote answer_vote vote_rule Simple.get_block
    previous_proposed mark_proposed get_block check_command store_block store insert lookup
    apply_commit_rule commit_if commit commit_inner after_parent commit_rule raise_lock sign_block
    create_partial_cert new_partial_cert deliver put_chain chain_of block_bytes qc_bytes view_bytes
    hash_bytes id_bytes put_le after_commit prune after_prune handle_forks execute prune_to_height
    next_view committed_views prune_loop has_view fetch_block after_fetch store_all
cast i = (refl, refl, refl, refl)

genesis_unsigned : (sig : QuorumSignature) → verify sig (block_bytes genesis) ≡ true → ⊥
genesis_unsigned sig e = absurd (ground (arith, list_eq_refl (block_bytes genesis)))

honest : (i : ℕ) → Honest world scheme i voted
unfolding run
honest i = record {
  config = config_of i;
  acceptor = acceptor;
  Sync = ℕ;
  view_of = λ v. v;
  advance = λ si cs. cs;
  calls = calls i;
  initial = initial;
  same_scheme = refl;
  same_id = refl;
  cast = (cast i).3;
  faithful = network-IsFaithful;
  supplies = λ n h b e. e;
  steady = λ qc p cs e w. record {
    voter = w;
    more = λ b m. m;
    lock_rises = omega arith;
    bounded = λ h. h;
  };
  fit = (
    record {
      exists = refl;
      own = λ sig p e f valid mine. absurd (ground (arith, genesis_unsigned sig));
    },
    (
      record { exists = refl; own = λ sig p e f valid mine. rw (cast i).0 (inl (ground arith)) },
      (
        record { exists = refl; own = λ sig p e f valid mine. rw (cast i).1 (inl (ground arith)) },
        (
          record {
            exists = refl;
            own = λ sig p e f valid mine. rw (cast i).2 (inl (ground arith));
          },
          tt,
        ),
      ),
    ),
  );
  voter = record { sound = record { exists = refl; known = chain-IsKnown }; history = (tt, tt) };
}

signed_by_three :
    (sig : QuorumSignature) (m : List ℕ) → verify sig m ≡ true → sig.participants ≡ signers
signed_by_three sig m e = list_eq_sound sig.participants signers (ground arith)

signers_distinct : AreDistinct signers
unfolding contains
signers_distinct = (refl, (refl, (refl, tt)))

signers-IsWithin : IsWithin signers (1 ∷ 2 ∷ 3 ∷ 4 ∷ [])
unfolding contains
signers-IsWithin k e = ground arith

unsigned :
    (h : ℕ) (b : Block) (sig : QuorumSignature)
    → world h ≡ some b
    → verify sig (block_bytes b) ≡ true
    → In b voted
unsigned h b sig e f = elim (Bool-cases (h == 10)) [
  | inl g ↦ absurd (
      genesis_unsigned sig
        (subst (λ (x : Block). verify sig (block_bytes x) ≡ true) (ground arith) f))
  | inr n1 ↦ elim (Bool-cases (h == 11)) [
    | inl g ↦ inr (inr (inr (inl (ground arith))))
    | inr n2 ↦ elim (Bool-cases (h == 12)) [
      | inl g ↦ inr (inr (inl (ground arith)))
      | inr n3 ↦ elim (Bool-cases (h == 13)) [
        | inl g ↦ inr (inl (ground arith))
        | inr n4 ↦ inl (ground arith)
      ]
    ]
  ]
]

genuine : IsGenuine world scheme (1 ∷ 2 ∷ 3 ∷ 4 ∷ []) (4 ∷ []) (λ i. voted)
genuine = record {
  nonempty = omega arith;
  few = unfold num_faulty in omega arith;
  quorum = λ v. unfold quorum_size num_faulty in refl;
  distinct = λ sig m e. subst AreDistinct (sym (signed_by_three sig m e)) signers_distinct;
  within = λ sig m e.
      subst (λ s. IsWithin s (1 ∷ 2 ∷ 3 ∷ 4 ∷ [])) (sym (signed_by_three sig m e)) signers-IsWithin;
  unforged = λ sig h i b e f m good. unsigned h b sig e f;
}

commits :
    (v : ℕ) (b : Block)
    → (commit_rule network (block_of v) (initial.rules)).0 ≡ some b
    → (verify_quorum_cert (config_of 1).base 10 (λ v. 3) network (block_of v).cert chain).0
      ≡ some true
    → Commits world scheme (block_of v) b
commits v b e f = record {
  config = config_of 1;
  same_scheme = refl;
  faithful = network-IsFaithful;
  chain = chain;
  known = chain-IsKnown;
  accepted = f;
  rules = initial.rules;
  sound = record { exists = refl; known = chain-IsKnown };
  returns = e;
}

returned_3 : (commit_rule network (block_of 3) (initial.rules)).0 ≡ some genesis
unfolding commit_rule Simple.get_block get lookup raise_lock store_all store insert
returned_3 = refl

returned_4 : (commit_rule network (block_of 4) (initial.rules)).0 ≡ some (block_of 1)
unfolding commit_rule Simple.get_block get lookup raise_lock store_all store insert
returned_4 = refl

accepted :
    (verify_quorum_cert (config_of 1).base 10 (λ v. 3) network (block_of 3).cert chain).0
      ≡ some true
    × ((verify_quorum_cert (config_of 1).base 10 (λ v. 3) network (block_of 4).cert chain).0
        ≡ some true)
unfolding verify_quorum_cert verify_signed get lookup store_all store insert block_bytes qc_bytes
    view_bytes hash_bytes id_bytes put_le
accepted = (refl, refl)

simple_agreement_example : RestsOn world genesis (block_of 1) ⊎ RestsOn world (block_of 1) genesis
simple_agreement_example =
    simple_agreement world scheme genesis (1 ∷ 2 ∷ 3 ∷ 4 ∷ []) (4 ∷ []) (λ i. voted) (block_of 3)
      (block_of 4) genesis (block_of 1) world-IsHashed
      (record { found = refl; lowest = refl; first = refl }) genuine (λ i within good. honest i)
      (commits 3 genesis returned_3 accepted.0) (commits 4 (block_of 1) returned_4 accepted.1)

Honest-IsVoting_example : IsVoting world scheme 1 voted
Honest-IsVoting_example = Honest-IsVoting world scheme 1 voted world-IsHashed (honest 1)

quorums_meet_example :
    (i : ℕ) × (contains i signers ≡ true)
    × (contains i (2 ∷ 3 ∷ 4 ∷ []) ≡ true)
    × (contains i (4 ∷ []) ≡ false)
unfolding num_faulty quorum_size contains
quorums_meet_example =
    quorums_meet (1 ∷ 2 ∷ 3 ∷ 4 ∷ []) (4 ∷ []) signers (2 ∷ 3 ∷ 4 ∷ []) (omega arith) (omega arith)
      signers_distinct (refl, (refl, (refl, tt))) signers-IsWithin (λ k e. ground arith)
      (omega arith) (omega arith)

-- ===== src/Types/Collision.antt =====
-- The hashes of blocks, by ToBytes of overhead/block.go: it writes the command and the certificate
-- one after the other, without the length of either.
use optilog_artifacts.Prelude.{ℕ, ◌≡◌, ap, some, List, [], ◌++◌, append_assoc}
use optilog_artifacts.Types.{QuorumCert, new_block, hash_bytes, id_bytes, view_bytes, qc_bytes}

regroup : {A : Type 0} (p c v h q : List A) → p ++ (c ++ v ++ h) ++ q ≡ p ++ c ++ (v ++ h ++ q)
regroup p c v h q = simp append_assoc

-- A block whose command ends with the bytes of a view and a hash has the same hash as the block
-- with the command before these, and with a certificate of that view and hash whose signature has
-- the bytes of the first block's certificate.
pub new_block_collision :
    (sha256 : List ℕ → ℕ) (parent : ℕ) (inner : QuorumCert) (cmd ps : List ℕ)
    (view proposer time h v : ℕ)
    → (new_block sha256 parent inner (cmd ++ view_bytes v ++ hash_bytes h) view proposer time).hash
      ≡ (new_block sha256 parent
          (record {
            signature = some (record { bytes = qc_bytes inner; participants = ps });
            view = v;
            hash = h;
            latency_vector = [];
          })
          cmd
          view
          proposer
          time).hash
unfolding new_block qc_bytes
new_block_collision sha256 parent inner cmd ps view proposer time h v = ap sha256 (
    regroup (hash_bytes parent ++ id_bytes proposer ++ view_bytes view) cmd (view_bytes v)
      (hash_bytes h) (qc_bytes inner))

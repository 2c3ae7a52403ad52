-- ===== src/Tests/Trees.antt =====
-- Merkle trees and proofs on small lists.
use blockchain_messaging_pro.Common.{◌≡◌, ◌⊎◌, true, [], ◌∷◌, ◌++◌, codes, arith, str_beq_refl}
use blockchain_messaging_pro.Merkle.{
  MerkleProof, calculate_merkle_root, generate_merkle_path, climb, verify,
}
use blockchain_messaging_pro.Merkle.Verify.{climb-generate_merkle_path}
use blockchain_messaging_pro.Merkle.Binding.{
  Collision, verify_binding, calculate_merkle_root-duplicate,
}
use blockchain_messaging_pro.Tests.{toy}

climb-generate_merkle_path_example :
    climb toy
      (toy (codes "c"))
      (generate_merkle_path toy (codes "a" ∷ codes "b" ∷ codes "c" ∷ []) 2)
    ≡ calculate_merkle_root toy (codes "a" ∷ codes "b" ∷ codes "c" ∷ [])
climb-generate_merkle_path_example =
    climb-generate_merkle_path toy (codes "a" ∷ codes "b" ∷ codes "c" ∷ []) 2 (omega arith)

abbrev proof_of_a : MerkleProof
proof_of_a = record {
  block_hash = [];
  block_height = 1;
  data_hash = toy (codes "a");
  merkle_root = climb toy (toy (codes "a")) ((codes "b", codes "right") ∷ []);
  proof_path = (codes "b", codes "right") ∷ [];
}

proof_of_a-verify : verify toy proof_of_a ≡ true
unfolding verify
proof_of_a-verify = str_beq_refl proof_of_a.merkle_root

verify_binding_example : (toy (codes "a") ≡ toy (codes "a")) ⊎ Collision toy
verify_binding_example =
    verify_binding toy proof_of_a (toy (codes "a")) proof_of_a-verify proof_of_a-verify

calculate_merkle_root-duplicate_example :
    calculate_merkle_root toy ((codes "a" ∷ codes "b" ∷ []) ++ (codes "c" ∷ codes "c" ∷ []))
    ≡ calculate_merkle_root toy ((codes "a" ∷ codes "b" ∷ []) ++ (codes "c" ∷ []))
calculate_merkle_root-duplicate_example =
    calculate_merkle_root-duplicate toy (codes "a" ∷ codes "b" ∷ []) (codes "c") (omega arith)
      (omega arith)

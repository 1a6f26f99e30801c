-- ===== src/Merkle.antt =====
-- models/commitmentmerkletree.go, models/commitmentmerkleproof.go and models/commitment.go: the
-- merkle tree of client commitments, its proofs, and their verification.
pub mod Tree
pub mod Proof
pub mod Commitment
pub mod Power
pub mod Levels
pub mod Build
pub mod Path
pub mod Ops
pub mod Correct
pub mod Attested
pub mod Binding
mod Tests

-- ===== src/Build/Laws.antt =====
-- The build and the assertion of src/consensus.rs on what it writes.
use the_block.Prelude.{
  ◌≡◌, ◌<◌, ◌↔◌, sym, ◌∙◌, [], ◌∷◌, Option, none, some, Bool, true, Text, Bytes, arith, All,
}
use the_block.Prelude.Result.{ok}
use the_block.Transaction.{Crypto}
use the_block.Hashlayout.{build_genesis_digest, calculate_genesis_hash_runtime}
use the_block.Hashlayout.Injective.{genesis_digest_agrees}
use the_block.Consensus.{genesis_hash, assert_genesis_hash}
use the_block.Consensus.Laws.{assert_genesis_hash_iff}
use the_block.Build.{is_ascii, main}

is_ascii-All : (bytes : Bytes) → is_ascii bytes ≡ true → All (λ b. b < 128) bytes
unfolding is_ascii
is_ascii-All [] h = tt
is_ascii-All (b ∷ bytes) h = (ground arith, is_ascii-All bytes (ground arith))

main_outcome :
    (crypto : Crypto) (constants : Bytes) (out_dir : Option Text) (writes : Text → Text → Bool)
    {dest file : Text}
    → main crypto constants out_dir writes ≡ ok (dest, file)
    → (is_ascii constants ≡ true) × (file ≡ build_genesis_digest crypto)
unfolding main
main_outcome crypto constants none writes h = absurd (ground arith)
main_outcome crypto constants (some dir) writes h = (ground arith, ground arith)

-- A build that succeeds has found constants.rs in ASCII, and the assertion at compile time holds of
-- the file that it wrote exactly if the hash of the genesis header, as it is computed at run time, is
-- the constant GENESIS_HASH.
pub build_then_assert :
    (crypto : Crypto) (constants : Bytes) (out_dir : Option Text) (writes : Text → Text → Bool)
    (dest file : Text)
    → main crypto constants out_dir writes ≡ ok (dest, file)
    → All (λ b. b < 128) constants
      × ((assert_genesis_hash file ≡ ok tt)
          ↔ (calculate_genesis_hash_runtime crypto ≡ genesis_hash))
build_then_assert crypto constants out_dir writes dest file h =
    let (ascii, written) =
      main_outcome crypto constants out_dir writes {dest = dest} {file = file} h in
    let same : file ≡ calculate_genesis_hash_runtime crypto =
      written ∙ genesis_digest_agrees crypto in
    let i = (assert_genesis_hash_iff file).0 in
    (is_ascii-All constants ascii, ((λ p. sym same ∙ i.0 p), (λ p. i.1 (same ∙ p))))

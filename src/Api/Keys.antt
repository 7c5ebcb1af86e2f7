-- ===== src/Api/Keys.antt =====
-- Keys and signatures through the functions that Python calls.
use the_block.Prelude.{◌≡◌, true, Bytes, length, arith}
use the_block.Prelude.Result.{ok}
use the_block.Transaction.{
  Crypto, RawTxPayload, SignedTransaction, to_array_32, to_array_64, verify_signature,
}
use the_block.Transaction.Signing.{SignsCorrectly, sign_tx_succeeds, verify-sign}
use the_block.Api.{generate_keypair, sign_message, sign_tx_py, verify_signed_tx_py}

-- With a signature scheme that signs correctly, a pair of keys from any 32 random bytes works: its
-- private key signs every message and every payload, its public key accepts the signature of the
-- message, and the signed transaction has the payload and passes verification.
pub generate_keypair_works :
    (crypto : Crypto)
    → SignsCorrectly crypto
    → (random message : Bytes) (payload : RawTxPayload) → length random ≡ 32
    → let keys = generate_keypair crypto random in
      ((signature : Bytes) × (sign_message crypto keys.0 message ≡ ok signature)
        × (verify_signature crypto keys.1 message signature ≡ true))
      × ((tx : SignedTransaction) × (sign_tx_py crypto keys.0 payload ≡ ok tx)
          × (tx.payload ≡ payload)
          × (verify_signed_tx_py crypto tx ≡ true))
unfolding generate_keypair sign_message sign_tx_py verify_signed_tx_py verify_signature to_array_32
    to_array_64
generate_keypair_works crypto laws random message payload h =
    let (tx, made, kept) = sign_tx_succeeds crypto random payload h in
    (
      (
        crypto.sign random message,
        ground arith,
        ground (
          arith,
          laws.key_length random,
          laws.signature_length random message,
          laws.key_valid random,
          laws.verifies random message,
        ),
      ),
      (tx, ground (arith, made), kept, verify-sign crypto laws random payload made),
    )

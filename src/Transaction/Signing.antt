-- ===== src/Transaction/Signing.antt =====
-- Signing and verifying agree, and what a valid signature does not bind.
use the_block.Prelude.{true, some, length, ◌≡◌, refl, arith, Bytes}
use the_block.Transaction.{
  Crypto, RawTxPayload, SignedTransaction, to_array_32, to_array_64, sign_tx, verify_signed_tx,
  signing_bytes,
}

-- What Ed25519 documents: keys have 32 bytes, signatures 64, a derived key is a valid point, and a
-- signature verifies under the key that made it.
pub record SignsCorrectly (crypto : Crypto) : Type 0 where
  pub key_length : (sk : Bytes) → length (crypto.verifying_key sk) ≡ 32
  pub signature_length : (sk msg : Bytes) → length (crypto.sign sk msg) ≡ 64
  pub key_valid : (sk : Bytes) → crypto.key_ok (crypto.verifying_key sk) ≡ true
  pub verifies :
      (sk msg : Bytes) → crypto.verify (crypto.verifying_key sk) msg (crypto.sign sk msg) ≡ true

module _ (crypto : Crypto) where
  -- Signing succeeds exactly for a key of 32 bytes, and keeps the payload.
  pub sign_tx_succeeds :
      (sk : Bytes) (payload : RawTxPayload)
      → length sk ≡ 32
      → (tx : SignedTransaction) × (sign_tx crypto sk payload ≡ some tx) × (tx.payload ≡ payload)
  unfolding sign_tx to_array_32
  sign_tx_succeeds sk payload h = (
    record {
      payload = payload;
      public_key = crypto.verifying_key sk;
      signature = crypto.sign sk (signing_bytes crypto payload);
    },
    ground arith,
    refl,
  )

  -- If the signature scheme signs correctly, every transaction that `sign_tx` returns passes
  -- `verify_signed_tx`.
  pub verify-sign :
      SignsCorrectly crypto
      → (sk : Bytes) (payload : RawTxPayload) {tx : SignedTransaction}
      → sign_tx crypto sk payload ≡ some tx
      → verify_signed_tx crypto tx ≡ true
  unfolding sign_tx to_array_32 to_array_64 verify_signed_tx
  verify-sign laws sk payload h = ground (
    arith,
    laws.key_length sk,
    laws.signature_length sk (signing_bytes crypto payload),
    laws.key_valid sk,
    laws.verifies sk (signing_bytes crypto payload),
  )

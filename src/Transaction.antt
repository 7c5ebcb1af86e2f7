-- ===== src/Transaction.antt =====
-- Transactions and their signatures, src/transaction.rs, with the domain tag of src/consensus.rs.
-- Ed25519, BLAKE3, hex and bincode are third-party crates: they are the fields of `Crypto`.
pub mod Signing
use the_block.Prelude.{
  ℕ, ◌+◌, ◌/◌, ◌%◌, ◌^◌, List, [], ◌∷◌, ◌++◌, Option, none, some, Bool, true, false, length, Text,
  Bytes, ◌==◌, if◌then◌else◌, ◌≡◌, replicate, text_dec,
}

pub record RawTxPayload : Type 0 where
  pub from_ : Text
  pub to : Text
  pub amount_consumer : ℕ
  pub amount_industrial : ℕ
  pub fee : ℕ
  pub fee_selector : ℕ
  pub nonce : ℕ
  pub memo : Bytes

pub record SignedTransaction : Type 0 where
  pub payload : RawTxPayload
  pub public_key : Bytes
  pub signature : Bytes

-- The crates that the program calls.
pub record Crypto : Type 0 where
  -- `blake3::Hasher`: the hash of what the `update` calls append.
  pub blake3 : Bytes → Bytes
  -- `blake3::Hash::to_hex` and `hex::decode`.
  pub to_hex : Bytes → Text
  pub hex_decode : Text → Option Bytes
  -- `bincode_config().serialize` of a payload.
  pub serialize : RawTxPayload → Bytes
  -- `SigningKey::from_bytes(sk).verifying_key().to_bytes()` and `.sign(msg).to_bytes()`.
  pub verifying_key : Bytes → Bytes
  pub sign : Bytes → Bytes → Bytes
  -- `VerifyingKey::from_bytes(pk).is_ok()` and `.verify(msg, sig).is_ok()`.
  pub key_ok : Bytes → Bool
  pub verify : Bytes → Bytes → Bytes → Bool

abbrev pub chain_id : ℕ
chain_id = 1

abbrev pub tx_version : ℕ
tx_version = 2

-- `n.to_le_bytes()` of an integer of `k` bytes.
unfoldable pub le_bytes : ℕ → ℕ → Bytes
le_bytes ℕ.zero n = []
le_bytes (ℕ.suc k) n = n % 256 ∷ le_bytes k (n / 256)

-- "THE_BLOCKv2|" and the chain id.
unfoldable pub domain_tag : Bytes
unfolding le_bytes
domain_tag =
    (b'T' ∷ b'H' ∷ b'E' ∷ b'_' ∷ b'B' ∷ b'L' ∷ b'O' ∷ b'C' ∷ b'K' ∷ b'v' ∷ b'2' ∷ b'|' ∷ [])
    ++ le_bytes 4 chain_id

-- `bytes.try_into().ok()` for a fixed length.
abbrev to_array : ℕ → Bytes → Option Bytes
to_array n bytes = if length bytes == n then some bytes else none

unfoldable pub to_array_32 : Bytes → Option Bytes
to_array_32 = to_array 32

unfoldable pub to_array_64 : Bytes → Option Bytes
to_array_64 = to_array 64

module _ (crypto : Crypto) where
  open crypto use {blake3, serialize, verifying_key, sign, key_ok, verify}

  unfoldable pub canonical_payload_bytes : RawTxPayload → Bytes
  canonical_payload_bytes payload = serialize payload

  -- `SignedTransaction::id`.
  unfoldable pub id : SignedTransaction → Bytes
  unfolding canonical_payload_bytes
  id tx = blake3 (
      (b'T' ∷ b'X' ∷ [])
      ++ (tx_version ∷ [])
      ++ (canonical_payload_bytes tx.payload ++ tx.public_key))

  -- The bytes that are signed.
  unfoldable pub signing_bytes : RawTxPayload → Bytes
  unfolding canonical_payload_bytes
  signing_bytes payload = domain_tag ++ canonical_payload_bytes payload

  unfoldable pub sign_tx : Bytes → RawTxPayload → Option SignedTransaction
  sign_tx sk_bytes payload = elim (to_array_32 sk_bytes) [
    | none ↦ none
    | some sk ↦ some (record {
      payload = payload;
      public_key = verifying_key sk;
      signature = sign sk (signing_bytes payload);
    })
  ]

  -- `vk.verify` behind the length and key checks, on any message: `verify_signature`.
  unfoldable pub verify_signature : Bytes → Bytes → Bytes → Bool
  unfolding to_array_32 to_array_64
  verify_signature public message signature = elim (to_array_32 public) [
    | none ↦ false
    | some pk ↦ elim (to_array_64 signature) [
      | none ↦ false
      | some sig ↦ if key_ok pk then verify pk message sig else false
    ]
  ]

  unfoldable pub verify_signed_tx : SignedTransaction → Bool
  unfolding verify_signature
  verify_signed_tx tx = verify_signature tx.public_key (signing_bytes tx.payload) tx.signature

-- ===== src/Api.antt =====
-- What the Python module offers around the node: the methods of `TokenAmount`, key generation and
-- message signing of src/lib.rs, the wrappers of src/transaction.rs and src/fee/mod.rs, and the
-- texts that objects print as. Numbers print in decimal.
pub mod Keys
use the_block.Prelude.{
  ℕ, zero, suc, ◌+◌, ◌/◌, ◌%◌, List, [], ◌∷◌, ◌++◌, Option, none, some, Bool, Text, Bytes, length,
  ltb, if◌then◌else◌,
}
use the_block.Prelude.Strings.{codes}
use the_block.Prelude.Word.{saturating_sub, saturating_add}
use the_block.Prelude.Result.{Result, ok, err, ok_or}
use the_block.Fee.{FeeError, invalid_selector, overflow, decompose}
use the_block.Transaction.{
  Crypto, RawTxPayload, SignedTransaction, chain_id, to_array_32, sign_tx, verify_signed_tx,
  canonical_payload_bytes,
}
use the_block.Hashlayout.{concat}
use the_block.Ledger.{TokenAmount}

-- The exceptions that the wrappers raise.
pub data PyException : Type 0 where
  err_invalid_selector err_fee_overflow invalid_private_key_length : PyException

-- `TokenAmount::new`, `py_new`, and `get`, `value`, `__int__`.
unfoldable pub new : ℕ → TokenAmount
new v = v

unfoldable pub get : TokenAmount → ℕ
get a = a

unfoldable pub token_add : TokenAmount → TokenAmount → TokenAmount
unfolding get new
token_add a b = new (saturating_add (get a) (get b))

unfoldable pub token_sub : TokenAmount → TokenAmount → TokenAmount
unfolding get new
token_sub a b = new (saturating_sub (get a) (get b))

-- The decimal digits of a number, with fuel for as many.
unfoldable pub digits : ℕ → ℕ → Text
digits zero n = []
digits (suc fuel) n =
    let front = digits fuel (n / 10) in
    if ltb n 10 then (b'0' + n) ∷ [] else front ++ ((b'0' + n % 10) ∷ [])

-- A `u64` or a `usize` has at most 20 digits.
unfoldable pub to_string : ℕ → Text
unfolding digits
to_string n = digits 20 n

-- `Display` of a `TokenAmount`.
unfoldable pub fmt : TokenAmount → Text
unfolding to_string
fmt a = to_string a

-- `__repr__`, and `__str__` which calls it.
unfoldable pub token_repr : TokenAmount → Text
unfolding to_string
token_repr a = to_string a

unfoldable pub token_str : TokenAmount → Text
unfolding token_repr
token_str a = token_repr a

-- `RawTxPayload::new` and `SignedTransaction::new`.
unfoldable pub new_payload : Text → Text → ℕ → ℕ → ℕ → ℕ → ℕ → Bytes → RawTxPayload
new_payload from_ to amount_consumer amount_industrial fee fee_selector nonce memo = record {
  from_ = from_;
  to = to;
  amount_consumer = amount_consumer;
  amount_industrial = amount_industrial;
  fee = fee;
  fee_selector = fee_selector;
  nonce = nonce;
  memo = memo;
}

unfoldable pub new_signed : RawTxPayload → Bytes → Bytes → SignedTransaction
new_signed payload public_key signature = record {
  payload = payload;
  public_key = public_key;
  signature = signature;
}

unfoldable pub payload_repr : RawTxPayload → Text
unfolding to_string
payload_repr p = concat (
    codes "RawTxPayload(from='"
    ∷ p.from_
    ∷ codes "', to='"
    ∷ p.to
    ∷ codes "', amount_consumer="
    ∷ to_string p.amount_consumer
    ∷ codes ", amount_industrial="
    ∷ to_string p.amount_industrial
    ∷ codes ", fee="
    ∷ to_string p.fee
    ∷ codes ", fee_selector="
    ∷ to_string p.fee_selector
    ∷ codes ", nonce="
    ∷ to_string p.nonce
    ∷ codes ", memo_len="
    ∷ to_string (length p.memo)
    ∷ codes ")"
    ∷ [])

unfoldable pub tx_repr : SignedTransaction → Text
unfolding payload_repr
tx_repr tx = concat (
    codes "SignedTransaction(payload="
    ∷ payload_repr tx.payload
    ∷ codes ", public_key=<"
    ∷ to_string (length tx.public_key)
    ∷ codes " bytes>, signature=<"
    ∷ to_string (length tx.signature)
    ∷ codes " bytes>)"
    ∷ [])

unfoldable pub decompose_py : ℕ → ℕ → Result PyException (ℕ × ℕ)
decompose_py selector fee = elim (decompose selector fee) [
  | ok r ↦ ok r
  | err invalid_selector ↦ err err_invalid_selector
  | err overflow ↦ err err_fee_overflow
]

abbrev pub chain_id_py : ℕ
chain_id_py = chain_id

module _ (crypto : Crypto) where
  open crypto use {verifying_key, sign}

  -- With the 32 bytes that the generator of the operating system fills in.
  unfoldable pub generate_keypair : Bytes → Bytes × Bytes
  generate_keypair priv_bytes = (priv_bytes, verifying_key priv_bytes)

  unfoldable pub sign_message : Bytes → Bytes → Result PyException Bytes
  sign_message private message = elim (to_array_32 private) [
    | none ↦ err invalid_private_key_length
    | some sk ↦ ok (sign sk message)
  ]

  unfoldable pub sign_tx_py : Bytes → RawTxPayload → Result PyException SignedTransaction
  sign_tx_py sk_bytes payload = ok_or (sign_tx crypto sk_bytes payload) invalid_private_key_length

  unfoldable pub verify_signed_tx_py : SignedTransaction → Bool
  verify_signed_tx_py tx = verify_signed_tx crypto tx

  unfoldable pub canonical_payload_py : RawTxPayload → Bytes
  canonical_payload_py payload = canonical_payload_bytes crypto payload

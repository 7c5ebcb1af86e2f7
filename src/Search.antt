-- ===== src/Search.antt =====
-- The proof-of-work loop of `mine_block`.
pub mod Total
use the_block.Prelude.{
  ℕ, zero, suc, ◌+◌, ◌%◌, ◌^◌, Option, none, some, Text, ltb, leb, if◌then◌else◌,
}
use the_block.Prelude.Word.{checked_add}
use the_block.Prelude.Result.{Result, ok, err}
use the_block.Transaction.{Crypto}
use the_block.Hashlayout.{calculate_hash}
use the_block.Pow.{hex_to_bytes, leading_zero_bits}
use the_block.Ledger.{Block}
use the_block.Ledger.Action.{PyError, nonce_overflow, panic}

-- Nonces of `u64`: as many rounds as the search can take.
unfoldable pub rounds : ℕ
rounds = 2 ^ 64

module _ (crypto : Crypto) where
  -- The proof-of-work loop from a nonce on; `none` means that the fuel ran out.
  unfoldable pub search_nonce : Block → ℕ → ℕ → Option (Result PyError (ℕ × Text))
  search_nonce b zero nonce = none
  search_nonce b (suc fuel) nonce =
      let hash =
        calculate_hash crypto b.index b.previous_hash nonce b.difficulty b.coinbase_consumer
          b.coinbase_industrial b.fee_checksum b.transactions in
      let rest : Option (Result PyError (ℕ × Text)) = elim (checked_add nonce 1) [
        | none ↦ some (err nonce_overflow)
        | some next ↦ search_nonce b fuel next
      ] in
      elim (hex_to_bytes crypto hash) [
        | none ↦ some (err panic)
        | some bytes ↦
            if leb (b.difficulty % 2 ^ 32) (leading_zero_bits bytes)
            then some (ok (nonce, hash))
            else rest
      ]

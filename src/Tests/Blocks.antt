-- ===== src/Tests/Blocks.antt =====
-- Mining, validation and import on sample data: src/lib.rs.
use the_block.Prelude.{◌≡◌, refl, [], ◌∷◌, text_dec, key_dec, ℕ_discrete, true}
use the_block.Prelude.Result.{ok, err}
use the_block.Prelude.Map
use the_block.Ledger.{Blockchain}
use the_block.Ledger.Action.{checksum_mismatch}
use the_block.Apply.{zero_address, receive, apply_txs, credit_miner}
use the_block.Check.{verdict, insert_new}
use the_block.Fee.{decompose}
use the_block.Hashlayout.{encode, hash, calculate_hash}
use the_block.Import.{
  verify_or_raise, import_pay, import_tx, import_txs, import_block, import_blocks, import_chain,
}
use the_block.Mempool.Reserve.{fees}
use the_block.Mining.{prepare, commit, mine_block}
use the_block.Order.{sort_pending}
use the_block.Pow.{leading_zeros, leading_zero_bits, hex_to_bytes}
use the_block.Rewards.{decay, cap_reward, fee_loop, fee_checksum}
use the_block.Search.{rounds, search_nonce}
use the_block.Store.{persist_chain}
use the_block.Transaction.{
  le_bytes, domain_tag, to_array_32, to_array_64, canonical_payload_bytes, id, signing_bytes,
  verify_signature, verify_signed_tx,
}
use the_block.ValidChain.{tx_loop, check_chain_block, chain_loop, is_valid_chain}
use the_block.Validate.{
  expected_prev, coinbase_ok, coinbase_amounts_ok, count_loop, expect_loop, nonce_loop, proof_ok,
  check_block, validate_block,
}
use the_block.Tests.Samples.{toy, toy_codec, miner, start, waiting, first_block}

abbrev pub mined : Blockchain
mined = (mine_block toy toy_codec miner waiting).1

pub mine_runs : mine_block toy toy_codec miner waiting ≡ (ok first_block, mined)
unfolding mine_block prepare commit search_nonce rounds persist_chain apply_txs sort_pending
    cap_reward decay credit_miner fee_loop fee_checksum decompose hex_to_bytes leading_zero_bits
    leading_zeros calculate_hash hash encode id canonical_payload_bytes le_bytes zero_address
    Map.entry_or Map.get Map.insert text_dec key_dec ℕ_discrete
mine_runs = refl

pub validate_runs : validate_block toy start first_block ≡ ok true
unfolding validate_block check_block expected_prev count_loop nonce_loop expect_loop verdict
    coinbase_ok coinbase_amounts_ok proof_ok insert_new fee_loop fee_checksum decompose hex_to_bytes
    leading_zero_bits leading_zeros calculate_hash hash encode id canonical_payload_bytes le_bytes
    zero_address Map.entry_or Map.get Map.insert text_dec key_dec ℕ_discrete
validate_runs = refl

pub valid_chain_runs : is_valid_chain toy (first_block ∷ []) 8 ≡ ok true
unfolding is_valid_chain chain_loop check_chain_block tx_loop verdict coinbase_ok
    coinbase_amounts_ok proof_ok insert_new fee_loop fee_checksum decompose hex_to_bytes
    leading_zero_bits leading_zeros calculate_hash hash encode id canonical_payload_bytes le_bytes
    zero_address Map.entry_or Map.get Map.insert text_dec key_dec ℕ_discrete verify_signed_tx
    verify_signature signing_bytes domain_tag to_array_32 to_array_64
valid_chain_runs = refl

abbrev pub imported : Blockchain
imported = (import_block toy first_block start).1

pub import_block_runs : import_block toy first_block start ≡ (ok tt, imported)
unfolding import_txs import_tx import_pay import_block verify_or_raise receive credit_miner fees
    decay verdict coinbase_ok coinbase_amounts_ok proof_ok insert_new fee_loop fee_checksum
    decompose hex_to_bytes leading_zero_bits leading_zeros calculate_hash hash encode id
    canonical_payload_bytes le_bytes zero_address Map.entry_or Map.get Map.insert text_dec key_dec
    ℕ_discrete verify_signed_tx verify_signature signing_bytes domain_tag to_array_32 to_array_64
import_block_runs = refl

-- The accounts of `add_account` are on no chain: a block that spends from one cannot be imported by
-- a node that starts from its chain.
import_chain_runs : (import_chain toy (first_block ∷ []) start).0 ≡ err checksum_mismatch
unfolding import_chain import_blocks import_txs import_tx import_pay import_block verify_or_raise
    receive credit_miner fees decay is_valid_chain chain_loop check_chain_block tx_loop verdict
    coinbase_ok coinbase_amounts_ok proof_ok insert_new fee_loop fee_checksum decompose hex_to_bytes
    leading_zero_bits leading_zeros calculate_hash hash encode id canonical_payload_bytes le_bytes
    zero_address Map.entry_or Map.get Map.insert text_dec key_dec ℕ_discrete verify_signed_tx
    verify_signature signing_bytes domain_tag to_array_32 to_array_64
import_chain_runs = refl

-- ===== src/Tests/Mined.antt =====
-- The theorems on mining, validation, import and search, at the sample block.
use the_block.Prelude.{
  ℕ, ◌+◌, ◌-◌, ◌^◌, ◌%◌, ◌<◌, ◌≡◌, ◌≢◌, ◌⊎◌, refl, [], ◌∷◌, ◌++◌, some, Text, text_dec, arith,
}
use the_block.Prelude.Result.{Result, ok, err}
use the_block.Prelude.Map
use the_block.Prelude.Map.{total, values}
use the_block.Fee.{decompose}
use the_block.Mempool.Reserve.{fees}
use the_block.Transaction.{id}
use the_block.Ledger.{Blockchain}
use the_block.Ledger.Action.{PyError, panic}
use the_block.Hashlayout.{zero_hash, calculate_hash}
use the_block.Pow.{hex_to_bytes, leading_zero_bits}
use the_block.Rewards.{decay}
use the_block.Rewards.Laws.{fee_c, fee_i}
use the_block.Mempool.Reserve.{IsConsistent}
use the_block.Apply.{zero_address, apply_txs}
use the_block.Apply.Funded.{supply_c, supply_i, IsPayable, IsFunded}
use the_block.Apply.Minting.{zero_sender_mints}
use the_block.Apply.Supply.{apply_txs_burns_fees}
use the_block.Search.{search_nonce, rounds}
use the_block.Search.Total.{IsFirst, search_nonce_total, search_nonce-IsFirst}
use the_block.Store.{genesis_block}
use the_block.Ledger.{Block}
use the_block.Prelude.{◌<◌}
use the_block.Ledger.Action.{nonce_overflow, serialization_error}
use the_block.Mining.{mine_block}
use the_block.Mining.Total.{mine_block_total}
use the_block.Mining.Ready.{IsReady}
use the_block.Mining.Supply.{IsNeutral, mine_block-IsNeutral}
use the_block.Validate.{validate_block}
use the_block.Validate.Safe.{validate_block_no_panic}
use the_block.ValidChain.Sound.{AllLinked}
use the_block.Import.{import_chain}
use the_block.Import.Outcome.{IsDone, IsStopped, import_chain_outcome}
use the_block.Import.Genesis.{genesis_not_importable, import_counts_fees}
use the_block.Transaction.{SignedTransaction}
use the_block.Tests.Samples.{
  alice, account, toy, toy_codec, miner, start, waiting, tx1, first_block,
}
use the_block.Tests.Pool.{waiting-IsConsistent}
use the_block.Tests.Blocks.{mined, imported, mine_runs, import_block_runs}

pub waiting-IsPayable : IsPayable waiting.accounts tx1
unfolding zero_address Map.get text_dec fees decompose
waiting-IsPayable = record {
  known = λ e. absurd (cc e);
  ordinary = λ e. absurd (cc e);
  no_wrap_c = omega arith;
  no_wrap_i = omega arith;
}

pub waiting-IsReady : IsReady waiting
unfolding decay
waiting-IsReady = record {
  consistent = waiting-IsConsistent;
  payable = (waiting-IsPayable, tt);
  range_c = omega arith;
  range_i = omega arith;
  emitted_c = omega arith;
  emitted_i = omega arith;
  reward_c = omega arith;
  reward_i = omega arith;
  room = omega arith;
}

mine_block-IsNeutral_example :
    IsNeutral waiting mined
    × IsConsistent mined
    × (mined.mempool ≡ [])
    × (mined.chain ≡ first_block ∷ [])
mine_block-IsNeutral_example =
    mine_block-IsNeutral toy toy_codec miner waiting mined first_block waiting-IsReady mine_runs

apply_txs_burns_fees_example :
    (supply_c (apply_txs (tx1 ∷ []) waiting.accounts) + total fee_c (tx1 ∷ [])
      ≡ supply_c waiting.accounts)
    × (supply_i (apply_txs (tx1 ∷ []) waiting.accounts) + total fee_i (tx1 ∷ [])
        ≡ supply_i waiting.accounts)
    × IsFunded (apply_txs (tx1 ∷ []) waiting.accounts) []
apply_txs_burns_fees_example =
    apply_txs_burns_fees (tx1 ∷ []) waiting.accounts (waiting-IsPayable, tt)
      (record {
        reserved = waiting-IsConsistent.reserved;
        range_c = omega arith;
        range_i = omega arith;
      })

search_nonce_total_example :
    (r : Result PyError (ℕ × Text)) × (search_nonce toy first_block rounds 0 ≡ some r)
search_nonce_total_example = search_nonce_total toy first_block

validate_block_no_panic_example : validate_block toy start first_block ≢ err panic
validate_block_no_panic_example = validate_block_no_panic toy (λ b. refl) start first_block

import_chain_outcome_example :
    (((import_chain toy (first_block ∷ []) start).0 ≢ ok tt)
      × ((import_chain toy (first_block ∷ []) start).1 ≡ start))
    ⊎ ((0 < 1)
        × AllLinked toy (8 % 2 ^ 32) zero_hash (first_block ∷ [])
        × ((import_chain toy (first_block ∷ []) start).1.mempool ≡ [])
        × (IsDone toy
              (first_block ∷ [])
              (import_chain toy (first_block ∷ []) start).0
              (import_chain toy (first_block ∷ []) start).1
            ⊎ IsStopped toy
                (first_block ∷ [])
                (import_chain toy (first_block ∷ []) start).0
                (import_chain toy (first_block ∷ []) start).1))
import_chain_outcome_example = import_chain_outcome toy (first_block ∷ []) start

import_counts_fees_example :
    (imported.emission_consumer
      ≡ (0 + (mined.emission_consumer - 0) + total fee_c (tx1 ∷ [])) % 2 ^ 64)
    × (imported.emission_industrial
        ≡ (0 + (mined.emission_industrial - 0) + total fee_i (tx1 ∷ [])) % 2 ^ 64)
import_counts_fees_example =
    import_counts_fees toy toy_codec miner waiting mined start imported first_block waiting-IsReady
      mine_runs import_block_runs

abbrev after_genesis : Blockchain
after_genesis = (genesis_block toy_codec zero_hash start).1

genesis_runs : genesis_block toy_codec zero_hash start ≡ (ok tt, after_genesis)
unfolding genesis_block
genesis_runs = refl

genesis_not_importable_example :
    ((import_chain toy (after_genesis.chain ++ first_block ∷ []) start).0 ≢ ok tt)
    × ((import_chain toy (after_genesis.chain ++ first_block ∷ []) start).1 ≡ start)
genesis_not_importable_example =
    genesis_not_importable toy toy_codec zero_hash start after_genesis start (first_block ∷ []) refl
      genesis_runs

search_runs : search_nonce toy first_block rounds 0 ≡ some (ok (0, first_block.hash))
unfolding search_nonce rounds hex_to_bytes leading_zero_bits calculate_hash id
search_runs = refl

search_nonce-IsFirst_example : IsFirst toy first_block 0 0 first_block.hash
search_nonce-IsFirst_example = search_nonce-IsFirst toy first_block 0 first_block.hash search_runs

abbrev from_nobody : SignedTransaction
from_nobody = record tx1 { payload = record tx1.payload { from_ = zero_address; to = alice } }

alice_found : Map.get text_dec alice start.accounts ≡ some (account alice 1_000 500 0)
unfolding Map.get text_dec
alice_found = refl

zero_sender_mints_example :
    (supply_c (apply_txs (from_nobody ∷ []) start.accounts) ≡ 1_000 + 100)
    × (supply_i (apply_txs (from_nobody ∷ []) start.accounts) ≡ 500 + 50)
zero_sender_mints_example =
    zero_sender_mints from_nobody start.accounts (account alice 1_000 500 0) refl alice_found
      (omega arith) (omega arith)

rewards_fit :
    (supply_c waiting.accounts + decay waiting.block_reward_consumer < 2 ^ 64)
    × (supply_i waiting.accounts + decay waiting.block_reward_industrial < 2 ^ 64)
unfolding decay
rewards_fit = (omega arith, omega arith)

mine_block_total_example :
    ((b : Block) × ((mine_block toy toy_codec miner waiting).0 ≡ ok b))
    ⊎ (((mine_block toy toy_codec miner waiting).0 ≡ err nonce_overflow)
        ⊎ ((mine_block toy toy_codec miner waiting).0 ≡ err serialization_error))
mine_block_total_example =
    mine_block_total toy toy_codec miner waiting waiting-IsReady (rewards_fit.0) (rewards_fit.1)
      (λ b. refl)

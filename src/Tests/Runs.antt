-- ===== src/Tests/Runs.antt =====
-- The theorems on whole runs of the node, on sample data.
use the_block.Prelude.{
  ℕ, ◌+◌, ◌≡◌, ◌↔◌, [], ◌∷◌, some, none, true, Text, Bytes, get_elem?, ap, text_dec, arith,
}
use the_block.Prelude.Result.{ok}
use the_block.Prelude.Map
use the_block.Prelude.Map.{HashMap}
use the_block.Hashlayout.{zero_hash}
use the_block.Transaction.{id, canonical_payload_bytes}
use the_block.Mempool.{submit_transaction}
use the_block.Rewards.{decay}
use the_block.Apply.{zero_address}
use the_block.Apply.Funded.{supply_c, supply_i}
use the_block.Validate.{validate_block}
use the_block.Validate.Counts.{nonce_of}
use the_block.Validate.Distinct.{AllDistinct}
use the_block.Validate.Equivalent.{HasRange, IsAccepted, validate_block_iff}
use the_block.Mining.{coinbase}
use the_block.Mining.Ready.{IsReady}
use the_block.Mining.Accepted.{IsOrderly, mined_block_accepted}
use the_block.Node.{IsPlain, Runs, begin, submitted, mined}
use the_block.Node.Ready.{Runs-IsReady}
use the_block.Node.Orderly.{submit-IsOrderly}
use the_block.ValidChain.{is_valid_chain}
use the_block.ValidChain.Equivalent.{IsInRange, AllEntries, is_valid_chain_iff}
use the_block.Tests.Samples.{toy, toy_codec, alice, miner, start, waiting, tx1, first_block}
use the_block.Tests.Pool.{start-IsConsistent, submit_runs}
use the_block.Tests.Blocks as Blocks
use the_block.Tests.Blocks.{mine_runs}
use the_block.Tests.Mined.{waiting-IsReady, waiting-IsPayable}

start-IsReady : IsReady start
unfolding decay
start-IsReady = record {
  consistent = start-IsConsistent;
  payable = tt;
  range_c = omega arith;
  range_i = omega arith;
  emitted_c = omega arith;
  emitted_i = omega arith;
  reward_c = omega arith;
  reward_i = omega arith;
  room = omega arith;
}

tx1-IsPlain : IsPlain tx1
tx1-IsPlain = record {
  ordinary = waiting-IsPayable.ordinary;
  no_wrap_c = waiting-IsPayable.no_wrap_c;
  no_wrap_i = waiting-IsPayable.no_wrap_i;
}

-- A submission and a block.
abbrev two_steps : Runs toy toy_codec start 2 0 0 Blocks.mined
two_steps =
    mined 1 0 0 waiting Blocks.mined miner first_block
      (submitted 0 0 0 start waiting tx1 begin tx1-IsPlain submit_runs) mine_runs

Runs-IsReady_example :
    IsReady Blocks.mined
    × (supply_c Blocks.mined.accounts + 0
        ≡ supply_c start.accounts + 0 + Blocks.mined.emission_consumer)
    × (supply_i Blocks.mined.accounts + 0
        ≡ supply_i start.accounts + 0 + Blocks.mined.emission_industrial)
Runs-IsReady_example =
    Runs-IsReady toy toy_codec start 2 0 0 Blocks.mined start-IsReady
      (record { money_c = omega arith; money_i = omega arith; room = omega arith }) two_steps

start_nonces : (a : Text) → nonce_of start.accounts a ≡ 0
unfolding Map.get
start_nonces a = elim (text_dec a alice) [ yes p ↦ ground arith | no n ↦ ground arith ]

start-HasRange : HasRange start.accounts first_block
start-HasRange = record {
  nonces = λ a nz. omega (arith, start_nonces a);
  transactions = omega arith;
  consumer = omega arith;
  industrial = omega arith;
}

validate_block_iff_example :
    (validate_block toy start first_block ≡ ok true) ↔ IsAccepted toy start first_block
validate_block_iff_example = validate_block_iff toy start first_block start-HasRange

start-IsOrderly : IsOrderly start
start-IsOrderly = record {
  gaps = tt;
  nonces = λ a nz. omega (arith, start_nonces a);
  room = omega arith;
}

start_submitted-IsOrderly : IsOrderly (submit_transaction toy tx1 start).1
start_submitted-IsOrderly =
    submit-IsOrderly toy tx1 start start-IsConsistent start-IsOrderly (omega arith)
      (omega (arith, start_nonces alice))

waiting-IsOrderly : IsOrderly waiting
waiting-IsOrderly = rw submit_runs at start_submitted-IsOrderly

abbrev last_byte : Bytes → ℕ
last_byte bytes = elim (get_elem? bytes 31) [ none ↦ 0 | some b ↦ b ]

ids_differ : AllDistinct toy (coinbase miner 60_001 30_001 ∷ tx1 ∷ [])
unfolding id canonical_payload_bytes zero_address
ids_differ = (((λ e. let n : 207 ≡ 101 = ap last_byte e in omega arith), tt), (tt, tt))

mined_block_accepted_example : validate_block toy Blocks.mined first_block ≡ ok true
mined_block_accepted_example =
    mined_block_accepted toy toy_codec miner waiting Blocks.mined first_block waiting-IsReady
      waiting-IsOrderly ids_differ mine_runs

first_block-IsInRange : IsInRange first_block
unfolding zero_address
first_block-IsInRange = record {
  consumer = omega arith;
  industrial = omega arith;
  nonces = (omega arith, (omega arith, tt));
}

is_valid_chain_iff_example :
    (is_valid_chain toy (first_block ∷ []) 8 ≡ ok true)
    ↔ AllEntries toy 8 zero_hash (first_block ∷ [])
is_valid_chain_iff_example = is_valid_chain_iff toy (first_block ∷ []) 8 (first_block-IsInRange, tt)

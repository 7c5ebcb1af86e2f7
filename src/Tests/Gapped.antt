-- ===== src/Tests/Gapped.antt =====
-- A mempool with a gap in the nonces of a sender, and the block that is mined from it.
use the_block.Prelude.{
  ℕ, ◌^◌, ◌<◌, ◌≡◌, ◌≢◌, refl, List, [], ◌∷◌, some, none, true, Text, text_dec, key_dec, ℕ_discrete,
  length, arith, All,
}
use the_block.Prelude.Result.{ok}
use the_block.Prelude.Map
use the_block.Prelude.Map.{HashMap, values}
use mathlib.Core.List.{Permᴰ, Perm}
use the_block.Fee.{decompose}
use the_block.Hashlayout.{encode, hash, calculate_hash}
use the_block.Transaction.{
  SignedTransaction, id, le_bytes, domain_tag, to_array_32, to_array_64, canonical_payload_bytes,
  signing_bytes, verify_signature, verify_signed_tx,
}
use the_block.Ledger.{Block, Blockchain}
use the_block.Mempool.{key, submit_transaction}
use the_block.Mempool.Reserve.{fees, IsConsistent}
use the_block.Mempool.Submit.{submit-IsConsistent}
use the_block.Mempool.Drop.{drop-IsConsistent}
use the_block.Mempool.{drop_transaction}
use the_block.Rewards.{decay, cap_reward, fee_loop, fee_checksum}
use the_block.Apply.{zero_address, apply_txs, credit_miner}
use the_block.Validate.{validate_block}
use the_block.Mining.{coinbase, prepare, commit, mine_block}
use the_block.Search.{rounds, search_nonce}
use the_block.Store.{persist_chain}
use the_block.Order.{sort_pending}
use the_block.Pow.{leading_zeros, leading_zero_bits, hex_to_bytes}
use the_block.Order.Lexicographic.{IsInOrder}
use the_block.Mining.Ordered.{mined_block-IsInOrder}
use the_block.Mining.AnyOrder.{mine_block_any_order}
use the_block.Node.Typed.{IsTransaction, IsTyped}
use the_block.Node.Gap.{gap_refused}
use the_block.Tests.Samples.{
  toy, toy_codec, alice, miner, account, start, waiting, tx1, tx2, tx3, first_block, payload,
  signed,
}
use the_block.Tests.Pool.{waiting-IsConsistent}
use the_block.Tests.Mined.{waiting-IsPayable}

-- Alice's node with transactions that wait.
abbrev pub pending : ℕ → ℕ → ℕ → HashMap (Text × ℕ) SignedTransaction → Blockchain
pending c i n txs = record start {
  accounts =
      (
        alice,
        record (account alice 1_000 500 0) {
          pending_consumer = c;
          pending_industrial = i;
          pending_nonce = n;
        },
      )
      ∷ [];
  mempool = txs;
}

abbrev gapped : Blockchain
gapped = pending 208 106 2 (((alice, 1), tx1) ∷ ((alice, 3), tx3) ∷ [])

abbrev gap_mined : Blockchain
gap_mined = (mine_block toy toy_codec miner gapped).1

-- The block on the chain of a state.
abbrev block_of : List Block → Block
block_of [] = first_block
block_of (b ∷ bs) = b

abbrev gap_block : Block
gap_block = block_of gap_mined.chain

pub payload-IsTransaction : (n : ℕ) → n < 2 ^ 64 → IsTransaction (signed (payload n))
payload-IsTransaction n lt = record {
  amount_consumer = omega arith;
  amount_industrial = omega arith;
  fee = omega arith;
  fee_selector = omega arith;
  nonce = lt;
}

-- Alice's account with numbers of 64 bits, and her transactions.
pub pending-IsTyped :
    (c i n : ℕ) (txs : HashMap (Text × ℕ) SignedTransaction)
    → c < 2 ^ 64
    → i < 2 ^ 64
    → n < 2 ^ 64
    → All IsTransaction (values txs)
    → IsTyped (pending c i n txs)
pending-IsTyped c i n txs hc hi hn h = record {
  chain = tt;
  accounts = (
    record {
      consumer = omega arith;
      industrial = omega arith;
      nonce = omega arith;
      pending_consumer = hc;
      pending_industrial = hi;
      pending_nonce = hn;
    },
    tt,
  );
  difficulty = omega arith;
  mempool = h;
  emission_consumer = omega arith;
  emission_industrial = omega arith;
  block_reward_consumer = omega arith;
  block_reward_industrial = omega arith;
  block_height = omega arith;
}

-- Three transactions, of which the second was dropped.
abbrev three : Blockchain
three = (submit_transaction toy tx3 (submit_transaction toy tx2 waiting).1).1

gapped_runs : (drop_transaction alice 2 three).1 ≡ gapped
unfolding submit_transaction drop_transaction fees decompose Map.get Map.insert Map.remove
    verify_signed_tx verify_signature signing_bytes domain_tag le_bytes to_array_32 to_array_64
    canonical_payload_bytes text_dec key_dec
gapped_runs = refl

two_wait : length (submit_transaction toy tx2 waiting).1.mempool ≡ 2
unfolding submit_transaction fees decompose Map.get Map.insert verify_signed_tx verify_signature
    signing_bytes domain_tag le_bytes to_array_32 to_array_64 canonical_payload_bytes text_dec
    key_dec
two_wait = refl

gapped-IsConsistent : IsConsistent gapped
gapped-IsConsistent = rw gapped_runs at (
    drop-IsConsistent alice 2 three (
      submit-IsConsistent toy tx3 (submit_transaction toy tx2 waiting).1 (omega (arith, two_wait))
        (submit-IsConsistent toy tx2 waiting (omega arith) waiting-IsConsistent)))

gapped-IsTyped : IsTyped gapped
gapped-IsTyped =
    pending-IsTyped 208 106 2 gapped.mempool (omega arith) (omega arith) (omega arith)
      (payload-IsTransaction 1 (omega arith), (payload-IsTransaction 3 (omega arith), tt))

gap_runs : mine_block toy toy_codec miner gapped ≡ (ok gap_block, gap_mined)
unfolding mine_block prepare commit search_nonce rounds persist_chain apply_txs sort_pending
    cap_reward decay credit_miner fee_loop fee_checksum decompose hex_to_bytes leading_zero_bits
    leading_zeros calculate_hash hash encode id canonical_payload_bytes le_bytes zero_address
    Map.entry_or Map.get Map.insert text_dec key_dec ℕ_discrete
gap_runs = refl

gap_found :
    (Map.get key_dec (key tx1) gapped.mempool ≡ some tx1)
    × (Map.get key_dec (key tx3) gapped.mempool ≡ some tx3)
    × (Map.get key_dec (alice, 2) gapped.mempool ≡ none)
unfolding Map.get key_dec
gap_found = (refl, refl, refl)

gap_refused_example : validate_block toy gap_mined gap_block ≢ ok true
gap_refused_example =
    gap_refused toy toy_codec miner gapped gap_mined gap_block tx1 tx3 gapped-IsConsistent
      gapped-IsTyped (omega arith) (omega arith) waiting-IsPayable.ordinary refl (omega arith)
      gap_found.0 gap_found.1 gap_found.2 gap_runs

abbrev other_order : HashMap (Text × ℕ) SignedTransaction
other_order = ((alice, 3), tx3) ∷ ((alice, 1), tx1) ∷ []

mine_block_any_order_example :
    mine_block toy toy_codec miner (record gapped { mempool = other_order })
    ≡ (ok gap_block, gap_mined)
mine_block_any_order_example =
    mine_block_any_order toy toy_codec miner gapped gap_mined gap_block other_order
      gapped-IsConsistent ∣ Permᴰ.swap refl refl ∣₁ gap_runs

mined_block-IsInOrder_example :
    (txs : List SignedTransaction) × (gap_block.transactions
      ≡ coinbase miner gap_block.coinbase_consumer gap_block.coinbase_industrial ∷ txs)
    × Perm txs (tx1 ∷ tx3 ∷ [])
    × IsInOrder txs
mined_block-IsInOrder_example =
    mined_block-IsInOrder toy toy_codec miner gapped gap_mined gap_block gapped-IsConsistent
      gap_runs

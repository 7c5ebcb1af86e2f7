-- ===== src/Node/Gap.antt =====
-- What a dropped transaction can do: if it leaves a gap in the nonces of its sender, then the node
-- mines a block that its own `validate_block` refuses.
use the_block.Prelude.{
  ◌+◌, ◌-◌, ◌^◌, ◌<◌, ◌≡◌, ◌≢◌, refl, sym, ap, ◌∙◌, ◌∷◌, none, some, true, Text, text_dec, key_dec,
  arith, All, length, inl, inr, if_neg, Option-cases,
}
use the_block.Prelude.Result.{ok}
use the_block.Prelude.Map
use the_block.Prelude.Map.{HashMap, values}
use the_block.Transaction.{Crypto, SignedTransaction}
use the_block.Ledger.{Account, Block, Blockchain}
use the_block.Mempool.{key}
use the_block.Mempool.Reserve.{IsConsistent}
use the_block.Store.{Codec}
use the_block.Order.{sort_pending}
use the_block.Apply.{zero_address}
use the_block.Validate.{validate_block}
use the_block.Validate.Distinct.{nonces_of, count_up}
use the_block.Validate.Counts.{nonce_of, count_of, count_of-le}
use the_block.Validate.Equivalent.{HasRange, validate_block_iff}
use the_block.Mining.{coinbase, mine_block}
use the_block.Mining.Prepare.{IsPrepared, IsCommitted, prepare_outcome, commit_outcome}
use the_block.Mining.Steps.{IsMining, mine_steps}
use the_block.Mining.Ordered.{transactions_are}
use the_block.Mining.Ready.{length-sort_pending}
use the_block.Node.Typed.{IsAccount, IsTyped}
use the_block.Node.Typed.Mine.{mine_block-IsTyped}
use the_block.Node.Waits.{no_gap, waits_in, missing_in}

nonce_lt :
    (a : Text) (accounts : HashMap Text Account)
    → All IsAccount (values accounts)
    → nonce_of accounts a < 2 ^ 64
nonce_lt a accounts h = elim (Option-cases (Map.get text_dec a accounts)) [
  | inl missing ↦ ground arith
  | inr (acc, found) ↦ ground (arith, (Map.All-get text_dec IsAccount a acc accounts found h).nonce)
]

module _ (crypto : Crypto) (codec : Codec) (miner_addr : Text) (s s' : Blockchain) (block : Block)
    (e : mine_block crypto codec miner_addr s ≡ (ok block, s')) where
  m : IsMining crypto codec miner_addr s s' block
  m = mine_steps crypto codec miner_addr s e

  p : IsPrepared miner_addr s m.prepared m.draft
  p = prepare_outcome crypto miner_addr s m.prepares

  c : IsCommitted miner_addr m.draft m.nonce m.hash m.prepared m.committed block
  c = commit_outcome miner_addr m.draft m.nonce m.hash m.prepared crypto m.commits

  all_transactions :
      block.transactions
      ≡ coinbase miner_addr block.coinbase_consumer block.coinbase_industrial
        ∷ sort_pending (values s.mempool)
  all_transactions = transactions_are crypto codec miner_addr s s' block e

  nonces_are :
      (a : Text)
      → a ≢ zero_address
      → nonces_of a block.transactions ≡ nonces_of a (sort_pending (values s.mempool))
  nonces_are a nz = rw (all_transactions, if_neg (text_dec a zero_address) nz) refl

  block-HasRange :
      IsTyped s
      → length s.chain < 2 ^ 64
      → length (values s.mempool) + 1 < 2 ^ 64
      → HasRange s'.accounts block
  block-HasRange typed short room =
      let after : IsTyped s' =
        rw (ap (λ r. r.1) e) at (mine_block-IsTyped crypto codec miner_addr s short typed) in
      record {
        nonces = λ a nz. nonce_lt a s'.accounts after.accounts;
        transactions =
            rw all_transactions (omega (arith, length-sort_pending (values s.mempool), room));
        consumer = ground (arith, c.block_sealed, c.credits.fits_c);
        industrial = ground (arith, c.block_sealed, c.credits.fits_i);
      }

-- Two transactions of one sender, which is not the address of 34 zeros, wait, and none with the nonce
-- right after the lower one: for example, because it was dropped. Then the block that `mine_block` makes of them is refused by
-- `validate_block` in the state after, whatever else is in it; the state before is consistent and
-- its numbers are within their types, its chain has fewer than 2 ^ 64 blocks, and fewer than
-- 2 ^ 64 - 1 transactions wait.
pub gap_refused :
    (crypto : Crypto) (codec : Codec) (miner_addr : Text) (s s' : Blockchain) (block : Block)
    (low high : SignedTransaction)
    → IsConsistent s
    → IsTyped s
    → length s.chain < 2 ^ 64
    → length (values s.mempool) + 1 < 2 ^ 64
    → low.payload.from_ ≢ zero_address
    → low.payload.from_ ≡ high.payload.from_
    → low.payload.nonce < high.payload.nonce
    → Map.get key_dec (key low) s.mempool ≡ some low
    → Map.get key_dec (key high) s.mempool ≡ some high
    → Map.get key_dec (low.payload.from_, low.payload.nonce + 1) s.mempool ≡ none
    → mine_block crypto codec miner_addr s ≡ (ok block, s')
    → validate_block crypto s' block ≢ ok true
gap_refused crypto codec miner_addr s s' block low high h typed short room nz same lt found_low
      found_high gap e accepted =
    let a = low.payload.from_ in
    let range = block-HasRange crypto codec miner_addr s s' block e typed short room in
    let is = (validate_block_iff crypto s' block range).0 accepted in
    let ns = nonces_are crypto codec miner_addr s s' block e a nz in
    let k = count_of a block.transactions in
    let start = nonce_of s'.accounts a - k in
    let up : nonces_of a (sort_pending (values s.mempool)) ≡ count_up k start =
      sym ns ∙ is.counts a nz in
    no_gap k start low.payload.nonce high.payload.nonce
      (omega (arith, range.nonces a nz, count_of-le a block.transactions, range.transactions)) lt
      (rw up at (missing_in a (low.payload.nonce + 1) s h gap))
      (λ q. waits_in low s.mempool found_low (rw up q))
      (λ q. waits_in high s.mempool found_high (rw (← same, up) q))

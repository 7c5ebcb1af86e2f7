-- ===== src/Mining/Steps.antt =====
-- The parts of a `mine_block` that succeeded.
use the_block.Prelude.{ℕ, ◌≡◌, some, Text, arith, Option-cases, inl, inr}
use the_block.Prelude.Result.{ok, err}
use the_block.Transaction.{Crypto}
use the_block.Ledger.{Block, Blockchain}
use the_block.Ledger.Action.{Outcome-cases}
use the_block.Search.{rounds, search_nonce}
use the_block.Store.{Codec, persist_chain}
use the_block.Mining.{Draft, prepare, commit, mine_block}

pub record IsMining (crypto : Crypto) (codec : Codec) (miner_addr : Text) (s s' : Blockchain)
    (block : Block) : Type 0 where
  pub draft : Draft
  pub prepared : Blockchain
  pub prepares : prepare crypto miner_addr s ≡ (ok draft, prepared)
  pub nonce : ℕ
  pub hash : Text
  pub searches : search_nonce crypto draft.block rounds 0 ≡ some (ok (nonce, hash))
  pub committed : Blockchain
  pub commits : commit crypto miner_addr draft nonce hash prepared ≡ (ok block, committed)
  pub persists : persist_chain codec committed ≡ (ok tt, s')

pub mine_steps :
    (crypto : Crypto) (codec : Codec) (miner_addr : Text) (s : Blockchain) {s' : Blockchain}
    {block : Block}
    → mine_block crypto codec miner_addr s ≡ (ok block, s')
    → IsMining crypto codec miner_addr s s' block
unfolding mine_block
mine_steps crypto codec miner_addr s {s'} {block} h =
    elim (Outcome-cases (prepare crypto miner_addr s)) [
      | inr (e, s1, p) ↦ absurd (ground arith)
      | inl (d, s1, p) ↦ elim (Option-cases (search_nonce crypto d.block rounds 0)) [
        | inl out ↦ absurd (ground arith)
        | inr (err e, q) ↦ absurd (ground arith)
        | inr (ok (nonce, hash), q) ↦
            elim (Outcome-cases (commit crypto miner_addr d nonce hash s1)) [
              | inr (e, s2, r) ↦ absurd (ground arith)
              | inl (b, s2, r) ↦ elim (Outcome-cases (persist_chain codec s2)) [
                | inr (e, s3, t) ↦ absurd (ground arith)
                | inl (u, s3, t) ↦ record {
                  draft = d;
                  prepared = s1;
                  prepares = p;
                  nonce = nonce;
                  hash = hash;
                  searches = q;
                  committed = s2;
                  commits = ground arith;
                  persists = ground arith;
                }
              ]
            ]
      ]
    ]

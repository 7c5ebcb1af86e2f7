-- ===== src/Node/Typed/Mine.antt =====
-- `mine_block` keeps every number within its type, also where it raises half-way.
use the_block.Prelude.{
  ℕ, ◌^◌, ◌<◌, ◌≡◌, List, [], ◌∷◌, Text, key_dec, arith, All, All-append, length, inl, inr,
  Option-cases,
}
use the_block.Prelude.Result.{ok, err}
use the_block.Prelude.Map
use the_block.Prelude.Map.{HashMap, values}
use the_block.Prelude.Word.{add64}
use the_block.Transaction.{Crypto, SignedTransaction}
use the_block.Ledger.{Blockchain}
use the_block.Ledger.Action.{Outcome-cases}
use the_block.Mempool.{key}
use the_block.Db
use the_block.Db.{SimpleDb}
use the_block.Store.{Codec, persist_chain, write_chain, disk_of}
use the_block.Apply.{remove_txs, credit_miner}
use the_block.Search.{rounds, search_nonce}
use the_block.Search.Total.{search_nonce-IsFirst}
use the_block.Mining.{Draft, prepare, commit, mine_block}
use the_block.Mining.Prepare.{applied, sealed}
use the_block.Node.Typed.{IsTransaction, IsBlock, IsTyped, apply_txs_keeps}
use the_block.Node.Typed.Draft.{IsDraft, prepare_keeps, prepare-IsDraft}
use the_block.Node.Typed.Credit.{credit_miner_keeps}

module _ (d : Draft) (nonce : ℕ) (hash : Text) (s : Blockchain) (h : IsTyped s) (p : IsDraft d)
    (lt : nonce < 2 ^ 64) where
  sealed-IsBlock : IsBlock (sealed d nonce hash)
  sealed-IsBlock = record {
    index = p.block.index;
    transactions = p.block.transactions;
    difficulty = p.block.difficulty;
    nonce = lt;
    coinbase_consumer = p.block.coinbase_consumer;
    coinbase_industrial = p.block.coinbase_industrial;
  }

  remove_txs_keeps :
      (txs : List SignedTransaction) (mempool : HashMap (Text × ℕ) SignedTransaction)
      → All IsTransaction (values mempool)
      → All IsTransaction (values (remove_txs txs mempool))
  unfolding remove_txs
  remove_txs_keeps [] mempool k = k
  remove_txs_keeps (tx ∷ txs) mempool k =
      remove_txs_keeps txs (Map.remove key_dec (key tx) mempool)
        (Map.All-remove key_dec IsTransaction (key tx) mempool k)

  applied-IsTyped : IsTyped (applied d nonce hash s)
  applied-IsTyped = record {
    chain = All-append IsBlock s.chain (sealed d nonce hash ∷ []) h.chain (sealed-IsBlock, tt);
    accounts = apply_txs_keeps d.pending s.accounts p.pending h.accounts;
    difficulty = h.difficulty;
    mempool = remove_txs_keeps d.pending s.mempool h.mempool;
    emission_consumer = h.emission_consumer;
    emission_industrial = h.emission_industrial;
    block_reward_consumer = h.block_reward_consumer;
    block_reward_industrial = h.block_reward_industrial;
    block_height = h.block_height;
  }

emitted-IsTyped :
    (s : Blockchain) (c i : ℕ)
    → IsTyped s
    → IsTyped (record s {
      emission_consumer = add64 s.emission_consumer c;
      emission_industrial = add64 s.emission_industrial i;
      block_height = add64 s.block_height 1;
    })
emitted-IsTyped s c i h = record {
  chain = h.chain;
  accounts = h.accounts;
  difficulty = h.difficulty;
  mempool = h.mempool;
  emission_consumer = omega arith;
  emission_industrial = omega arith;
  block_reward_consumer = h.block_reward_consumer;
  block_reward_industrial = h.block_reward_industrial;
  block_height = omega arith;
}

commit_keeps :
    (crypto : Crypto) (m : Text) (d : Draft) (nonce : ℕ) (hash : Text) (s : Blockchain)
    → IsTyped s
    → IsDraft d
    → nonce < 2 ^ 64
    → IsTyped (commit crypto m d nonce hash s).1
unfolding commit
commit_keeps crypto m d nonce hash s h p lt =
    let c = d.block.coinbase_consumer in
    let i = d.block.coinbase_industrial in
    let mid = applied d nonce hash s in
    let kept = credit_miner_keeps m c i mid (applied-IsTyped d nonce hash s h p lt) in
    elim (Outcome-cases (credit_miner m c i mid)) [
      | inr (e, s1, r) ↦
          let after : (commit crypto m d nonce hash s).1 ≡ (credit_miner m c i mid).1 =
            ground arith in
          rw after kept
      | inl (u, s1, r) ↦
          let t = (credit_miner m c i mid).1 in
          let after : (commit crypto m d nonce hash s).1 ≡ record t {
            emission_consumer = add64 t.emission_consumer d.reward_c;
            emission_industrial = add64 t.emission_industrial d.reward_i;
            block_height = add64 t.block_height 1;
          } =
            ground arith in
          rw after (emitted-IsTyped t d.reward_c d.reward_i kept)
    ]

stored-IsTyped : (s : Blockchain) (db : SimpleDb) → IsTyped s → IsTyped (record s { db = db })
stored-IsTyped s db h = record {
  chain = h.chain;
  accounts = h.accounts;
  difficulty = h.difficulty;
  mempool = h.mempool;
  emission_consumer = h.emission_consumer;
  emission_industrial = h.emission_industrial;
  block_reward_consumer = h.block_reward_consumer;
  block_reward_industrial = h.block_reward_industrial;
  block_height = h.block_height;
}

persist_keeps : (codec : Codec) (s : Blockchain) → IsTyped s → IsTyped (persist_chain codec s).1
unfolding persist_chain
persist_keeps codec s h = elim (Option-cases (codec.serialize_disk (disk_of s))) [
  | inl broken ↦ let after : (persist_chain codec s).1 ≡ s = ground arith in rw after h
  | inr (bytes, fine) ↦
      let after : (persist_chain codec s).1 ≡ record s { db = Db.flush (write_chain bytes s.db) } =
        ground arith in
      rw after (stored-IsTyped s (Db.flush (write_chain bytes s.db)) h)
]

-- `mine_block` keeps every number of the state within its type, whether it returns a block or raises
-- at any point, as long as the chain has fewer than 2 ^ 64 blocks.
pub mine_block-IsTyped :
    (crypto : Crypto) (codec : Codec) (miner_addr : Text) (s : Blockchain)
    → length s.chain < 2 ^ 64
    → IsTyped s
    → IsTyped (mine_block crypto codec miner_addr s).1
unfolding mine_block
mine_block-IsTyped crypto codec miner_addr s room h =
    let s1 = (prepare crypto miner_addr s).1 in
    let kept = prepare_keeps crypto miner_addr s h in
    elim (Outcome-cases (prepare crypto miner_addr s)) [
      | inr (e, _, p) ↦
          let after : (mine_block crypto codec miner_addr s).1 ≡ s1 = ground arith in rw after kept
      | inl (d, _, p) ↦
          let typed = prepare-IsDraft crypto miner_addr s h room p in
          elim (Option-cases (search_nonce crypto d.block rounds 0)) [
            | inl out ↦
                let after : (mine_block crypto codec miner_addr s).1 ≡ s1 = ground arith in
                rw after kept
            | inr (err e, q) ↦
                let after : (mine_block crypto codec miner_addr s).1 ≡ s1 = ground arith in
                rw after kept
            | inr (ok (nonce, hash), q) ↦
                let within = (search_nonce-IsFirst crypto d.block nonce hash q).within.1 in
                let s2 = (commit crypto miner_addr d nonce hash s1).1 in
                let sealed_ = commit_keeps crypto miner_addr d nonce hash s1 kept typed within in
                elim (Outcome-cases (commit crypto miner_addr d nonce hash s1)) [
                  | inr (e, _, c) ↦
                      let after : (mine_block crypto codec miner_addr s).1 ≡ s2 = ground arith in
                      rw after sealed_
                  | inl (b, _, c) ↦
                      let after : (mine_block crypto codec miner_addr s).1
                          ≡ (persist_chain codec s2).1 =
                        ground arith in
                      rw after (persist_keeps codec s2 sealed_)
                ]
          ]
    ]

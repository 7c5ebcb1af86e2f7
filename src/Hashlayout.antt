-- ===== src/Hashlayout.antt =====
-- The preimage of a block hash, src/hashlayout.rs and src/hash_genesis.rs, and `calculate_hash` of
-- src/lib.rs. `h.update` calls append, so an encoder is the bytes that it feeds.
pub mod Injective
use the_block.Prelude.{ℕ, ◌≡◌, List, [], ◌∷◌, ◌++◌, map, Text, Bytes, replicate}
use the_block.Transaction.{Crypto, SignedTransaction, le_bytes, id}

pub record BlockEncoder : Type 0 where
  pub index : ℕ
  pub prev : Text
  pub nonce : ℕ
  pub difficulty : ℕ
  pub coin_c : ℕ
  pub coin_i : ℕ
  pub fee_checksum : Text
  pub tx_ids : List Bytes

abbrev pub zero_hash : Text
zero_hash = replicate 64 b'0'

-- `for id in self.tx_ids { h.update(id) }`.
abbrev pub concat : List Bytes → Bytes
concat [] = []
concat (id ∷ ids) = id ++ concat ids

unfoldable pub encode : BlockEncoder → Bytes
unfolding le_bytes
encode e =
    le_bytes 8 e.index
    ++ (e.prev
        ++ (le_bytes 8 e.nonce
            ++ (le_bytes 8 e.difficulty
                ++ (le_bytes 8 e.coin_c
                    ++ (le_bytes 8 e.coin_i ++ (e.fee_checksum ++ concat e.tx_ids))))))

abbrev genesis_encoder : BlockEncoder
genesis_encoder = record {
  index = 0;
  prev = zero_hash;
  nonce = 0;
  difficulty = 8;
  coin_c = 0;
  coin_i = 0;
  fee_checksum = zero_hash;
  tx_ids = [];
}

module _ (crypto : Crypto) where
  open crypto use {blake3, to_hex}

  -- `BlockEncoder::hash`.
  unfoldable pub hash : BlockEncoder → Text
  unfolding encode
  hash e = to_hex (blake3 (encode e))

  -- `calculate_genesis_hash_runtime`.
  unfoldable pub calculate_genesis_hash_runtime : Text
  unfolding hash
  calculate_genesis_hash_runtime = hash genesis_encoder

  -- The preimage that build.rs hashes into the constant of the build.
  unfoldable pub build_genesis_digest : Text
  unfolding le_bytes
  build_genesis_digest = to_hex (
      blake3 (
        le_bytes 8 0
        ++ (zero_hash
            ++ (le_bytes 8 0 ++ (le_bytes 8 8 ++ (le_bytes 8 0 ++ (le_bytes 8 0 ++ zero_hash)))))))

  unfoldable pub calculate_hash : ℕ → Text → ℕ → ℕ → ℕ → ℕ → Text → List SignedTransaction → Text
  unfolding hash
  calculate_hash index prev nonce difficulty coin_c coin_i fee_checksum txs = hash (record {
    index = index;
    prev = prev;
    nonce = nonce;
    difficulty = difficulty;
    coin_c = coin_c;
    coin_i = coin_i;
    fee_checksum = fee_checksum;
    tx_ids = map (id crypto) txs;
  })

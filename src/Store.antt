-- ===== src/Store.antt =====
-- Persistence, src/lib.rs: `ChainDisk`, `persist_chain` and `genesis_block`. The bincode crate is
-- the record `Codec`.
use the_block.Prelude.{ℕ, List, [], ◌∷◌, ◌++◌, Option, Text, Bytes}
use the_block.Prelude.Map.{HashMap}
use the_block.Hashlayout.{zero_hash}
use the_block.Db
use the_block.Db.{SimpleDb}
use the_block.Ledger.{Account, Block, Blockchain, TokenAmount}
use the_block.Ledger.Action.{
  Action, serialization_error, panic, gets, or_raise, modify, ◌>>=◌, ◌>>◌,
}

pub record ChainDisk : Type 0 where
  pub schema_version : ℕ
  pub chain : List Block
  pub accounts : HashMap Text Account
  pub emission_consumer : ℕ
  pub emission_industrial : ℕ
  pub block_reward_consumer : TokenAmount
  pub block_reward_industrial : TokenAmount
  pub block_height : ℕ

-- The emission record of the old layout.
pub record Emission : Type 0 where
  pub em_c : ℕ
  pub em_i : ℕ
  pub br_c : ℕ
  pub br_i : ℕ
  pub bh : ℕ

-- `bincode::serialize` and `bincode::deserialize` at the types that are stored; `none` is an error.
pub record Codec : Type 0 where
  pub serialize_disk : ChainDisk → Option Bytes
  pub deserialize_disk : Bytes → Option ChainDisk
  pub serialize_chain : List Block → Option Bytes
  pub deserialize_chain : Bytes → Option (List Block)
  pub deserialize_accounts : Bytes → Option (HashMap Text Account)
  pub deserialize_emission : Bytes → Option Emission

-- "chain", "accounts" and "emission".
abbrev pub db_chain : Text
db_chain = b'c' ∷ b'h' ∷ b'a' ∷ b'i' ∷ b'n' ∷ []

abbrev pub db_accounts : Text
db_accounts = b'a' ∷ b'c' ∷ b'c' ∷ b'o' ∷ b'u' ∷ b'n' ∷ b't' ∷ b's' ∷ []

abbrev pub db_emission : Text
db_emission = b'e' ∷ b'm' ∷ b'i' ∷ b's' ∷ b's' ∷ b'i' ∷ b'o' ∷ b'n' ∷ []

abbrev pub schema_version : ℕ
schema_version = 3

abbrev pub disk_of : Blockchain → ChainDisk
disk_of s = record {
  schema_version = schema_version;
  chain = s.chain;
  accounts = s.accounts;
  emission_consumer = s.emission_consumer;
  emission_industrial = s.emission_industrial;
  block_reward_consumer = s.block_reward_consumer;
  block_reward_industrial = s.block_reward_industrial;
  block_height = s.block_height;
}

-- The three writes of `persist_chain` and of the migration.
unfoldable pub write_chain : Bytes → SimpleDb → SimpleDb
write_chain bytes db =
    (Db.remove (Db.remove (Db.insert db db_chain bytes).0 db_accounts).0 db_emission).0

module _ (codec : Codec) where
  unfoldable pub persist_chain : Action (Unit {0})
  unfolding write_chain
  persist_chain = do
    bytes ← or_raise (codec.serialize_disk (← gets disk_of)) serialization_error
    modify (λ s. record s { db = Db.flush (write_chain bytes s.db) })

  -- `genesis_block`, with the hash of src/consensus.rs as an argument.
  unfoldable pub genesis_block : Text → Action (Unit {0})
  genesis_block genesis_hash = do
    modify (λ s. record s {
      chain =
          s.chain
          ++ record {
            index = 0;
            previous_hash = zero_hash;
            transactions = [];
            difficulty = s.difficulty;
            nonce = 0;
            hash = genesis_hash;
            coinbase_consumer = 0;
            coinbase_industrial = 0;
            fee_checksum = zero_hash;
          }
            ∷ [];
      block_height = 1;
    })
    bytes ← or_raise (codec.serialize_chain (← gets (λ s. s.chain))) panic
    modify (λ s. record s { db = Db.flush (Db.insert s.db db_chain bytes).0 })

-- ===== src/Mining/Persisted.antt =====
-- What `mine_block` leaves in the store, and what is read of it.
use the_block.Prelude.{◌≡◌, some, Bytes}
use the_block.Prelude.Map
use the_block.Db
use the_block.Ledger.{Blockchain}
use the_block.Store.{ChainDisk, Codec, db_chain}

-- The store of a state holds that state, in the layout of version 3.
pub record IsStored (codec : Codec) (s : Blockchain) : Type 0 where
  pub disk : ChainDisk
  pub bytes : Bytes
  pub written : codec.serialize_disk disk ≡ some bytes
  pub found : Db.get s.db db_chain ≡ some bytes
  pub version : disk.schema_version ≡ 3
  pub chain : disk.chain ≡ s.chain
  pub accounts : disk.accounts ≡ s.accounts
  pub emission_consumer : disk.emission_consumer ≡ s.emission_consumer
  pub emission_industrial : disk.emission_industrial ≡ s.emission_industrial
  pub block_reward_consumer : disk.block_reward_consumer ≡ s.block_reward_consumer
  pub block_reward_industrial : disk.block_reward_industrial ≡ s.block_reward_industrial
  pub block_height : disk.block_height ≡ s.block_height

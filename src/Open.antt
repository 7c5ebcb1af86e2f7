-- ===== src/Open.antt =====
-- `Blockchain::open`, `with_difficulty` and `Blockchain::new` of src/lib.rs: reading the store, the
-- migration to schema 3 and the repair of empty fee checksums. `Blockchain.difficulty` is 8.
use the_block.Prelude.{ℕ, [], ◌∷◌, Option, none, some, Text, Bytes, map, ltb, if◌then◌else◌}
use the_block.Prelude.Word.{try_u64}
use the_block.Prelude.Map.{HashMap}
use the_block.Prelude.Result.{Result, ok, ok_or, reject_if, ◌>>=◌, ◌>>◌}
use the_block.Transaction.{Crypto}
use the_block.Hashlayout.{calculate_hash}
use the_block.Db
use the_block.Db.{SimpleDb}
use the_block.Ledger.{Account, Block, Blockchain}
use the_block.Ledger.Action.{PyError, schema_too_new, panic}
use the_block.Rewards.{
  initial_block_reward_consumer, initial_block_reward_industrial, fee_loop, fee_checksum,
}
use the_block.Mining.{skip_one}
use the_block.Store.{ChainDisk, Codec, Emission, db_chain, db_accounts, db_emission, write_chain}

-- `unwrap_or(..)`.
abbrev pub unwrap_or {ℓ} : {A : Type ℓ} → Option A → A → A
unwrap_or none d = d
unwrap_or (some a) d = a

-- The emission that stands in for one that is missing.
abbrev pub first_emission : Emission
first_emission = record {
  em_c = 0;
  em_i = 0;
  br_c = initial_block_reward_consumer;
  br_i = initial_block_reward_industrial;
  bh = 0;
}

-- The state of a chain that was never stored.
abbrev pub empty_disk : ChainDisk
empty_disk = record {
  schema_version = 3;
  chain = [];
  accounts = [];
  emission_consumer = 0;
  emission_industrial = 0;
  block_reward_consumer = initial_block_reward_consumer;
  block_reward_industrial = initial_block_reward_industrial;
  block_height = 0;
}

-- The coinbase fields, from the first transaction if there is one.
abbrev pub set_coinbase : Block → Block
set_coinbase b = elim b.transactions [
  | [] ↦ b
  | cb ∷ txs ↦ record b {
    coinbase_consumer = cb.payload.amount_consumer;
    coinbase_industrial = cb.payload.amount_industrial;
  }
]

module _ (crypto : Crypto) where
  -- The checksum of the fees of a block, where a sum that is no `u64` counts as 0.
  unfoldable pub checksum_of : Block → Text
  checksum_of b =
      let sums = fee_loop 0 0 (skip_one b.transactions) in
      fee_checksum crypto (unwrap_or (try_u64 sums.0) 0) (unwrap_or (try_u64 sums.1) 0)

  -- One step of `for b in &mut migrated_chain`.
  unfoldable pub migrate_block : Block → Block
  migrate_block b =
      let c = set_coinbase b in
      let checksum = checksum_of c in
      record c {
        fee_checksum = checksum;
        hash =
            calculate_hash crypto c.index c.previous_hash c.nonce c.difficulty c.coinbase_consumer
              c.coinbase_industrial checksum c.transactions;
      }

  -- One step of the last loop: only an empty checksum is filled in.
  unfoldable pub repair_block : Block → Block
  repair_block b = elim b.fee_checksum [
    | [] ↦ record b { fee_checksum = checksum_of b }
    | c ∷ cs ↦ b
  ]

  -- The store and the data in it, after the migration.
  abbrev pub Loaded : Type 0
  Loaded = SimpleDb × ChainDisk

  -- The `Blockchain` of what was loaded.
  unfoldable pub blockchain_of : Loaded → Blockchain
  unfolding repair_block
  blockchain_of (db, disk) = record {
    chain = map repair_block disk.chain;
    accounts = disk.accounts;
    difficulty = 8;
    mempool = [];
    db = db;
    emission_consumer = disk.emission_consumer;
    emission_industrial = disk.emission_industrial;
    block_reward_consumer = disk.block_reward_consumer;
    block_reward_industrial = disk.block_reward_industrial;
    block_height = disk.block_height;
  }

  module _ (codec : Codec) where
    -- Writing the migrated data back: `bincode::serialize(..).unwrap()`.
    unfoldable pub store_migrated : SimpleDb → ChainDisk → Result PyError Loaded
    store_migrated db disk = do
      bytes ← ok_or (codec.serialize_disk disk) panic
      ok (write_chain bytes db, disk)

    -- A stored `ChainDisk`: too new, to be migrated, or as it is.
    unfoldable pub load_disk : SimpleDb → ChainDisk → Result PyError Loaded
    load_disk db disk = do
      reject_if (ltb 3 disk.schema_version) schema_too_new
      let migrated = record disk { schema_version = 3; chain = map migrate_block disk.chain }
      if ltb disk.schema_version 3 then store_migrated db migrated else ok (db, disk)

    -- The data of the oldest layout, in three columns.
    unfoldable pub legacy_disk : SimpleDb → Bytes → ChainDisk
    legacy_disk db raw =
        let accounts : Option (HashMap Text Account) = elim (Db.get db db_accounts) [
          | none ↦ none
          | some iv ↦ codec.deserialize_accounts iv
        ] in
        let emission : Option Emission = elim (Db.get db db_emission) [
          | none ↦ none
          | some iv ↦ codec.deserialize_emission iv
        ] in
        let e = unwrap_or emission first_emission in
        record {
          schema_version = 3;
          chain = unwrap_or (codec.deserialize_chain raw) [];
          accounts = unwrap_or accounts [];
          emission_consumer = e.em_c;
          emission_industrial = e.em_i;
          block_reward_consumer = e.br_c;
          block_reward_industrial = e.br_i;
          block_height = e.bh;
        }

    unfoldable pub load : SimpleDb → Result PyError Loaded
    load db = elim (Db.get db db_chain) [
      | none ↦ ok (db, empty_disk)
      | some raw ↦ elim (codec.deserialize_disk raw) [
        | some disk ↦ load_disk db disk
        | none ↦
            let old = legacy_disk db raw in
            store_migrated db (record old { chain = map migrate_block old.chain })
      ]
    ]

    unfoldable pub open_path : Text → Result PyError Blockchain
    open_path path = do loaded ← load (Db.open_db path); ok (blockchain_of loaded)

    unfoldable pub with_difficulty : Text → ℕ → Result PyError Blockchain
    with_difficulty path difficulty = do
      bc ← open_path path
      ok (record bc { difficulty = difficulty })

    -- `Blockchain::new`, over the path "temp": no migration and no refusal.
    unfoldable pub new_chain : Blockchain
    new_chain =
        let db = Db.open_db (b't' ∷ b'e' ∷ b'm' ∷ b'p' ∷ []) in
        elim (Db.get db db_chain) [
          | none ↦ blockchain_of (db, empty_disk)
          | some raw ↦ elim (codec.deserialize_disk raw) [
            | some disk ↦ blockchain_of (db, disk)
            | none ↦ blockchain_of (db, legacy_disk db raw)
          ]
        ]

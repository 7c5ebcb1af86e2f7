-- ===== src/Tests/Samples.antt =====
-- Sample data: a toy signature scheme and hash, a toy store format, accounts, transactions and
-- states.
use the_block.Prelude.{
  ℕ, ◌+◌, ◌%◌, ◌*◌, [], ◌∷◌, ◌++◌, none, some, true, false, Text, Bytes, replicate, text_dec,
}
use the_block.Transaction.{Crypto, RawTxPayload, SignedTransaction}
use the_block.Ledger.{Account, Block, Blockchain}
use the_block.Store.{Codec}

-- A checksum that depends on every byte.
abbrev pub digest : Bytes → ℕ
digest [] = 7
digest (b ∷ bs) = (b + 31 * digest bs) % 251

-- Hashes of 32 bytes that start with 248 zero bits, keys of 32 bytes, signatures of 64. Hex digits
-- are left out.
abbrev pub toy : Crypto
toy = record {
  blake3 = λ bytes. replicate 31 0 ++ digest bytes ∷ [];
  to_hex = λ bytes. bytes;
  hex_decode = λ text. some text;
  serialize = λ p.
      p.from_
      ++ (p.to
          ++ (p.amount_consumer ∷ p.amount_industrial ∷ p.fee ∷ p.fee_selector ∷ p.nonce ∷ p.memo));
  verifying_key = λ sk. replicate 32 (digest sk);
  sign = λ sk msg. replicate 64 (digest msg);
  key_ok = λ pk. true;
  verify =
      λ pk msg sig. elim (text_dec sig (replicate 64 (digest msg))) [ yes _ ↦ true | no _ ↦ false ];
}

-- A store format that keeps nothing but that something is there.
abbrev pub toy_codec : Codec
toy_codec = record {
  serialize_disk = λ disk. some (1 ∷ []);
  deserialize_disk = λ bytes. none;
  serialize_chain = λ chain. some (2 ∷ []);
  deserialize_chain = λ bytes. none;
  deserialize_accounts = λ bytes. none;
  deserialize_emission = λ bytes. none;
}

abbrev pub alice : Text
alice = b'a' ∷ []

abbrev pub bob : Text
bob = b'b' ∷ []

abbrev pub miner : Text
miner = b'm' ∷ []

abbrev pub account : Text → ℕ → ℕ → ℕ → Account
account address consumer industrial nonce = record {
  address = address;
  balance = record { consumer = consumer; industrial = industrial };
  nonce = nonce;
  pending_consumer = 0;
  pending_industrial = 0;
  pending_nonce = 0;
}

-- A payment of 100 and 50 to Bob with a fee of 7 that both tokens pay, so 4 and 3.
abbrev pub payload : ℕ → RawTxPayload
payload nonce = record {
  from_ = alice;
  to = bob;
  amount_consumer = 100;
  amount_industrial = 50;
  fee = 7;
  fee_selector = 2;
  nonce = nonce;
  memo = [];
}

abbrev pub secret : Bytes
secret = replicate 32 9

-- A transaction with the bytes `sign_tx` of src/transaction.rs puts under its payload.
abbrev pub signed : RawTxPayload → SignedTransaction
signed p = record {
  payload = p;
  public_key = toy.verifying_key secret;
  signature = toy.sign secret (
      (b'T' ∷ b'H' ∷ b'E' ∷ b'_' ∷ b'B' ∷ b'L' ∷ b'O' ∷ b'C' ∷ b'K' ∷ b'v' ∷ b'2' ∷ b'|' ∷ 1 ∷ 0 ∷ 0
        ∷ 0 ∷ [])
      ++ toy.serialize p);
}

abbrev pub tx1 : SignedTransaction
tx1 = signed (payload 1)

abbrev pub tx2 : SignedTransaction
tx2 = signed (payload 2)

abbrev pub tx3 : SignedTransaction
tx3 = signed (payload 3)

-- The payload of `tx1`, signed with another key.
abbrev pub other_secret : Bytes
other_secret = replicate 32 5

abbrev pub stolen : SignedTransaction
stolen = record tx1 { public_key = toy.verifying_key other_secret }

-- An amount that makes 2 ^ 64 with the consumer part of the fee.
abbrev pub huge : SignedTransaction
huge = signed (record (payload 1) { amount_consumer = 18_446_744_073_709_551_612 })

-- A node with nothing on its chain, where Alice has 1000 and 500.
abbrev pub start : Blockchain
start = record {
  chain = [];
  accounts = (alice, account alice 1_000 500 0) ∷ [];
  difficulty = 8;
  mempool = [];
  db = record { map = [] };
  emission_consumer = 0;
  emission_industrial = 0;
  block_reward_consumer = 60_000;
  block_reward_industrial = 30_000;
  block_height = 0;
}

-- The same with one transaction waiting.
abbrev pub waiting : Blockchain
waiting = record start {
  accounts =
      (
        alice,
        record (account alice 1_000 500 0) {
          pending_consumer = 104;
          pending_industrial = 53;
          pending_nonce = 1;
        },
      )
      ∷ [];
  mempool = ((alice, 1), tx1) ∷ [];
}

-- The block that is mined from `waiting`, with the rewards 59997 and 29998 and the fees 4 and 3.
abbrev pub first_block : Block
first_block = record {
  index = 0;
  previous_hash = replicate 64 b'0';
  transactions =
      record {
        payload = record {
          from_ = replicate 34 b'0';
          to = miner;
          amount_consumer = 60_001;
          amount_industrial = 30_001;
          fee = 0;
          fee_selector = 0;
          nonce = 0;
          memo = [];
        };
        public_key = [];
        signature = [];
      }
      ∷ tx1
      ∷ [];
  difficulty = 8;
  nonce = 0;
  hash = replicate 31 0 ++ 152 ∷ [];
  coinbase_consumer = 60_001;
  coinbase_industrial = 30_001;
  fee_checksum = replicate 31 0 ++ 209 ∷ [];
}

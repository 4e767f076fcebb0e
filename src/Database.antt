-- ===== src/Database.antt =====
-- `NovaDB` of protocol/src/storage/db.rs. A key of the block tree is the height that its eight bytes
-- stand for. Not under src/: the bincode codec, in
-- `Codec`, whose bytes only it reads, and sled, whose next answers are in
-- `faults`: a call of sled fails where it holds true, and where it has run out all succeed.
pub mod Blocks
pub mod Tests
use nova_protocol.Common.{
  ℕ, ◌≡◌, String, Bool, true, false, Option, none, some, List, [], ◌∷◌, string_key, nat_key,
  bits_key,
}
use nova_protocol.Common.Dict
use nova_protocol.Common.Dict.{Dict, insert, lookup}
use nova_protocol.Common.Exec.{Exec, ok, err, ◌>>=◌, ◌>>◌, pure, or_raise}
use nova_protocol.Transaction.{Transaction}
use nova_protocol.Blocks.{Bytes, Block}
use nova_protocol.State.{AccountState}

pub data DbError : Type 0 where
  sled_error serialization : DbError
  not_found : String → DbError

pub record Codec : Type 1 where
  pub Encoded : Type 0
  pub from_block : Block → Option Encoded
  pub to_block : Encoded → Option Block
  pub from_transaction : Transaction → Option Encoded
  pub to_transaction : Encoded → Option Transaction
  pub from_account : AccountState → Option Encoded
  pub to_account : Encoded → Option AccountState

-- What is written can be read.
pub record IsLawful (c : Codec) : Type 0 where
  pub block_back : (b : Block) (x : c.Encoded) → c.from_block b ≡ some x → c.to_block x ≡ some b
  pub transaction_back :
      (tx : Transaction) (x : c.Encoded)
      → c.from_transaction tx ≡ some x
      → c.to_transaction x ≡ some tx
  pub account_back :
      (s : AccountState) (x : c.Encoded) → c.from_account s ≡ some x → c.to_account x ≡ some s

pub record NovaDb (B : Type 0) : Type 0 where
  pub blocks : Dict ℕ B
  pub block_hashes : Dict Bytes ℕ
  pub transactions : Dict String B
  pub accounts : Dict String B
  pub latest_height : Option ℕ
  pub faults : List Bool

-- `NovaDB::open_temporary`
abbrev pub open_temporary : {B : Type 0} → List Bool → NovaDb B
open_temporary faults = record {
  blocks = [];
  block_hashes = [];
  transactions = [];
  accounts = [];
  latest_height = none;
  faults = faults;
}

-- A call of sled that reads, and one that writes.
abbrev pub sled_read : {A B : Type 0} → (NovaDb B → A) → Exec (NovaDb B) A DbError
sled_read f db = elim db.faults [
  | [] ↦ (ok (f db), db)
  | false ∷ rest ↦ (ok (f db), record db { faults = rest })
  | true ∷ rest ↦ (err sled_error, record db { faults = rest })
]

abbrev pub sled_write : {B : Type 0} → (NovaDb B → NovaDb B) → Exec (NovaDb B) (Unit {0}) DbError
sled_write f db = elim db.faults [
  | [] ↦ (ok tt, f db)
  | false ∷ rest ↦ (ok tt, f (record db { faults = rest }))
  | true ∷ rest ↦ (err sled_error, record db { faults = rest })
]

-- `match self.tree.get(key)? { Some(bytes) => Ok(Some(deserialize(&bytes)?)), None => Ok(None) }`
abbrev pub decode : {A B : Type 0} → (B → Option A) → Option B → Exec (NovaDb B) (Option A) DbError
decode f none = pure none
decode f (some x) = elim (f x) [ none ↦ λ db. (err serialization, db) | some a ↦ pure (some a) ]

module _ (c : Codec) where
  -- The batch of the transactions of a block.
  unfoldable pub tx_batch : List Transaction → Option (Dict String c.Encoded)
  tx_batch [] = some []
  tx_batch (tx ∷ txs) = elim (c.from_transaction tx) [
    | none ↦ none
    | some x ↦ elim (tx_batch txs) [ none ↦ none | some rest ↦ some ((tx.id, x) ∷ rest) ]
  ]

  -- `Tree::apply_batch`
  unfoldable pub apply_batch : Dict String c.Encoded → Dict String c.Encoded → Dict String c.Encoded
  apply_batch [] d = d
  apply_batch ((k, x) ∷ rest) d = apply_batch rest (insert k x d)

  unfoldable pub put_block : Block → Exec (NovaDb c.Encoded) (Unit {0}) DbError
  put_block block = do
    block_bytes ← or_raise (c.from_block block) serialization
    sled_write (λ db. record db { blocks = insert block.header.height block_bytes db.blocks })
    sled_write (λ db. record db {
      block_hashes = insert block.header.hash block.header.height db.block_hashes;
    })
    batch ← or_raise (tx_batch block.transactions) serialization
    sled_write (λ db. record db { transactions = apply_batch batch db.transactions })
    sled_write (λ db. record db { latest_height = some block.header.height })
    sled_write (λ db. db)

  unfoldable pub get_block : ℕ → Exec (NovaDb c.Encoded) (Option Block) DbError
  get_block height = do bytes ← sled_read (λ db. lookup height db.blocks); decode c.to_block bytes

  unfoldable pub get_block_by_hash : Bytes → Exec (NovaDb c.Encoded) (Option Block) DbError
  get_block_by_hash hash = do
    height ← sled_read (λ db. lookup hash db.block_hashes)
    elim height [ none ↦ pure none | some h ↦ get_block h ]

  unfoldable pub put_transaction : Transaction → Exec (NovaDb c.Encoded) (Unit {0}) DbError
  put_transaction tx = do
    tx_bytes ← or_raise (c.from_transaction tx) serialization
    sled_write (λ db. record db { transactions = insert tx.id tx_bytes db.transactions })

  unfoldable pub get_transaction : String → Exec (NovaDb c.Encoded) (Option Transaction) DbError
  get_transaction id = do
    bytes ← sled_read (λ db. lookup id db.transactions)
    decode c.to_transaction bytes

  unfoldable pub put_account : String → AccountState → Exec (NovaDb c.Encoded) (Unit {0}) DbError
  put_account address state = do
    bytes ← or_raise (c.from_account state) serialization
    sled_write (λ db. record db { accounts = insert address bytes db.accounts })

  unfoldable pub get_account : String → Exec (NovaDb c.Encoded) (Option AccountState) DbError
  get_account address = do
    bytes ← sled_read (λ db. lookup address db.accounts)
    decode c.to_account bytes

unfoldable pub get_latest_block_height : {B : Type 0} → Exec (NovaDb B) (Option ℕ) DbError
get_latest_block_height = sled_read (λ db. db.latest_height)

unfoldable pub set_latest_block_height : {B : Type 0} → ℕ → Exec (NovaDb B) (Unit {0}) DbError
set_latest_block_height height = sled_write (λ db. record db { latest_height = some height })

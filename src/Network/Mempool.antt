-- ===== src/Network/Mempool.antt =====
-- `Mempool` of protocol/src/network/mempool.rs. The two concurrent maps are association lists and
-- the B-tree is a list in the order of its keys; the operations run one after the other. `now` is
-- the value of `current_timestamp_secs`.
pub mod Index
pub mod Pool
pub mod Counts
pub mod Operations
pub mod Eviction
pub mod Admission
pub mod Selection
pub mod Removal
pub mod Tests
use nova_protocol.Common.{
  ℕ, ◌+◌, ◌-◌, String, Bool, true, false, not, ◌&&◌, Option, none, some, List, [], ◌∷◌, zero, suc,
  map, ltb, leb, ◌==◌, ◌=?◌, string_key, length, keep, wrap64, u64_max, saturating_sub, precedes,
  if◌then◌else◌,
}
use nova_protocol.Common.Dict
use nova_protocol.Common.Dict.{Dict, insert, erase, lookup, lookup_or_zero}
use nova_protocol.Common.Exec.{Exec, ok, err, ◌>>=◌, ◌>>◌, get, put, raise_if}
use nova_protocol.Transaction.{Transaction, Primitives, fee_per_byte}

pub record MempoolConfig : Type 0 where
  pub max_size : ℕ
  pub max_per_sender : ℕ
  pub expiry_seconds : ℕ
  pub min_fee : ℕ

-- `MempoolConfig::default()`
abbrev pub default : MempoolConfig
default = record { max_size = 10000; max_per_sender = 100; expiry_seconds = 3600; min_fee = 0 }

pub record FeeKey : Type 0 where
  pub inverted_fee : ℕ
  pub added_at : ℕ
  pub tx_id : String

-- `cmp` of two keys gives `Less`.
unfoldable pub before : FeeKey → FeeKey → Bool
before a b =
    if ltb a.inverted_fee b.inverted_fee
    then true
    else if not (a.inverted_fee == b.inverted_fee)
    then false
    else if ltb a.added_at b.added_at
    then true
    else if not (a.added_at == b.added_at)
    then false
    else precedes a.tx_id b.tx_id

-- `cmp` of two keys gives `Equal`.
unfoldable pub same_key : FeeKey → FeeKey → Bool
same_key a b =
    (a.inverted_fee == b.inverted_fee) && ((a.added_at == b.added_at) && (a.tx_id =? b.tx_id))

abbrev pub FeeIndex : Type 0
FeeIndex = List (FeeKey × String)

-- `BTreeMap::insert`
unfoldable pub place : FeeKey → String → FeeIndex → FeeIndex
place k id [] = (k, id) ∷ []
place k id ((j, x) ∷ rest) =
    let later = place k id rest in
    if same_key k j
    then (k, id) ∷ rest
    else if before k j
    then (k, id) ∷ (j, x) ∷ rest
    else (j, x) ∷ later

-- `BTreeMap::remove`
unfoldable pub take_out : FeeKey → FeeIndex → FeeIndex
take_out k [] = []
take_out k ((j, x) ∷ rest) =
    let later = take_out k rest in if same_key k j then rest else (j, x) ∷ later

-- `keys().next_back()`, with its value.
unfoldable pub last_entry : FeeIndex → Option (FeeKey × String)
last_entry [] = none
last_entry (e ∷ []) = some e
last_entry (e ∷ f ∷ rest) = last_entry (f ∷ rest)

pub record MempoolEntry : Type 0 where
  pub transaction : Transaction
  pub added_at : ℕ
  pub fee_per_byte : ℕ

pub data MempoolError : Type 0 where
  duplicate_transaction : MempoolError
  fee_too_low : ℕ → ℕ → MempoolError
  sender_limit_exceeded : String → ℕ → MempoolError
  mempool_full : ℕ → MempoolError

pub record Mempool : Type 0 where
  pub transactions : Dict String MempoolEntry
  pub fee_index : FeeIndex
  pub sender_counts : Dict String ℕ
  pub config : MempoolConfig

-- `Mempool::new`
abbrev pub new : MempoolConfig → Mempool
new config = record { transactions = []; fee_index = []; sender_counts = []; config = config }

-- The key that `add` and `remove_from_indices` make for an entry.
abbrev pub key_of : MempoolEntry → FeeKey
key_of e = record {
  inverted_fee = u64_max - e.fee_per_byte;
  added_at = e.added_at;
  tx_id = e.transaction.id;
}

unfoldable pub decrement_sender_count : String → Dict String ℕ → Dict String ℕ
decrement_sender_count sender counts = elim (lookup sender counts) [
  | none ↦ counts
  | some count ↦ if leb count 1 then erase sender counts else insert sender (count - 1) counts
]

unfoldable pub remove_from_indices : MempoolEntry → Mempool → Mempool
remove_from_indices e m = record m {
  fee_index = take_out (key_of e) m.fee_index;
  sender_counts = decrement_sender_count e.transaction.sender m.sender_counts;
}

unfoldable pub remove : String → Mempool → Option Transaction × Mempool
remove tx_id m = elim (lookup tx_id m.transactions) [
  | none ↦ (none, m)
  | some e ↦ (
    some e.transaction,
    remove_from_indices e (record m { transactions = erase tx_id m.transactions }),
  )
]

unfoldable pub remove_batch : List String → Mempool → Mempool
remove_batch [] m = m
remove_batch (id ∷ ids) m = remove_batch ids (remove id m).1

-- The end of `try_evict_lowest`, for the id that the index gave.
unfoldable pub evict : FeeKey → String → Mempool → Mempool
evict k id m =
    let m' : Mempool = record m { fee_index = take_out k m.fee_index } in
    elim (lookup id m.transactions) [
      | none ↦ m'
      | some e ↦ record m' {
        transactions = erase id m.transactions;
        sender_counts = decrement_sender_count e.transaction.sender m.sender_counts;
      }
    ]

unfoldable pub try_evict_lowest : ℕ → Mempool → Bool × Mempool
try_evict_lowest incoming_fpb m = elim (last_entry m.fee_index) [
  | none ↦ (false, m)
  | some (k, id) ↦
      if leb incoming_fpb (u64_max - k.inverted_fee) then (false, m) else (true, evict k id m)
]

-- The end of `add`: the entry goes into all indices.
unfoldable pub insert_entry : MempoolEntry → Mempool → Mempool
insert_entry e m = record m {
  transactions = insert e.transaction.id e m.transactions;
  fee_index = place (key_of e) e.transaction.id m.fee_index;
  sender_counts =
      insert e.transaction.sender (wrap64 (lookup_or_zero e.transaction.sender m.sender_counts + 1))
        m.sender_counts;
}

module _ (p : Primitives) where
  abbrev pub entry : ℕ → Transaction → MempoolEntry
  entry now tx = record { transaction = tx; added_at = now; fee_per_byte = fee_per_byte p tx }

  -- The capacity check of `add`.
  unfoldable pub make_room : Transaction → Exec Mempool (Unit {0}) MempoolError
  make_room tx m =
      let (evicted, m') = try_evict_lowest (fee_per_byte p tx) m in
      if ltb (length m.transactions) m.config.max_size
      then (ok tt, m)
      else if evicted
      then (ok tt, m')
      else (err (mempool_full m.config.max_size), m')

  unfoldable pub add : ℕ → Transaction → Exec Mempool (Unit {0}) MempoolError
  add now tx = do
    m ← get
    raise_if (Dict.contains tx.id m.transactions) duplicate_transaction
    raise_if (ltb tx.fee m.config.min_fee) (fee_too_low m.config.min_fee tx.fee)
    raise_if (leb m.config.max_per_sender (lookup_or_zero tx.sender m.sender_counts))
        (sender_limit_exceeded tx.sender m.config.max_per_sender)
    make_room tx
    m' ← get
    put (insert_entry (entry now tx) m')

unfoldable pub get_transaction : String → Mempool → Option Transaction
get_transaction tx_id m = elim (lookup tx_id m.transactions) [
  | none ↦ none
  | some e ↦ some e.transaction
]

-- The loop of `select_transactions` over the index, with the places that are left.
unfoldable pub select : ℕ → FeeIndex → Dict String MempoolEntry → List Transaction
select left [] d = []
select zero (e ∷ rest) d = []
select (suc left) ((k, id) ∷ rest) d = elim (lookup id d) [
  | none ↦ select (suc left) rest d
  | some e ↦ e.transaction ∷ select left rest d
]

unfoldable pub select_transactions : ℕ → Mempool → List Transaction
select_transactions max_count m = select max_count m.fee_index m.transactions

pub size : Mempool → ℕ
size m = length m.transactions

abbrev pub clear : Mempool → Mempool
clear m = record m { transactions = []; fee_index = []; sender_counts = [] }

abbrev pub expired_ids : ℕ → Dict String MempoolEntry → List String
expired_ids cutoff d = map (λ x. x.0) (keep (λ x. ltb x.1.added_at cutoff) d)

unfoldable pub expire_old : ℕ → Mempool → ℕ × Mempool
expire_old now m =
    let ids = expired_ids (saturating_sub now m.config.expiry_seconds) m.transactions in
    (length ids, remove_batch ids m)

pub pending_for_sender : String → Mempool → List Transaction
pending_for_sender sender m =
    map (λ x. x.1.transaction) (keep (λ x. x.1.transaction.sender =? sender) m.transactions)

-- ===== src/Transaction/Builder.antt =====
-- `TransactionBuilder` of protocol/src/transaction/builder.rs.
use nova_protocol.Common.{ℕ, String, Option, none, some}
use nova_protocol.Transaction.{Transaction, TransactionType, Amount, nova, Primitives, compute_id}
use nova_protocol.Transaction.Bytes.{Octets}

pub record TransactionBuilder : Type 0 where
  pub version : ℕ
  pub tx_type : TransactionType
  pub sender : String
  pub receiver : String
  pub amount : Amount
  pub fee : ℕ
  pub nonce : ℕ
  pub timestamp : Option ℕ
  pub payload : Option Octets

-- The setters are record updates.
abbrev pub new : TransactionType → TransactionBuilder
new tx_type = record {
  version = 1;
  tx_type = tx_type;
  sender = "";
  receiver = "";
  amount = record { value = 0; currency = nova };
  fee = 0;
  nonce = 0;
  timestamp = none;
  payload = none;
}

-- `now_ms` is the value of `Utc::now()`.
unfoldable pub build : Primitives → ℕ → TransactionBuilder → Transaction
build p now_ms b =
    let tx : Transaction = record {
      id = "";
      version = b.version;
      tx_type = b.tx_type;
      sender = b.sender;
      receiver = b.receiver;
      amount = b.amount;
      fee = b.fee;
      nonce = b.nonce;
      timestamp = elim b.timestamp [ none ↦ now_ms | some t ↦ t ];
      payload = b.payload;
      sender_public_key = none;
      signature = none;
      zkp_proof = none;
      proof = none;
      amount_commitment = none;
    } in
    record tx { id = compute_id p tx }

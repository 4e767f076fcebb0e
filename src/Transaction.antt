-- ===== src/Transaction.antt =====
-- protocol/src/transaction: transactions (types.rs, builder.rs), their signatures (signing.rs) and
-- the checks that need no state (verification.rs). A byte string is a list of numbers.
--
-- Not under src/: SHA-256, the hex and JSON codecs, Ed25519 and the deserialisation of a Groth16
-- proof, all in `Primitives`; `utf8` stands for `str::as_bytes`.
pub mod Bytes
pub mod Builder
pub mod Verification
pub mod Encoding
pub mod Checks
pub mod Forgery
pub mod Tests
use nova_protocol.Common.{
  ℕ, zero, suc, ◌/◌, ◌%◌, ◌≡◌, String, Bool, true, false, Option, none, some, List, [], ◌∷◌, ◌++◌,
  length, ◌==◌, if◌then◌else◌,
}
use nova_protocol.Identity
use nova_protocol.Transaction.Bytes.{Octets, to_le_bytes}

pub data TransactionType : Type 0 where
  transfer credit_request credit_settlement token_mint token_burn confidential_transfer :
      TransactionType

pub data Currency : Type 0 where
  brl usd eur btc eth usdc nova : Currency
  custom : String → Currency

pub record Amount : Type 0 where
  pub value : ℕ
  pub currency : Currency

pub record Transaction : Type 0 where
  pub id : String
  pub version : ℕ
  pub tx_type : TransactionType
  pub sender : String
  pub receiver : String
  pub amount : Amount
  pub fee : ℕ
  pub nonce : ℕ
  pub timestamp : ℕ
  pub payload : Option Octets
  pub sender_public_key : Option String
  pub signature : Option String
  pub zkp_proof : Option Octets
  pub proof : Option Octets
  pub amount_commitment : Option Octets

-- `Display for TransactionType`
abbrev pub type_name : TransactionType → String
type_name transfer = "Transfer"
type_name credit_request = "CreditRequest"
type_name credit_settlement = "CreditSettlement"
type_name token_mint = "TokenMint"
type_name token_burn = "TokenBurn"
type_name confidential_transfer = "ConfidentialTransfer"

-- `Display for Currency`
abbrev pub ticker : Currency → String
ticker brl = "BRL"
ticker usd = "USD"
ticker eur = "EUR"
ticker btc = "BTC"
ticker eth = "ETH"
ticker usdc = "USDC"
ticker nova = "NOVA"
ticker (custom t) = t

abbrev pub decimals : Currency → ℕ
decimals brl = 2
decimals usd = 2
decimals eur = 2
decimals btc = 8
decimals nova = 8
decimals eth = 9
decimals usdc = 6
decimals (custom _) = 8

pub record Primitives : Type 0 where
  pub utf8 : String → Octets
  pub double_sha256 : Octets → Octets
  pub hex_encode : Octets → String
  pub hex_decode : String → Option Octets
  pub json_size : Transaction → ℕ
  pub key_from_hex : String → Option Octets
  pub key_to_hex : Octets → String
  pub identity : Identity.Primitives
  pub proof_fault : Octets → Option String

module _ (p : Primitives) where
  open p use {utf8, double_sha256, hex_encode, json_size}

  abbrev pub text : String → Octets → Octets
  text s rest = utf8 s ++ 0 ∷ rest

  -- A byte string behind its length in four bytes.
  abbrev pub block : Octets → Octets → Octets
  block xs rest = to_le_bytes 4 (length xs) ++ (xs ++ rest)

  abbrev pub payload_bytes : Option Octets → Octets
  payload_bytes none = 0 ∷ []
  payload_bytes (some payload) = 1 ∷ block payload []

  unfoldable pub signable_bytes : Transaction → Octets
  signable_bytes tx =
      to_le_bytes 2 tx.version
      ++ text (type_name tx.tx_type) (
          text tx.sender (
            text tx.receiver (
              to_le_bytes 8 tx.amount.value
              ++ text (ticker tx.amount.currency) (
                  to_le_bytes 8 tx.fee
                  ++ (to_le_bytes 8 tx.nonce
                      ++ (to_le_bytes 8 tx.timestamp ++ payload_bytes tx.payload))))))

  abbrev pub tagged : ℕ → Option Octets → Octets
  tagged tag none = []
  tagged tag (some xs) = tag ∷ block xs []

  unfoldable pub compute_id : Transaction → String
  compute_id tx =
      hex_encode
        (double_sha256 (signable_bytes tx ++ (tagged 2 tx.proof ++ tagged 3 tx.amount_commitment)))

  unfoldable pub fee_per_byte : Transaction → ℕ
  fee_per_byte tx = if json_size tx == 0 then 0 else tx.fee / json_size tx

  unfoldable pub with_proof : Octets → Transaction → Transaction
  with_proof proof tx =
      let tx' : Transaction = record tx { proof = some proof } in record tx' { id = compute_id tx' }

  unfoldable pub with_commitment : Octets → Transaction → Transaction
  with_commitment commitment tx =
      let tx' : Transaction = record tx { amount_commitment = some commitment } in
      record tx' { id = compute_id tx' }

-- ===== src/Blocks.antt =====
-- protocol/src/storage/block.rs: blocks, their hash and the Merkle root of their transactions. A
-- byte string is a list of bits, the most significant of each byte first.
--
-- Not under src/: BLAKE3, JSON (`serde_json::to_vec`) and `str::as_bytes`, in `Primitives`.
pub mod Tree
pub mod Levels
pub mod Roots
pub mod Headers
pub mod Tests
use nova_protocol.Common.{
  ℕ, zero, suc, ◌/◌, ◌%◌, ◌+◌, ◌≡◌, String, Bool, true, false, not, ◌&&◌, List, [], ◌∷◌, ◌++◌, map,
  ◌==◌, ◌=?◌, bits_key, length, replicate, wrap64, if◌then◌else◌,
}
use nova_protocol.Common.Exec.{Result, ok, err, panic}
use nova_protocol.Transaction.{Transaction}

abbrev pub Bytes : Type 0
Bytes = List Bool

pub record BlockHeader : Type 0 where
  pub height : ℕ
  pub hash : Bytes
  pub parent_hash : Bytes
  pub timestamp : ℕ
  pub validator : String
  pub state_root : Bytes
  pub tx_root : Bytes
  pub signature : Bytes

pub record Block : Type 0 where
  pub header : BlockHeader
  pub transactions : List Transaction

pub record Primitives : Type 0 where
  pub blake3 : Bytes → Bytes
  pub json : Transaction → Bytes
  pub utf8 : String → Bytes

-- A hash has 32 bytes.
pub record IsLawful (p : Primitives) : Type 0 where
  pub length-blake3 : (m : Bytes) → length (p.blake3 m) ≡ 256

-- The errors of `verify`, which are texts in the source.
pub data BlockFault : Type 0 where
  hash_mismatch tx_root_mismatch genesis_parent : BlockFault

-- The lowest bits of a number, the most significant first, and `u64::to_le_bytes`.
abbrev pub low_bits : ℕ → ℕ → Bytes
low_bits zero n = []
low_bits (suc k) n = low_bits k (n / 2) ++ (n % 2 == 1) ∷ []

abbrev pub to_le_bytes : ℕ → ℕ → Bytes
to_le_bytes zero n = []
to_le_bytes (suc k) n = low_bits 8 n ++ to_le_bytes k (n / 256)

-- `[0u8; 32]`
unfoldable pub zero_hash : Bytes
zero_hash = replicate 256 false

module _ (p : Primitives) where
  open p use {blake3, json, utf8}

  abbrev pub header_preimage : ℕ → Bytes → ℕ → String → Bytes → Bytes → Bytes
  header_preimage height parent_hash timestamp validator state_root tx_root =
      to_le_bytes 8 height
      ++ (parent_hash ++ (to_le_bytes 8 timestamp ++ (utf8 validator ++ (state_root ++ tx_root))))

  unfoldable pub compute_header_hash : ℕ → Bytes → ℕ → String → Bytes → Bytes → Bytes
  compute_header_hash height parent_hash timestamp validator state_root tx_root =
      blake3 (header_preimage height parent_hash timestamp validator state_root tx_root)

  -- One turn of the loop over the levels: the chunks of two, where the last may have one.
  unfoldable pub next_level : List Bytes → List Bytes
  next_level [] = []
  next_level (a ∷ []) = blake3 (a ++ a) ∷ []
  next_level (a ∷ b ∷ rest) = blake3 (a ++ b) ∷ next_level rest

  -- `while hashes.len() > 1`, then `hashes[0]`, on fuel, for the first hash and the others. With no
  -- fuel left it stops where it is.
  unfoldable pub climb : ℕ → Bytes → List Bytes → Bytes
  climb fuel a [] = a
  climb zero a (b ∷ rest) = a
  climb (suc fuel) a (b ∷ rest) = climb fuel (blake3 (a ++ b)) (next_level rest)

  abbrev pub leaf : Transaction → Bytes
  leaf tx = blake3 (json tx)

  unfoldable pub compute_merkle_root : List Transaction → Bytes
  compute_merkle_root [] = zero_hash
  compute_merkle_root (tx ∷ txs) = climb (length txs) (leaf tx) (map leaf txs)

  -- The bits of `GENESIS_COINBASE_MESSAGE` are those of a text without characters beyond ASCII.
  unfoldable pub genesis : Block
  genesis =
      let validator : String =
        "nova:0000000000000000000000000000000000000000000000000000000000000000" in
      let state_root = blake3 (utf8 "ALAS/2026: The future of payments belongs to everyone") in
      record {
        header = record {
          height = 0;
          hash = compute_header_hash 0 zero_hash 0 validator state_root zero_hash;
          parent_hash = zero_hash;
          timestamp = 0;
          validator = validator;
          state_root = state_root;
          tx_root = zero_hash;
          signature = [];
        };
        transactions = [];
      }

  -- `now_ms` is the time of the system clock.
  unfoldable pub new : ℕ → Block → List Transaction → String → Bytes → Block
  new now_ms parent transactions validator state_root =
      let height = wrap64 (parent.header.height + 1) in
      let parent_hash = parent.header.hash in
      let tx_root = compute_merkle_root transactions in
      record {
        header = record {
          height = height;
          hash = compute_header_hash height parent_hash now_ms validator state_root tx_root;
          parent_hash = parent_hash;
          timestamp = now_ms;
          validator = validator;
          state_root = state_root;
          tx_root = tx_root;
          signature = [];
        };
        transactions = transactions;
      }

  unfoldable pub compute_hash : Block → Bytes
  compute_hash b =
      let h = b.header in
      compute_header_hash h.height h.parent_hash h.timestamp h.validator h.state_root h.tx_root

  unfoldable pub verify : Block → Result (Unit {0}) BlockFault
  verify b =
      if not (b.header.hash =? compute_hash b)
      then err hash_mismatch
      else if not (b.header.tx_root =? compute_merkle_root b.transactions)
      then err tx_root_mismatch
      else if (b.header.height == 0) && not (b.header.parent_hash =? zero_hash)
      then err genesis_parent
      else ok tt
